-- ===== src/Utf8/Spec.antt =====
-- UTF-8 as the Unicode standard defines it, independently of the check: the encoding of a scalar
-- value, and the texts of printable scalar values.
use hibiki_dsp.Base.{ℕ, ◌+◌, ◌/◌, ◌%◌, ◌≤◌, ◌<◌, ◌⊎◌, List, [], ◌∷◌, ◌++◌, ltb, if◌then◌else◌}

-- The scalar values: the code points but for the surrogates.
abbrev pub IsScalar : ℕ → Type 0
IsScalar c = (c < 0xD800) ⊎ ((0xE000 ≤ c) × (c < 0x110000))

unfoldable pub encode : ℕ → List ℕ
encode c =
    if ltb c 0x80
    then c ∷ []
    else if ltb c 0x800
    then (192 + c / 64) ∷ (128 + c % 64) ∷ []
    else if ltb c 0x10000
    then (224 + c / 4096) ∷ (128 + c / 64 % 64) ∷ (128 + c % 64) ∷ []
    else (240 + c / 262144) ∷ (128 + c / 4096 % 64) ∷ (128 + c / 64 % 64) ∷ (128 + c % 64) ∷ []

-- No control character: neither one of the first 32, nor 0x7F to 0x9F.
abbrev pub IsPrintable : ℕ → Type 0
IsPrintable c = IsScalar c × (0x20 ≤ c) × ((c < 0x7F) ⊎ (0x9F < c))

unfoldable pub encode_all : List ℕ → List ℕ
encode_all [] = []
encode_all (c ∷ cs) = encode c ++ encode_all cs
