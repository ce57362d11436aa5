-- ===== src/Utf8/Nul.antt =====
-- Printable text holds no NUL byte.
use hibiki_dsp.Base.{
  ℕ, zero, suc, ◌≡◌, refl, Bool, true, false, ◌||◌, List, [], ◌∷◌, some, ◌==◌, length, Bool-cases,
  Option-cases, inl, inr, arith,
}
use hibiki_dsp.Utf8.{decode_step, printable_from, is_printable_utf8, is_control}

-- `text.find('\\0') != npos`
unfoldable pub contains_nul : List ℕ → Bool
contains_nul [] = false
contains_nul (c ∷ cs) = (c == 0) || contains_nul cs

decode_step-contains_nul :
    (first : ℕ) (rest : List ℕ) (codepoint : ℕ) (next : List ℕ)
    → decode_step first rest ≡ some (codepoint, next)
    → contains_nul next ≡ false
    → contains_nul (first ∷ rest) ≡ false
unfolding decode_step contains_nul
decode_step-contains_nul first [] codepoint next e h = ground arith
decode_step-contains_nul first (a ∷ []) codepoint next e h = ground arith
decode_step-contains_nul first (a ∷ b ∷ []) codepoint next e h = ground arith
decode_step-contains_nul first (a ∷ b ∷ c ∷ rest) codepoint next e h = ground arith

printable_from-contains_nul :
    (fuel : ℕ) (text : List ℕ) → printable_from fuel text ≡ true → contains_nul text ≡ false
unfolding printable_from contains_nul
printable_from-contains_nul fuel [] h = refl
printable_from-contains_nul zero (first ∷ rest) h = cc
printable_from-contains_nul (suc fuel) (first ∷ rest) h =
    elim (Option-cases (decode_step first rest)) [
      | inl e ↦ ground arith
      | inr ((codepoint, next), e) ↦ elim (Bool-cases (is_control codepoint)) [
        | inl control ↦ ground arith
        | inr fine ↦
            decode_step-contains_nul first rest codepoint next e
              (printable_from-contains_nul fuel next (ground arith))
      ]
    ]

pub printable-contains_nul :
    (text : List ℕ) → is_printable_utf8 text ≡ true → contains_nul text ≡ false
unfolding is_printable_utf8
printable-contains_nul text h = printable_from-contains_nul (length text) text h
