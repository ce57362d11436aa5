-- ===== src/Utf8/Correct.antt =====
-- The check accepts exactly the encodings of printable texts.
use hibiki_dsp.Base.{
  ℕ, zero, suc, ◌+◌, ◌*◌, ◌%◌, ◌≤◌, ◌≡◌, refl, ap, ◌∙◌, ◌↔◌, inl, inr, true, false, List, [], ◌∷◌,
  ◌++◌, none, some, arith, ltb, leb, if◌then◌else◌, length, All, Bool-cases, tests, leb→le,
}
use mathlib.Core.Path.{subst}
use hibiki_dsp.Utf8.{
  Decoded, decode_step, printable_from, is_printable_utf8, is_control, in_range, is_continuation,
  second_valid_of_three, second_valid_of_four, two_bytes, three_bytes, four_bytes,
}
use hibiki_dsp.Utf8.Spec.{IsScalar, encode, IsPrintable, encode_all}

encode-two :
    (a b : ℕ)
    → in_range 0xC2 0xDF a ≡ true
    → is_continuation b ≡ true
    → let c = a % 32 * 64 + b % 64 in IsScalar c × (encode c ≡ a ∷ b ∷ [])
unfolding encode
encode-two a b ha hb = ground arith

encode-three :
    (a b d : ℕ)
    → in_range 0xE0 0xEF a ≡ true
    → second_valid_of_three a b ≡ true
    → is_continuation d ≡ true
    → let c = a % 16 * 4096 + b % 64 * 64 + d % 64 in IsScalar c × (encode c ≡ a ∷ b ∷ d ∷ [])
unfolding encode
encode-three a b d ha hb hd = ground arith

encode-four :
    (a b d e : ℕ)
    → in_range 0xF0 0xF4 a ≡ true
    → second_valid_of_four a b ≡ true
    → is_continuation d ≡ true
    → is_continuation e ≡ true
    → let c = a % 8 * 262144 + b % 64 * 4096 + d % 64 * 64 + e % 64 in
      IsScalar c × (encode c ≡ a ∷ b ∷ d ∷ e ∷ [])
unfolding encode
encode-four a b d e ha hb hd he = ground arith

-- What a round reads, if anything: a scalar value, and the bytes taken are its encoding.
abbrev Reads : ℕ → List ℕ → Decoded → Type 0
Reads first rest none = Unit
Reads first rest (some (c, next)) = IsScalar c × (encode c ++ next ≡ first ∷ rest)

two_bytes-Reads :
    (a : ℕ) (rest : List ℕ) → in_range 0xC2 0xDF a ≡ true → Reads a rest (two_bytes a rest)
two_bytes-Reads a [] h = tt
two_bytes-Reads a (b ∷ rest) h = elim (Bool-cases (is_continuation b)) [
  | inr bad ↦ rw bad tt
  | inl good ↦ rw good (let (s, e) = encode-two a b h good in (s, ap (λ l. l ++ rest) e))
]

three_bytes-Reads :
    (a : ℕ) (rest : List ℕ) → in_range 0xE0 0xEF a ≡ true → Reads a rest (three_bytes a rest)
three_bytes-Reads a [] h = tt
three_bytes-Reads a (b ∷ []) h = tt
three_bytes-Reads a (b ∷ d ∷ rest) h = elim (Bool-cases (second_valid_of_three a b)) [
  | inr bad ↦ rw bad tt
  | inl good ↦ elim (Bool-cases (is_continuation d)) [
    | inr bad ↦ rw (good, bad) tt
    | inl cont ↦
        rw (good, cont) (let (s, e) = encode-three a b d h good cont in (s, ap (λ l. l ++ rest) e))
  ]
]

four_bytes-Reads :
    (a : ℕ) (rest : List ℕ) → in_range 0xF0 0xF4 a ≡ true → Reads a rest (four_bytes a rest)
four_bytes-Reads a [] h = tt
four_bytes-Reads a (b ∷ []) h = tt
four_bytes-Reads a (b ∷ d ∷ []) h = tt
four_bytes-Reads a (b ∷ d ∷ x ∷ rest) h = elim (Bool-cases (second_valid_of_four a b)) [
  | inr bad ↦ rw bad tt
  | inl good ↦ elim (Bool-cases (is_continuation d)) [
    | inr bad ↦ rw (good, bad) tt
    | inl cont ↦ elim (Bool-cases (is_continuation x)) [
      | inr bad ↦ rw (good, cont, bad) tt
      | inl last ↦
          rw (good, cont, last)
            (let (s, e) = encode-four a b d x h good cont last in (s, ap (λ l. l ++ rest) e))
    ]
  ]
]

encode-ascii : (a : ℕ) → a ≤ 0x7F → encode a ≡ a ∷ []
unfolding encode
encode-ascii a h = ground arith

decode_step-Reads : (a : ℕ) (rest : List ℕ) → Reads a rest (decode_step a rest)
unfolding decode_step
decode_step-Reads a rest = elim (Bool-cases (leb a 0x7F)) [
  | inl ascii ↦ rw ascii (elim (Bool-cases (ltb a 0x20)) [
    | inl low ↦ rw low tt
    | inr high ↦
        rw high
          (inl (omega (tests, ascii)), ap (λ l. l ++ rest) (encode-ascii a (leb→le a 0x7F ascii)))
  ])
  | inr not1 ↦ rw not1 (elim (Bool-cases (in_range 0xC2 0xDF a)) [
    | inl two ↦ rw two (two_bytes-Reads a rest two)
    | inr not2 ↦ rw not2 (elim (Bool-cases (in_range 0xE0 0xEF a)) [
      | inl three ↦ rw three (three_bytes-Reads a rest three)
      | inr not3 ↦ rw not3 (elim (Bool-cases (in_range 0xF0 0xF4 a)) [
        | inl four ↦ rw four (four_bytes-Reads a rest four)
        | inr not4 ↦ rw not4 tt
      ])
    ])
  ])
]

-- One round reads back an encoded printable scalar value.
decode_step-encode :
    (c : ℕ) (next : List ℕ) (first : ℕ) (rest : List ℕ)
    → IsScalar c
    → 0x20 ≤ c
    → encode c ++ next ≡ first ∷ rest
    → decode_step first rest ≡ some (c, next)
unfolding decode_step encode
decode_step-encode c next first rest s p e = ground arith

AsText : List ℕ → Type 0
unfolding encode_all
AsText value = (cs : List ℕ) × All IsPrintable cs × (encode_all cs ≡ value)

printable : (c : ℕ) → IsScalar c → is_control c ≡ false → IsPrintable c
printable c s h = ground arith

sound_round :
    (fuel first : ℕ) (rest : List ℕ) (o : Decoded)
    → Reads first rest o
    → ((next : List ℕ) → printable_from fuel next ≡ true → AsText next)
    → elim o [
      | none ↦ false
      | some (codepoint, next) ↦ if is_control codepoint then false else printable_from fuel next
    ]
      ≡ true
    → AsText (first ∷ rest)
unfolding AsText encode_all
sound_round fuel first rest none r ih h = cc
sound_round fuel first rest (some (c, next)) r ih h = elim (Bool-cases (is_control c)) [
  | inl control ↦ absurd (refused (rw control at h))
  | inr visible ↦
      let (cs, v, e) = ih next (rw visible at h) in
      (c ∷ cs, (printable c r.0 visible, v), ap (◌++◌ (encode c)) e ∙ r.1)
]
  where
    refused : false ≡ true → ⊥
    refused e = cc

printable_from_sound : (fuel : ℕ) (value : List ℕ) → printable_from fuel value ≡ true → AsText value
unfolding printable_from encode_all AsText
printable_from_sound fuel [] h = ([], tt, refl)
printable_from_sound zero (first ∷ rest) h = cc
printable_from_sound (suc fuel) (first ∷ rest) h =
    sound_round fuel first rest (decode_step first rest) (decode_step-Reads first rest)
      (printable_from_sound fuel) h

encode-cons :
    (c : ℕ) (next : List ℕ)
    → (first : ℕ) × (rest : List ℕ) × (encode c ++ next ≡ first ∷ rest)
      × (length next ≤ length rest)
unfolding encode
encode-cons c next = elim (Bool-cases (ltb c 0x80)) [
  | inl one ↦ rw one (c, next, refl, omega arith)
  | inr more ↦ rw more (elim (Bool-cases (ltb c 0x800)) [
    | inl two ↦ rw two (_, _, refl, omega arith)
    | inr more' ↦ rw more' (elim (Bool-cases (ltb c 0x10000)) [
      | inl three ↦ rw three (_, _, refl, omega arith)
      | inr four ↦ rw four (_, _, refl, omega arith)
    ])
  ])
]

printable_from_complete :
    (fuel : ℕ) (cs : List ℕ)
    → All IsPrintable cs
    → length (encode_all cs) ≤ fuel
    → printable_from fuel (encode_all cs) ≡ true
unfolding printable_from encode_all
printable_from_complete fuel [] v h = refl
printable_from_complete fuel (c ∷ cs) v h =
    let (first, rest, e, shorter) = encode-cons c (encode_all cs) in
    rw e (
      step (λ f. printable_from_complete f cs v.1) fuel first rest e (omega (arith, ap length e))
        shorter)
  where
    visible : is_control c ≡ false
    visible = ground arith

    step :
        ((f : ℕ) → length (encode_all cs) ≤ f → printable_from f (encode_all cs) ≡ true)
        → (fuel first : ℕ) (rest : List ℕ) → encode c ++ encode_all cs ≡ first ∷ rest
        → suc (length rest) ≤ fuel
        → length (encode_all cs) ≤ length rest
        → printable_from fuel (first ∷ rest) ≡ true
    step ih zero first rest e room shorter = absurd (omega arith)
    step ih (suc fuel) first rest e room shorter =
        rw (decode_step-encode c (encode_all cs) first rest v.0.0 v.0.1 e, printable_from, visible)
          (ih fuel (omega arith))

-- A text of bytes is accepted exactly when it is the UTF-8 encoding of a list of printable scalar
-- values: no overlong form, no surrogate, no truncated sequence and no control character.
pub is_printable_utf8_iff :
    (value : List ℕ)
    → (is_printable_utf8 value ≡ true)
      ↔ ((cs : List ℕ) × All IsPrintable cs × (encode_all cs ≡ value))
unfolding is_printable_utf8 AsText
is_printable_utf8_iff value = (
  printable_from_sound (length value) value,
  λ t.
      subst (λ l. printable_from (length l) l ≡ true) t.2
        (printable_from_complete _ t.0 t.1 (omega arith)),
)
