-- ===== src/Base/Slots/Lookup.antt =====
-- What a slot array holds, seen as a map from keys: the laws of writing over the first match, of
-- filling the first free slot, and of clearing the first match.
use hibiki_dsp.Base.Tests.{Bool-cases}
use hibiki_dsp.Base.Lists.{length, set}
use hibiki_dsp.Base.Slots.{find_slot, free_slot, lookup}
use Prim.Native.Nat.{ℕ, zero, suc, ◌<◌}
use mathlib.Core.Path.{◌≡◌, refl, subst}
use mathlib.Core.Logic.{inl, inr}
use mathlib.Core.Bool.{Bool, true, false}
use mathlib.Core.Option.{Option, none, some}
use mathlib.Core.List.{List, [], ◌∷◌}
use native.Mathlib.Omega.{arith}

module _ {ℓ} {A : Type ℓ} where
  -- No later slot passes the test.
  abbrev pub Absent : (A → Bool) → List (Option A) → Type 0
  Absent p [] = Unit
  Absent p (none ∷ s) = Absent p s
  Absent p (some a ∷ s) = (p a ≡ false) × Absent p s

  -- No two occupied slots are the same by the test.
  abbrev pub Distinct : (A → A → Bool) → List (Option A) → Type 0
  Distinct same [] = Unit
  Distinct same (none ∷ s) = Distinct same s
  Distinct same (some a ∷ s) = Absent (same a) s × Distinct same s

  -- Every occupied slot has the property.
  abbrev pub Every {κ} : (A → Type κ) → List (Option A) → Type κ
  Every P [] = Unit
  Every P (none ∷ s) = Every P s
  Every P (some a ∷ s) = P a × Every P s

  pub lookup-Absent : (p : A → Bool) (s : List (Option A)) → Absent p s → lookup p s ≡ none
  unfolding lookup
  lookup-Absent p [] h = refl
  lookup-Absent p (none ∷ s) h = lookup-Absent p s h
  lookup-Absent p (some a ∷ s) h = rw (h.0) (lookup-Absent p s h.1)

  pub Absent-missing : (p : A → Bool) (s : List (Option A)) → find_slot p s ≡ length s → Absent p s
  unfolding find_slot
  Absent-missing p [] h = tt
  Absent-missing p (none ∷ s) h = Absent-missing p s (omega arith)
  Absent-missing p (some a ∷ s) h = elim (Bool-cases (p a)) [
    | inl e ↦ ground arith
    | inr e ↦ (e, Absent-missing p s (ground arith))
  ]

  pub lookup-replace :
      (p : A → Bool) (s : List (Option A)) (a : A)
      → p a ≡ true
      → find_slot p s < length s
      → lookup p (set s (find_slot p s) (some a)) ≡ some a
  unfolding find_slot lookup
  lookup-replace p [] a e h = absurd (omega arith)
  lookup-replace p (none ∷ s) a e h = lookup-replace p s a e (omega arith)
  lookup-replace p (some b ∷ s) a e h = elim (Bool-cases (p b)) [
    | inl hit ↦ rw (hit) (rw (e) refl)
    | inr miss ↦ rw (miss) (rw (miss) (lookup-replace p s a e (ground arith)))
  ]

  -- Another key is not touched.
  pub lookup-replace_ne :
      (p q : A → Bool) (s : List (Option A)) (a : A)
      → ((b : A) → p b ≡ true → q b ≡ false)
      → q a ≡ false
      → find_slot p s < length s
      → lookup q (set s (find_slot p s) (some a)) ≡ lookup q s
  unfolding find_slot lookup
  lookup-replace_ne p q [] a d e h = refl
  lookup-replace_ne p q (none ∷ s) a d e h = lookup-replace_ne p q s a d e (omega arith)
  lookup-replace_ne p q (some b ∷ s) a d e h = elim (Bool-cases (p b)) [
    | inl hit ↦ rw (hit) (rw (e, d b hit) refl)
    | inr miss ↦ rw (miss) (rw (lookup-replace_ne p q s a d e (ground arith)) refl)
  ]

  pub lookup-insert :
      (p : A → Bool) (s : List (Option A)) (a : A)
      → p a ≡ true
      → find_slot p s ≡ length s
      → free_slot s < length s
      → lookup p (set s (free_slot s) (some a)) ≡ some a
  unfolding find_slot free_slot lookup
  lookup-insert p [] a e m h = absurd (omega arith)
  lookup-insert p (none ∷ s) a e m h = rw e
  lookup-insert p (some b ∷ s) a e m h = elim (Bool-cases (p b)) [
    | inl hit ↦ ground arith
    | inr miss ↦ rw miss (lookup-insert p s a e (ground arith) (omega arith))
  ]

  pub lookup-insert_ne :
      (q : A → Bool) (s : List (Option A)) (a : A)
      → q a ≡ false
      → free_slot s < length s
      → lookup q (set s (free_slot s) (some a)) ≡ lookup q s
  unfolding free_slot lookup
  lookup-insert_ne q [] a e h = refl
  lookup-insert_ne q (none ∷ s) a e h = rw e
  lookup-insert_ne q (some b ∷ s) a e h = rw (lookup-insert_ne q s a e (omega arith)) refl

  pub lookup-clear_ne :
      (p q : A → Bool) (s : List (Option A))
      → ((b : A) → p b ≡ true → q b ≡ false)
      → find_slot p s < length s
      → lookup q (set s (find_slot p s) none) ≡ lookup q s
  unfolding find_slot lookup
  lookup-clear_ne p q [] d h = refl
  lookup-clear_ne p q (none ∷ s) d h = lookup-clear_ne p q s d (omega arith)
  lookup-clear_ne p q (some b ∷ s) d h = elim (Bool-cases (p b)) [
    | inl hit ↦ rw (hit) (rw (d b hit) refl)
    | inr miss ↦ rw (miss) (rw (lookup-clear_ne p q s d (ground arith)) refl)
  ]

  -- Where keys are distinct, clearing the first match removes the key.
  pub Absent-clear :
      (same : A → A → Bool) (p : A → Bool) (s : List (Option A))
      → ((a b : A) → p a ≡ true → same a b ≡ false → p b ≡ false)
      → Distinct same s
      → find_slot p s < length s
      → Absent p (set s (find_slot p s) none)
  unfolding find_slot
  Absent-clear same p [] d u h = tt
  Absent-clear same p (none ∷ s) d u h = Absent-clear same p s d u (omega arith)
  Absent-clear same p (some b ∷ s) d u h = elim (Bool-cases (p b)) [
    | inl hit ↦ rw hit (Absent-imp (same b) p s (λ c. d b c hit) u.0)
    | inr miss ↦ rw miss (miss, Absent-clear same p s d u.1 (ground arith))
  ]
    where
      Absent-imp :
          (q r : A → Bool) (t : List (Option A))
          → ((c : A) → q c ≡ false → r c ≡ false)
          → Absent q t
          → Absent r t
      Absent-imp q r [] f k = tt
      Absent-imp q r (none ∷ t) f k = Absent-imp q r t f k
      Absent-imp q r (some c ∷ t) f k = (f c k.0, Absent-imp q r t f k.1)

  pub Every-set {κ} :
      (P : A → Type κ) (s : List (Option A)) (i : ℕ) (a : A)
      → P a
      → Every P s
      → Every P (set s i (some a))
  Every-set P [] i a h v = v
  Every-set P (none ∷ s) zero a h v = (h, v)
  Every-set P (some b ∷ s) zero a h v = (h, v.1)
  Every-set P (none ∷ s) (suc i) a h v = Every-set P s i a h v
  Every-set P (some b ∷ s) (suc i) a h v = (v.0, Every-set P s i a h v.1)

  pub Every-clear {κ} :
      (P : A → Type κ) (s : List (Option A)) (i : ℕ) → Every P s → Every P (set s i none)
  Every-clear P [] i v = v
  Every-clear P (none ∷ s) zero v = v
  Every-clear P (some b ∷ s) zero v = v.1
  Every-clear P (none ∷ s) (suc i) v = Every-clear P s i v
  Every-clear P (some b ∷ s) (suc i) v = (v.0, Every-clear P s i v.1)

  pub Every-lookup {κ} :
      (P : A → Type κ) (p : A → Bool) (s : List (Option A)) {a : A}
      → Every P s
      → lookup p s ≡ some a
      → P a
  unfolding lookup
  Every-lookup P p [] v e = cc
  Every-lookup P p (none ∷ s) v e = Every-lookup P p s v e
  Every-lookup P p (some b ∷ s) {a} v e = elim (Bool-cases (p b)) [
    | inl hit ↦ subst P (head hit) v.0
    | inr miss ↦ Every-lookup P p s v.1 (rw miss at e)
  ]
    where
      head : p b ≡ true → b ≡ a
      head hit = ground arith
