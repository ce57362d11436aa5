-- ===== src/Sessions/RouteRules/Clash.antt =====
-- When `apply` answers `ambiguous`, by the order of the slots.
use mathlib.Core.Path.{subst}
use hibiki_dsp.Base.{
  ◌≡◌, ◌⊎◌, refl, ap, true, false, List, [], ◌∷◌, Option, none, some, All, Bool-cases, inl, inr,
  arith,
}
use hibiki_dsp.Base.Int.{ℤ, lt_int, eq_int}
use hibiki_dsp.Base.Double.{Double}
use hibiki_dsp.Sessions.Registry.{Descriptor}
use hibiki_dsp.Sessions.RouteRules.{Rule, matches}

pub lt_int_trans : (a b c : ℤ) → lt_int a b ≡ true → lt_int b c ≡ true → lt_int a c ≡ true
lt_int_trans (ℤ.pos a) (ℤ.pos b) (ℤ.pos c) = ground arith
lt_int_trans (ℤ.pos a) (ℤ.pos b) (ℤ.negsuc c) = ground arith
lt_int_trans (ℤ.pos a) (ℤ.negsuc b) (ℤ.pos c) = ground arith
lt_int_trans (ℤ.pos a) (ℤ.negsuc b) (ℤ.negsuc c) = ground arith
lt_int_trans (ℤ.negsuc a) (ℤ.pos b) (ℤ.pos c) = ground arith
lt_int_trans (ℤ.negsuc a) (ℤ.pos b) (ℤ.negsuc c) = ground arith
lt_int_trans (ℤ.negsuc a) (ℤ.negsuc b) (ℤ.pos c) = ground arith
lt_int_trans (ℤ.negsuc a) (ℤ.negsuc b) (ℤ.negsuc c) = ground arith

pub int_tricho : (a b : ℤ) → lt_int a b ≡ false → eq_int b a ≡ false → lt_int b a ≡ true
int_tricho (ℤ.pos a) (ℤ.pos b) = ground arith
int_tricho (ℤ.pos a) (ℤ.negsuc b) = ground arith
int_tricho (ℤ.negsuc a) (ℤ.pos b) = ground arith
int_tricho (ℤ.negsuc a) (ℤ.negsuc b) = ground arith

lt_int_irrefl : (a : ℤ) → lt_int a a ≡ false
lt_int_irrefl (ℤ.pos a) = ground arith
lt_int_irrefl (ℤ.negsuc a) = ground arith

-- A priority that is not below another one, and is below a third, leaves the third not below the other.
not_above : (old x z : ℤ) → lt_int old x ≡ true → lt_int old z ≡ false → lt_int x z ≡ false
not_above old x z up low = elim (Bool-cases (lt_int x z)) [
  | inl above ↦ absurd (lifted (lt_int_trans old x z up above))
  | inr e ↦ e
]
  where
    lifted : lt_int old z ≡ true → ⊥
    lifted e = cc

pub eq_int_of : (a b : ℤ) → eq_int a b ≡ true → a ≡ b
eq_int_of (ℤ.pos a) (ℤ.pos b) h = ap ℤ.pos (ground arith)
eq_int_of (ℤ.pos a) (ℤ.negsuc b) h = ground arith
eq_int_of (ℤ.negsuc a) (ℤ.pos b) h = ground arith
eq_int_of (ℤ.negsuc a) (ℤ.negsuc b) h = ap ℤ.negsuc (ground arith)

-- Neither is below the other.
pub eq_int_both : (a b : ℤ) → lt_int a b ≡ false → lt_int b a ≡ false → eq_int b a ≡ true
eq_int_both (ℤ.pos a) (ℤ.pos b) = ground arith
eq_int_both (ℤ.pos a) (ℤ.negsuc b) = ground arith
eq_int_both (ℤ.negsuc a) (ℤ.pos b) = ground arith
eq_int_both (ℤ.negsuc a) (ℤ.negsuc b) = ground arith

module _ (d : Double) (session : Descriptor d) where
  -- One of the rules matches and has the priority.
  abbrev pub Reached : ℤ → List (Rule d) → Type 0
  Reached priority [] = ⊥
  Reached priority (rule ∷ rules) =
      ((matches d rule session ≡ true) × (rule.priority ≡ priority)) ⊎ Reached priority rules

  -- None of the rules that match has a higher priority.
  abbrev pub Topmost : ℤ → List (Rule d) → Type 0
  Topmost priority rules =
      All (λ rule. matches d rule session ≡ true → lt_int priority rule.priority ≡ false) rules

  -- Some slot holds a matching rule whose priority is the highest among the matching rules of the slots before
  -- it, and one of these has it too. The rules of the slots before come first, the last one in front.
  abbrev pub Clash : List (Rule d) → List (Option (Rule d)) → Type 0
  Clash before [] = ⊥
  Clash before (none ∷ s) = Clash before s
  Clash before (some x ∷ s) =
      ((matches d x session ≡ true) × Reached x.priority before × Topmost x.priority before)
      ⊎ Clash (x ∷ before) s

  -- What the scan knows of the rules that it has passed.
  abbrev pub Passed : Option (Rule d) → List (Rule d) → Type 0
  Passed none before = All (λ rule. matches d rule session ≡ false) before
  Passed (some best) before = Reached best.priority before × Topmost best.priority before

  pub unmatched :
      {P : Type 0} (x : Rule d) → matches d x session ≡ false → matches d x session ≡ true → P
  unmatched x miss h = cc

  Topmost-none :
      (p : ℤ) (before : List (Rule d))
      → All (λ rule. matches d rule session ≡ false) before
      → Topmost p before
  Topmost-none p [] v = tt
  Topmost-none p (y ∷ before) v = ((λ h. unmatched y v.0 h), Topmost-none p before v.1)

  Topmost-higher :
      (p q : ℤ) (before : List (Rule d)) → lt_int p q ≡ true → Topmost p before → Topmost q before
  Topmost-higher p q [] up v = tt
  Topmost-higher p q (y ∷ before) up v =
      ((λ h. not_above p q y.priority up (v.0 h)), Topmost-higher p q before up v.1)

  pub Reached-unmatched :
      (p : ℤ) (before : List (Rule d))
      → All (λ rule. matches d rule session ≡ false) before
      → Reached p before
      → ⊥
  Reached-unmatched p [] v reached = elim reached [ ]
  Reached-unmatched p (y ∷ before) v (inl (hit, same)) = unmatched y v.0 hit
  Reached-unmatched p (y ∷ before) v (inr later) = Reached-unmatched p before v.1 later

  -- A priority that is reached is not above one that tops.
  pub Reached-Topmost :
      (p q : ℤ) (before : List (Rule d)) → Reached p before → Topmost q before → lt_int q p ≡ false
  Reached-Topmost p q [] reached v = elim reached [ ]
  Reached-Topmost p q (y ∷ before) (inl (hit, same)) v =
      subst (λ r. lt_int q r ≡ false) same (v.0 hit)
  Reached-Topmost p q (y ∷ before) (inr later) v = Reached-Topmost p q before later v.1

  pub Passed-first :
      (x : Rule d) (before : List (Rule d))
      → matches d x session ≡ true
      → Passed none before
      → Passed (some x) (x ∷ before)
  Passed-first x before hit seen =
      (inl (hit, refl), ((λ h. lt_int_irrefl x.priority), Topmost-none x.priority before seen))

  pub Passed-higher :
      (old x : Rule d) (before : List (Rule d))
      → matches d x session ≡ true
      → lt_int old.priority x.priority ≡ true
      → Passed (some old) before
      → Passed (some x) (x ∷ before)
  Passed-higher old x before hit up seen = (
    inl (hit, refl),
    ((λ h. lt_int_irrefl x.priority), Topmost-higher old.priority x.priority before up seen.1),
  )

  pub Passed-lower :
      (old x : Rule d) (before : List (Rule d))
      → (matches d x session ≡ true → lt_int old.priority x.priority ≡ false)
      → Passed (some old) before
      → Passed (some old) (x ∷ before)
  Passed-lower old x before low seen = (inr seen.0, (low, seen.1))
