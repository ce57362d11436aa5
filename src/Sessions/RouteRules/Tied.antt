-- ===== src/Sessions/RouteRules/Tied.antt =====
-- The scan of `apply` ends in a tie exactly where the rules clash.
use mathlib.Core.Path.{subst}
use hibiki_dsp.Base.{
  ◌≡◌, refl, sym, true, List, [], ◌∷◌, Option, none, some, Bool-cases, inl, inr, arith,
}
use hibiki_dsp.Base.Int.{lt_int, eq_int}
use hibiki_dsp.Base.Double.{Double}
use hibiki_dsp.Sessions.Registry.{Descriptor}
use hibiki_dsp.Sessions.RouteRules.{Rule, tied, matches, select}
use hibiki_dsp.Sessions.RouteRules.Clash.{
  Reached, Topmost, Clash, Passed, Reached-unmatched, Reached-Topmost, Passed-first, Passed-higher,
  Passed-lower, unmatched, eq_int_of, eq_int_both,
}

module _ (d : Double) (session : Descriptor d) where
  -- The rule that ties with the best of the slots before clashes with them.
  tie-Clash :
      (old x : Rule d) (before : List (Rule d))
      → eq_int x.priority old.priority ≡ true
      → Passed d session (some old) before
      → Reached d session x.priority before × Topmost d session x.priority before
  tie-Clash old x before same seen =
      subst (λ p. Reached d session p before × Topmost d session p before)
        (sym (eq_int_of x.priority old.priority same)) seen

  Clash-tie :
      (old x : Rule d) (before : List (Rule d))
      → Passed d session (some old) before
      → Reached d session x.priority before
      → Topmost d session x.priority before
      → eq_int x.priority old.priority ≡ true
  Clash-tie old x before seen reached top =
      eq_int_both old.priority x.priority
        (Reached-Topmost d session x.priority old.priority before reached seen.1)
        (Reached-Topmost d session old.priority x.priority before seen.0 top)

  pub tied-Clash :
      (best : Option (Rule d)) (before : List (Rule d)) (s : List (Option (Rule d)))
      → Passed d session best before
      → select d session best s ≡ tied
      → Clash d session before s
  unfolding select
  tied-Clash none before [] seen e = cc
  tied-Clash (some old) before [] seen e = cc
  tied-Clash none before (none ∷ s) seen e = tied-Clash none before s seen e
  tied-Clash (some old) before (none ∷ s) seen e = tied-Clash (some old) before s seen e
  tied-Clash none before (some x ∷ s) seen e = elim (Bool-cases (matches d x session)) [
    | inl hit ↦ inr (
        tied-Clash (some x) (x ∷ before) s (Passed-first d session x before hit seen) (rw hit at e))
    | inr miss ↦ inr (tied-Clash none (x ∷ before) s (miss, seen) (rw miss at e))
  ]
  tied-Clash (some old) before (some x ∷ s) seen e = elim (Bool-cases (matches d x session)) [
    | inr miss ↦ inr (
        tied-Clash (some old) (x ∷ before) s
          (Passed-lower d session old x before (unmatched d session x miss) seen) (rw miss at e))
    | inl hit ↦ elim (Bool-cases (lt_int old.priority x.priority)) [
      | inl higher ↦ inr (
          tied-Clash (some x) (x ∷ before) s (Passed-higher d session old x before hit higher seen)
            (ground arith))
      | inr low ↦ elim (Bool-cases (eq_int x.priority old.priority)) [
        | inl same ↦
            let (reached, top) = tie-Clash old x before same seen in inl (hit, reached, top)
        | inr other ↦ inr (
            tied-Clash (some old) (x ∷ before) s
              (Passed-lower d session old x before (λ h. low) seen) (ground arith))
      ]
    ]
  ]

  pub Clash-tied :
      (best : Option (Rule d)) (before : List (Rule d)) (s : List (Option (Rule d)))
      → Passed d session best before
      → Clash d session before s
      → select d session best s ≡ tied
  unfolding select
  Clash-tied best before [] seen clash = elim clash [ ]
  Clash-tied none before (none ∷ s) seen clash = Clash-tied none before s seen clash
  Clash-tied (some old) before (none ∷ s) seen clash = Clash-tied (some old) before s seen clash
  Clash-tied none before (some x ∷ s) seen (inl (hit, reached, top)) =
      absurd (Reached-unmatched d session x.priority before seen reached)
  Clash-tied none before (some x ∷ s) seen (inr later) = elim (Bool-cases (matches d x session)) [
    | inl hit ↦
        rw hit (Clash-tied (some x) (x ∷ before) s (Passed-first d session x before hit seen) later)
    | inr miss ↦ rw miss (Clash-tied none (x ∷ before) s (miss, seen) later)
  ]
  Clash-tied (some old) before (some x ∷ s) seen (inl (hit, reached, top)) =
      let same = Clash-tie old x before seen reached top in
      let low = Reached-Topmost d session x.priority old.priority before reached seen.1 in
      rw (hit, low, same) refl
  Clash-tied (some old) before (some x ∷ s) seen (inr later) =
      elim (Bool-cases (matches d x session)) [
        | inr miss ↦ rw miss (
            Clash-tied (some old) (x ∷ before) s
              (Passed-lower d session old x before (unmatched d session x miss) seen) later)
        | inl hit ↦ elim (Bool-cases (lt_int old.priority x.priority)) [
          | inl higher ↦
              rw (hit, higher)
                (Clash-tied (some x) (x ∷ before) s
                  (Passed-higher d session old x before hit higher seen) later)
          | inr low ↦ elim (Bool-cases (eq_int x.priority old.priority)) [
            | inl same ↦ rw (hit, low, same) refl
            | inr other ↦
                rw (hit, low, other)
                  (Clash-tied (some old) (x ∷ before) s
                    (Passed-lower d session old x before (λ h. low) seen) later)
          ]
        ]
      ]
