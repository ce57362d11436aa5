-- ===== src/Sessions/RouteRules/Choice.antt =====
-- Which rule `apply` chooses.
use mathlib.Core.Path.{subst}
use hibiki_dsp.Base.{
  ◌≡◌, refl, ◌⊎◌, true, false, List, [], ◌∷◌, Option, none, some, Bool-cases, inl, inr, arith,
}
use hibiki_dsp.Base.Int.{lt_int, eq_int}
use hibiki_dsp.Base.Double.{Double}
use hibiki_dsp.Base.Slots.Lookup.{Every}
use hibiki_dsp.Sessions.Registry.{Descriptor}
use hibiki_dsp.Sessions.RouteRules.{
  Rule, Store, RuleResult, applied, no_match, ambiguous, Selection, none_selected, selected, tied,
  matches, select, apply,
}
use hibiki_dsp.Sessions.RouteRules.Clash.{Clash, lt_int_trans, int_tricho}
use hibiki_dsp.Sessions.RouteRules.Tied.{tied-Clash, Clash-tied}

module _ (d : Double) (session : Descriptor d) where
  -- The rule is in a slot.
  abbrev pub Holds : Rule d → List (Option (Rule d)) → Type 0
  Holds rule [] = ⊥
  Holds rule (none ∷ s) = Holds rule s
  Holds rule (some x ∷ s) = (x ≡ rule) ⊎ Holds rule s

  -- Every other slot with a matching rule has a lower priority.
  abbrev pub Beaten : Rule d → Rule d → Type 0
  Beaten best rule = matches d rule session ≡ true → lt_int rule.priority best.priority ≡ true

  -- The rule stands in one slot, it matches, and the rule of any other slot that matches has a lower priority.
  abbrev pub Winner : Rule d → List (Option (Rule d)) → Type 0
  Winner best [] = ⊥
  Winner best (none ∷ s) = Winner best s
  Winner best (some x ∷ s) =
      ((x ≡ best) × (matches d best session ≡ true) × Every (Beaten best) s)
      ⊎ (Beaten best x × Winner best s)

  -- What the scan has left: the best so far beats the rest, or a later rule beats it and wins.
  abbrev Outcome : Option (Rule d) → Rule d → List (Option (Rule d)) → Type 0
  Outcome none best s = Winner best s
  Outcome (some old) best s =
      ((old ≡ best) × Every (Beaten best) s)
      ⊎ ((lt_int old.priority best.priority ≡ true) × Winner best s)

  select-Outcome :
      (best : Option (Rule d)) (s : List (Option (Rule d))) (rule : Rule d)
      → select d session best s ≡ selected rule
      → Outcome best rule s
  unfolding select
  select-Outcome none [] rule e = cc
  select-Outcome (some old) [] rule e = inl (ground arith, tt)
  select-Outcome none (none ∷ s) rule e = select-Outcome none s rule e
  select-Outcome (some old) (none ∷ s) rule e = select-Outcome (some old) s rule e
  select-Outcome none (some x ∷ s) rule e = elim (Bool-cases (matches d x session)) [
    | inl hit ↦ taken hit (select-Outcome (some x) s rule (rw hit at e))
    | inr miss ↦ inr ((λ h. unmatched miss h), select-Outcome none s rule (rw miss at e))
  ]
    where
      unmatched : {P : Type 0} → matches d x session ≡ false → matches d x session ≡ true → P
      unmatched miss h = cc

      taken : matches d x session ≡ true → Outcome (some x) rule s → Winner rule (some x ∷ s)
      taken hit (inl (same, beaten)) =
          inl (same, subst (λ y. matches d y session ≡ true) same hit, beaten)
      taken hit (inr (lower, wins)) = inr ((λ h. lower), wins)
  select-Outcome (some old) (some x ∷ s) rule e = elim (Bool-cases (matches d x session)) [
    | inr miss ↦
        skipped (λ same h. unmatched miss h) (λ above h. unmatched miss h)
          (select-Outcome (some old) s rule (rw miss at e))
    | inl hit ↦ elim (Bool-cases (lt_int old.priority x.priority)) [
      | inl higher ↦ taken hit higher (select-Outcome (some x) s rule (ground arith))
      | inr low ↦ elim (Bool-cases (eq_int x.priority old.priority)) [
        | inl same ↦ ground arith
        | inr other ↦
            let lower = int_tricho old.priority x.priority low other in
            skipped (λ same h. subst (λ y. lt_int x.priority y.priority ≡ true) same lower)
              (λ above h. lt_int_trans x.priority old.priority rule.priority lower above)
              (select-Outcome (some old) s rule (ground arith))
      ]
    ]
  ]
    where
      unmatched : {P : Type 0} → matches d x session ≡ false → matches d x session ≡ true → P
      unmatched miss h = cc

      taken :
          matches d x session ≡ true
          → lt_int old.priority x.priority ≡ true
          → Outcome (some x) rule s
          → Outcome (some old) rule (some x ∷ s)
      taken hit higher (inl (same, beaten)) = inr (
        subst (λ y. lt_int old.priority y.priority ≡ true) same higher,
        inl (same, subst (λ y. matches d y session ≡ true) same hit, beaten),
      )
      taken hit higher (inr (lower, wins)) = inr (
        lt_int_trans old.priority x.priority rule.priority higher lower,
        inr ((λ h. lower), wins),
      )

      skipped :
          (old ≡ rule → Beaten rule x)
          → (lt_int old.priority rule.priority ≡ true → Beaten rule x)
          → Outcome (some old) rule s
          → Outcome (some old) rule (some x ∷ s)
      skipped f g (inl (same, beaten)) = inl (same, (f same, beaten))
      skipped f g (inr (lower, wins)) = inr (lower, inr (g lower, wins))

  abbrev Unmatched : Option (Rule d) → List (Option (Rule d)) → Type 0
  Unmatched none s = Every (λ rule. matches d rule session ≡ false) s
  Unmatched (some best) s = ⊥

  select-Unmatched :
      (best : Option (Rule d)) (s : List (Option (Rule d)))
      → select d session best s ≡ none_selected
      → Unmatched best s
  unfolding select
  select-Unmatched none [] e = tt
  select-Unmatched (some old) [] e = cc
  select-Unmatched none (none ∷ s) e = select-Unmatched none s e
  select-Unmatched (some old) (none ∷ s) e = select-Unmatched (some old) s e
  select-Unmatched none (some x ∷ s) e = elim (Bool-cases (matches d x session)) [
    | inl hit ↦ absurd (select-Unmatched (some x) s (rw hit at e))
    | inr miss ↦ (miss, select-Unmatched none s (rw miss at e))
  ]
  select-Unmatched (some old) (some x ∷ s) e = elim (Bool-cases (matches d x session)) [
    | inr miss ↦ select-Unmatched (some old) s (rw miss at e)
    | inl hit ↦ elim (Bool-cases (lt_int old.priority x.priority)) [
      | inl higher ↦ select-Unmatched (some x) s (ground arith)
      | inr low ↦ elim (Bool-cases (eq_int x.priority old.priority)) [
        | inl same ↦ ground arith
        | inr other ↦ select-Unmatched (some old) s (ground arith)
      ]
    ]
  ]

  -- The session with the route and the gain of a rule, and all else its own.
  abbrev pub with_route : Rule d → Descriptor d
  with_route rule = record {
    schema_version = session.schema_version;
    identity = session.identity;
    display_name = session.display_name;
    app_id = session.app_id;
    active = session.active;
    gain_owner = rule.gain_owner;
    lane_id = rule.lane_id;
    output_group = rule.output_group;
    makeup_gain_db = rule.makeup_gain_db;
  }

  -- What each answer of `apply` tells.
  abbrev pub Verdict : List (Option (Rule d)) → Descriptor d → RuleResult → Type 0
  Verdict s after applied =
      (rule : Rule d) × Winner rule s × (¬ Clash d session [] s) × (after ≡ with_route rule)
  Verdict s after no_match = Every (λ rule. matches d rule session ≡ false) s × (after ≡ session)
  Verdict s after ambiguous = Clash d session [] s × (after ≡ session)
  Verdict s after _ = ⊥

  -- `apply` answers `ambiguous` exactly where some slot holds a matching rule whose priority is the highest among
  -- the matching rules of the slots before it and is the priority of one of these, also when a later slot holds a
  -- higher one; `no_match` where no rule matches; and `applied` elsewhere, with the lane, the output group, the
  -- gain owner and the gain of the one rule that matches and has a higher priority than every other matching rule,
  -- and all else as it was. With `ambiguous` and `no_match` the session is as it was; there is no other answer.
  -- So the answer on rules that tie below a higher one depends on the order of the slots, which SPEC-0013 and
  -- the comment of the class exclude.
  pub apply-Verdict :
      (store : Store d) → Verdict store.slots (apply d store session).0 (apply d store session).1
  unfolding apply
  apply-Verdict store = verdict (select d session none store.slots) refl
    where
      unclashed :
          (rule : Rule d)
          → select d session none store.slots ≡ selected rule
          → ¬ Clash d session [] store.slots
      unclashed rule e clash =
          let t : select d session none store.slots ≡ tied =
            Clash-tied d session none [] store.slots tt clash in
          cc

      verdict :
          (found : Selection d)
          → select d session none store.slots ≡ found
          → Verdict store.slots (apply d store session).0 (apply d store session).1
      verdict none_selected e = rw (apply, e) (select-Unmatched none store.slots e, refl)
      verdict (selected rule) e =
          rw (apply, e) (rule, select-Outcome none store.slots rule e, unclashed rule e, refl)
      verdict tied e = rw (apply, e) (tied-Clash d session none [] store.slots tt e, refl)
