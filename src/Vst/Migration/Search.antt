-- ===== src/Vst/Migration/Search.antt =====
-- The search for a migration rule finds the one rule of its goal.
use mathlib.Core.Path.{subst}
use hibiki_dsp.Base.{
  ℕ, ◌≡◌, refl, List, [], ◌∷◌, Option, none, some, Text, Bool-cases, Option-cases, inl, inr,
}
use hibiki_dsp.Base.Slots.{lookup}
use hibiki_dsp.Base.Slots.Lookup.{Absent}
use hibiki_dsp.Base.Slots.Keyed.{UniqueKeys, has_key}
use hibiki_dsp.Vst.PluginState.{
  StateIdentity, StateStore, restore, restore_with_migration, version_mismatch,
}
use hibiki_dsp.Vst.Migration.{
  MigrationRule, Migrations, RuleSearch, no_rule, one_rule, reaches, search_rule, unavailable,
  restore_migrated,
}
use hibiki_dsp.Vst.Migration.Valid.{IsMigrations, goal_of, goal_key}

abbrev as_search : Option MigrationRule → RuleSearch
as_search none = no_rule
as_search (some rule) = one_rule rule

search_rule-Absent :
    (identity : StateIdentity) (version : ℕ) (found : MigrationRule)
    (s : List (Option MigrationRule))
    → Absent (reaches identity version) s
    → search_rule identity version (some found) s ≡ one_rule found
unfolding search_rule
search_rule-Absent identity version found [] h = refl
search_rule-Absent identity version found (none ∷ s) h =
    search_rule-Absent identity version found s h
search_rule-Absent identity version found (some rule ∷ s) h =
    rw (h.0) (search_rule-Absent identity version found s h.1)

search_rule-lookup :
    (identity : StateIdentity) (version : ℕ) (s : List (Option MigrationRule))
    → UniqueKeys goal_key goal_of s
    → search_rule identity version none s ≡ as_search (lookup (reaches identity version) s)
unfolding search_rule lookup
search_rule-lookup identity version [] u = refl
search_rule-lookup identity version (none ∷ s) u = search_rule-lookup identity version s u
search_rule-lookup identity version (some rule ∷ s) u =
    elim (Bool-cases (reaches identity version rule)) [
      | inr miss ↦ rw miss (search_rule-lookup identity version s u.1)
      | inl hit ↦ rw hit (
          search_rule-Absent identity version rule s (
            subst (λ goal. Absent (has_key goal_key goal_of goal) s)
              (goal_key.beq_eq (goal_of rule)
                (((identity.plugin_id, identity.class_id), identity.module_sha256), version) hit)
              u.0))
    ]

-- Where an exact restore answers a version mismatch, a well-formed registry restores with the handler of the
-- one rule that leads the plugin to the version, or, where there is none, answers that no migration is
-- available: no two rules are ever found.
pub restore_migrated-lookup :
    (migrations : Migrations) (store : StateStore) (state_id : Text) (expected : StateIdentity)
    (version : ℕ) (destination : List ℕ)
    → IsMigrations migrations
    → (restore store state_id expected version destination).result ≡ version_mismatch
    → let exact = restore store state_id expected version destination in
      restore_migrated migrations store state_id expected version destination
      ≡ (elim (lookup (reaches expected version) migrations.rules) [
        | none ↦ unavailable exact
        | some rule ↦
            restore_with_migration store state_id expected version exact.destination
              (some rule.migration)
      ])
unfolding restore_migrated
restore_migrated-lookup migrations store state_id expected version destination v e =
    elim (Option-cases (lookup (reaches expected version) migrations.rules)) [
      | inl missing ↦ rw (restore_migrated, e, found, missing)
      | inr (rule, known) ↦ rw (restore_migrated, e, found, known)
    ]
  where
    found :
        search_rule expected version none migrations.rules
        ≡ as_search (lookup (reaches expected version) migrations.rules)
    found = search_rule-lookup expected version migrations.rules v.unique
