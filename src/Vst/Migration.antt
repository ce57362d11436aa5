-- ===== src/Vst/Migration.antt =====
-- vst-host/include/hibiki/vst3_plugin_state.hpp and vst-host/src/vst3_plugin_state.cpp: the registry of
-- migration rules. A handler and its context are one function.
pub mod Valid
pub mod Search
pub mod Registered
use hibiki_dsp.Base.{
  ℕ, Bool, true, false, ◌&&◌, ◌||◌, not, List, [], ◌∷◌, Option, none, some, ◌==◌, if◌then◌else◌,
  length, set, replicate, Text,
}
use hibiki_dsp.Base.Slots.{find_slot, free_slot, occupied, lookup}
use hibiki_dsp.Vst.PluginState.{
  StateIdentity, StateResult, ok, invalid_argument, capacity_exhausted, version_mismatch,
  migration_unavailable, StateStore, Restored, Handler, same_state_identity, valid_state_identity,
  restore, restore_with_migration,
}

abbrev pub max_migration_rules : ℕ
max_migration_rules = 16

pub record MigrationRule : Type 0 where
  pub identity : StateIdentity
  pub source_version : ℕ
  pub target_version : ℕ
  pub migration : Handler

-- `rules_` and `count_`.
pub record Migrations : Type 0 where
  pub rules : List (Option MigrationRule)
  pub count : ℕ

abbrev pub no_migrations : Migrations
no_migrations = record { rules = replicate max_migration_rules none; count = 0 }

abbrev pub reaches : StateIdentity → ℕ → MigrationRule → Bool
reaches identity target_version rule =
    same_state_identity rule.identity identity && (rule.target_version == target_version)

abbrev pub is_rule : StateIdentity → ℕ → ℕ → MigrationRule → Bool
is_rule identity source_version target_version rule =
    same_state_identity rule.identity identity
    && (rule.source_version == source_version)
    && (rule.target_version == target_version)

-- A rule to the same version from another one.
abbrev pub rivals : StateIdentity → ℕ → ℕ → MigrationRule → Bool
rivals identity source_version target_version rule =
    same_state_identity rule.identity identity
    && (rule.target_version == target_version)
    && not (rule.source_version == source_version)

abbrev pub with_rules : List (Option MigrationRule) → Migrations
with_rules rules = record { rules = rules; count = occupied rules }

unfoldable pub register_rule :
    Migrations → StateIdentity → ℕ → ℕ → Option Handler → Migrations × StateResult
register_rule migrations identity source_version target_version none =
    (migrations, invalid_argument)
register_rule migrations identity source_version target_version (some migration) =
    let rule : MigrationRule = record {
      identity = identity;
      source_version = source_version;
      target_version = target_version;
      migration = migration;
    } in
    let index = find_slot (is_rule identity source_version target_version) migrations.rules in
    if not (valid_state_identity identity)
      || (source_version == 0)
      || (target_version == 0)
      || (source_version == target_version)
    then (migrations, invalid_argument)
    else elim (lookup (rivals identity source_version target_version) migrations.rules) [
      | some rival ↦ (migrations, invalid_argument)
      | none ↦
          if index == length migrations.rules
          then (if free_slot migrations.rules == length migrations.rules
              then (migrations, capacity_exhausted)
              else (with_rules (set migrations.rules (free_slot migrations.rules) (some rule)), ok))
          else (with_rules (set migrations.rules index (some rule)), ok)
    ]

-- What the search for a rule ends with.
pub data RuleSearch : Type 0 where
  no_rule several_rules : RuleSearch
  one_rule : MigrationRule → RuleSearch

-- The loop of `restore`, with the rule found so far.
unfoldable pub search_rule :
    StateIdentity → ℕ → Option MigrationRule → List (Option MigrationRule) → RuleSearch
search_rule identity target_version none [] = no_rule
search_rule identity target_version (some found) [] = one_rule found
search_rule identity target_version found (none ∷ rest) =
    search_rule identity target_version found rest
search_rule identity target_version none (some rule ∷ rest) =
    search_rule identity target_version
      (if reaches identity target_version rule then some rule else none) rest
search_rule identity target_version (some found) (some rule ∷ rest) =
    let later = search_rule identity target_version (some found) rest in
    if reaches identity target_version rule then several_rules else later

abbrev pub is_version_mismatch : StateResult → Bool
is_version_mismatch version_mismatch = true
is_version_mismatch _ = false

abbrev pub unavailable : Restored → Restored
unavailable exact = record exact { result = migration_unavailable }

unfoldable pub restore_migrated :
    Migrations → StateStore → Text → StateIdentity → ℕ → List ℕ → Restored
unfolding search_rule
restore_migrated migrations store state_id expected version destination =
    let exact = restore store state_id expected version destination in
    if not (is_version_mismatch exact.result)
    then exact
    else elim (search_rule expected version none migrations.rules) [
      | no_rule ↦ unavailable exact
      | several_rules ↦ unavailable exact
      | one_rule rule ↦
          restore_with_migration store state_id expected version exact.destination
            (some rule.migration)
    ]

unfoldable pub has_rule : Migrations → StateIdentity → ℕ → ℕ → Bool
has_rule migrations identity source_version target_version = not (
    find_slot (is_rule identity source_version target_version) migrations.rules
    == length migrations.rules)

unfoldable pub remove_rule : Migrations → StateIdentity → ℕ → ℕ → Migrations × Bool
remove_rule migrations identity source_version target_version =
    let index = find_slot (is_rule identity source_version target_version) migrations.rules in
    if index == length migrations.rules
    then (migrations, false)
    else (with_rules (set migrations.rules index none), true)

unfoldable pub clear_rules : Migrations → Migrations
clear_rules migrations = record { rules = replicate (length migrations.rules) none; count = 0 }
