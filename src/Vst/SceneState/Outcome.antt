-- ===== src/Vst/SceneState/Outcome.antt =====
-- The outcomes of a restore of a state that is there.
use hibiki_dsp.Base.{
  ℕ, suc, ◌||◌, ◌≡◌, refl, ap, Bool, true, false, List, [], ◌∷◌, Option, none, some, ◌==◌,
  if◌then◌else◌, not, length, ltb, min, take, Text, Bool-cases, inl, inr, arith,
}
use hibiki_dsp.Base.Slots.{find_slot, lookup}
use hibiki_dsp.Vst.PluginState
use hibiki_dsp.Vst.PluginState.{
  StateIdentity, StateResult, StateStore, SavedState, Restored, Handler, max_state_bytes,
  valid_state_id, valid_state_identity, inspect, restore, restore_with_migration, migrated,
  has_state_id, same_state_identity, version_mismatch, refused, copied, handler_failure,
}
use hibiki_dsp.Vst.Migration.{
  MigrationRule, Migrations, has_rule, is_rule, reaches, is_version_mismatch,
}
use hibiki_dsp.Vst.SceneState.{SceneResult, map_store_result}

-- The outcomes that depend on the caller's buffer and on the plugin's migration alone.
abbrev pub is_outcome : SceneResult → Bool
is_outcome SceneResult.ok = true
is_outcome SceneResult.migration_failed = true
is_outcome SceneResult.output_too_small = true
is_outcome SceneResult.output_too_large = true
is_outcome _ = false

-- A restore of the state that the check found.
pub restore-found :
    (store : StateStore) (state_id : Text) (identity : StateIdentity) (version : ℕ)
    (destination : List ℕ) (saved : SavedState)
    → valid_state_id state_id ≡ true
    → valid_state_identity identity ≡ true
    → (version == 0) ≡ false
    → lookup (has_state_id state_id) store.slots ≡ some saved
    → same_state_identity saved.identity identity ≡ true
    → restore store state_id identity version destination ≡ (
        if not (saved.state_version == version)
        then refused destination version_mismatch
        else copied saved destination)
unfolding restore
restore-found store state_id identity version destination saved named identified versioned stored
      same =
    rw (restore, named, identified, versioned, stored, same)

pub migrate-found :
    (store : StateStore) (state_id : Text) (identity : StateIdentity) (version : ℕ)
    (destination : List ℕ) (saved : SavedState) (handler : Handler)
    → valid_state_id state_id ≡ true
    → valid_state_identity identity ≡ true
    → (version == 0) ≡ false
    → lookup (has_state_id state_id) store.slots ≡ some saved
    → same_state_identity saved.identity identity ≡ true
    → (saved.state_version == version) ≡ false
    → (bounded : ℕ) × (answer : Restored) × (restore_with_migration store state_id identity version
          destination
          (some handler)
        ≡ migrated destination bounded answer)
unfolding restore_with_migration
migrate-found store state_id identity version destination saved handler named identified versioned
      stored same other =
    (
      min (length destination) max_state_bytes,
      handler saved.state_version saved.bytes version
          (take (min (length destination) max_state_bytes) destination),
      rw (restore_with_migration, named, identified, versioned, stored, same, other),
    )

-- The outcomes of a copy and of a migration.
pub copied_outcome :
    (saved : SavedState) (destination : List ℕ)
    → is_outcome (map_store_result (copied saved destination).result) ≡ true
unfolding map_store_result
copied_outcome saved destination =
    elim (Bool-cases (ltb (length destination) (length saved.bytes))) [
      | inl short ↦ rw short
      | inr fits ↦ rw fits
    ]

failure_outcome :
    (result : StateResult) → is_outcome (map_store_result (handler_failure result)) ≡ true
unfolding map_store_result
failure_outcome StateResult.migration_output_too_large = refl
failure_outcome StateResult.ok = refl
failure_outcome StateResult.missing = refl
failure_outcome StateResult.identity_mismatch = refl
failure_outcome StateResult.migration_unavailable = refl
failure_outcome StateResult.migration_failed = refl
failure_outcome StateResult.output_too_small = refl
failure_outcome StateResult.invalid_argument = refl
failure_outcome StateResult.capacity_exhausted = refl
failure_outcome StateResult.version_mismatch = refl

pub migrated_outcome :
    (destination : List ℕ) (bounded : ℕ) (answer : Restored)
    → is_outcome (map_store_result (migrated destination bounded answer).result) ≡ true
unfolding migrated map_store_result
migrated_outcome destination bounded answer = elim (Bool-cases (PluginState.is_ok answer.result)) [
  | inr failed ↦ rw (migrated, failed) (failure_outcome answer.result)
  | inl done ↦
      elim (Bool-cases
        (ltb bounded answer.bytes_written || ltb max_state_bytes answer.bytes_written)) [
          | inl over ↦ rw (migrated, done, over)
          | inr fits ↦ rw (migrated, done, fits)
        ]
]

-- A rule from the version leads to the goal.
has_rule-lookup :
    (identity : StateIdentity) (source_version target_version : ℕ)
    (rules : List (Option MigrationRule))
    → lookup (reaches identity target_version) rules ≡ none
    → find_slot (is_rule identity source_version target_version) rules ≡ length rules
unfolding lookup find_slot
has_rule-lookup identity source_version target_version [] h = refl
has_rule-lookup identity source_version target_version (none ∷ rules) h =
    ap suc (has_rule-lookup identity source_version target_version rules h)
has_rule-lookup identity source_version target_version (some rule ∷ rules) h =
    ground (arith, has_rule-lookup identity source_version target_version rules)

pub has_rule-missing :
    (migrations : Migrations) (identity : StateIdentity) (source_version target_version : ℕ)
    → lookup (reaches identity target_version) migrations.rules ≡ none
    → has_rule migrations identity source_version target_version ≡ false
unfolding has_rule
has_rule-missing migrations identity source_version target_version missing =
    ground (arith, has_rule-lookup identity source_version target_version migrations.rules missing)

pub copied_kept :
    (saved : SavedState) (destination : List ℕ)
    → is_version_mismatch (copied saved destination).result ≡ false
copied_kept saved destination = elim (Bool-cases (ltb (length destination) (length saved.bytes))) [
  | inl short ↦ rw short
  | inr fits ↦ rw fits
]
