-- ===== src/Vst/SceneState/Checked.antt =====
-- What the validation of a scene has found of each of its bindings.
use mathlib.Core.Path.{subst}
use hibiki_dsp.Base.{
  ℕ, ◌+◌, ◌||◌, ◌≡◌, refl, ap, true, false, List, [], ◌∷◌, Option, none, some, ◌==◌, if◌then◌else◌,
  not, Text, text_eq, Bool-cases, Option-cases, inl, inr, arith,
}
use hibiki_dsp.Base.Slots.{lookup}
use hibiki_dsp.Vst.PluginState.{
  StateIdentity, StateResult, StateStore, SavedState, valid_state_id, valid_state_identity, inspect,
  has_state_id, same_state_identity,
}
use hibiki_dsp.Vst.Migration.{has_rule}
use hibiki_dsp.Vst.SceneState.{
  SceneBinding, SceneResult, Sources, Coordinator, is_binding, is_ok, is_store_ok, valid_id,
  map_store_result, check_binding, check_scene, validate_scene,
}

-- The loop checks every binding of the scene.
pub check_scene-binding :
    (sources : Sources) (scene_id state_id : Text) (slots : List (Option SceneBinding))
    (matched : ℕ) (binding : SceneBinding)
    → is_ok (check_scene sources scene_id matched slots) ≡ true
    → lookup (is_binding scene_id state_id) slots ≡ some binding
    → is_ok (check_binding sources binding) ≡ true
unfolding check_scene lookup
check_scene-binding sources scene_id state_id [] matched binding h found = absurd cc
check_scene-binding sources scene_id state_id (none ∷ slots) matched binding h found =
    check_scene-binding sources scene_id state_id slots matched binding h found
check_scene-binding sources scene_id state_id (some first ∷ slots) matched binding h found =
    elim (Bool-cases (is_binding scene_id state_id first)) [
      | inl hit ↦
          let same : first ≡ binding = ground arith in
          let checked : is_ok (check_binding sources first) ≡ true = ground arith in
          subst (λ b. is_ok (check_binding sources b) ≡ true) same checked
      | inr miss ↦ elim (Bool-cases (text_eq first.scene_id scene_id)) [
        | inl other ↦
            check_scene-binding sources scene_id state_id slots (matched + 1) binding (ground arith)
              (ground arith)
        | inr skipped ↦
            check_scene-binding sources scene_id state_id slots matched binding (ground arith)
              (ground arith)
      ]
    ]

-- What a check of a binding has found.
pub record Found (sources : Sources) (binding : SceneBinding) : Type 0 where
  pub named : valid_state_id binding.state_id ≡ true
  pub saved : SavedState
  pub stored : lookup (has_state_id binding.state_id) sources.store.slots ≡ some saved
  pub same : same_state_identity saved.identity binding.identity ≡ true
  pub reachable :
      (saved.state_version == binding.target_state_version) ≡ false
      → has_rule sources.migrations binding.identity saved.state_version
          binding.target_state_version
        ≡ true

map-ok : (result : StateResult) → is_ok (map_store_result result) ≡ is_store_ok result
unfolding map_store_result
map-ok StateResult.ok = refl
map-ok StateResult.missing = refl
map-ok StateResult.identity_mismatch = refl
map-ok StateResult.migration_unavailable = refl
map-ok StateResult.migration_failed = refl
map-ok StateResult.output_too_small = refl
map-ok StateResult.migration_output_too_large = refl
map-ok StateResult.invalid_argument = refl
map-ok StateResult.capacity_exhausted = refl
map-ok StateResult.version_mismatch = refl

checked :
    (sources : Sources) (binding : SceneBinding)
    → is_ok (check_binding sources binding) ≡ true
    → let seen = inspect sources.store binding.state_id binding.identity in
      (is_store_ok seen.0 ≡ true)
      × ((seen.1 == binding.target_state_version) ≡ false
          → has_rule sources.migrations binding.identity seen.1 binding.target_state_version ≡ true)
unfolding check_binding
checked sources binding h =
    let same = map-ok (inspect sources.store binding.state_id binding.identity).0 in
    (ground arith, λ other. ground arith)

inspect-refused :
    (store : StateStore) (state_id : Text) (identity : StateIdentity)
    → (not (valid_state_id state_id) || not (valid_state_identity identity)) ≡ true
    → is_store_ok (inspect store state_id identity).0 ≡ false
unfolding inspect
inspect-refused store state_id identity bad = rw (inspect, bad)

module _ (store : StateStore) (state_id : Text) (identity : StateIdentity) (saved : SavedState)
    (stored : lookup (has_state_id state_id) store.slots ≡ some saved)
    (good : (not (valid_state_id state_id) || not (valid_state_identity identity)) ≡ false) where
  inspect-other :
      same_state_identity saved.identity identity ≡ false
      → is_store_ok (inspect store state_id identity).0 ≡ false
  unfolding inspect
  inspect-other other = rw (inspect, good, stored, other)

  inspect-same :
      same_state_identity saved.identity identity ≡ true
      → (inspect store state_id identity).1 ≡ saved.state_version
  unfolding inspect
  inspect-same same = rw (inspect, good, stored, same)

inspected :
    (store : StateStore) (state_id : Text) (identity : StateIdentity) (saved : SavedState)
    → lookup (has_state_id state_id) store.slots ≡ some saved
    → is_store_ok (inspect store state_id identity).0 ≡ true
    → (valid_state_id state_id ≡ true)
      × (same_state_identity saved.identity identity ≡ true)
      × ((inspect store state_id identity).1 ≡ saved.state_version)
inspected store state_id identity saved stored h =
    elim (Bool-cases (not (valid_state_id state_id) || not (valid_state_identity identity))) [
      | inl bad ↦ absurd (cc (h, inspect-refused store state_id identity bad))
      | inr good ↦ elim (Bool-cases (same_state_identity saved.identity identity)) [
        | inl same ↦ (
          ground (arith, good),
          same,
          inspect-same store state_id identity saved stored good same,
        )
        | inr other ↦ absurd (cc (h, inspect-other store state_id identity saved stored good other))
      ]
    ]

inspect-missing :
    (store : StateStore) (state_id : Text) (identity : StateIdentity)
    → lookup (has_state_id state_id) store.slots ≡ none
    → is_store_ok (inspect store state_id identity).0 ≡ false
unfolding inspect
inspect-missing store state_id identity missing =
    elim (Bool-cases (not (valid_state_id state_id) || not (valid_state_identity identity))) [
      | inl bad ↦ rw (inspect, bad)
      | inr good ↦ rw (inspect, good, missing)
    ]

pub check-Found :
    (sources : Sources) (binding : SceneBinding)
    → is_ok (check_binding sources binding) ≡ true
    → Found sources binding
check-Found sources binding h =
    let (seen, rule) = checked sources binding h in
    elim (Option-cases (lookup (has_state_id binding.state_id) sources.store.slots)) [
      | inl missing ↦
          absurd
            (cc (seen, inspect-missing sources.store binding.state_id binding.identity missing))
      | inr (saved, stored) ↦
          let (named, same, version) =
            inspected sources.store binding.state_id binding.identity saved stored seen in
          record {
            named = named;
            saved = saved;
            stored = stored;
            same = same;
            reachable =
                subst
                  (λ n.
                    (n == binding.target_state_version) ≡ false
                    → has_rule sources.migrations binding.identity n binding.target_state_version
                      ≡ true)
                  version rule;
          }
    ]

validate-prepared :
    (coordinator : Coordinator) (sources : Sources) (scene_id : Text)
    → coordinator.sources ≡ some sources
    → validate_scene coordinator scene_id ≡ (
        if not (valid_id scene_id)
        then SceneResult.invalid_argument
        else check_scene sources scene_id 0 coordinator.slots)
unfolding validate_scene
validate-prepared coordinator sources scene_id prepared = rw (validate_scene, prepared)

pub scene_checked :
    (coordinator : Coordinator) (sources : Sources) (scene_id : Text)
    → coordinator.sources ≡ some sources
    → is_ok (validate_scene coordinator scene_id) ≡ true
    → is_ok (check_scene sources scene_id 0 coordinator.slots) ≡ true
scene_checked coordinator sources scene_id prepared h = ground (
  arith,
  ap is_ok (validate-prepared coordinator sources scene_id prepared),
  Bool-cases (valid_id scene_id),
)
