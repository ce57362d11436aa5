-- ===== src/Vst/SceneState.antt =====
-- vst-host/include/hibiki/vst3_scene_state.hpp, vst-host/src/vst3_scene_state.cpp and
-- vst-host/src/vst3_scene_state_preflight.cpp: the plugin states that a scene refers to. The store and the
-- registry that the coordinator points at are those of the moment of the call.
pub mod Checked
pub mod Outcome
pub mod Restorable
pub mod Valid
use hibiki_dsp.Base.{
  ℕ, ◌+◌, ◌-◌, Bool, true, false, ◌&&◌, ◌||◌, not, List, [], ◌∷◌, Option, none, some, ltb, leb,
  ◌==◌, if◌then◌else◌, length, set, replicate, Text, text_eq,
}
use hibiki_dsp.Base.Slots.{find_slot, free_slot, lookup}
use hibiki_dsp.Utf8.Nul.{contains_nul}
use hibiki_dsp.Devices.Catalog.{is_empty}
use hibiki_dsp.Vst.PluginState.{
  StateIdentity, StateResult, StateStore, Restored, max_state_bytes, valid_state_identity, inspect,
}
use hibiki_dsp.Vst.Migration.{Migrations, has_rule, restore_migrated}

abbrev pub max_bindings : ℕ
max_bindings = 16

abbrev pub max_scene_id_bytes : ℕ
max_scene_id_bytes = 64

pub record SceneBinding : Type 0 where
  pub scene_id : Text
  pub state_id : Text
  pub identity : StateIdentity
  pub target_state_version : ℕ

pub data SceneResult : Type 0 where
  ok invalid_argument not_prepared capacity_exhausted missing_binding missing_state : SceneResult
  identity_mismatch migration_unavailable migration_failed : SceneResult
  output_too_small output_too_large : SceneResult

abbrev pub is_ok : SceneResult → Bool
is_ok ok = true
is_ok _ = false

-- What `store_` and `migrations_` point at: `prepare` sets both and `clear` neither.
pub record Sources : Type 0 where
  pub store : StateStore
  pub migrations : Migrations

pub record Coordinator : Type 0 where
  pub sources : Option Sources
  pub slots : List (Option SceneBinding)
  pub binding_count : ℕ

abbrev pub new_coordinator : Coordinator
new_coordinator = record { sources = none; slots = replicate max_bindings none; binding_count = 0 }

unfoldable pub valid_id : Text → Bool
valid_id id = not (is_empty id) && leb (length id) max_scene_id_bytes && not (contains_nul id)

abbrev pub is_binding : Text → Text → SceneBinding → Bool
is_binding scene_id state_id binding =
    text_eq binding.scene_id scene_id && text_eq binding.state_id state_id

unfoldable pub prepare_coordinator : Coordinator → Sources → Coordinator × Bool
prepare_coordinator coordinator sources = (record coordinator { sources = some sources }, true)

unfoldable pub clear_coordinator : Coordinator → Coordinator
clear_coordinator coordinator = record {
  sources = none;
  slots = replicate (length coordinator.slots) none;
  binding_count = 0;
}

unfoldable pub bind : Coordinator → SceneBinding → Coordinator × SceneResult
bind coordinator binding =
    let slots = coordinator.slots in
    let index = find_slot (is_binding binding.scene_id binding.state_id) slots in
    elim coordinator.sources [
      | none ↦ (coordinator, not_prepared)
      | some sources ↦
          if not (valid_id binding.scene_id)
            || not (valid_id binding.state_id)
            || not (valid_state_identity binding.identity)
            || (binding.target_state_version == 0)
          then (coordinator, invalid_argument)
          else if index == length slots
          then (if free_slot slots == length slots then (coordinator, capacity_exhausted) else (
            record coordinator {
              slots = set slots (free_slot slots) (some binding);
              binding_count = coordinator.binding_count + 1;
            },
            ok,
          ))
          else (record coordinator { slots = set slots index (some binding) }, ok)
    ]

unfoldable pub unbind : Coordinator → Text → Text → Coordinator × Bool
unbind coordinator scene_id state_id =
    let index = find_slot (is_binding scene_id state_id) coordinator.slots in
    if index == length coordinator.slots then (coordinator, false) else (
      record coordinator {
        slots = set coordinator.slots index none;
        binding_count = coordinator.binding_count - 1;
      },
      true,
    )

unfoldable pub map_store_result : StateResult → SceneResult
map_store_result StateResult.ok = ok
map_store_result StateResult.missing = missing_state
map_store_result StateResult.identity_mismatch = identity_mismatch
map_store_result StateResult.migration_unavailable = migration_unavailable
map_store_result StateResult.migration_failed = migration_failed
map_store_result StateResult.output_too_small = output_too_small
map_store_result StateResult.migration_output_too_large = output_too_large
map_store_result StateResult.invalid_argument = invalid_argument
map_store_result StateResult.capacity_exhausted = invalid_argument
map_store_result StateResult.version_mismatch = invalid_argument

abbrev pub is_store_ok : StateResult → Bool
is_store_ok StateResult.ok = true
is_store_ok _ = false

-- The check of one binding; the version and the size are those that `inspect` leaves.
unfoldable pub check_binding : Sources → SceneBinding → SceneResult
check_binding sources binding =
    let (inspected, source_version, byte_count) =
      inspect sources.store binding.state_id binding.identity in
    if not (is_store_ok inspected)
    then map_store_result inspected
    else if ltb max_state_bytes byte_count
    then output_too_large
    else if not (source_version == binding.target_state_version)
        && not (
            has_rule sources.migrations binding.identity source_version
              binding.target_state_version)
    then migration_unavailable
    else ok

-- The loop of the validation, with the number of bindings matched so far.
unfoldable pub check_scene : Sources → Text → ℕ → List (Option SceneBinding) → SceneResult
check_scene sources scene_id matched [] = if matched == 0 then missing_binding else ok
check_scene sources scene_id matched (none ∷ slots) = check_scene sources scene_id matched slots
check_scene sources scene_id matched (some binding ∷ slots) =
    let same = text_eq binding.scene_id scene_id in
    let rest = check_scene sources scene_id (if same then matched + 1 else matched) slots in
    if not same
    then rest
    else if not (is_ok (check_binding sources binding))
    then check_binding sources binding
    else rest

unfoldable pub validate_scene : Coordinator → Text → SceneResult
validate_scene coordinator scene_id = elim coordinator.sources [
  | none ↦ not_prepared
  | some sources ↦
      if not (valid_id scene_id)
      then invalid_argument
      else check_scene sources scene_id 0 coordinator.slots
]

-- The result, and the restored buffer with the number of bytes written, whose own result is the store's.
unfoldable pub restore_scene : Coordinator → Text → Text → List ℕ → SceneResult × List ℕ × ℕ
restore_scene coordinator scene_id state_id destination = elim coordinator.sources [
  | none ↦ (not_prepared, destination, 0)
  | some sources ↦ elim (lookup (is_binding scene_id state_id) coordinator.slots) [
    | none ↦ (missing_binding, destination, 0)
    | some binding ↦
        let restored : Restored =
          restore_migrated sources.migrations sources.store binding.state_id binding.identity
            binding.target_state_version destination in
        (map_store_result restored.result, restored.destination, restored.bytes_written)
  ]
]

-- The part of a scene profile that the preflight reads.
pub record SceneHeader : Type 0 where
  pub schema_version : ℕ
  pub id : Text
  pub output_group : Text

-- A null context is `none`.
unfoldable pub preflight_scene : SceneHeader → Option Coordinator → Bool
preflight_scene scene none = false
preflight_scene scene (some coordinator) =
    if not (scene.schema_version == 1) || is_empty scene.id || is_empty scene.output_group
    then false
    else if coordinator.binding_count == 0
    then true
    else is_ok (validate_scene coordinator scene.id)
