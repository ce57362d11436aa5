-- ===== src/Tests/Scenes.antt =====
-- The plugin states of a scene.
use hibiki_dsp.Base.{◌≡◌, refl, true, [], ◌∷◌, none, some, replicate}
use hibiki_dsp.Base.Tests.{text_eq}
use hibiki_dsp.Base.Slots.{find_slot, free_slot, lookup, occupied}
use hibiki_dsp.Utf8.Nul.{contains_nul}
use hibiki_dsp.Vst.PluginState.{
  StateIdentity, SavedState, inspect, valid_state_id, valid_state_identity, all_xdigits,
  has_hash_byte,
}
use hibiki_dsp.Vst.PluginState.Accepted.{valid_state_identity-IsIdentity}
use hibiki_dsp.Vst.Migration.{no_migrations}
use hibiki_dsp.Vst.Migration.Valid.{IsMigrations}
use hibiki_dsp.Vst.SceneState.{
  SceneBinding, Coordinator, Sources, new_coordinator, is_ok, bind, is_binding, valid_id,
  validate_scene, check_scene, check_binding, restore_scene,
}
use hibiki_dsp.Vst.SceneState.Valid.{
  IsCoordinator, valid_id-IsId, binds, coordinator_after, coordinator_after-IsCoordinator,
}
use hibiki_dsp.Vst.SceneState.Outcome.{is_outcome}
use hibiki_dsp.Vst.SceneState.Restorable.{restore_scene-validated}

abbrev plugin : StateIdentity
plugin = record {
  plugin_id = 112 ∷ [];
  class_id = replicate 32 65;
  module_sha256 = 1 ∷ replicate 31 0;
}

abbrev saved : SavedState
saved = record { state_id = 115 ∷ []; identity = plugin; state_version = 3; bytes = 7 ∷ 8 ∷ [] }

abbrev sources : Sources
sources = record {
  store = record { slots = some saved ∷ replicate 15 none; count = 1 };
  migrations = no_migrations;
}

abbrev binding : SceneBinding
binding = record {
  scene_id = 103 ∷ [];
  state_id = 115 ∷ [];
  identity = plugin;
  target_state_version = 3;
}

abbrev coordinator : Coordinator
coordinator = record {
  sources = some sources;
  slots = some binding ∷ replicate 15 none;
  binding_count = 1;
}

empty-IsCoordinator : IsCoordinator new_coordinator
unfolding occupied
empty-IsCoordinator = record { size = refl; counted = refl; unique = tt; entries = tt }

coordinator_after-IsCoordinator_example :
    IsCoordinator (coordinator_after new_coordinator (binds binding))
coordinator_after-IsCoordinator_example =
    coordinator_after-IsCoordinator new_coordinator (binds binding) empty-IsCoordinator

coordinator-IsCoordinator : IsCoordinator coordinator
unfolding occupied valid_id valid_state_identity all_xdigits has_hash_byte contains_nul
coordinator-IsCoordinator = record {
  size = refl;
  counted = refl;
  unique = (tt, tt);
  entries = (
    record {
      scene_named = refl;
      state_named = refl;
      identified = refl;
      versioned = refl;
      scene_spelled = valid_id-IsId (103 ∷ []) refl;
      state_spelled = valid_id-IsId (115 ∷ []) refl;
      identity_spelled = valid_state_identity-IsIdentity plugin refl;
    },
    tt,
  );
}

-- A scene id of 64 bytes "A" is bound, although SPEC-0008 has 31 bytes and no such letter.
long_scene_id :
    is_ok
      (bind
        (record new_coordinator { sources = some sources })
        (record binding { scene_id = replicate 64 65 })).1
    ≡ true
unfolding bind valid_id valid_state_identity all_xdigits has_hash_byte contains_nul find_slot
    free_slot
long_scene_id = refl

none-IsMigrations : IsMigrations no_migrations
unfolding occupied
none-IsMigrations = record { size = refl; counted = refl; unique = tt }

scene_valid : is_ok (validate_scene coordinator (103 ∷ [])) ≡ true
unfolding validate_scene check_scene check_binding inspect lookup text_eq valid_id valid_state_id
    valid_state_identity all_xdigits has_hash_byte contains_nul
scene_valid = refl

binding_found : lookup (is_binding (103 ∷ []) (115 ∷ [])) coordinator.slots ≡ some binding
unfolding lookup text_eq
binding_found = refl

restore_scene-validated_example :
    is_outcome (restore_scene coordinator (103 ∷ []) (115 ∷ []) (0 ∷ 0 ∷ 0 ∷ [])).0 ≡ true
restore_scene-validated_example =
    restore_scene-validated coordinator sources binding (103 ∷ []) (115 ∷ []) (0 ∷ 0 ∷ 0 ∷ [])
      coordinator-IsCoordinator refl none-IsMigrations scene_valid binding_found
