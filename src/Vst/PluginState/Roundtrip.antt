-- ===== src/Vst/PluginState/Roundtrip.antt =====
-- A captured state is what a restore gives back.
use hibiki_dsp.Base.{
  ℕ, ◌≤◌, ◌≡◌, ◌∙◌, refl, Bool, true, List, Option, some, if◌then◌else◌, length, text_eq_refl,
  le→ltb, eq→==,
}
use hibiki_dsp.Base.Key.{text_key}
use hibiki_dsp.Base.Slots.{lookup}
use hibiki_dsp.Base.Slots.Keyed.{lookup-store}
use hibiki_dsp.Vst.PluginState.{
  ok, SavedState, StateStore, Restored, has_state_id, capture, restore, overwrite,
  restore_with_migration, Handler,
}
use hibiki_dsp.Vst.PluginState.Valid.{state_id_of, stored, capture-stored}

-- A capture that answers `ok`, whatever the store held, is restored into any buffer that is long enough: with the
-- same id, identity and version, the restore, with a migration handler or without, answers `ok` and copies
-- all of the bytes to the front of the buffer.
pub restore-capture :
    (store : StateStore) (saved : SavedState) (destination : List ℕ) (migration : Option Handler)
    → (capture store saved.state_id saved.identity saved.state_version saved.bytes).1 ≡ ok
    → length saved.bytes ≤ length destination
    → let after = (capture store saved.state_id saved.identity saved.state_version saved.bytes).0 in
      let whole : Restored = record {
        result = ok;
        destination = overwrite destination saved.bytes;
        bytes_written = length saved.bytes;
      } in
      (restore after saved.state_id saved.identity saved.state_version destination ≡ whole)
      × (restore_with_migration after saved.state_id saved.identity saved.state_version destination
            migration
          ≡ whole)
unfolding restore restore_with_migration
restore-capture store saved destination migration e room =
    let (same, slot_free, named, identified, versioned, bounded) = capture-stored store saved e in
    let found : lookup (has_state_id saved.state_id) (stored store saved).slots ≡ some saved =
      lookup-store text_key state_id_of store.slots saved saved.state_id slot_free
      ∙ first_if (lookup (has_state_id saved.state_id) store.slots) (text_eq_refl saved.state_id) in
    let fits = le→ltb (length saved.bytes) (length destination) room in
    (
      rw
          (
            same,
            restore,
            named,
            identified,
            versioned,
            found,
            text_eq_refl saved.identity.plugin_id,
            text_eq_refl saved.identity.class_id,
            text_eq_refl saved.identity.module_sha256,
            eq→== saved.state_version saved.state_version refl,
            fits,
          )
          refl,
      rw
          (
            same,
            restore_with_migration,
            named,
            identified,
            versioned,
            found,
            text_eq_refl saved.identity.plugin_id,
            text_eq_refl saved.identity.class_id,
            text_eq_refl saved.identity.module_sha256,
            eq→== saved.state_version saved.state_version refl,
            fits,
          )
          refl,
    )
  where
    first_if :
        {b : Bool} {x : Option SavedState} (y : Option SavedState)
        → b ≡ true
        → (if b then x else y) ≡ x
    first_if y e = rw e refl
