-- ===== src/Tests/Vst.antt =====
-- The plugin states and the migration rules.
use hibiki_dsp.Base.{
  ℕ, ◌≡◌, ◌≤◌, refl, Bool, true, List, [], ◌∷◌, Option, none, some, arith, replicate, Text, length,
}
use hibiki_dsp.Utf8.Nul.{contains_nul}
use hibiki_dsp.Base.Slots.{find_slot, free_slot, occupied, lookup}
use hibiki_dsp.Vst.PluginState.{
  StateIdentity, ok, SavedState, StateStore, Restored, Handler, empty_states, capture, restore,
  overwrite, restore_with_migration, valid_state_id, valid_state_identity, all_xdigits,
  has_hash_byte, migrated,
}
use hibiki_dsp.Vst.PluginState.Valid.{IsStateStore, state_after, captures, state_after-IsStateStore}
use hibiki_dsp.Vst.PluginState.Roundtrip.{restore-capture}
use hibiki_dsp.Vst.Migration.Registered.{answered, restore_migrated-register_rule}
use hibiki_dsp.Vst.Migration.{no_migrations, register_rule, restore_migrated, search_rule}
use hibiki_dsp.Vst.Migration.Valid.{
  IsMigrations, migrations_after, registers, migrations_after-IsMigrations,
}

abbrev plugin : StateIdentity
plugin = record {
  plugin_id = 112 ∷ [];
  class_id = replicate 32 65;
  module_sha256 = 1 ∷ replicate 31 0;
}

abbrev saved : SavedState
saved = record { state_id = 115 ∷ []; identity = plugin; state_version = 3; bytes = 7 ∷ 8 ∷ [] }

abbrev stored : StateStore
stored = state_after empty_states (captures saved)

empty-IsStateStore : IsStateStore empty_states
unfolding occupied
empty-IsStateStore = record { size = refl; counted = refl; unique = tt; entries = tt }

state_after-IsStateStore_example : IsStateStore (state_after empty_states (captures saved))
state_after-IsStateStore_example =
    state_after-IsStateStore empty_states (captures saved) empty-IsStateStore

capture-ok : (capture empty_states (115 ∷ []) plugin 3 (7 ∷ 8 ∷ [])).1 ≡ ok
unfolding capture find_slot free_slot valid_state_id valid_state_identity all_xdigits has_hash_byte
    contains_nul
capture-ok = refl

-- The id "A b" is taken, although SPEC-0008 has no such characters.
loose_id : (capture empty_states (65 ∷ 32 ∷ 98 ∷ []) plugin 3 []).1 ≡ ok
unfolding capture find_slot free_slot valid_state_id valid_state_identity all_xdigits has_hash_byte
    contains_nul
loose_id = refl

restore-capture_example :
    let after = (capture empty_states (115 ∷ []) plugin 3 (7 ∷ 8 ∷ [])).0 in
    let whole : Restored = record {
      result = ok;
      destination = overwrite (0 ∷ 0 ∷ 0 ∷ []) (7 ∷ 8 ∷ []);
      bytes_written = 2;
    } in
    (restore after (115 ∷ []) plugin 3 (0 ∷ 0 ∷ 0 ∷ []) ≡ whole)
    × (restore_with_migration after (115 ∷ []) plugin 3 (0 ∷ 0 ∷ 0 ∷ []) none ≡ whole)
restore-capture_example =
    restore-capture empty_states saved (0 ∷ 0 ∷ 0 ∷ []) none capture-ok (omega arith)

-- A handler that reports one byte written.
abbrev handler : Handler
handler source bytes target destination = record {
  result = ok;
  destination = destination;
  bytes_written = 1;
}

no_migrations-IsMigrations : IsMigrations no_migrations
unfolding occupied
no_migrations-IsMigrations = record { size = refl; counted = refl; unique = tt }

migrations_after-IsMigrations_example :
    IsMigrations (migrations_after no_migrations (registers plugin 1 5 (some handler)))
migrations_after-IsMigrations_example =
    migrations_after-IsMigrations no_migrations (registers plugin 1 5 (some handler))
      no_migrations-IsMigrations

-- The rule from version 1 is used for a state of version 3.
rule_for_other_source :
    (restore_migrated
      (register_rule no_migrations plugin 1 5 (some handler)).0
      stored
      (115 ∷ [])
      plugin
      5
      (0 ∷ 0 ∷ [])).result
    ≡ ok
unfolding restore_migrated restore restore_with_migration migrated search_rule register_rule
    state_after capture find_slot free_slot lookup valid_state_id valid_state_identity all_xdigits
    has_hash_byte contains_nul hibiki_dsp.Base.Tests.text_eq
rule_for_other_source = refl

rule_registered : (register_rule no_migrations plugin 3 5 (some handler)).1 ≡ ok
unfolding register_rule find_slot free_slot lookup valid_state_identity all_xdigits has_hash_byte
    contains_nul
rule_registered = refl

restore_migrated-register_rule_example :
    let known = (capture empty_states (115 ∷ []) plugin 3 (7 ∷ 8 ∷ [])).0 in
    let rules = (register_rule no_migrations plugin 3 5 (some handler)).0 in
    restore_migrated rules known (115 ∷ []) plugin 5 (0 ∷ 0 ∷ [])
    ≡ answered (0 ∷ 0 ∷ []) 2 (handler 3 (7 ∷ 8 ∷ []) 5 (0 ∷ 0 ∷ []))
restore_migrated-register_rule_example =
    restore_migrated-register_rule no_migrations empty_states saved 5 handler (0 ∷ 0 ∷ [])
      no_migrations-IsMigrations capture-ok rule_registered
