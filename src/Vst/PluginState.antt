-- ===== src/Vst/PluginState.antt =====
-- vst-host/include/hibiki/vst3_plugin_state.hpp and vst-host/src/vst3_plugin_state.cpp: the store of
-- plugin states.
pub mod Accepted
pub mod Roundtrip
pub mod Valid
use hibiki_dsp.Base.{
  ℕ, ◌+◌, ◌-◌, ◌*◌, Bool, true, false, ◌&&◌, ◌||◌, not, List, [], ◌∷◌, ◌++◌, Option, none, some,
  ltb, leb, ◌==◌, if◌then◌else◌, length, set, take, drop, replicate, Text, text_eq, min,
}
use hibiki_dsp.Base.Slots.{find_slot, free_slot, lookup}
use hibiki_dsp.Utf8.Nul.{contains_nul}
use hibiki_dsp.Devices.Catalog.{is_empty}

abbrev pub max_states : ℕ
max_states = 16

abbrev pub max_state_id_bytes : ℕ
max_state_id_bytes = 64

abbrev pub max_plugin_id_bytes : ℕ
max_plugin_id_bytes = 128

abbrev pub max_state_bytes : ℕ
max_state_bytes = 1024 * 1024

-- `module_sha256` is the list of its 32 bytes.
pub record StateIdentity : Type 0 where
  pub plugin_id : Text
  pub class_id : Text
  pub module_sha256 : List ℕ

pub data StateResult : Type 0 where
  ok invalid_argument capacity_exhausted missing identity_mismatch version_mismatch : StateResult
  output_too_small migration_unavailable migration_failed migration_output_too_large : StateResult

-- `std::isxdigit` in the "C" locale.
abbrev pub isxdigit : ℕ → Bool
isxdigit c = leb 48 c && leb c 57 || leb 65 c && leb c 70 || leb 97 c && leb c 102

unfoldable pub all_xdigits : Text → Bool
all_xdigits [] = true
all_xdigits (c ∷ cs) = if not (isxdigit c) then false else all_xdigits cs

abbrev pub valid_hex_class_id : Text → Bool
valid_hex_class_id class_id = if not (length class_id == 32) then false else all_xdigits class_id

unfoldable pub has_hash_byte : List ℕ → Bool
has_hash_byte [] = false
has_hash_byte (byte ∷ bytes) = if not (byte == 0) then true else has_hash_byte bytes

abbrev pub same_state_identity : StateIdentity → StateIdentity → Bool
same_state_identity left right =
    text_eq left.plugin_id right.plugin_id
    && text_eq left.class_id right.class_id
    && text_eq left.module_sha256 right.module_sha256

unfoldable pub valid_state_identity : StateIdentity → Bool
valid_state_identity identity =
    not (is_empty identity.plugin_id)
    && leb (length identity.plugin_id) max_plugin_id_bytes
    && not (contains_nul identity.plugin_id)
    && valid_hex_class_id identity.class_id
    && has_hash_byte identity.module_sha256

unfoldable pub valid_state_id : Text → Bool
valid_state_id state_id =
    not (is_empty state_id)
    && leb (length state_id) max_state_id_bytes
    && not (contains_nul state_id)

pub record SavedState : Type 0 where
  pub state_id : Text
  pub identity : StateIdentity
  pub state_version : ℕ
  pub bytes : List ℕ

-- `slots_` and `count_`.
pub record StateStore : Type 0 where
  pub slots : List (Option SavedState)
  pub count : ℕ

abbrev pub empty_states : StateStore
empty_states = record { slots = replicate max_states none; count = 0 }

abbrev pub has_state_id : Text → SavedState → Bool
has_state_id state_id saved = text_eq saved.state_id state_id

-- The candidate that `capture` builds.
abbrev pub saved_state : Text → StateIdentity → ℕ → List ℕ → SavedState
saved_state state_id identity state_version bytes = record {
  state_id = state_id;
  identity = identity;
  state_version = state_version;
  bytes = bytes;
}

unfoldable pub capture : StateStore → Text → StateIdentity → ℕ → List ℕ → StateStore × StateResult
capture store state_id identity state_version bytes =
    let saved = saved_state state_id identity state_version bytes in
    let index = find_slot (has_state_id state_id) store.slots in
    if not (valid_state_id state_id)
      || not (valid_state_identity identity)
      || (state_version == 0)
      || ltb max_state_bytes (length bytes)
    then (store, invalid_argument)
    else if index == length store.slots
    then (if free_slot store.slots == length store.slots then (store, capacity_exhausted) else (
      record {
        slots = set store.slots (free_slot store.slots) (some saved);
        count = store.count + 1;
      },
      ok,
    ))
    else (record store { slots = set store.slots index (some saved) }, ok)

-- What a restore leaves: the caller's buffer, and `bytes_written`.
pub record Restored : Type 0 where
  pub result : StateResult
  pub destination : List ℕ
  pub bytes_written : ℕ

-- `std::memcpy` to the front of a buffer that is long enough.
abbrev pub overwrite : List ℕ → List ℕ → List ℕ
overwrite destination bytes = bytes ++ drop (length bytes) destination

abbrev pub refused : List ℕ → StateResult → Restored
refused destination result = record {
  result = result;
  destination = destination;
  bytes_written = 0;
}

abbrev pub copied : SavedState → List ℕ → Restored
copied saved destination =
    if ltb (length destination) (length saved.bytes)
    then refused destination output_too_small
    else record {
      result = ok;
      destination = overwrite destination saved.bytes;
      bytes_written = length saved.bytes;
    }

unfoldable pub restore : StateStore → Text → StateIdentity → ℕ → List ℕ → Restored
restore store state_id expected version destination =
    if not (valid_state_id state_id) || not (valid_state_identity expected) || (version == 0)
    then refused destination invalid_argument
    else elim (lookup (has_state_id state_id) store.slots) [
      | none ↦ refused destination missing
      | some saved ↦
          if not (same_state_identity saved.identity expected)
          then refused destination identity_mismatch
          else if not (saved.state_version == version)
          then refused destination version_mismatch
          else copied saved destination
    ]

-- What a migration handler is given and leaves: the version and bytes of the state, the version wanted, and
-- the buffer, which it may write.
abbrev pub Handler : Type 0
Handler = ℕ → List ℕ → ℕ → List ℕ → Restored

abbrev pub is_ok : StateResult → Bool
is_ok ok = true
is_ok _ = false

abbrev pub handler_failure : StateResult → StateResult
handler_failure migration_output_too_large = migration_output_too_large
handler_failure _ = migration_failed

-- The end of `restore_with_migration`, once the handler has run on the first `bounded_size` bytes.
unfoldable pub migrated : List ℕ → ℕ → Restored → Restored
migrated destination bounded_size answer =
    let written = answer.destination ++ drop bounded_size destination in
    if not (is_ok answer.result)
    then refused written (handler_failure answer.result)
    else if ltb bounded_size answer.bytes_written || ltb max_state_bytes answer.bytes_written
    then refused written migration_output_too_large
    else record { result = ok; destination = written; bytes_written = answer.bytes_written }

unfoldable pub restore_with_migration :
    StateStore → Text → StateIdentity → ℕ → List ℕ → Option Handler → Restored
unfolding migrated
restore_with_migration store state_id expected version destination migration =
    if not (valid_state_id state_id) || not (valid_state_identity expected) || (version == 0)
    then refused destination invalid_argument
    else elim (lookup (has_state_id state_id) store.slots) [
      | none ↦ refused destination missing
      | some saved ↦
          if not (same_state_identity saved.identity expected)
          then refused destination identity_mismatch
          else if saved.state_version == version
          then copied saved destination
          else elim migration [
            | none ↦ refused destination migration_unavailable
            | some handler ↦
                let bounded_size = min (length destination) max_state_bytes in
                migrated destination bounded_size
                  (handler saved.state_version saved.bytes version (take bounded_size destination))
          ]
    ]

-- The result, the version and the size of the state.
unfoldable pub inspect : StateStore → Text → StateIdentity → StateResult × ℕ × ℕ
inspect store state_id expected =
    if not (valid_state_id state_id) || not (valid_state_identity expected)
    then (invalid_argument, 0, 0)
    else elim (lookup (has_state_id state_id) store.slots) [
      | none ↦ (missing, 0, 0)
      | some saved ↦
          if not (same_state_identity saved.identity expected)
          then (identity_mismatch, 0, 0)
          else (ok, saved.state_version, length saved.bytes)
    ]

unfoldable pub remove_state : StateStore → Text → StateStore × Bool
remove_state store state_id =
    let index = find_slot (has_state_id state_id) store.slots in
    if index == length store.slots
    then (store, false)
    else (record { slots = set store.slots index none; count = store.count - 1 }, true)

unfoldable pub clear_states : StateStore → StateStore
clear_states store = record { slots = replicate (length store.slots) none; count = 0 }
