-- ===== src/Vst/PluginState/Valid.antt =====
-- Every operation keeps the store of plugin states well formed.
use mathlib.Core.Path.{subst}
use hibiki_dsp.Base.{
  ◌+◌, ◌<◌, ◌≤◌, ◌≡◌, ◌≢◌, ◌⊎◌, ◌∙◌, refl, sym, ap, true, false, some, ◌==◌, if◌then◌else◌, length,
  length-set, set, Text, Bool-cases, inl, inr, arith,
}
use hibiki_dsp.Base.Key.{text_key}
use hibiki_dsp.Base.Slots.{
  find_slot, target_slot, occupied, find_slot-le, free_slot-le, occupied-clear,
}
use hibiki_dsp.Base.Slots.Lookup.{Every, Every-set, Every-clear}
use hibiki_dsp.Base.Slots.Keyed.{UniqueKeys, occupied-store, UniqueKeys-remove, UniqueKeys-store}
use hibiki_dsp.Vst.PluginState.{
  StateResult, ok, SavedState, StateStore, max_states, max_state_bytes, has_state_id,
  valid_state_id, valid_state_identity, capture, remove_state, clear_states,
}
use hibiki_dsp.Vst.PluginState.Accepted.{
  IsId, IsIdentity, valid_state_id-IsId, valid_state_identity-IsIdentity,
}

abbrev pub state_id_of : SavedState → Text
state_id_of saved = saved.state_id

pub record IsSaved (saved : SavedState) : Type 0 where
  pub named : valid_state_id saved.state_id ≡ true
  pub identified : valid_state_identity saved.identity ≡ true
  pub versioned : (saved.state_version == 0) ≡ false
  pub bounded : length saved.bytes ≤ max_state_bytes
  pub state_named : IsId 64 saved.state_id
  pub spelled : IsIdentity saved.identity

pub record IsStateStore (store : StateStore) : Type 0 where
  pub size : length store.slots ≡ max_states
  pub counted : store.count ≡ occupied store.slots
  pub unique : UniqueKeys text_key state_id_of store.slots
  pub entries : Every IsSaved store.slots

abbrev pub stored : StateStore → SavedState → StateStore
stored store saved = record {
  slots = set store.slots (target_slot (has_state_id saved.state_id) store.slots) (some saved);
  count =
      store.count
      + (if find_slot (has_state_id saved.state_id) store.slots == length store.slots
          then 1
          else 0);
}

-- A capture that answers `ok` writes where the slot search says, and any other changes nothing.
pub capture-stored :
    (store : StateStore) (saved : SavedState)
    → (capture store saved.state_id saved.identity saved.state_version saved.bytes).1 ≡ ok
    → ((capture store saved.state_id saved.identity saved.state_version saved.bytes).0
        ≡ stored store saved)
      × (target_slot (has_state_id saved.state_id) store.slots < length store.slots)
      × (valid_state_id saved.state_id ≡ true)
      × (valid_state_identity saved.identity ≡ true)
      × ((saved.state_version == 0) ≡ false)
      × (length saved.bytes ≤ max_state_bytes)
unfolding capture target_slot
capture-stored store saved e =
    ground (arith, find_slot-le (has_state_id saved.state_id) store.slots, free_slot-le store.slots)

pub capture-refused :
    (store : StateStore) (saved : SavedState)
    → (capture store saved.state_id saved.identity saved.state_version saved.bytes).1 ≢ ok
    → (capture store saved.state_id saved.identity saved.state_version saved.bytes).0 ≡ store
unfolding capture
capture-refused store saved e = ground arith

pub data StateCall : Type 0 where
  captures : SavedState → StateCall
  removes : Text → StateCall
  clears : StateCall

unfoldable pub state_after : StateStore → StateCall → StateStore
state_after store (captures saved) =
    (capture store saved.state_id saved.identity saved.state_version saved.bytes).0
state_after store (removes state_id) = (remove_state store state_id).0
state_after store clears = clear_states store

result_cases : (r : StateResult) → (r ≡ ok) ⊎ (r ≢ ok)
result_cases ok = inl refl
result_cases StateResult.invalid_argument = inr λ e. cc
result_cases StateResult.capacity_exhausted = inr λ e. cc
result_cases StateResult.missing = inr λ e. cc
result_cases StateResult.identity_mismatch = inr λ e. cc
result_cases StateResult.version_mismatch = inr λ e. cc
result_cases StateResult.output_too_small = inr λ e. cc
result_cases StateResult.migration_unavailable = inr λ e. cc
result_cases StateResult.migration_failed = inr λ e. cc
result_cases StateResult.migration_output_too_large = inr λ e. cc

capture-IsStateStore :
    (store : StateStore) (saved : SavedState)
    → IsStateStore store
    → IsStateStore (state_after store (captures saved))
unfolding state_after
capture-IsStateStore store saved v =
    elim (result_cases
      (capture store saved.state_id saved.identity saved.state_version saved.bytes).1) [
        | inr ne ↦ subst IsStateStore (sym (capture-refused store saved ne)) v
        | inl e ↦
            let (same, room, named, identified, versioned, bounded) =
              capture-stored store saved e in
            subst IsStateStore (sym same) (record {
              size = length-set store.slots _ _ ∙ v.size;
              counted =
                  ap
                    (λ n.
                      n
                      + (if find_slot (has_state_id saved.state_id) store.slots
                            == length store.slots
                          then 1
                          else 0))
                    v.counted
                  ∙ sym (occupied-store text_key state_id_of store.slots saved room);
              unique = UniqueKeys-store text_key state_id_of store.slots saved room v.unique;
              entries =
                  Every-set _ store.slots _ saved
                    (record {
                      named = named;
                      identified = identified;
                      versioned = versioned;
                      bounded = bounded;
                      state_named = valid_state_id-IsId saved.state_id named;
                      spelled = valid_state_identity-IsIdentity saved.identity identified;
                    })
                    v.entries;
            })
      ]

remove-IsStateStore :
    (store : StateStore) (state_id : Text)
    → IsStateStore store
    → IsStateStore (remove_state store state_id).0
unfolding remove_state
remove-IsStateStore store state_id v =
    elim (Bool-cases (find_slot (has_state_id state_id) store.slots == length store.slots)) [
      | inl missing ↦ rw (remove_state, missing) v
      | inr found ↦
          rw (remove_state, found)
            (record {
              size = length-set store.slots _ _ ∙ v.size;
              counted = omega (
                arith,
                v.counted,
                occupied-clear (has_state_id state_id) store.slots (inside found),
              );
              unique = UniqueKeys-remove text_key state_id_of store.slots _ v.unique;
              entries = Every-clear _ store.slots _ v.entries;
            })
    ]
  where
    inside :
        (find_slot (has_state_id state_id) store.slots == length store.slots) ≡ false
        → find_slot (has_state_id state_id) store.slots < length store.slots
    inside found = ground (arith, find_slot-le (has_state_id state_id) store.slots)

clear-IsStateStore : (store : StateStore) → IsStateStore store → IsStateStore (clear_states store)
unfolding clear_states occupied
clear-IsStateStore store v =
    rw (v.size) (record { size = refl; counted = refl; unique = tt; entries = tt })

-- Every operation that changes the store, whatever it answers, keeps its 16 slots, the count the number of
-- occupied ones, the state ids distinct, and each state with what the code asks of it: an id of 1 to 64 bytes
-- without NUL, a plugin id of 1 to 128 bytes without NUL, a class id of 32 hexadecimal digits, a module hash that
-- is not all zero, a nonzero version, and at most 1 MiB of bytes. The code does not ask that the characters of
-- the two ids are those of [a-z0-9][a-z0-9._-]*, as SPEC-0008 does.
pub state_after-IsStateStore :
    (store : StateStore) (call : StateCall)
    → IsStateStore store
    → IsStateStore (state_after store call)
unfolding state_after
state_after-IsStateStore store (captures saved) v = capture-IsStateStore store saved v
state_after-IsStateStore store (removes state_id) v = remove-IsStateStore store state_id v
state_after-IsStateStore store clears v = clear-IsStateStore store v
