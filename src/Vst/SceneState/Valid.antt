-- ===== src/Vst/SceneState/Valid.antt =====
-- Every operation keeps the coordinator of the scene states well formed.
use mathlib.Core.Path.{subst}
use hibiki_dsp.Base.{
  ◌+◌, ◌<◌, ◌≡◌, ◌∙◌, refl, sym, ap, true, false, [], ◌∷◌, some, ◌==◌, if◌then◌else◌, length,
  length-set, set, Text, Bool-cases, Option-cases, inl, inr, arith,
}
use hibiki_dsp.Base.Key.{Key, text_key, pair_key}
use hibiki_dsp.Base.Slots.{
  find_slot, target_slot, occupied, find_slot-le, free_slot-le, occupied-clear,
}
use hibiki_dsp.Base.Slots.Lookup.{Every, Every-set, Every-clear}
use hibiki_dsp.Base.Slots.Keyed.{UniqueKeys, occupied-store, UniqueKeys-remove, UniqueKeys-store}
use hibiki_dsp.Vst.PluginState.{valid_state_identity}
use hibiki_dsp.Vst.SceneState.{
  SceneBinding, Sources, Coordinator, max_bindings, valid_id, is_binding, is_ok,
  prepare_coordinator, clear_coordinator, bind, unbind,
}
use hibiki_dsp.Vst.PluginState.Accepted.{
  IsId, IsIdentity, contains_nul-All, valid_state_identity-IsIdentity,
}

abbrev pub ids_of : SceneBinding → Text × Text
ids_of binding = (binding.scene_id, binding.state_id)

abbrev pub ids_key : Key (Text × Text)
ids_key = pair_key text_key text_key

pub valid_id-IsId : (id : Text) → valid_id id ≡ true → IsId 64 id
unfolding valid_id
valid_id-IsId [] h = cc
valid_id-IsId (c ∷ id) h = record {
  nonempty = ground arith;
  limited = ground arith;
  unterminated = contains_nul-All (c ∷ id) (ground arith);
}

pub record IsBound (binding : SceneBinding) : Type 0 where
  pub scene_named : valid_id binding.scene_id ≡ true
  pub state_named : valid_id binding.state_id ≡ true
  pub identified : valid_state_identity binding.identity ≡ true
  pub versioned : (binding.target_state_version == 0) ≡ false
  pub scene_spelled : IsId 64 binding.scene_id
  pub state_spelled : IsId 64 binding.state_id
  pub identity_spelled : IsIdentity binding.identity

pub record IsCoordinator (coordinator : Coordinator) : Type 0 where
  pub size : length coordinator.slots ≡ max_bindings
  pub counted : coordinator.binding_count ≡ occupied coordinator.slots
  pub unique : UniqueKeys ids_key ids_of coordinator.slots
  pub entries : Every IsBound coordinator.slots

abbrev bound : Coordinator → SceneBinding → Coordinator
bound coordinator binding = record coordinator {
  slots =
      set coordinator.slots
        (target_slot (is_binding binding.scene_id binding.state_id) coordinator.slots)
        (some binding);
  binding_count =
      coordinator.binding_count
      + (if find_slot (is_binding binding.scene_id binding.state_id) coordinator.slots
            == length coordinator.slots
          then 1
          else 0);
}

-- A binding that is accepted is written where the slot search says, and any other changes nothing.
bind-bound :
    (coordinator : Coordinator) (binding : SceneBinding)
    → is_ok (bind coordinator binding).1 ≡ true
    → ((bind coordinator binding).0 ≡ bound coordinator binding)
      × (target_slot (is_binding binding.scene_id binding.state_id) coordinator.slots
          < length coordinator.slots)
      × (valid_id binding.scene_id ≡ true)
      × (valid_id binding.state_id ≡ true)
      × (valid_state_identity binding.identity ≡ true)
      × ((binding.target_state_version == 0) ≡ false)
unfolding bind target_slot
bind-bound coordinator binding e = ground (
  arith,
  Option-cases coordinator.sources,
  find_slot-le (is_binding binding.scene_id binding.state_id) coordinator.slots,
  free_slot-le coordinator.slots,
)

bind-refused :
    (coordinator : Coordinator) (binding : SceneBinding)
    → is_ok (bind coordinator binding).1 ≡ false
    → (bind coordinator binding).0 ≡ coordinator
unfolding bind
bind-refused coordinator binding e = ground (arith, Option-cases coordinator.sources)

pub data CoordinatorCall : Type 0 where
  prepares : Sources → CoordinatorCall
  binds : SceneBinding → CoordinatorCall
  removes : Text → Text → CoordinatorCall
  clears : CoordinatorCall

unfoldable pub coordinator_after : Coordinator → CoordinatorCall → Coordinator
coordinator_after coordinator (prepares sources) = (prepare_coordinator coordinator sources).0
coordinator_after coordinator (binds binding) = (bind coordinator binding).0
coordinator_after coordinator (removes scene_id state_id) = (unbind coordinator scene_id state_id).0
coordinator_after coordinator clears = clear_coordinator coordinator

bind-IsCoordinator :
    (coordinator : Coordinator) (binding : SceneBinding)
    → IsCoordinator coordinator
    → IsCoordinator (bind coordinator binding).0
bind-IsCoordinator coordinator binding v = elim (Bool-cases (is_ok (bind coordinator binding).1)) [
  | inr not_taken ↦ subst IsCoordinator (sym (bind-refused coordinator binding not_taken)) v
  | inl taken ↦
      let (same, room, scene_named, state_named, identified, versioned) =
        bind-bound coordinator binding taken in
      subst IsCoordinator (sym same) (record {
        size = length-set coordinator.slots _ _ ∙ v.size;
        counted =
            ap
              (λ n.
                n
                + (if find_slot (is_binding binding.scene_id binding.state_id) coordinator.slots
                      == length coordinator.slots
                    then 1
                    else 0))
              v.counted
            ∙ sym (occupied-store ids_key ids_of coordinator.slots binding room);
        unique = UniqueKeys-store ids_key ids_of coordinator.slots binding room v.unique;
        entries =
            Every-set _ coordinator.slots _ binding
              (record {
                scene_named = scene_named;
                state_named = state_named;
                identified = identified;
                versioned = versioned;
                scene_spelled = valid_id-IsId binding.scene_id scene_named;
                state_spelled = valid_id-IsId binding.state_id state_named;
                identity_spelled = valid_state_identity-IsIdentity binding.identity identified;
              })
              v.entries;
      })
]

unbind-IsCoordinator :
    (coordinator : Coordinator) (scene_id state_id : Text)
    → IsCoordinator coordinator
    → IsCoordinator (unbind coordinator scene_id state_id).0
unfolding unbind
unbind-IsCoordinator coordinator scene_id state_id v =
    elim (Bool-cases
      (find_slot (is_binding scene_id state_id) coordinator.slots == length coordinator.slots)) [
        | inl missing ↦ rw (unbind, missing) v
        | inr found ↦
            rw (unbind, found)
              (record {
                size = length-set coordinator.slots _ _ ∙ v.size;
                counted = omega (
                  arith,
                  v.counted,
                  occupied-clear (is_binding scene_id state_id) coordinator.slots (inside found),
                );
                unique = UniqueKeys-remove ids_key ids_of coordinator.slots _ v.unique;
                entries = Every-clear _ coordinator.slots _ v.entries;
              })
      ]
  where
    inside :
        (find_slot (is_binding scene_id state_id) coordinator.slots == length coordinator.slots)
          ≡ false
        → find_slot (is_binding scene_id state_id) coordinator.slots < length coordinator.slots
    inside found = ground (arith, find_slot-le (is_binding scene_id state_id) coordinator.slots)

-- Every operation of the coordinator, whatever it answers, keeps its 16 slots, the count the number of occupied
-- ones, no state bound twice in a scene, and each binding with what the code asks of it: a scene id and a state id
-- of 1 to 64 bytes without NUL, a plugin id of 1 to 128 bytes without NUL, a class id of 32 hexadecimal digits, a
-- module hash that is not all zero, and a nonzero version. SPEC-0008 has 31 bytes for a scene id, and the characters
-- [a-z0-9][a-z0-9._-]* for these ids; the code does not ask for them.
pub coordinator_after-IsCoordinator :
    (coordinator : Coordinator) (call : CoordinatorCall)
    → IsCoordinator coordinator
    → IsCoordinator (coordinator_after coordinator call)
unfolding coordinator_after prepare_coordinator clear_coordinator occupied
coordinator_after-IsCoordinator coordinator (prepares sources) v = record {
  size = v.size;
  counted = v.counted;
  unique = v.unique;
  entries = v.entries;
}
coordinator_after-IsCoordinator coordinator (binds binding) v =
    bind-IsCoordinator coordinator binding v
coordinator_after-IsCoordinator coordinator (removes scene_id state_id) v =
    unbind-IsCoordinator coordinator scene_id state_id v
coordinator_after-IsCoordinator coordinator clears v =
    rw (coordinator_after, clear_coordinator, v.size)
      (record { size = refl; counted = refl; unique = tt; entries = tt })
