-- ===== src/Devices/Switch/Transaction.antt =====
-- The switch of the output device is a transaction.
use hibiki_dsp.Base.{
  ◌≡◌, ◌⊎◌, refl, sym, ap, Bool, true, false, if◌then◌else◌, Bool-cases, inl, inr, arith,
}
use hibiki_dsp.Devices.Catalog.{is_empty}
use hibiki_dsp.Devices.Switch.{
  SwitchState, unbound, binding, synced, write_pending, rebinding, degraded, Target, default_target,
  Switch, valid_target, opening, begin, is_preparing, prepare_complete, is_write_pending, commit,
  rollback, mark_degraded,
}

-- What each state promises of the pending and the active target.
abbrev pub StateHolds : Switch → SwitchState → Type 0
StateHolds switch unbound = (switch.active ≡ default_target) × (switch.pending ≡ default_target)
StateHolds switch synced = (valid_target switch.active ≡ true) × (switch.pending ≡ default_target)
StateHolds switch degraded = Unit
StateHolds switch _ = valid_target switch.pending ≡ true

pub record IsSwitch (switch : Switch) : Type 0 where
  pub state_holds : StateHolds switch switch.state
  pub active_valid : (switch.active ≡ default_target) ⊎ (valid_target switch.active ≡ true)

pub data SwitchCall : Type 0 where
  begins : Target → SwitchCall
  prepares commits rolls_back degrades : SwitchCall

unfoldable pub switch_after : Switch → SwitchCall → Switch
switch_after switch (begins target) = (begin switch target).0
switch_after switch prepares = (prepare_complete switch).0
switch_after switch commits = (commit switch).0
switch_after switch rolls_back = rollback switch
switch_after switch degrades = mark_degraded switch

begin-IsSwitch :
    (switch : Switch) (target : Target) → IsSwitch switch → IsSwitch (begin switch target).0
unfolding begin
begin-IsSwitch switch target v = elim (Bool-cases (valid_target target)) [
  | inr e ↦ rw (begin, e) v
  | inl e ↦
      rw (begin, e) (record { state_holds = opened e switch.state; active_valid = v.active_valid })
]
  where
    opened :
        valid_target target ≡ true
        → (s : SwitchState)
        → StateHolds (record switch { pending = target; state = opening s }) (opening s)
    opened e unbound = e
    opened e binding = e
    opened e synced = e
    opened e write_pending = e
    opened e rebinding = e
    opened e degraded = e

prepare-IsSwitch : (switch : Switch) → IsSwitch switch → IsSwitch (prepare_complete switch).0
unfolding prepare_complete
prepare-IsSwitch switch v = elim (Bool-cases (is_preparing switch.state)) [
  | inr e ↦ rw (prepare_complete, e) v
  | inl e ↦
      rw (prepare_complete, e)
        (record {
          state_holds = prepared switch.state e v.state_holds;
          active_valid = v.active_valid;
        })
]
  where
    prepared :
        (s : SwitchState)
        → is_preparing s ≡ true
        → StateHolds switch s
        → valid_target switch.pending ≡ true
    prepared binding e h = h
    prepared rebinding e h = h
    prepared unbound e h = cc
    prepared synced e h = cc
    prepared write_pending e h = h
    prepared degraded e h = cc

commit-IsSwitch : (switch : Switch) → IsSwitch switch → IsSwitch (commit switch).0
unfolding commit
commit-IsSwitch switch v = elim (Bool-cases (is_write_pending switch.state)) [
  | inr e ↦ rw (commit, e) v
  | inl e ↦
      let ready = written switch.state e v.state_holds in
      rw (commit, e) (record { state_holds = (ready, refl); active_valid = inr ready })
]
  where
    written :
        (s : SwitchState)
        → is_write_pending s ≡ true
        → StateHolds switch s
        → valid_target switch.pending ≡ true
    written binding e h = h
    written rebinding e h = h
    written unbound e h = cc
    written synced e h = cc
    written write_pending e h = h
    written degraded e h = cc

valid_target-named :
    (target : Target) → valid_target target ≡ true → is_empty target.endpoint_id ≡ false
unfolding valid_target
valid_target-named target h = ground arith

rollback-IsSwitch : (switch : Switch) → IsSwitch switch → IsSwitch (rollback switch)
unfolding rollback
rollback-IsSwitch switch v = elim v.active_valid [
  | inl e ↦
      let empty = ap (λ t. is_empty t.endpoint_id) e in
      rw (rollback, empty) (record { state_holds = (e, refl); active_valid = v.active_valid })
  | inr e ↦
      rw (rollback, valid_target-named switch.active e)
        (record { state_holds = (e, refl); active_valid = v.active_valid })
]

-- Every operation keeps the switch well formed: the active target is the initial one or valid; while unbound
-- it is the initial one, while synced it is valid, and in both nothing is pending; in every other state but
-- the degraded one the pending target is valid.
pub switch_after-IsSwitch :
    (switch : Switch) (call : SwitchCall) → IsSwitch switch → IsSwitch (switch_after switch call)
unfolding switch_after mark_degraded
switch_after-IsSwitch switch (begins target) v = begin-IsSwitch switch target v
switch_after-IsSwitch switch prepares v = prepare-IsSwitch switch v
switch_after-IsSwitch switch commits v = commit-IsSwitch switch v
switch_after-IsSwitch switch rolls_back v = rollback-IsSwitch switch v
switch_after-IsSwitch switch degrades v = record { state_holds = tt; active_valid = v.active_valid }

-- A switch at rest.
abbrev pub is_resting : SwitchState → Bool
is_resting unbound = true
is_resting synced = true
is_resting _ = false

-- From rest, an accepted target is active and the switch synced once it is prepared and committed; and a
-- rollback, before or after the preparation, leaves the switch as it was.
pub begin-transaction :
    (switch : Switch) (target : Target)
    → IsSwitch switch
    → is_resting switch.state ≡ true
    → (begin switch target).1 ≡ true
    → let begun = (begin switch target).0 in
      (commit (prepare_complete begun).0
        ≡ (record { state = synced; active = target; pending = default_target }, true))
      × (rollback begun ≡ switch)
      × (rollback (prepare_complete begun).0 ≡ switch)
unfolding begin prepare_complete commit rollback
begin-transaction switch target v rest ok =
    let (state_same, pending_same) = at_rest switch.state rest v.state_holds in
    let accepted : valid_target target ≡ true = ground arith in
    let open_state = opening-is_preparing switch.state in
    (
      rw (begin, accepted, prepare_complete, open_state, commit) refl,
      rw (begin, accepted) (restored state_same pending_same (opening switch.state) target),
      rw (begin, accepted, prepare_complete, open_state)
          (restored state_same pending_same write_pending target),
    )
  where
    opening-is_preparing : (s : SwitchState) → is_preparing (opening s) ≡ true
    opening-is_preparing unbound = refl
    opening-is_preparing binding = refl
    opening-is_preparing synced = refl
    opening-is_preparing write_pending = refl
    opening-is_preparing rebinding = refl
    opening-is_preparing degraded = refl

    restored :
        (if is_empty switch.active.endpoint_id then unbound else synced) ≡ switch.state
        → switch.pending ≡ default_target
        → (s : SwitchState) (p : Target)
        → rollback (record { state = s; active = switch.active; pending = p }) ≡ switch
    restored state_same pending_same s p =
        λ i. record { state = state_same i; active = switch.active; pending = sym pending_same i }

    at_rest :
        (s : SwitchState)
        → is_resting s ≡ true
        → StateHolds switch s
        → ((if is_empty switch.active.endpoint_id then unbound else synced) ≡ s)
          × (switch.pending ≡ default_target)
    at_rest unbound r h = (rw (ap (λ t. is_empty t.endpoint_id) h.0) refl, h.1)
    at_rest synced r h = (rw (valid_target-named switch.active h.0) refl, h.1)
    at_rest binding r h = cc
    at_rest write_pending r h = cc
    at_rest rebinding r h = cc
    at_rest degraded r h = cc
