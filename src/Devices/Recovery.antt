-- ===== src/Devices/Recovery.antt =====
-- src/hub/include/hibiki/device_recovery.hpp and src/hub/src/device_recovery.cpp, without
-- `safe_restart_state`, a function on volumes.
pub mod Invariant
pub mod Rebind
use hibiki_dsp.Base.{
  ℕ, ◌≡◌, Bool, true, false, ◌&&◌, ◌||◌, not, Option, none, some, leb, ◌==◌, if◌then◌else◌, Text,
}
use hibiki_dsp.Base.Entries.{find_entry}
use hibiki_dsp.Devices.Catalog.{Device, Catalog, render, is_empty, find, selectable}
use hibiki_dsp.Devices.Switch.{
  Target, Switch, new_switch, begin, prepare_complete, commit, rollback,
}

pub data EventKind : Type 0 where
  default_changed endpoint_added endpoint_removed endpoint_state_changed endpoint_invalidated :
      EventKind
  format_changed audio_service_restarted : EventKind

pub record RecoveryEvent : Type 0 where
  pub sequence : ℕ
  pub kind : EventKind
  pub affects_active_endpoint : Bool

pub data RecoveryState : Type 0 where
  stable rebind_pending rebinding degraded : RecoveryState

pub record Recovery : Type 0 where
  pub state : RecoveryState
  pub transaction : Switch
  pub last_event_sequence : ℕ

abbrev pub new_recovery : Recovery
new_recovery = record { state = stable; transaction = new_switch; last_event_sequence = 0 }

-- Whether an event of this kind asks for a rebind.
unfoldable pub asks_rebind : EventKind → Bool → Target → Bool
asks_rebind default_changed affects active = true
asks_rebind endpoint_added affects active = true
asks_rebind endpoint_removed affects active = affects || is_empty active.endpoint_id
asks_rebind endpoint_invalidated affects active = affects || is_empty active.endpoint_id
asks_rebind format_changed affects active = affects || is_empty active.endpoint_id
asks_rebind audio_service_restarted affects active = affects || is_empty active.endpoint_id
asks_rebind endpoint_state_changed affects active = affects

unfoldable pub observe : Recovery → RecoveryEvent → Recovery × Bool
observe recovery event =
    if (event.sequence == 0) || leb event.sequence recovery.last_event_sequence
    then (recovery, false)
    else let seen = record recovery { last_event_sequence = event.sequence } in
      if asks_rebind event.kind event.affects_active_endpoint recovery.transaction.active
      then (record seen { state = rebind_pending }, true)
      else (seen, false)

abbrev pub may_rebind : RecoveryState → Bool
may_rebind rebind_pending = true
may_rebind degraded = true
may_rebind _ = false

unfoldable pub begin_rebind : Recovery → Target → Recovery × Bool
begin_rebind recovery target =
    if not (may_rebind recovery.state)
    then (recovery, false)
    else if not ((begin recovery.transaction target).1)
    then (
      record recovery { transaction = (begin recovery.transaction target).0; state = degraded },
      false,
    )
    else (
      record recovery { transaction = (begin recovery.transaction target).0; state = rebinding },
      true,
    )

abbrev pub target_of : Device → Target
target_of device = record {
  endpoint_id = device.endpoint_id;
  channels = device.channels;
  sample_rate = device.sample_rate;
  buffer_frames = device.buffer_frames;
}

-- The overload that takes a catalog.
unfoldable pub begin_rebind_from : Recovery → Catalog → Text → Recovery × Bool
begin_rebind_from recovery catalog endpoint_id =
    if is_empty endpoint_id
    then (recovery, false)
    else if not (selectable catalog endpoint_id render)
    then (recovery, false)
    else elim (find catalog endpoint_id) [
      | none ↦ (recovery, false)
      | some device ↦ begin_rebind recovery (target_of device)
    ]

abbrev pub is_rebinding : RecoveryState → Bool
is_rebinding rebinding = true
is_rebinding _ = false

unfoldable pub prepare : Recovery → Recovery × Bool
prepare recovery =
    if not (is_rebinding recovery.state)
    then (recovery, false)
    else let answer = prepare_complete recovery.transaction in
      (record recovery { transaction = answer.0 }, answer.1)

unfoldable pub commit_rebind : Recovery → Recovery × Bool
commit_rebind recovery =
    if not (is_rebinding recovery.state)
    then (recovery, false)
    else let answer = commit recovery.transaction in
      if answer.1
      then (record recovery { transaction = answer.0; state = stable }, true)
      else (record recovery { transaction = answer.0 }, false)

unfoldable pub rollback_rebind : Recovery → Recovery
rollback_rebind recovery = record recovery {
  transaction = rollback recovery.transaction;
  state = if is_empty (rollback recovery.transaction).active.endpoint_id then degraded else stable;
}

unfoldable pub degrade : Recovery → Recovery
degrade recovery = record recovery { state = degraded }
