-- ===== src/Devices/Switch.antt =====
-- src/hub/include/hibiki/device_switch.hpp and src/hub/src/device_switch.cpp.
pub mod Transaction
use hibiki_dsp.Base.{
  ℕ, ◌≡◌, Bool, true, false, ◌&&◌, ◌||◌, not, List, [], ◌∷◌, ltb, ◌==◌, if◌then◌else◌, length, Text,
}
use hibiki_dsp.Utf8.{is_printable_utf8}
use hibiki_dsp.Utf8.Nul.{contains_nul}
use hibiki_dsp.Devices.Catalog.{is_empty}

pub data SwitchState : Type 0 where
  unbound binding synced write_pending rebinding degraded : SwitchState

pub record Target : Type 0 where
  pub endpoint_id : Text
  pub channels : ℕ
  pub sample_rate : ℕ
  pub buffer_frames : ℕ

-- `DeviceTargetV1{}`.
abbrev pub default_target : Target
default_target = record { endpoint_id = []; channels = 2; sample_rate = 48000; buffer_frames = 128 }

abbrev pub endpoint_max_bytes : ℕ
endpoint_max_bytes = 260

pub record Switch : Type 0 where
  pub state : SwitchState
  pub active : Target
  pub pending : Target

abbrev pub new_switch : Switch
new_switch = record { state = unbound; active = default_target; pending = default_target }

unfoldable pub valid_target : Target → Bool
valid_target target = not (
    is_empty target.endpoint_id
    || ltb endpoint_max_bytes (length target.endpoint_id)
    || contains_nul target.endpoint_id
    || not (is_printable_utf8 target.endpoint_id)
    || not (target.channels == 2) && not (target.channels == 6) && not (target.channels == 8)
    || (target.sample_rate == 0)
    || (target.buffer_frames == 0))

abbrev pub opening : SwitchState → SwitchState
opening synced = rebinding
opening _ = binding

unfoldable pub begin : Switch → Target → Switch × Bool
begin switch target =
    if valid_target target
    then (record switch { pending = target; state = opening switch.state }, true)
    else (switch, false)

abbrev pub is_preparing : SwitchState → Bool
is_preparing binding = true
is_preparing rebinding = true
is_preparing _ = false

unfoldable pub prepare_complete : Switch → Switch × Bool
prepare_complete switch =
    if is_preparing switch.state
    then (record switch { state = write_pending }, true)
    else (switch, false)

abbrev pub is_write_pending : SwitchState → Bool
is_write_pending write_pending = true
is_write_pending _ = false

unfoldable pub commit : Switch → Switch × Bool
commit switch =
    if is_write_pending switch.state
    then (record { state = synced; active = switch.pending; pending = default_target }, true)
    else (switch, false)

unfoldable pub rollback : Switch → Switch
rollback switch = record switch {
  pending = default_target;
  state = if is_empty switch.active.endpoint_id then unbound else synced;
}

unfoldable pub mark_degraded : Switch → Switch
mark_degraded switch = record switch { state = degraded }
