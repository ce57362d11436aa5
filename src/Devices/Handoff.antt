-- ===== src/Devices/Handoff.antt =====
-- src/hub/include/hibiki/output_handoff.hpp and src/hub/src/output_handoff.cpp: the switch of the output device
-- together with the fade between the two outputs.
pub mod Complete
use hibiki_dsp.Base.{ℕ, Bool, true, false, ◌||◌, not, List, Option, if◌then◌else◌}
use hibiki_dsp.Base.Double.{Double}
use hibiki_dsp.Devices.Switch
use hibiki_dsp.Devices.Switch.{Switch, Target, new_switch}
use hibiki_dsp.Devices.Crossfade.{Crossfade, no_crossfade, begin_fade, reset_fade, process_fade}

pub data HandoffState : Type 0 where
  idle preparing fading committed rolled_back degraded : HandoffState

abbrev pub is_preparing : HandoffState → Bool
is_preparing preparing = true
is_preparing _ = false

abbrev pub is_fading : HandoffState → Bool
is_fading fading = true
is_fading _ = false

pub record Handoff : Type 0 where
  pub transaction : Switch
  pub crossfade : Crossfade
  pub state : HandoffState

abbrev pub new_handoff : Handoff
new_handoff = record { transaction = new_switch; crossfade = no_crossfade; state = idle }

unfoldable pub begin_handoff : Handoff → Target → ℕ → Handoff × Bool
begin_handoff handoff target crossfade_ms =
    let opened = Switch.begin handoff.transaction target in
    let faded = begin_fade handoff.crossfade target.channels target.sample_rate crossfade_ms in
    if is_preparing handoff.state || is_fading handoff.state
    then (handoff, false)
    else if not opened.1
    then (record handoff { transaction = opened.0; state = degraded }, false)
    else if not faded.1
    then (
      record { transaction = Switch.rollback opened.0; crossfade = faded.0; state = degraded },
      false,
    )
    else (record { transaction = opened.0; crossfade = faded.0; state = preparing }, true)

unfoldable pub prepare_handoff : Handoff → Handoff × Bool
prepare_handoff handoff =
    let completed = Switch.prepare_complete handoff.transaction in
    if not (is_preparing handoff.state)
    then (handoff, false)
    else if not completed.1
    then (record handoff { transaction = completed.0 }, false)
    else (record handoff { transaction = completed.0; state = fading }, true)

unfoldable pub commit_handoff : Handoff → Handoff × Bool
commit_handoff handoff =
    let committing = Switch.commit handoff.transaction in
    if not (is_fading handoff.state) || handoff.crossfade.active
    then (handoff, false)
    else if not committing.1
    then (record handoff { transaction = committing.0 }, false)
    else (record handoff { transaction = committing.0; state = committed }, true)

unfoldable pub rollback_handoff : Handoff → Handoff
rollback_handoff handoff = record {
  transaction = Switch.rollback handoff.transaction;
  crossfade = reset_fade handoff.crossfade;
  state = rolled_back;
}

module _ (d : Double) (mix : ℕ → ℕ → d.Value → d.Value → d.Value) where
  unfoldable pub process_handoff :
      Handoff
      → Option (List d.Value)
      → Option (List d.Value)
      → Option (List d.Value)
      → ℕ
      → Handoff × Bool × Option (List d.Value)
  process_handoff handoff olds news output frames =
      let faded = process_fade d mix handoff.crossfade olds news output frames in
      if not (is_fading handoff.state)
      then (handoff, false, output)
      else (record handoff { crossfade = faded.0 }, faded.1, faded.2)
