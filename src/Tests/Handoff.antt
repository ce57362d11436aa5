-- ===== src/Tests/Handoff.antt =====
-- The handoff of the output.
use hibiki_dsp.Base.{◌≡◌, refl, true, [], ◌∷◌, some, replicate, leb, if◌then◌else◌}
use hibiki_dsp.Base.Int.{pos}
use hibiki_dsp.Base.Double.{integers}
use hibiki_dsp.Utf8.Nul.{contains_nul}
use hibiki_dsp.Utf8.{is_printable_utf8, decode_step}
use hibiki_dsp.Devices.Switch
use hibiki_dsp.Devices.Switch.{Target, valid_target}
use hibiki_dsp.Devices.Crossfade.{begin_fade, fade_frames}
use hibiki_dsp.Devices.Handoff.{new_handoff, begin_handoff, prepare_handoff, commit_handoff}
use hibiki_dsp.Devices.Handoff.Complete.{FadeBlock, run_handoff, handoff_complete}

abbrev headphones : Target
headphones = record {
  endpoint_id = 104 ∷ [];
  channels = 2;
  sample_rate = 48000;
  buffer_frames = 128;
}

-- One millisecond of stereo.
abbrev block : FadeBlock integers
block = record {
  olds = some (replicate 96 (pos 1));
  news = some (replicate 96 (pos 2));
  output = some (replicate 96 (pos 0));
  frames = 48;
}

begins : (begin_handoff new_handoff headphones 1).1 ≡ true
unfolding begin_handoff Switch.begin begin_fade valid_target contains_nul is_printable_utf8
    decode_step
begins = refl

handoff_complete_example :
    let run =
      run_handoff integers
        (λ position total old new. new)
        (prepare_handoff (begin_handoff new_handoff headphones 1).0).0
        (block ∷ []) in
    (run.0.transaction.active ≡ Switch.default_target)
    × ((commit_handoff run.0).1 ≡ leb (fade_frames 48000 1) run.1)
    × ((commit_handoff run.0).0.transaction.active
        ≡ (if leb (fade_frames 48000 1) run.1 then headphones else Switch.default_target))
handoff_complete_example =
    handoff_complete integers (λ position total old new. new) new_handoff headphones 1 (block ∷ [])
      begins
