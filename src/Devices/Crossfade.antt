-- ===== src/Devices/Crossfade.antt =====
-- src/hub/include/hibiki/output_crossfade.hpp and src/hub/src/output_crossfade.cpp: the fade from the old output to
-- the new one. How two samples are mixed at a position of the fade is a parameter. A null pointer is `none`, and
-- the buffers do not overlap.
use hibiki_dsp.Base.{
  ℕ, zero, suc, ◌+◌, ◌-◌, ◌*◌, ◌/◌, ◌^◌, Bool, true, false, ◌&&◌, ◌||◌, not, List, [], ◌∷◌, ◌++◌,
  Option, none, some, ltb, leb, ◌==◌, if◌then◌else◌, take, drop, min,
}
use hibiki_dsp.Base.Double.{Double}

-- `snapshot_`.
pub record Crossfade : Type 0 where
  pub active : Bool
  pub channels : ℕ
  pub total_frames : ℕ
  pub processed_frames : ℕ

abbrev pub no_crossfade : Crossfade
no_crossfade = record { active = false; channels = 0; total_frames = 0; processed_frames = 0 }

-- `SIZE_MAX` and `std::numeric_limits<std::size_t>::max()`, on 64 bits.
abbrev pub size_max : ℕ
size_max = 2 ^ 64 - 1

-- The product is at most 192000 * 200, and does not wrap.
abbrev pub fade_frames : ℕ → ℕ → ℕ
fade_frames sample_rate duration_ms = (sample_rate * duration_ms + 999) / 1000

unfoldable pub begin_fade : Crossfade → ℕ → ℕ → ℕ → Crossfade × Bool
begin_fade crossfade channels sample_rate duration_ms =
    let frames = fade_frames sample_rate duration_ms in
    if not (channels == 2) && not (channels == 6) && not (channels == 8)
      || not (sample_rate == 44100)
        && not (sample_rate == 48000)
        && not (sample_rate == 96000)
        && not (sample_rate == 192000)
      || (duration_ms == 0)
      || ltb 200 duration_ms
    then (crossfade, false)
    else if (frames == 0) || ltb size_max frames
    then (crossfade, false)
    else (
      record { active = true; channels = channels; total_frames = frames; processed_frames = 0 },
      true,
    )

unfoldable pub reset_fade : Crossfade → Crossfade
reset_fade crossfade = no_crossfade

module _ (d : Double) (mix : ℕ → ℕ → d.Value → d.Value → d.Value) where
  -- The check of the first samples of the two inputs.
  unfoldable pub both_finite : List d.Value → List d.Value → Bool
  both_finite [] news = true
  both_finite (old ∷ olds) [] = true
  both_finite (old ∷ olds) (new ∷ news) =
      if not (d.is_finite old) || not (d.is_finite new) then false else both_finite olds news

  -- The loop over the channels of a frame.
  unfoldable pub mix_channels : ℕ → ℕ → List d.Value → List d.Value → List d.Value
  mix_channels bounded total [] news = []
  mix_channels bounded total (old ∷ olds) [] = []
  mix_channels bounded total (old ∷ olds) (new ∷ news) =
      mix bounded total old new ∷ mix_channels bounded total olds news

  -- The loop over the frames, from a position on.
  unfoldable pub mix_frames : ℕ → ℕ → ℕ → ℕ → List d.Value → List d.Value → List d.Value
  unfolding mix_channels
  mix_frames zero channels position total olds news = []
  mix_frames (suc frames) channels position total olds news =
      mix_channels (min position total) total (take channels olds) (take channels news)
      ++ mix_frames frames channels (position + 1) total (drop channels olds) (drop channels news)

  -- The snapshot, the answer and the output.
  unfoldable pub fade_block :
      Crossfade → List d.Value → List d.Value → List d.Value → ℕ → Crossfade × Bool × List d.Value
  fade_block crossfade olds news output frames =
      let count = frames * crossfade.channels in
      let processed = min crossfade.total_frames (crossfade.processed_frames + frames) in
      let mixed =
        mix_frames frames crossfade.channels crossfade.processed_frames crossfade.total_frames olds
          news in
      if not crossfade.active || (frames == 0)
      then (crossfade, false, output)
      else if (crossfade.channels == 0)
          || ltb (size_max / crossfade.channels) frames
          || ltb (size_max - crossfade.processed_frames) frames
      then (crossfade, false, output)
      else if not (both_finite (take count olds) (take count news))
      then (crossfade, false, output)
      else (
        record crossfade {
          processed_frames = processed;
          active = if leb crossfade.total_frames processed then false else crossfade.active;
        },
        true,
        mixed ++ drop count output,
      )

  -- The whole method, with its null checks.
  unfoldable pub process_fade :
      Crossfade
      → Option (List d.Value)
      → Option (List d.Value)
      → Option (List d.Value)
      → ℕ
      → Crossfade × Bool × Option (List d.Value)
  process_fade crossfade (some olds) (some news) (some output) frames =
      let block = fade_block crossfade olds news output frames in (block.0, block.1, some block.2)
  process_fade crossfade none news output frames = (crossfade, false, output)
  process_fade crossfade (some olds) none output frames = (crossfade, false, output)
  process_fade crossfade (some olds) (some news) none frames = (crossfade, false, none)
