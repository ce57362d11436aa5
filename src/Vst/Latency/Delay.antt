-- ===== src/Vst/Latency/Delay.antt =====
-- vst-host/include/hibiki/latency_compensation.hpp and vst-host/src/latency_compensation.cpp: the delay line
-- of interleaved samples. A null pointer is `none`, the input and the output are different buffers, and
-- the output is read and written as far as the samples go.
pub mod Queue
pub mod Frames
pub mod Refine
pub mod Prepare
use hibiki_dsp.Base.{
  ℕ, zero, suc, ◌+◌, ◌-◌, ◌*◌, ◌%◌, Bool, true, false, ◌||◌, not, List, [], ◌∷◌, ◌++◌, Option, none,
  some, ltb, ◌==◌, if◌then◌else◌, length, take, drop, replicate, set, get_or, map,
}
use hibiki_dsp.Base.Int.{pos}
use hibiki_dsp.Base.Double.{Double}
use hibiki_dsp.Vst.Latency.Plan.{max_samples}

abbrev pub max_channels : ℕ
max_channels = 8

abbrev pub max_frames : ℕ
max_frames = 4096

abbrev pub ring_samples : ℕ
ring_samples = max_samples + 1

-- Where the loop reads.
abbrev pub read_index : ℕ → ℕ → ℕ
read_index write_index delay_samples = (write_index + ring_samples - delay_samples) % ring_samples

abbrev pub next_index : ℕ → ℕ
next_index write_index = (write_index + 1) % ring_samples

module _ (d : Double) where
  abbrev pub silence : d.Value
  silence = d.whole (pos 0)

  pub record DelayLine : Type 0 where
    pub ring : List (List d.Value)
    pub channels : ℕ
    pub delay_samples : ℕ
    pub write_index : ℕ
    pub prepared : Bool

  abbrev pub new_line : DelayLine
  new_line = record {
    ring = replicate max_channels (replicate ring_samples silence);
    channels = 0;
    delay_samples = 0;
    write_index = 0;
    prepared = false;
  }

  unfoldable pub reset_line : DelayLine → DelayLine
  reset_line line = record line {
    ring = map (λ channel. replicate (length channel) silence) line.ring;
    write_index = 0;
  }

  unfoldable pub prepare_line : DelayLine → ℕ → ℕ → DelayLine × Bool
  prepare_line line channels delay_samples =
      if (channels == 0) || ltb max_channels channels || ltb max_samples delay_samples
      then (record line { prepared = false }, false)
      else (
        record (reset_line (record line { channels = channels; delay_samples = delay_samples })) {
          prepared = true;
        },
        true,
      )

  -- What the loops leave: the rings, the samples written to the output, and the input behind.
  pub record Run : Type 0 where
    pub ring : List (List d.Value)
    pub written : List d.Value
    pub behind : List d.Value

  -- The loop over the channels of a frame.
  unfoldable pub delay_channels : ℕ → ℕ → ℕ → List (List d.Value) → List d.Value → Run
  delay_channels zero write read rings input = record { ring = rings; written = []; behind = input }
  delay_channels (suc channels) write read [] input = record {
    ring = [];
    written = [];
    behind = input;
  }
  delay_channels (suc channels) write read (channel ∷ rings) [] = record {
    ring = channel ∷ rings;
    written = [];
    behind = [];
  }
  delay_channels (suc channels) write read (channel ∷ rings) (sample ∷ input) =
      let rest = delay_channels channels write read rings input in
      record {
        ring = set channel write sample ∷ rest.ring;
        written = get_or (set channel write sample) read silence ∷ rest.written;
        behind = rest.behind;
      }

  -- The loop over the frames, from a write index on, and the write index at its end.
  unfoldable pub delay_frames : ℕ → ℕ → ℕ → ℕ → List (List d.Value) → List d.Value → Run × ℕ
  unfolding delay_channels
  delay_frames zero channels delay write rings input =
      (record { ring = rings; written = []; behind = input }, write)
  delay_frames (suc frames) channels delay write rings input =
      let now = delay_channels channels write (read_index write delay) rings input in
      let later = delay_frames frames channels delay (next_index write) now.ring now.behind in
      (record later.0 { written = now.written ++ later.0.written }, later.1)

  unfoldable pub all_finite : List d.Value → Bool
  all_finite [] = true
  all_finite (sample ∷ samples) = if not (d.is_finite sample) then false else all_finite samples

  -- The line, the answer and the output buffer.
  pub record Processed : Type 0 where
    pub line : DelayLine
    pub accepted : Bool
    pub output : List d.Value

  unfoldable pub process_frames : DelayLine → List d.Value → List d.Value → ℕ → Processed
  process_frames line input output frames =
      let sample_count = frames * line.channels in
      let over = drop sample_count output in
      let run =
        delay_frames frames line.channels line.delay_samples line.write_index line.ring input in
      if not line.prepared || (frames == 0) || ltb max_frames frames
      then record { line = line; accepted = false; output = output }
      else if not (all_finite (take sample_count input))
      then record {
        line = reset_line line;
        accepted = false;
        output = replicate sample_count silence ++ over;
      }
      else if line.delay_samples == 0
      then record { line = line; accepted = true; output = take sample_count input ++ over }
      else record {
        line = record line { ring = run.0.ring; write_index = run.1 };
        accepted = true;
        output = run.0.written ++ over;
      }

  -- The whole method, with its null checks: the output is `none` when there is none.
  unfoldable pub process_line :
      DelayLine
      → Option (List d.Value)
      → Option (List d.Value)
      → ℕ
      → DelayLine × Bool × Option (List d.Value)
  process_line line (some input) (some output) frames =
      let processed = process_frames line input output frames in
      (processed.line, processed.accepted, some processed.output)
  process_line line none output frames = (line, false, output)
  process_line line (some input) none frames = (line, false, none)
