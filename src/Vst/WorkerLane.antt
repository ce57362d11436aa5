-- ===== src/Vst/WorkerLane.antt =====
-- vst-host/include/hibiki/vst3_worker_lane.hpp and vst-host/src/vst3_worker_lane.cpp: the session of a lane
-- with the worker process of its plugin. What the worker answers to an exchange is an argument.
pub mod Timeline
use hibiki_dsp.Base.{
  ℕ, ◌+◌, ◌-◌, ◌^◌, Bool, true, false, ◌&&◌, ◌||◌, not, ltb, leb, ◌==◌, if◌then◌else◌,
}
use hibiki_dsp.Base.Int.{pos}
use hibiki_dsp.Base.Double.{Double}
use hibiki_dsp.Vst.Latency.Commit.{max_graph_samples}
use hibiki_dsp.Vst.Latency.Commit.{GraphLaneInput, supported_channels}

abbrev pub worker_max_frames : ℕ
worker_max_frames = 4096

abbrev pub max_u64 : ℕ
max_u64 = 2 ^ 64 - 1

pub data ExchangeResult : Type 0 where
  ok not_running not_connected invalid_argument allocation_failed : ExchangeResult
  send_failed receive_failed worker_error invalid_response non_finite_output : ExchangeResult

abbrev pub is_ok : ExchangeResult → Bool
is_ok ok = true
is_ok _ = false

pub data LaneState : Type 0 where
  detached prepared ready degraded : LaneState

abbrev pub is_prepared : LaneState → Bool
is_prepared prepared = true
is_prepared _ = false

abbrev pub is_ready : LaneState → Bool
is_ready ready = true
is_ready _ = false

-- The range check of a block, on 64-bit numbers: the start is below 2 ^ 64.
unfoldable pub block_range_fits : ℕ → ℕ → Bool
block_range_fits block_start frames = not (frames == 0) && leb frames (max_u64 - block_start)

module _ (d : Double) where
  pub record LaneConfig : Type 0 where
    pub lane_token : ℕ
    pub channels : ℕ
    pub sample_rate : d.Value
    pub reported_latency_samples : ℕ
    pub max_block_frames : ℕ

  abbrev pub default_config : LaneConfig
  default_config = record {
    lane_token = 0;
    channels = 2;
    sample_rate = d.whole (pos 48000);
    reported_latency_samples = 0;
    max_block_frames = worker_max_frames;
  }

  unfoldable pub valid_config : LaneConfig → Bool
  valid_config config =
      not (config.lane_token == 0)
      && supported_channels config.channels
      && d.is_finite config.sample_rate
      && not (d.lt config.sample_rate (d.whole (pos 8000)))
      && not (d.lt (d.whole (pos 384000)) config.sample_rate)
      && leb config.reported_latency_samples max_graph_samples
      && ltb 0 config.max_block_frames
      && leb config.max_block_frames worker_max_frames

  -- `has_sandbox` says whether `sandbox_` is not null.
  pub record WorkerLane : Type 0 where
    pub has_sandbox : Bool
    pub config : LaneConfig
    pub state : LaneState
    pub next_block_start : ℕ
    pub has_processed_block : Bool

  unfoldable pub detach_lane : WorkerLane → WorkerLane
  detach_lane lane = record {
    has_sandbox = false;
    config = default_config;
    state = detached;
    next_block_start = 0;
    has_processed_block = false;
  }

  abbrev pub new_lane : WorkerLane
  new_lane = record {
    has_sandbox = false;
    config = default_config;
    state = detached;
    next_block_start = 0;
    has_processed_block = false;
  }

  unfoldable pub prepare_lane : WorkerLane → LaneConfig → WorkerLane × Bool
  prepare_lane lane config =
      if not (valid_config config)
      then (record (detach_lane lane) { state = degraded }, false)
      else (
        record {
          has_sandbox = true;
          config = config;
          state = prepared;
          next_block_start = 0;
          has_processed_block = false;
        },
        true,
      )

  unfoldable pub handshake_lane : WorkerLane → ExchangeResult → WorkerLane × ExchangeResult
  handshake_lane lane answer =
      if not (is_prepared lane.state) || not lane.has_sandbox
      then (lane, not_connected)
      else (record lane { state = if is_ok answer then ready else degraded }, answer)

  -- The sum does not wrap where it is computed: the range check stands before it.
  unfoldable pub process_block : WorkerLane → ℕ → ℕ → ExchangeResult → WorkerLane × ExchangeResult
  process_block lane block_start frames answer =
      if not (is_ready lane.state) || not lane.has_sandbox
      then (lane, not_connected)
      else if not (block_range_fits block_start frames)
          || ltb lane.config.max_block_frames frames
          || lane.has_processed_block && not (block_start == lane.next_block_start)
      then (record lane { state = degraded }, invalid_argument)
      else if not (is_ok answer)
      then (record lane { state = degraded }, answer)
      else (record lane { next_block_start = block_start + frames; has_processed_block = true }, ok)

  unfoldable pub lane_latency_input : WorkerLane → GraphLaneInput
  lane_latency_input lane = record {
    lane_token = lane.config.lane_token;
    active = is_ready lane.state;
    channel_count = lane.config.channels;
    reported_latency_samples =
        if is_ready lane.state then lane.config.reported_latency_samples else 0;
  }
