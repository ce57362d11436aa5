-- ===== src/Vst/Latency/Plan.antt =====
-- vst-host/include/hibiki/latency_compensation.hpp and vst-host/src/latency_compensation.cpp: the plan of
-- the delays.
pub mod Lanes
pub mod Aligned
use hibiki_dsp.Base.{
  ℕ, ◌-◌, Bool, true, false, ◌&&◌, ◌||◌, not, List, [], ◌∷◌, ◌++◌, Option, none, some, ltb, ◌==◌,
  if◌then◌else◌, length, take, drop, replicate, max,
}

abbrev pub max_lanes : ℕ
max_lanes = 32

abbrev pub max_samples : ℕ
max_samples = 16384

pub record LatencyLane : Type 0 where
  pub active : Bool
  pub reported_latency_samples : ℕ

-- `delay_samples` is the whole array, of 32 entries.
pub record LatencyPlan : Type 0 where
  pub schema_version : ℕ
  pub lane_count : ℕ
  pub maximum_latency_samples : ℕ
  pub delay_samples : List ℕ

unfoldable pub none_above : ℕ → List ℕ → Bool
none_above maximum [] = true
none_above maximum (delay ∷ delays) = if ltb maximum delay then false else none_above maximum delays

unfoldable pub all_zero : List ℕ → Bool
all_zero [] = true
all_zero (delay ∷ delays) = if not (delay == 0) then false else all_zero delays

unfoldable pub validate_plan : LatencyPlan → Bool
validate_plan plan =
    if not (plan.schema_version == 1)
      || ltb max_lanes plan.lane_count
      || ltb max_samples plan.maximum_latency_samples
    then false
    else if not (none_above plan.maximum_latency_samples (take plan.lane_count plan.delay_samples))
    then false
    else all_zero (drop plan.lane_count plan.delay_samples)

-- The first loop of the build, with the maximum so far: `none` when a lane reports too much.
unfoldable pub maximum_latency : ℕ → List LatencyLane → Option ℕ
maximum_latency maximum [] = some maximum
maximum_latency maximum (lane ∷ lanes) =
    let rest =
      maximum_latency (if lane.active then max maximum lane.reported_latency_samples else maximum)
        lanes in
    if ltb max_samples lane.reported_latency_samples then none else rest

-- The second loop.
unfoldable pub delays : ℕ → List LatencyLane → List ℕ
delays maximum [] = []
delays maximum (lane ∷ lanes) =
    (if lane.active then maximum - lane.reported_latency_samples else 0) ∷ delays maximum lanes

abbrev pub candidate_plan : ℕ → List LatencyLane → LatencyPlan
candidate_plan maximum lanes = record {
  schema_version = 1;
  lane_count = length lanes;
  maximum_latency_samples = maximum;
  delay_samples = delays maximum lanes ++ replicate (max_lanes - length lanes) 0;
}

unfoldable pub build_plan : List LatencyLane → LatencyPlan → LatencyPlan × Bool
build_plan lanes plan =
    if ltb max_lanes (length lanes) then (plan, false) else elim (maximum_latency 0 lanes) [
      | none ↦ (plan, false)
      | some maximum ↦
          if not (validate_plan (candidate_plan maximum lanes))
          then (plan, false)
          else (candidate_plan maximum lanes, true)
    ]
