-- ===== src/Vst/Latency/Commit.antt =====
-- vst-host/include/hibiki/latency_graph_commit.hpp and vst-host/src/latency_graph_commit.cpp: the latencies
-- of the lanes of a graph, changed as a transaction.
pub mod Lanes
pub mod Prepared
pub mod Transaction
use hibiki_dsp.Base.{
  ℕ, ◌+◌, ◌-◌, Bool, true, false, ◌&&◌, ◌||◌, not, List, [], ◌∷◌, Option, none, some, ltb, leb,
  ◌==◌, if◌then◌else◌, length, map, max,
}

abbrev pub max_graph_lanes : ℕ
max_graph_lanes = 32

abbrev pub max_graph_samples : ℕ
max_graph_samples = 16384

pub record GraphLaneInput : Type 0 where
  pub lane_token : ℕ
  pub active : Bool
  pub channel_count : ℕ
  pub reported_latency_samples : ℕ

pub record GraphLane : Type 0 where
  pub lane_token : ℕ
  pub active : Bool
  pub channel_count : ℕ
  pub reported_latency_samples : ℕ
  pub compensation_delay_samples : ℕ

-- `lanes` is the list of the first `lane_count` lanes.
pub record GraphCommit : Type 0 where
  pub schema_version : ℕ
  pub base_graph_revision : ℕ
  pub target_graph_revision : ℕ
  pub maximum_latency_samples : ℕ
  pub lanes : List GraphLane

abbrev pub new_commit : GraphCommit
new_commit = record {
  schema_version = 1;
  base_graph_revision = 0;
  target_graph_revision = 0;
  maximum_latency_samples = 0;
  lanes = [];
}

abbrev pub supported_channels : ℕ → Bool
supported_channels channels = (channels == 2) || (channels == 6) || (channels == 8)

-- The loop over the prior lanes.
unfoldable pub has_token : ℕ → List GraphLane → Bool
has_token token [] = false
has_token token (prior ∷ priors) =
    if prior.lane_token == token then true else has_token token priors

-- The check of one lane. The sum does not wrap: both are at most 16384.
abbrev pub misfits : ℕ → GraphLane → Bool
misfits maximum lane =
    (lane.lane_token == 0)
    || not (supported_channels lane.channel_count)
    || not lane.active && not (lane.reported_latency_samples == 0)
    || ltb max_graph_samples lane.reported_latency_samples
    || ltb max_graph_samples lane.compensation_delay_samples
    || not (lane.compensation_delay_samples + lane.reported_latency_samples == maximum)

-- The loop of the validation, with the maximum and the lanes so far: `none` when a lane is refused.
unfoldable pub validate_lanes : ℕ → ℕ → List GraphLane → List GraphLane → Option ℕ
validate_lanes target maximum priors [] = some maximum
validate_lanes target maximum priors (lane ∷ lanes) =
    let rest =
      validate_lanes target (max maximum lane.reported_latency_samples) (lane ∷ priors) lanes in
    if misfits target lane then none else if has_token lane.lane_token priors then none else rest

unfoldable pub validate_commit : GraphCommit → Bool
validate_commit commit =
    if not (commit.schema_version == 1)
      || ltb max_graph_lanes (length commit.lanes)
      || leb commit.target_graph_revision commit.base_graph_revision
      || ltb max_graph_samples commit.maximum_latency_samples
    then false
    else elim (validate_lanes commit.maximum_latency_samples 0 [] commit.lanes) [
      | none ↦ false
      | some maximum ↦ maximum == commit.maximum_latency_samples
    ]

-- What a lane counts for.
abbrev pub counted_latency : GraphLaneInput → ℕ
counted_latency source = if source.active then source.reported_latency_samples else 0

abbrev pub unfit : GraphLaneInput → Bool
unfit source =
    (source.lane_token == 0)
    || not (supported_channels source.channel_count)
    || ltb max_graph_samples source.reported_latency_samples

-- The first loop of `prepare`, with the maximum so far: `none` when a lane is refused.
unfoldable pub graph_maximum : ℕ → List GraphLaneInput → Option ℕ
graph_maximum maximum [] = some maximum
graph_maximum maximum (source ∷ sources) =
    let rest = graph_maximum (max maximum (counted_latency source)) sources in
    if unfit source then none else rest

-- What the two loops write for a lane.
abbrev pub graph_lane : ℕ → GraphLaneInput → GraphLane
graph_lane maximum source = record {
  lane_token = source.lane_token;
  active = source.active;
  channel_count = source.channel_count;
  reported_latency_samples = counted_latency source;
  compensation_delay_samples = maximum - counted_latency source;
}

abbrev pub candidate_commit : ℕ → List GraphLaneInput → ℕ → ℕ → GraphCommit
candidate_commit maximum sources base target = record {
  schema_version = 1;
  base_graph_revision = base;
  target_graph_revision = target;
  maximum_latency_samples = maximum;
  lanes = map (graph_lane maximum) sources;
}

unfoldable pub prepare_commit : List GraphLaneInput → ℕ → ℕ → GraphCommit → GraphCommit × Bool
prepare_commit sources base target commit =
    if ltb max_graph_lanes (length sources) || leb target base
    then (commit, false)
    else elim (graph_maximum 0 sources) [
      | none ↦ (commit, false)
      | some maximum ↦
          if not (validate_commit (candidate_commit maximum sources base target))
          then (commit, false)
          else (candidate_commit maximum sources base target, true)
    ]

pub data CommitterState : Type 0 where
  ready prepared degraded : CommitterState

pub record Committer : Type 0 where
  pub active : GraphCommit
  pub pending : GraphCommit
  pub state : CommitterState
  pub has_active : Bool
  pub has_pending : Bool

abbrev pub new_committer : Committer
new_committer = record {
  active = new_commit;
  pending = new_commit;
  state = ready;
  has_active = false;
  has_pending = false;
}

abbrev pub base_revision : Committer → ℕ
base_revision committer = if committer.has_active then committer.active.target_graph_revision else 0

unfoldable pub prepare_graph : Committer → List GraphLaneInput → ℕ → Committer × Bool
prepare_graph committer sources target =
    let candidate = prepare_commit sources (base_revision committer) target new_commit in
    if not candidate.1
    then (record committer { state = degraded; has_pending = false }, false)
    else (record committer { pending = candidate.0; has_pending = true; state = prepared }, true)

unfoldable pub commit_graph : Committer → Committer × Bool
commit_graph committer =
    let pending_base = committer.pending.base_graph_revision in
    if not committer.has_pending
      || committer.has_active && not (pending_base == committer.active.target_graph_revision)
      || not committer.has_active && not (pending_base == 0)
    then (record committer { state = degraded }, false)
    else (
      record committer {
        active = committer.pending;
        has_active = true;
        has_pending = false;
        state = ready;
      },
      true,
    )

unfoldable pub rollback_graph : Committer → Committer
rollback_graph committer = record committer {
  has_pending = false;
  state = if committer.has_active then ready else degraded;
}
