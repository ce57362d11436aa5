-- ===== src/Tests/Latency.antt =====
-- The latency plan, the delay line and the graph commit.
use hibiki_dsp.Base.{
  ℕ, ◌+◌, ◌≤◌, ◌≡◌, ◌⊎◌, ◌↔◌, refl, sym, true, false, List, [], ◌∷◌, arith, replicate, get_or,
  if◌then◌else◌,
}
use hibiki_dsp.Base.Int.{pos}
use hibiki_dsp.Base.Double.{integers}
use hibiki_dsp.Vst.Latency.Plan.{LatencyLane, LatencyPlan, validate_plan, build_plan}
use hibiki_dsp.Vst.Latency.Plan.Lanes.{Reached}
use hibiki_dsp.Vst.Latency.Plan.Aligned.{build_plan-aligned}
use hibiki_dsp.Vst.Latency.Delay.{
  DelayLine, new_line, prepare_line, process_frames, silence, all_finite,
}
use hibiki_dsp.Vst.Latency.Delay.Refine.{Represents, Passed, process_frames-Passed}
use hibiki_dsp.Vst.Latency.Delay.Prepare.{prepare_line-silent, new_line-IsRings}
use hibiki_dsp.Vst.Latency.Delay.Frames.{interleave}
use hibiki_dsp.Vst.Latency.Commit.{
  GraphLaneInput, new_commit, prepare_commit, new_committer, commit_graph, Committer, base_revision,
}
use hibiki_dsp.Vst.Latency.Commit.Prepared.{IsGraph, prepare_commit_iff}
use hibiki_dsp.Vst.Latency.Commit.Transaction.{
  IsCommitter, prepares, committer_after, committer_after-IsCommitter, commit_graph-pending,
}

-- A fast lane, a slow lane and an idle one.
abbrev lanes : List LatencyLane
lanes =
    record { active = true; reported_latency_samples = 100 }
    ∷ record { active = true; reported_latency_samples = 300 }
    ∷ record { active = false; reported_latency_samples = 900 }
    ∷ []

abbrev no_plan : LatencyPlan
no_plan = record {
  schema_version = 1;
  lane_count = 0;
  maximum_latency_samples = 0;
  delay_samples = [];
}

build_plan-aligned_example :
    let built = (build_plan lanes no_plan).0 in
    ((build_plan lanes no_plan).1 ≡ true)
    × (validate_plan built ≡ true)
    × (get_or built.delay_samples 0 0 + 100 ≡ built.maximum_latency_samples)
    × ((built.maximum_latency_samples ≡ 0) ⊎ Reached built.maximum_latency_samples lanes)
build_plan-aligned_example =
    build_plan-aligned lanes no_plan 0 (record { active = true; reported_latency_samples = 100 })
      (omega arith) (omega arith, (omega arith, (omega arith, tt))) refl

abbrev prepared_line : DelayLine integers
prepared_line = (prepare_line integers (new_line integers) 2 1).0

prepare_line-silent_example :
    ((prepare_line integers (new_line integers) 2 1).1 ≡ true)
    × (prepared_line.channels ≡ 2)
    × Represents integers prepared_line (replicate 1 (replicate 2 (silence integers)))
prepare_line-silent_example =
    prepare_line-silent integers (new_line integers) 2 1 (new_line-IsRings integers) (omega arith)
      (omega arith) (omega arith)

prepared :
    (prepared_line.channels ≡ 2)
    × Represents integers prepared_line (replicate 1 (replicate 2 (silence integers)))
prepared =
    let (accepted, channels, represents) =
      prepare_line-silent integers (new_line integers) 2 1 (new_line-IsRings integers) (omega arith)
        (omega arith) (omega arith) in
    (channels, represents)

two_frames-finite :
    all_finite integers (interleave ((pos 1 ∷ pos 2 ∷ []) ∷ (pos 3 ∷ pos 4 ∷ []) ∷ [])) ≡ true
unfolding all_finite
two_frames-finite = refl

-- Two stereo frames through a delay of one: silence and the first frame come out.
process_frames-Passed_example :
    Passed integers prepared_line
      ((pos 0 ∷ pos 0 ∷ []) ∷ [])
      ((pos 1 ∷ pos 2 ∷ []) ∷ (pos 3 ∷ pos 4 ∷ []) ∷ [])
      (replicate 4 (pos 9))
      (process_frames integers prepared_line
        (pos 1 ∷ pos 2 ∷ pos 3 ∷ pos 4 ∷ [])
        (replicate 4 (pos 9))
        2)
process_frames-Passed_example =
    process_frames-Passed integers prepared_line ((pos 0 ∷ pos 0 ∷ []) ∷ [])
      ((pos 1 ∷ pos 2 ∷ []) ∷ (pos 3 ∷ pos 4 ∷ []) ∷ []) (replicate 4 (pos 9)) prepared.1
      (omega arith) (omega arith) (sym prepared.0, (sym prepared.0, tt)) two_frames-finite

abbrev source : ℕ → ℕ → GraphLaneInput
source token latency = record {
  lane_token = token;
  active = true;
  channel_count = 2;
  reported_latency_samples = latency;
}

prepare_commit_iff_example :
    ((prepare_commit (source 1 10 ∷ source 2 30 ∷ []) 4 5 new_commit).1 ≡ true)
    ↔ IsGraph (source 1 10 ∷ source 2 30 ∷ []) 4 5
prepare_commit_iff_example = prepare_commit_iff (source 1 10 ∷ source 2 30 ∷ []) 4 5 new_commit

new-IsCommitter : IsCommitter new_committer
new-IsCommitter = record {
  based = λ e. absurd cc;
  pending_valid = λ e. absurd cc;
  active_valid = λ e. absurd cc;
  announced = λ e. absurd cc;
}

committer_after-IsCommitter_example :
    IsCommitter (committer_after new_committer (prepares (source 1 10 ∷ []) 7))
committer_after-IsCommitter_example =
    committer_after-IsCommitter new_committer (prepares (source 1 10 ∷ []) 7) new-IsCommitter

abbrev with_pending : Committer
with_pending = committer_after new_committer (prepares (source 1 10 ∷ []) 7)

with_pending-IsCommitter : IsCommitter with_pending
with_pending-IsCommitter =
    committer_after-IsCommitter new_committer (prepares (source 1 10 ∷ []) 7) new-IsCommitter

commit_graph-pending_example :
    let after = (commit_graph with_pending).0 in
    ((commit_graph with_pending).1 ≡ with_pending.has_pending)
    × (after.active
        ≡ (if with_pending.has_pending then with_pending.pending else with_pending.active))
    × (after.has_pending ≡ false)
    × (base_revision with_pending + (if with_pending.has_pending then 1 else 0)
        ≤ base_revision after)
commit_graph-pending_example = commit_graph-pending with_pending with_pending-IsCommitter
