-- ===== src/Vst/Latency/Plan/Aligned.antt =====
-- A plan brings all active lanes to the latency of the slowest.
use hibiki_dsp.Base.{
  ℕ, zero, suc, ◌+◌, ◌-◌, ◌≤◌, ◌≡◌, ◌⊎◌, refl, true, false, List, [], ◌∷◌, ◌++◌, some, ltb, length,
  take, drop, replicate, get_elem?, get_or, All, Bool-cases, inl, inr, arith, if◌then◌else◌,
}
use hibiki_dsp.Vst.Latency.Plan.{
  LatencyLane, LatencyPlan, max_lanes, max_samples, none_above, all_zero, validate_plan, delays,
  candidate_plan, build_plan,
}
use hibiki_dsp.Vst.Latency.Plan.Lanes.{
  IsReportable, Reached, slowest, maximum_latency-some, maximum_latency-refused, slowest_bounded,
  slowest-Below, slowest-Reached, delays-aligned,
}

none_above-delays :
    (maximum : ℕ) (lanes : List LatencyLane) (rest : List ℕ)
    → none_above maximum (take (length lanes) (delays maximum lanes ++ rest)) ≡ true
unfolding none_above delays
none_above-delays maximum [] rest = refl
none_above-delays maximum (lane ∷ lanes) rest = elim (Bool-cases lane.active) [
  | inl on ↦ ground (arith, on, none_above-delays maximum lanes rest)
  | inr off ↦ ground (arith, off, none_above-delays maximum lanes rest)
]

all_zero-replicate : (n : ℕ) → all_zero (replicate n 0) ≡ true
unfolding all_zero
all_zero-replicate zero = refl
all_zero-replicate (suc n) = all_zero-replicate n

all_zero-delays :
    (maximum : ℕ) (lanes : List LatencyLane) (n : ℕ)
    → all_zero (drop (length lanes) (delays maximum lanes ++ replicate n 0)) ≡ true
unfolding delays
all_zero-delays maximum [] n = all_zero-replicate n
all_zero-delays maximum (lane ∷ lanes) n = all_zero-delays maximum lanes n

-- The check at the end of the build never fails.
candidate_valid :
    (maximum : ℕ) (lanes : List LatencyLane)
    → length lanes ≤ max_lanes
    → maximum ≤ max_samples
    → validate_plan (candidate_plan maximum lanes) ≡ true
unfolding validate_plan
candidate_valid maximum lanes few fits = ground (
  arith,
  none_above-delays maximum lanes (replicate (max_lanes - length lanes) 0),
  all_zero-delays maximum lanes (max_lanes - length lanes),
)

build-some :
    (lanes : List LatencyLane) (plan : LatencyPlan)
    → length lanes ≤ max_lanes
    → All IsReportable lanes
    → build_plan lanes plan ≡ (candidate_plan (slowest 0 lanes) lanes, true)
unfolding build_plan
build-some lanes plan few all = ground (
  arith,
  maximum_latency-some 0 lanes all,
  candidate_valid (slowest 0 lanes) lanes few (slowest_bounded 0 lanes (omega arith) all),
)

-- Lanes that are at most 32 and report at most 16384 samples get a plan: it is valid, delays each active lane by
-- what it lacks to the common latency and the others not at all, and the common latency is zero or that of an
-- active lane, so no smaller one would do.
pub build_plan-aligned :
    (lanes : List LatencyLane) (plan : LatencyPlan) (i : ℕ) (lane : LatencyLane)
    → length lanes ≤ max_lanes
    → All IsReportable lanes
    → get_elem? lanes i ≡ some lane
    → let built = (build_plan lanes plan).0 in
      ((build_plan lanes plan).1 ≡ true)
      × (validate_plan built ≡ true)
      × (get_or built.delay_samples i 0 + (if lane.active then lane.reported_latency_samples else 0)
          ≡ (if lane.active then built.maximum_latency_samples else 0))
      × ((built.maximum_latency_samples ≡ 0) ⊎ Reached built.maximum_latency_samples lanes)
build_plan-aligned lanes plan i lane few all found =
    let (on, off) =
      delays-aligned lanes (slowest 0 lanes) (replicate (max_lanes - length lanes) 0) i lane
        (slowest-Below 0 lanes (slowest 0 lanes) (omega arith)) found in
    rw (build-some lanes plan few all) (
      refl,
      candidate_valid (slowest 0 lanes) lanes few (slowest_bounded 0 lanes (omega arith) all),
      elim (Bool-cases lane.active) [
        | inl active ↦ rw active (on active)
        | inr idle ↦ rw idle (omega (arith, off idle))
      ],
      slowest-Reached 0 lanes,
    )

-- The build fails, and leaves the plan as it was, when there are more than 32 lanes or one, active or
-- not, reports more than 16384 samples.
pub build_plan_refused :
    (lanes : List LatencyLane) (plan : LatencyPlan)
    → ¬ ((length lanes ≤ max_lanes) × All IsReportable lanes)
    → build_plan lanes plan ≡ (plan, false)
unfolding build_plan
build_plan_refused lanes plan h = elim (Bool-cases (ltb max_lanes (length lanes))) [
  | inl over ↦ rw over
  | inr fits ↦ rw (fits, maximum_latency-refused lanes 0 λ all. h (ground arith, all))
]
