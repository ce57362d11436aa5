-- ===== src/Vst/Latency/Plan/Lanes.antt =====
-- The two loops over the lanes: the latency of the slowest active lane, and the delays up to it.
use mathlib.Core.Path.{subst}
use hibiki_dsp.Base.{
  ℕ, zero, suc, ◌+◌, ◌-◌, ◌≤◌, ◌≡◌, ◌⊎◌, ◌∙◌, refl, sym, true, false, List, [], ◌∷◌, ◌++◌,
  if◌then◌else◌, none, some, max, ltb, get_elem?, get_or, All, Bool-cases, inl, inr, arith,
}
use hibiki_dsp.Vst.Latency.Plan.{LatencyLane, max_samples, maximum_latency, delays}

abbrev pub IsReportable : LatencyLane → Type 0
IsReportable lane = lane.reported_latency_samples ≤ max_samples

-- The least number that is not below the start or an active lane's latency.
abbrev pub slowest : ℕ → List LatencyLane → ℕ
slowest start [] = start
slowest start (lane ∷ lanes) = elim lane.active [
  | true ↦ slowest (max start lane.reported_latency_samples) lanes
  | false ↦ slowest start lanes
]

pub maximum_latency-some :
    (start : ℕ) (lanes : List LatencyLane)
    → All IsReportable lanes
    → maximum_latency start lanes ≡ some (slowest start lanes)
unfolding maximum_latency
maximum_latency-some start [] h = refl
maximum_latency-some start (lane ∷ lanes) h = elim (Bool-cases lane.active) [
  | inl on ↦ rw on (
      ground (arith, h.0, maximum_latency-some (max start lane.reported_latency_samples) lanes h.1))
  | inr off ↦ rw off (ground (arith, h.0, maximum_latency-some start lanes h.1))
]

-- A lane that reports too much is met whatever the maximum is before it.
pub maximum_latency-refused :
    (lanes : List LatencyLane) (start : ℕ)
    → ¬ All IsReportable lanes
    → maximum_latency start lanes ≡ none
unfolding maximum_latency
maximum_latency-refused [] start h = absurd (h tt)
maximum_latency-refused (lane ∷ lanes) start h =
    elim (Bool-cases (ltb max_samples lane.reported_latency_samples)) [
      | inl over ↦ rw over
      | inr fits ↦ rw fits (maximum_latency-refused lanes _ λ rest. h (ground arith, rest))
    ]

slowest-le : (start : ℕ) (lanes : List LatencyLane) → start ≤ slowest start lanes
slowest-le start [] = omega arith
slowest-le start (lane ∷ lanes) = elim (Bool-cases lane.active) [
  | inl on ↦ rw on (omega (arith, slowest-le (max start lane.reported_latency_samples) lanes))
  | inr off ↦ rw off (slowest-le start lanes)
]

pub slowest_bounded :
    (start : ℕ) (lanes : List LatencyLane)
    → start ≤ max_samples
    → All IsReportable lanes
    → slowest start lanes ≤ max_samples
slowest_bounded start [] h all = h
slowest_bounded start (lane ∷ lanes) h all = elim (Bool-cases lane.active) [
  | inl on ↦
      rw on (
        slowest_bounded (max start lane.reported_latency_samples) lanes (omega (arith, all.0))
          all.1)
  | inr off ↦ rw off (slowest_bounded start lanes h all.1)
]

abbrev pub IsBelow : ℕ → LatencyLane → Type 0
IsBelow maximum lane = lane.active ≡ true → lane.reported_latency_samples ≤ maximum

pub slowest-Below :
    (start : ℕ) (lanes : List LatencyLane) (maximum : ℕ)
    → slowest start lanes ≤ maximum
    → All (IsBelow maximum) lanes
slowest-Below start [] maximum h = tt
slowest-Below start (lane ∷ lanes) maximum h =
    elim (Bool-cases lane.active) as (λ c. All (IsBelow maximum) (lane ∷ lanes)) [
      | inl on ↦ (
        λ e. omega (arith, slowest-le (max start lane.reported_latency_samples) lanes, reached on),
        slowest-Below (max start lane.reported_latency_samples) lanes maximum (reached on),
      )
      | inr off ↦ (λ e. absurd cc, slowest-Below start lanes maximum (skipped off))
    ]
  where
    reached : lane.active ≡ true → slowest (max start lane.reported_latency_samples) lanes ≤ maximum
    reached on = ground (arith, h)

    skipped : lane.active ≡ false → slowest start lanes ≤ maximum
    skipped off = ground (arith, h)

-- Some active lane has the latency.
abbrev pub Reached : ℕ → List LatencyLane → Type 0
Reached maximum lanes =
    (i : ℕ) × (lane : LatencyLane) × (get_elem? lanes i ≡ some lane)
    × (lane.active ≡ true)
    × (lane.reported_latency_samples ≡ maximum)

pub slowest-Reached :
    (start : ℕ) (lanes : List LatencyLane)
    → (slowest start lanes ≡ start) ⊎ Reached (slowest start lanes) lanes
slowest-Reached start [] = inl refl
slowest-Reached start (lane ∷ lanes) =
    elim (Bool-cases lane.active)
      as (λ c.
        (slowest start (lane ∷ lanes) ≡ start)
        ⊎ Reached (slowest start (lane ∷ lanes)) (lane ∷ lanes)) [
          | inr off ↦ behind start (ground (arith, off)) (slowest-Reached start lanes)
          | inl on ↦ elim (slowest-Reached (max start lane.reported_latency_samples) lanes) [
            | inr found ↦
                behind (max start lane.reported_latency_samples) (ground (arith, on)) (inr found)
            | inl e ↦ elim (max_cases start lane.reported_latency_samples) [
              | inl kept ↦ inl (ground (arith, on, e, kept))
              | inr taken ↦ inr (0, lane, refl, on, ground (arith, on, e, taken))
            ]
          ]
        ]
  where
    max_cases : (a b : ℕ) → (max a b ≡ a) ⊎ (max a b ≡ b)
    max_cases a b = omega arith

    behind :
        (s : ℕ)
        → slowest start (lane ∷ lanes) ≡ slowest s lanes
        → (slowest s lanes ≡ start) ⊎ Reached (slowest s lanes) lanes
        → (slowest start (lane ∷ lanes) ≡ start)
          ⊎ Reached (slowest start (lane ∷ lanes)) (lane ∷ lanes)
    behind s same (inl e) = inl (same ∙ e)
    behind s same (inr (i, other, found, on, e)) = inr (suc i, other, found, on, e ∙ sym same)

-- What the second loop gives each lane.
pub delays-aligned :
    (lanes : List LatencyLane) (maximum : ℕ) (rest : List ℕ) (i : ℕ) (lane : LatencyLane)
    → All (IsBelow maximum) lanes
    → get_elem? lanes i ≡ some lane
    → (lane.active ≡ true
        → get_or (delays maximum lanes ++ rest) i 0 + lane.reported_latency_samples ≡ maximum)
      × (lane.active ≡ false → get_or (delays maximum lanes ++ rest) i 0 ≡ 0)
unfolding delays
delays-aligned [] maximum rest i lane h found = absurd cc
delays-aligned (first ∷ lanes) maximum rest zero lane h found =
    let same : first ≡ lane = cc in
    subst
      (λ l.
        (l.active ≡ true
          → (if first.active then maximum - first.reported_latency_samples else 0)
              + l.reported_latency_samples
            ≡ maximum)
        × (l.active ≡ false
            → (if first.active then maximum - first.reported_latency_samples else 0) ≡ 0))
      same (λ on. ground (arith, h.0 on), λ off. ground arith)
delays-aligned (first ∷ lanes) maximum rest (suc i) lane h found =
    delays-aligned lanes maximum rest i lane h.1 found
