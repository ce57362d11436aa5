-- ===== src/Vst/Latency/Commit/Lanes.antt =====
-- The loops over the lanes of a graph.
use hibiki_dsp.Base.{
  ℕ, ◌≤◌, ◌≡◌, ◌≢◌, ◌⊎◌, refl, false, List, [], ◌∷◌, some, max, map, All, Bool-cases, inl, inr,
  arith,
}
use hibiki_dsp.Vst.Latency.Commit.{max_graph_samples}
use hibiki_dsp.Vst.Latency.Commit.{
  GraphLaneInput, GraphLane, has_token, misfits, unfit, validate_lanes, counted_latency,
  graph_maximum, graph_lane,
}

pub record IsFit (source : GraphLaneInput) : Type 0 where
  pub named : source.lane_token ≢ 0
  pub sized : (source.channel_count ≡ 2) ⊎ (source.channel_count ≡ 6) ⊎ (source.channel_count ≡ 8)
  pub bounded : source.reported_latency_samples ≤ max_graph_samples

-- No two lanes have one token.
abbrev pub Distinct : List GraphLaneInput → Type 0
Distinct [] = Unit
Distinct (source ∷ sources) =
    All (λ other. other.lane_token ≢ source.lane_token) sources × Distinct sources

unfit-IsFit : (source : GraphLaneInput) → unfit source ≡ false → IsFit source
unfit-IsFit source h = record {
  named = λ e. ground arith;
  sized = ground arith;
  bounded = ground arith;
}

IsFit-unfit : (source : GraphLaneInput) → IsFit source → unfit source ≡ false
IsFit-unfit source v = ground (arith, v.named, v.sized, v.bounded)

-- The tokens of the rest are not among the prior ones.
abbrev pub Fresh : List GraphLane → List GraphLaneInput → Type 0
Fresh priors sources = All (λ source. has_token source.lane_token priors ≡ false) sources

Fresh-cons :
    (maximum : ℕ) (source : GraphLaneInput) (priors : List GraphLane)
    (sources : List GraphLaneInput)
    → Fresh priors sources
    → All (λ other. other.lane_token ≢ source.lane_token) sources
    → Fresh (graph_lane maximum source ∷ priors) sources
unfolding has_token
Fresh-cons maximum source priors [] f u = tt
Fresh-cons maximum source priors (other ∷ sources) f u =
    (ground (arith, f.0, u.0), Fresh-cons maximum source priors sources f.1 u.1)

-- The largest counted latency, or the start.
abbrev pub largest : ℕ → List GraphLaneInput → ℕ
largest start [] = start
largest start (source ∷ sources) = largest (max start (counted_latency source)) sources

largest-le : (start : ℕ) (sources : List GraphLaneInput) → start ≤ largest start sources
largest-le start [] = omega arith
largest-le start (source ∷ sources) =
    omega (arith, largest-le (max start (counted_latency source)) sources)

pub largest_bounded :
    (start : ℕ) (sources : List GraphLaneInput)
    → start ≤ max_graph_samples
    → All IsFit sources
    → largest start sources ≤ max_graph_samples
largest_bounded start [] h v = h
largest_bounded start (source ∷ sources) h v =
    largest_bounded (max start (counted_latency source)) sources (ground (arith, v.0.bounded)) v.1

pub graph_maximum-some :
    (start : ℕ) (sources : List GraphLaneInput)
    → All IsFit sources
    → graph_maximum start sources ≡ some (largest start sources)
unfolding graph_maximum
graph_maximum-some start [] v = refl
graph_maximum-some start (source ∷ sources) v =
    rw (IsFit-unfit source v.0)
      (graph_maximum-some (max start (counted_latency source)) sources v.1)

pub validate_lanes-some :
    (maximum start : ℕ) (priors : List GraphLane) (sources : List GraphLaneInput)
    → All IsFit sources
    → Fresh priors sources
    → Distinct sources
    → largest start sources ≤ maximum
    → maximum ≤ max_graph_samples
    → validate_lanes maximum start priors (map (graph_lane maximum) sources)
      ≡ some (largest start sources)
unfolding validate_lanes
validate_lanes-some maximum start priors [] v f u h bound = refl
validate_lanes-some maximum start priors (source ∷ sources) v f u h bound =
    rw (fits, f.0)
      (validate_lanes-some maximum (max start (counted_latency source))
        (graph_lane maximum source ∷ priors) sources v.1
        (Fresh-cons maximum source priors sources f.1 u.0) u.1 h bound)
  where
    fits : misfits maximum (graph_lane maximum source) ≡ false
    fits = ground (
      arith,
      v.0.named,
      v.0.sized,
      v.0.bounded,
      Bool-cases source.active,
      largest-le (max start (counted_latency source)) sources,
    )

pub graph_maximum-IsFit :
    (sources : List GraphLaneInput) (start maximum : ℕ)
    → graph_maximum start sources ≡ some maximum
    → All IsFit sources
unfolding graph_maximum
graph_maximum-IsFit [] start maximum h = tt
graph_maximum-IsFit (source ∷ sources) start maximum h = elim (Bool-cases (unfit source)) [
  | inl bad ↦ absurd (ground arith)
  | inr fits ↦ (
    unfit-IsFit source fits,
    graph_maximum-IsFit sources (max start (counted_latency source)) maximum (ground arith),
  )
]

Fresh-uncons :
    (maximum : ℕ) (source : GraphLaneInput) (priors : List GraphLane)
    (sources : List GraphLaneInput)
    → Fresh (graph_lane maximum source ∷ priors) sources
    → Fresh priors sources × All (λ other. other.lane_token ≢ source.lane_token) sources
unfolding has_token
Fresh-uncons maximum source priors [] f = (tt, tt)
Fresh-uncons maximum source priors (other ∷ sources) f =
    let (fresh, others) = Fresh-uncons maximum source priors sources f.1 in
    ((ground (arith, f.0), fresh), (λ e. ground (arith, f.0, e), others))

pub validate_lanes-Distinct :
    (maximum : ℕ) (sources : List GraphLaneInput) (start final : ℕ) (priors : List GraphLane)
    → validate_lanes maximum start priors (map (graph_lane maximum) sources) ≡ some final
    → Fresh priors sources × Distinct sources
unfolding validate_lanes
validate_lanes-Distinct maximum [] start final priors h = (tt, tt)
validate_lanes-Distinct maximum (source ∷ sources) start final priors h =
    let (fresh, distinct) =
      validate_lanes-Distinct maximum sources (max start (counted_latency source)) final
        (graph_lane maximum source ∷ priors) (ground arith) in
    let (older, others) = Fresh-uncons maximum source priors sources fresh in
    ((ground arith, older), (others, distinct))

pub Fresh-nil : (sources : List GraphLaneInput) → Fresh [] sources
unfolding has_token
Fresh-nil [] = tt
Fresh-nil (source ∷ sources) = (refl, Fresh-nil sources)
