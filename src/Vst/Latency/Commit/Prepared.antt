-- ===== src/Vst/Latency/Commit/Prepared.antt =====
-- A graph of fitting lanes with different tokens, and only such a one, is prepared.
use hibiki_dsp.Base.{
  ℕ, suc, ◌≤◌, ◌<◌, ◌≡◌, ◌↔◌, refl, ap, true, List, [], ◌∷◌, some, length, map, All, Option-cases,
  inl, inr, arith,
}
use hibiki_dsp.Vst.Latency.Commit.{max_graph_lanes}
use hibiki_dsp.Vst.Latency.Commit.{
  GraphLaneInput, GraphCommit, validate_lanes, validate_commit, graph_maximum, graph_lane,
  candidate_commit, prepare_commit,
}
use hibiki_dsp.Vst.Latency.Commit.Lanes.{
  IsFit, Distinct, largest, graph_maximum-some, largest_bounded, validate_lanes-some,
  graph_maximum-IsFit, validate_lanes-Distinct, Fresh-nil,
}

pub record IsGraph (sources : List GraphLaneInput) (base target : ℕ) : Type 0 where
  pub few : length sources ≤ max_graph_lanes
  pub later : base < target
  pub fit : All IsFit sources
  pub distinct : Distinct sources

length-map :
    (maximum : ℕ) (sources : List GraphLaneInput)
    → length (map (graph_lane maximum) sources) ≡ length sources
length-map maximum [] = refl
length-map maximum (source ∷ sources) = ap suc (length-map maximum sources)

pub candidate-valid :
    (sources : List GraphLaneInput) (base target : ℕ)
    → IsGraph sources base target
    → validate_commit (candidate_commit (largest 0 sources) sources base target) ≡ true
unfolding validate_commit
candidate-valid sources base target v = ground (
  arith,
  v.few,
  v.later,
  length-map (largest 0 sources) sources,
  validate_lanes-some (largest 0 sources) 0 [] sources v.fit (Fresh-nil sources) v.distinct
      (omega arith) (largest_bounded 0 sources (omega arith) v.fit),
  largest_bounded 0 sources (omega arith) v.fit,
)

pub prepare-candidate :
    (sources : List GraphLaneInput) (base target : ℕ) (commit : GraphCommit)
    → IsGraph sources base target
    → prepare_commit sources base target commit
      ≡ (candidate_commit (largest 0 sources) sources base target, true)
unfolding prepare_commit
prepare-candidate sources base target commit v = ground (
  arith,
  v.few,
  v.later,
  graph_maximum-some 0 sources v.fit,
  candidate-valid sources base target v,
)

-- What a successful preparation went through.
prepared_from :
    (sources : List GraphLaneInput) (base target : ℕ) (commit : GraphCommit)
    → (prepare_commit sources base target commit).1 ≡ true
    → (length sources ≤ max_graph_lanes)
      × (base < target)
      × ((maximum : ℕ) × (graph_maximum 0 sources ≡ some maximum)
          × (validate_commit (candidate_commit maximum sources base target) ≡ true))
unfolding prepare_commit
prepared_from sources base target commit h = elim (Option-cases (graph_maximum 0 sources)) [
  | inl none_found ↦ absurd (ground arith)
  | inr (maximum, found) ↦ (ground arith, ground arith, (maximum, found, ground arith))
]

valid_from :
    (commit : GraphCommit)
    → validate_commit commit ≡ true
    → (final : ℕ) × (validate_lanes commit.maximum_latency_samples 0 [] commit.lanes ≡ some final)
unfolding validate_commit
valid_from commit h =
    elim (Option-cases (validate_lanes commit.maximum_latency_samples 0 [] commit.lanes)) [
      | inl refused ↦ absurd (ground arith)
      | inr found ↦ found
    ]

-- A graph is prepared exactly when it has at most 32 lanes, a target revision beyond the base, lanes that have a
-- token, two, six or eight channels and at most 16384 samples of latency, and no token twice.
pub prepare_commit_iff :
    (sources : List GraphLaneInput) (base target : ℕ) (commit : GraphCommit)
    → ((prepare_commit sources base target commit).1 ≡ true) ↔ IsGraph sources base target
prepare_commit_iff sources base target commit =
    (when_prepared, λ v. ap (λ r. r.1) (prepare-candidate sources base target commit v))
  where
    when_prepared :
        (prepare_commit sources base target commit).1 ≡ true → IsGraph sources base target
    when_prepared h =
        let (few, later, (maximum, found, accepted)) = prepared_from sources base target commit h in
        let (final, checked) = valid_from (candidate_commit maximum sources base target) accepted in
        let (fresh, distinct) = validate_lanes-Distinct maximum sources 0 final [] checked in
        record {
          few = few;
          later = later;
          fit = graph_maximum-IsFit sources 0 maximum found;
          distinct = distinct;
        }
