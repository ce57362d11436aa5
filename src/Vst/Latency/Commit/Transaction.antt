-- ===== src/Vst/Latency/Commit/Transaction.antt =====
-- The committer publishes only what was prepared on the graph in force.
use hibiki_dsp.Base.{
  ℕ, ◌+◌, ◌≤◌, ◌<◌, ◌≡◌, refl, true, false, List, Bool-cases, inl, inr, arith, if◌then◌else◌,
}
use hibiki_dsp.Vst.Latency.Commit.{
  GraphLaneInput, GraphCommit, Committer, ready, prepared, degraded, base_revision, new_commit,
  prepare_commit, prepare_graph, commit_graph, rollback_graph, validate_commit,
}
use hibiki_dsp.Vst.Latency.Commit.Prepared.{
  IsGraph, prepare_commit_iff, prepare-candidate, candidate-valid,
}

-- What is pending was prepared on the graph in force; what is pending or in force is valid.
pub record IsCommitter (committer : Committer) : Type 0 where
  pub based :
      committer.has_pending ≡ true → committer.pending.base_graph_revision ≡ base_revision committer
  pub pending_valid : committer.has_pending ≡ true → validate_commit committer.pending ≡ true
  pub active_valid : committer.has_active ≡ true → validate_commit committer.active ≡ true
  pub announced : committer.state ≡ prepared → committer.has_pending ≡ true

pub data CommitterCall : Type 0 where
  prepares : List GraphLaneInput → ℕ → CommitterCall
  commits rolls_back : CommitterCall

unfoldable pub committer_after : Committer → CommitterCall → Committer
committer_after committer (prepares sources target) = (prepare_graph committer sources target).0
committer_after committer commits = (commit_graph committer).0
committer_after committer rolls_back = rollback_graph committer

prepared-valid :
    (sources : List GraphLaneInput) (base target : ℕ)
    → (prepare_commit sources base target new_commit).1 ≡ true
    → let candidate = (prepare_commit sources base target new_commit).0 in
      (candidate.base_graph_revision ≡ base) × (validate_commit candidate ≡ true)
prepared-valid sources base target h =
    let v : IsGraph sources base target = (prepare_commit_iff sources base target new_commit).0 h in
    rw (prepare-candidate sources base target new_commit v)
      (refl, candidate-valid sources base target v)

prepare-IsCommitter :
    (committer : Committer) (sources : List GraphLaneInput) (target : ℕ)
    → IsCommitter committer
    → IsCommitter (prepare_graph committer sources target).0
unfolding prepare_graph
prepare-IsCommitter committer sources target v =
    elim (Bool-cases (prepare_commit sources (base_revision committer) target new_commit).1) [
      | inr refused ↦
          rw (prepare_graph, refused)
            (record {
              based = λ e. absurd cc;
              pending_valid = λ e. absurd cc;
              active_valid = v.active_valid;
              announced = λ e. absurd cc;
            })
      | inl accepted ↦
          let (based, valid) = prepared-valid sources (base_revision committer) target accepted in
          rw (prepare_graph, accepted)
            (record {
              based = λ e. based;
              pending_valid = λ e. valid;
              active_valid = v.active_valid;
              announced = λ e. refl;
            })
    ]

abbrev published : Committer → Committer
published committer = record committer {
  active = committer.pending;
  has_active = true;
  has_pending = false;
  state = ready;
}

commit-published :
    (committer : Committer)
    → IsCommitter committer
    → committer.has_pending ≡ true
    → commit_graph committer ≡ (published committer, true)
unfolding commit_graph
commit-published committer v h = elim (Bool-cases committer.has_active) [
  | inl on ↦ ground (arith, on, v.based h)
  | inr off ↦ ground (arith, off, v.based h)
]

commit-refused :
    (committer : Committer)
    → committer.has_pending ≡ false
    → commit_graph committer ≡ (record committer { state = degraded }, false)
unfolding commit_graph
commit-refused committer h = rw h

commit-IsCommitter :
    (committer : Committer) → IsCommitter committer → IsCommitter (commit_graph committer).0
commit-IsCommitter committer v = elim (Bool-cases committer.has_pending) [
  | inl h ↦ rw (commit-published committer v h) (record {
    based = λ e. absurd cc;
    pending_valid = λ e. absurd cc;
    active_valid = λ e. v.pending_valid h;
    announced = λ e. absurd cc;
  })
  | inr h ↦ rw (commit-refused committer h) (record {
    based = λ e. absurd cc;
    pending_valid = λ e. absurd cc;
    active_valid = v.active_valid;
    announced = λ e. absurd cc;
  })
]

rollback-IsCommitter :
    (committer : Committer) → IsCommitter committer → IsCommitter (rollback_graph committer)
unfolding rollback_graph
rollback-IsCommitter committer v = record {
  based = λ e. absurd cc;
  pending_valid = λ e. absurd cc;
  active_valid = v.active_valid;
  announced = λ e. absurd (ground (arith, Bool-cases committer.has_active));
}

-- Every operation of the committer, whatever it answers, keeps this: what is pending is valid and was prepared on
-- the revision in force, what is in force is valid, and the state says prepared only when something is pending.
pub committer_after-IsCommitter :
    (committer : Committer) (call : CommitterCall)
    → IsCommitter committer
    → IsCommitter (committer_after committer call)
unfolding committer_after
committer_after-IsCommitter committer (prepares sources target) v =
    prepare-IsCommitter committer sources target v
committer_after-IsCommitter committer commits v = commit-IsCommitter committer v
committer_after-IsCommitter committer rolls_back v = rollback-IsCommitter committer v

valid_increases :
    (commit : GraphCommit)
    → validate_commit commit ≡ true
    → commit.base_graph_revision < commit.target_graph_revision
unfolding validate_commit
valid_increases commit h = ground arith

-- A well-formed committer commits exactly when something is pending: then the pending graph is in force, with a
-- revision beyond the one before; otherwise the graph in force stays. Either way nothing is pending after it.
pub commit_graph-pending :
    (committer : Committer)
    → IsCommitter committer
    → let after = (commit_graph committer).0 in
      ((commit_graph committer).1 ≡ committer.has_pending)
      × (after.active ≡ (if committer.has_pending then committer.pending else committer.active))
      × (after.has_pending ≡ false)
      × (base_revision committer + (if committer.has_pending then 1 else 0) ≤ base_revision after)
commit_graph-pending committer v = elim (Bool-cases committer.has_pending) [
  | inl h ↦
      rw (commit-published committer v h, h)
        (
          refl,
          refl,
          refl,
          omega (arith, v.based h, valid_increases committer.pending (v.pending_valid h)),
        )
  | inr h ↦ rw (commit-refused committer h, h) (refl, refl, refl, omega arith)
]
