-- ===== src/Sessions/LoopbackPlan/Correct.antt =====
-- What a built plan promises the worker.
use hibiki_dsp.Base.{
  ◌≡◌, refl, true, false, [], ◌∷◌, ◌==◌, length, All, Bool-cases, inl, inr, arith,
}
use hibiki_dsp.Base.Double.{Double}
use hibiki_dsp.Sessions.Registry.{Descriptor, Registry}
use hibiki_dsp.Sessions.LoopbackPlan.{
  Plan, PlanResult, applied, no_routes, invalid_process_identity, ambiguous_process, duplicate_lane,
  capacity_exhausted, is_routed, Added, grown, failed, add_session, build_from,
  build_process_loopback_plan,
}
use hibiki_dsp.Sessions.LoopbackPlan.Covers.{Covers, IsPlan}
use hibiki_dsp.Sessions.LoopbackPlan.Growth.{Grows, add_session-Grows}

module _ (d : Double) where
  -- Every session with a route is covered.
  abbrev pub CoversAll : Plan → Registry d → Type 0
  CoversAll plan [] = Unit
  CoversAll plan (session ∷ rest) =
      (is_routed d session ≡ true → Covers d plan session) × CoversAll plan rest

  -- The promise of a result: a good plan that covers all, or an empty plan.
  abbrev pub Promise : Plan → PlanResult → Registry d → Type 0
  Promise plan applied sessions =
      IsPlan plan × CoversAll plan sessions × ((length plan == 0) ≡ false)
  Promise plan no_routes sessions = (plan ≡ []) × All (λ s. is_routed d s ≡ false) sessions
  Promise plan _ sessions = plan ≡ []

  -- The promise of the loop that has built `start` so far.
  abbrev Onward : Plan → Plan → PlanResult → Registry d → Type 0
  Onward start plan applied sessions =
      IsPlan plan
      × CoversAll plan sessions
      × ((length plan == 0) ≡ false)
      × ((other : Descriptor d) → Covers d start other → Covers d plan other)
  Onward start plan no_routes sessions =
      (start ≡ []) × (plan ≡ []) × All (λ s. is_routed d s ≡ false) sessions
  Onward start plan _ sessions = plan ≡ []

  skip-Onward :
      (start plan : Plan) (result : PlanResult) (session : Descriptor d) (rest : Registry d)
      → is_routed d session ≡ false
      → Onward start plan result rest
      → Onward start plan result (session ∷ rest)
  skip-Onward start plan applied session rest e (good, covers, full, keeps) =
      (good, ((λ h. absurd (ground arith)), covers), full, keeps)
  skip-Onward start plan no_routes session rest e (fresh, empty, none_routed) =
      (fresh, empty, (e, none_routed))
  skip-Onward start plan invalid_process_identity session rest e h = h
  skip-Onward start plan ambiguous_process session rest e h = h
  skip-Onward start plan duplicate_lane session rest e h = h
  skip-Onward start plan capacity_exhausted session rest e h = h

  grow-Onward :
      (start more plan : Plan) (result : PlanResult) (session : Descriptor d) (rest : Registry d)
      → Grows d start session more
      → Onward more plan result rest
      → Onward start plan result (session ∷ rest)
  grow-Onward start more plan applied session rest g (good, covers, full, keeps) = (
    good,
    ((λ h. keeps session g.covers), covers),
    full,
    λ other h. keeps other (g.keeps other h),
  )
  grow-Onward start more plan no_routes session rest g (fresh, empty, none_routed) =
      absurd (ground (arith, g.nonempty))
  grow-Onward start more plan invalid_process_identity session rest g h = h
  grow-Onward start more plan ambiguous_process session rest g h = h
  grow-Onward start more plan duplicate_lane session rest g h = h
  grow-Onward start more plan capacity_exhausted session rest g h = h

  -- Only an error ends the build early.
  abbrev IsError : PlanResult → Type 0
  IsError applied = ⊥
  IsError no_routes = ⊥
  IsError _ = Unit

  fail-Onward :
      (start : Plan) (error : PlanResult) (sessions : Registry d)
      → IsError error
      → Onward start [] error sessions
  fail-Onward start applied sessions h = absurd h
  fail-Onward start no_routes sessions h = absurd h
  fail-Onward start invalid_process_identity sessions h = refl
  fail-Onward start ambiguous_process sessions h = refl
  fail-Onward start duplicate_lane sessions h = refl
  fail-Onward start capacity_exhausted sessions h = refl

  add_session-IsError :
      (plan : Plan) (session : Descriptor d) (error : PlanResult)
      → add_session d plan session ≡ failed error
      → IsError error
  unfolding add_session
  add_session-IsError plan session applied e = ground arith
  add_session-IsError plan session no_routes e = ground arith
  add_session-IsError plan session invalid_process_identity e = tt
  add_session-IsError plan session ambiguous_process e = tt
  add_session-IsError plan session duplicate_lane e = tt
  add_session-IsError plan session capacity_exhausted e = tt

  build_from-Onward :
      (start : Plan) (sessions : Registry d)
      → IsPlan start
      → Onward start (build_from d start sessions).0 (build_from d start sessions).1 sessions
  unfolding build_from
  build_from-Onward [] [] v = (refl, refl, tt)
  build_from-Onward (entry ∷ start) [] v = rw (build_from, full) (v, tt, full, λ other h. h)
    where
      full : (length (entry ∷ start) == 0) ≡ false
      full = ground arith
  build_from-Onward start (session ∷ rest) v = elim (Bool-cases (is_routed d session)) [
    | inr unrouted ↦
        rw (build_from, unrouted)
          (skip-Onward start _ (build_from d start rest).1 session rest unrouted
            (build_from-Onward start rest v))
    | inl routed ↦
        added routed (λ more. build_from-Onward more rest) (add_session d start session) refl
  ]
    where
      added :
          is_routed d session ≡ true
          → ((more : Plan)
              → IsPlan more
              → Onward more (build_from d more rest).0 (build_from d more rest).1 rest)
          → (a : Added d) → add_session d start session ≡ a
          → Onward start
              (build_from d start (session ∷ rest)).0
              (build_from d start (session ∷ rest)).1
              (session ∷ rest)
      added routed below (failed error) e =
          rw (build_from, routed, e)
            (fail-Onward start error (session ∷ rest) (add_session-IsError start session error e))
      added routed below (grown more) e =
          let g = add_session-Grows d start more session e v in
          rw (build_from, routed, e)
            (grow-Onward start more _ (build_from d more rest).1 session rest g (below more g.good))

  -- A build that answers `applied` leaves a nonempty plan of at most 64 entries, with pairwise different
  -- processes, none of them 0, and pairwise different lanes, in which every active session with a lane and an
  -- output group has an entry for its process with its route. `no_routes` means that there is no such
  -- session; on it and on every error the plan is empty.
  pub build-Promise :
      (sessions : Registry d)
      → Promise
          (build_process_loopback_plan d sessions).0
          (build_process_loopback_plan d sessions).1
          sessions
  unfolding build_process_loopback_plan
  build-Promise sessions =
      promise _ (build_from d [] sessions).1 (build_from-Onward [] sessions fresh)
    where
      fresh : IsPlan []
      fresh = record { bounded = omega arith; processes = tt; lanes = tt; started = tt }

      promise : (plan : Plan) (r : PlanResult) → Onward [] plan r sessions → Promise plan r sessions
      promise plan applied (good, covers, full, keeps) = (good, covers, full)
      promise plan no_routes (start, empty, none_routed) = (empty, none_routed)
      promise plan invalid_process_identity h = h
      promise plan ambiguous_process h = h
      promise plan duplicate_lane h = h
      promise plan capacity_exhausted h = h
