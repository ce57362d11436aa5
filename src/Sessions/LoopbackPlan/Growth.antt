-- ===== src/Sessions/LoopbackPlan/Growth.antt =====
-- Adding one session to a plan.
use mathlib.Core.Path.{subst}
use hibiki_dsp.Base.{
  ◌≡◌, true, false, [], ◌∷◌, ◌++◌, none, some, leb, ◌==◌, length, length-append, Text, text_eq,
  text_eq-eq, Bool-cases, Option-cases, inl, inr, arith,
}
use hibiki_dsp.Base.Double.{Double}
use hibiki_dsp.Base.Key.{text_key, nat_key}
use hibiki_dsp.Base.Entries.{
  find_entry, update_entry, DistinctKeys, IsNew, length-update_entry, All-update_entry, All-snoc,
  find_entry-none, DistinctKeys-update, DistinctKeys-snoc,
}
use hibiki_dsp.Sessions.Registry.{Descriptor}
use hibiki_dsp.Sessions.LoopbackPlan.{
  Entry, Plan, max_entries, has_process, takes_lane, counted, new_entry, grown, add_session,
}
use hibiki_dsp.Sessions.LoopbackPlan.Covers.{
  Covers, process_of, lane_of, IsPlan, Covers-update, Covers-append, Covers-new, Covers-found,
}

module _ (d : Double) where
  -- What one more session leaves of the plan.
  pub record Grows (plan : Plan) (session : Descriptor d) (more : Plan) : Type 0 where
    pub good : IsPlan more
    pub covers : Covers d more session
    pub keeps : (other : Descriptor d) → Covers d plan other → Covers d more other
    pub nonempty : (length more == 0) ≡ false

  takes_lane-IsNew :
      (plan : Plan) (session : Descriptor d)
      → find_entry (takes_lane session.identity.process_id session.lane_id) plan ≡ none
      → IsNew nat_key process_of session.identity.process_id plan
      → IsNew text_key lane_of session.lane_id plan
  unfolding find_entry
  takes_lane-IsNew [] session e new = tt
  takes_lane-IsNew (entry ∷ plan) session e new =
      (ground (arith, new.0), takes_lane-IsNew plan session (ground arith) new.1)

  add-counted :
      (plan : Plan) (session : Descriptor d) (entry : Entry)
      → find_entry (has_process session.identity.process_id) plan ≡ some entry
      → entry.lane_id ≡ session.lane_id
      → entry.output_group ≡ session.output_group
      → IsPlan plan
      → Grows plan session (update_entry (has_process session.identity.process_id) counted plan)
  unfolding find_entry update_entry
  add-counted plan session entry e lane group v = record {
    good = record {
      bounded = omega (
        arith,
        length-update_entry (has_process session.identity.process_id) counted plan,
        v.bounded,
      );
      processes =
          DistinctKeys-update nat_key process_of session.identity.process_id counted plan
            (λ a hit. ground arith) v.processes;
      lanes = lanes_kept plan v.lanes;
      started = All-update_entry _ _ counted plan (λ a hit h. h) v.started;
    };
    covers = Covers-update d _ plan session (Covers-found d plan session entry e lane group);
    keeps = λ other h. Covers-update d _ plan other h;
    nonempty = filled plan e;
  }
    where
      filled :
          (s : Plan)
          → find_entry (has_process session.identity.process_id) s ≡ some entry
          → (length (update_entry (has_process session.identity.process_id) counted s) == 0) ≡ false
      filled [] e = cc
      filled (a ∷ s) e =
          ground
            (arith, length-update_entry (has_process session.identity.process_id) counted (a ∷ s))

      new_kept :
          (lane : Text) (s : Plan)
          → IsNew text_key lane_of lane s
          → IsNew text_key lane_of lane
              (update_entry (has_process session.identity.process_id) counted s)
      new_kept lane s h = All-update_entry _ _ counted s (λ a hit k. k) h

      lanes_kept :
          (s : Plan)
          → DistinctKeys text_key lane_of s
          → DistinctKeys text_key lane_of
              (update_entry (has_process session.identity.process_id) counted s)
      lanes_kept [] h = h
      lanes_kept (a ∷ s) h = elim (Bool-cases (has_process session.identity.process_id a)) [
        | inl hit ↦ rw hit h
        | inr miss ↦ rw miss (new_kept a.lane_id s h.0, lanes_kept s h.1)
      ]

  add-new :
      (plan : Plan) (session : Descriptor d)
      → (session.identity.process_id == 0) ≡ false
      → find_entry (takes_lane session.identity.process_id session.lane_id) plan ≡ none
      → find_entry (has_process session.identity.process_id) plan ≡ none
      → leb max_entries (length plan) ≡ false
      → IsPlan plan
      → Grows plan session (plan ++ (new_entry d session ∷ []))
  add-new plan session started lane process room v =
      let new = find_entry-none nat_key process_of session.identity.process_id plan process in
      record {
        good = record {
          bounded = ground (arith, length-append plan (new_entry d session ∷ []), room);
          processes = DistinctKeys-snoc nat_key process_of plan _ new v.processes;
          lanes =
              DistinctKeys-snoc text_key lane_of plan _ (takes_lane-IsNew plan session lane new)
                v.lanes;
          started = All-snoc _ plan _ v.started started;
        };
        covers = Covers-new d plan session;
        keeps = λ other h. Covers-append d plan _ other h;
        nonempty = ground (arith, length-append plan (new_entry d session ∷ []));
      }

  pub add_session-Grows :
      (plan more : Plan) (session : Descriptor d)
      → add_session d plan session ≡ grown more
      → IsPlan plan
      → Grows plan session more
  unfolding add_session
  add_session-Grows plan more session e v = elim (Bool-cases (session.identity.process_id == 0)) [
    | inl zero_id ↦ ground arith
    | inr started ↦
        elim (Option-cases
          (find_entry (takes_lane session.identity.process_id session.lane_id) plan)) [
            | inr (other, taken) ↦ ground arith
            | inl lane ↦
                elim (Option-cases (find_entry (has_process session.identity.process_id) plan)) [
                  | inl process ↦ elim (Bool-cases (leb max_entries (length plan))) [
                    | inl full ↦ ground arith
                    | inr room ↦
                        subst (Grows plan session) (appended started lane process room)
                          (add-new plan session started lane process room v)
                  ]
                  | inr (entry, known) ↦ elim (Bool-cases (text_eq entry.lane_id session.lane_id)) [
                    | inr other ↦ ground arith
                    | inl lane_same ↦
                        elim (Bool-cases (text_eq entry.output_group session.output_group)) [
                          | inr other ↦ ground arith
                          | inl group_same ↦
                              subst (Grows plan session)
                                (recounted started lane entry known lane_same group_same)
                                (add-counted plan session entry known (text_eq-eq _ _ lane_same)
                                  (text_eq-eq _ _ group_same) v)
                        ]
                  ]
                ]
          ]
  ]
    where
      appended :
          (session.identity.process_id == 0) ≡ false
          → find_entry (takes_lane session.identity.process_id session.lane_id) plan ≡ none
          → find_entry (has_process session.identity.process_id) plan ≡ none
          → leb max_entries (length plan) ≡ false
          → plan ++ (new_entry d session ∷ []) ≡ more
      appended started lane process room = ground arith

      recounted :
          (session.identity.process_id == 0) ≡ false
          → find_entry (takes_lane session.identity.process_id session.lane_id) plan ≡ none
          → (entry : Entry) → find_entry (has_process session.identity.process_id) plan ≡ some entry
          → text_eq entry.lane_id session.lane_id ≡ true
          → text_eq entry.output_group session.output_group ≡ true
          → update_entry (has_process session.identity.process_id) counted plan ≡ more
      recounted started lane entry known lane_same group_same = ground arith
