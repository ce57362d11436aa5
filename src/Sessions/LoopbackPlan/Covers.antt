-- ===== src/Sessions/LoopbackPlan/Covers.antt =====
-- Plans, and the sessions that a plan covers.
use hibiki_dsp.Base.{
  ℕ, ◌≤◌, ◌≡◌, ◌⊎◌, refl, false, [], ◌∷◌, ◌++◌, some, ◌==◌, length, All, Text, Bool-cases, inl, inr,
  arith,
}
use hibiki_dsp.Base.Double.{Double}
use hibiki_dsp.Base.Key.{text_key, nat_key}
use hibiki_dsp.Base.Entries.{find_entry, update_entry, DistinctKeys}
use hibiki_dsp.Sessions.Registry.{Descriptor}
use hibiki_dsp.Sessions.LoopbackPlan.{Entry, Plan, max_entries, has_process, counted, new_entry}

abbrev pub process_of : Entry → ℕ
process_of entry = entry.process_id

abbrev pub lane_of : Entry → Text
lane_of entry = entry.lane_id

pub record IsPlan (plan : Plan) : Type 0 where
  pub bounded : length plan ≤ max_entries
  pub processes : DistinctKeys nat_key process_of plan
  pub lanes : DistinctKeys text_key lane_of plan
  pub started : All (λ entry. (entry.process_id == 0) ≡ false) plan

module _ (d : Double) where
  -- The plan has an entry for the session's process, with the session's route.
  abbrev pub Covers : Plan → Descriptor d → Type 0
  Covers [] session = ⊥
  Covers (entry ∷ plan) session =
      ((entry.process_id ≡ session.identity.process_id)
        × (entry.lane_id ≡ session.lane_id)
        × (entry.output_group ≡ session.output_group))
      ⊎ Covers plan session

  pub Covers-update :
      (process_id : ℕ) (plan : Plan) (session : Descriptor d)
      → Covers plan session
      → Covers (update_entry (has_process process_id) counted plan) session
  unfolding update_entry
  Covers-update process_id [] session h = h
  Covers-update process_id (entry ∷ plan) session h =
      elim (Bool-cases (has_process process_id entry)) [
        | inl hit ↦ rw hit (at_head h)
        | inr miss ↦ rw miss (behind (Covers-update process_id plan session) h)
      ]
    where
      at_head : Covers (entry ∷ plan) session → Covers (counted entry ∷ plan) session
      at_head (inl same) = inl same
      at_head (inr later) = inr later

      behind :
          (Covers plan session
            → Covers (update_entry (has_process process_id) counted plan) session)
          → Covers (entry ∷ plan) session
          → Covers (entry ∷ update_entry (has_process process_id) counted plan) session
      behind below (inl same) = inl same
      behind below (inr later) = inr (below later)

  pub Covers-append :
      (plan more : Plan) (session : Descriptor d)
      → Covers plan session
      → Covers (plan ++ more) session
  Covers-append [] more session h = absurd h
  Covers-append (entry ∷ plan) more session (inl same) = inl same
  Covers-append (entry ∷ plan) more session (inr later) =
      inr (Covers-append plan more session later)

  pub Covers-new :
      (plan : Plan) (session : Descriptor d) → Covers (plan ++ (new_entry d session ∷ [])) session
  Covers-new [] session = inl (refl, refl, refl)
  Covers-new (entry ∷ plan) session = inr (Covers-new plan session)

  pub Covers-found :
      (plan : Plan) (session : Descriptor d) (entry : Entry)
      → find_entry (has_process session.identity.process_id) plan ≡ some entry
      → entry.lane_id ≡ session.lane_id
      → entry.output_group ≡ session.output_group
      → Covers plan session
  unfolding find_entry
  Covers-found [] session entry e l o = cc
  Covers-found (first ∷ plan) session entry e l o =
      elim (Bool-cases (has_process session.identity.process_id first)) [
        | inl hit ↦ inl (ground arith, ground arith, ground arith)
        | inr miss ↦ inr (Covers-found plan session entry (ground arith) l o)
      ]
