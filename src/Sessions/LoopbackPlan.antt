-- ===== src/Sessions/LoopbackPlan.antt =====
-- src/hub/include/hibiki/process_loopback_plan.hpp and src/hub/src/process_loopback_plan.cpp.
pub mod Covers
pub mod Growth
pub mod Correct
use hibiki_dsp.Base.{
  ℕ, ◌+◌, ◌≡◌, Bool, true, false, ◌&&◌, ◌||◌, not, List, [], ◌∷◌, ◌++◌, Option, none, some, leb,
  ◌==◌, ◌%◌, ◌^◌, if◌then◌else◌, length, Text, text_eq,
}
use hibiki_dsp.Base.Double.{Double}
use hibiki_dsp.Base.Entries.{find_entry, update_entry}
use hibiki_dsp.Sessions.Registry.{Descriptor, Registry, is_empty}

pub data PlanResult : Type 0 where
  applied no_routes invalid_process_identity ambiguous_process duplicate_lane capacity_exhausted :
      PlanResult

pub record Entry : Type 0 where
  pub process_id : ℕ
  pub session_count : ℕ
  pub include_process_tree : Bool
  pub lane_id : Text
  pub output_group : Text

abbrev pub max_entries : ℕ
max_entries = 64

-- `entries` up to `size`.
abbrev pub Plan : Type 0
Plan = List Entry

abbrev pub has_process : ℕ → Entry → Bool
has_process process_id entry = entry.process_id == process_id

abbrev pub takes_lane : ℕ → Text → Entry → Bool
takes_lane process_id lane_id entry =
    text_eq entry.lane_id lane_id && not (entry.process_id == process_id)

abbrev pub counted : Entry → Entry
counted entry = record entry { session_count = (entry.session_count + 1) % 2 ^ 32 }

module _ (d : Double) where
  abbrev pub is_routed : Descriptor d → Bool
  is_routed session =
      not (not session.active || is_empty session.lane_id || is_empty session.output_group)

  abbrev pub new_entry : Descriptor d → Entry
  new_entry session = record {
    process_id = session.identity.process_id;
    session_count = 1;
    include_process_tree = true;
    lane_id = session.lane_id;
    output_group = session.output_group;
  }

  -- What one routed session does to the plan so far: the new plan, or the error that ends the build.
  pub data Added : Type 0 where
    grown : Plan → Added
    failed : PlanResult → Added

  unfoldable pub add_session : Plan → Descriptor d → Added
  add_session plan session =
      if session.identity.process_id == 0
      then failed invalid_process_identity
      else elim (find_entry (takes_lane session.identity.process_id session.lane_id) plan) [
        | some other ↦ failed duplicate_lane
        | none ↦ elim (find_entry (has_process session.identity.process_id) plan) [
          | some entry ↦
              if not (text_eq entry.lane_id session.lane_id)
                || not (text_eq entry.output_group session.output_group)
              then failed ambiguous_process
              else grown (update_entry (has_process session.identity.process_id) counted plan)
          | none ↦
              if leb max_entries (length plan)
              then failed capacity_exhausted
              else grown (plan ++ (new_entry session ∷ []))
        ]
      ]

  -- The loop over the sessions; an error clears the plan.
  unfoldable pub build_from : Plan → Registry d → Plan × PlanResult
  build_from plan [] = if length plan == 0 then (plan, no_routes) else (plan, applied)
  build_from plan (session ∷ rest) =
      let skip = build_from plan rest in
      if not (is_routed session) then skip else elim (add_session plan session) [
        | failed error ↦ ([], error)
        | grown more ↦ build_from more rest
      ]

  unfoldable pub build_process_loopback_plan : Registry d → Plan × PlanResult
  build_process_loopback_plan sessions = build_from [] sessions
