-- ===== src/Sessions/Registry/Bindings.antt =====
-- A session that is announced again keeps its route and its gain.
use mathlib.Core.Option
use hibiki_dsp.Base.{
  ◌≡◌, ◌∙◌, refl, sym, ap, true, Option, none, some, leb, if◌then◌else◌, length, Bool-cases,
  Option-cases, inl, inr, arith,
}
use hibiki_dsp.Base.Double.{Double}
use hibiki_dsp.Base.Key.{text_key, pair_key}
use hibiki_dsp.Base.Entries.{find_entry, keyed, find_entry-none, find_entry-update, find_entry-snoc}
use hibiki_dsp.Sessions.Registry.{
  Identity, Descriptor, Registry, max_sessions, valid, has_identity, same_identity, merged, find,
  upsert,
}
use hibiki_dsp.Sessions.Registry.Kept.{identity_key, session_key}

module _ (d : Double) where
  -- What the registry holds for a session once it is announced, given what it held before.
  abbrev pub announced : Descriptor d → Option (Descriptor d) → Descriptor d
  announced session none = session
  announced session (some existing) = record {
    schema_version = session.schema_version;
    identity = session.identity;
    display_name = session.display_name;
    app_id = session.app_id;
    active = session.active;
    gain_owner = existing.gain_owner;
    lane_id = existing.lane_id;
    output_group = existing.output_group;
    makeup_gain_db = existing.makeup_gain_db;
  }

  -- After an accepted upsert the session is found at its identity, whatever the process id: as announced
  -- where it is new, and where it is known with the lane, the output group, the gain owner and the gain
  -- that it had, and all else as announced. Every other session is as before.
  pub find-upsert :
      (sessions : Registry d) (session : Descriptor d) (identity : Identity)
      → (upsert d sessions session).1 ≡ true
      → find d (upsert d sessions session).0 identity ≡ (
          if same_identity session.identity identity
          then some (announced session (find d sessions identity))
          else find d sessions identity)
  unfolding upsert find
  find-upsert sessions session identity e = elim (Bool-cases (valid d session)) [
    | inr bad ↦ absurd (ground arith)
    | inl ok ↦ elim (Option-cases (find_entry (has_identity d session.identity) sessions)) [
      | inr (old, known) ↦
          rw (upsert, ok, known, find)
            (find_entry-update (pair_key text_key text_key) (session_key d)
                (identity_key session.identity) (identity_key identity) (merged d session) sessions
                (λ a hit. refl)
              ∙ known_at old known)
      | inl new ↦ elim (Bool-cases (leb max_sessions (length sessions))) [
        | inl full ↦ absurd (ground arith)
        | inr room ↦
            rw (upsert, ok, new, room, find)
              (find_entry-snoc (pair_key text_key text_key) (session_key d) (identity_key identity)
                  sessions session
                  (find_entry-none (pair_key text_key text_key) (session_key d)
                    (identity_key session.identity) sessions new)
                ∙ new_at new)
      ]
    ]
  ]
    where
      same_entry :
          same_identity session.identity identity ≡ true
          → find_entry (has_identity d session.identity) sessions
            ≡ find_entry (has_identity d identity) sessions
      same_entry hit =
          ap (λ k. find_entry (keyed (pair_key text_key text_key) (session_key d) k) sessions)
            ((pair_key text_key text_key).beq_eq (identity_key session.identity)
              (identity_key identity) hit)

      known_at :
          (old : Descriptor d)
          → find_entry (has_identity d session.identity) sessions ≡ some old
          → (if same_identity session.identity identity
              then Option.map (merged d session) (find_entry (has_identity d identity) sessions)
              else find_entry (has_identity d identity) sessions)
            ≡ (if same_identity session.identity identity
                then some (announced session (find_entry (has_identity d identity) sessions))
                else find_entry (has_identity d identity) sessions)
      known_at old known = elim (Bool-cases (same_identity session.identity identity)) [
        | inr miss ↦ rw miss
        | inl hit ↦ rw (hit, sym (same_entry hit) ∙ known) refl
      ]

      new_at :
          find_entry (has_identity d session.identity) sessions ≡ none
          → (if same_identity session.identity identity
              then some session
              else find_entry (has_identity d identity) sessions)
            ≡ (if same_identity session.identity identity
                then some (announced session (find_entry (has_identity d identity) sessions))
                else find_entry (has_identity d identity) sessions)
      new_at new = elim (Bool-cases (same_identity session.identity identity)) [
        | inr miss ↦ rw miss
        | inl hit ↦ rw (hit, sym (same_entry hit) ∙ new) refl
      ]
