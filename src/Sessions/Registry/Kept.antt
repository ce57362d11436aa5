-- ===== src/Sessions/Registry/Kept.antt =====
-- A well-formed registry, and what keeps it so.
use hibiki_dsp.Base.{
  ◌≤◌, ◌≡◌, ◌∙◌, refl, true, [], ◌∷◌, arith, leb, length, length-append, map, All, Text, Bool-cases,
  Option-cases, inl, inr, leb-lt,
}
use hibiki_dsp.Base.Double.{Double}
use hibiki_dsp.Base.Key.{text_key, pair_key}
use hibiki_dsp.Base.Entries.{
  find_entry, update_entry, DistinctKeys, length-update_entry, length-erase_entry, All-update_entry,
  All-erase_entry, All-snoc, find_entry-none, DistinctKeys-update, DistinctKeys-erase,
  DistinctKeys-snoc,
}
use hibiki_dsp.Base.Entries.Map.{length-map, All-map, DistinctKeys-map}
use hibiki_dsp.Sessions.Registry.{
  Identity, GainOwner, Descriptor, Registry, max_sessions, valid, valid_gain, valid_binding,
  has_identity, merged, upsert, remove, change, deactivate,
}

abbrev pub identity_key : Identity → Text × Text
identity_key i = (i.endpoint_id, i.session_instance_id)

module _ (d : Double) where
  abbrev pub session_key : Descriptor d → Text × Text
  session_key s = identity_key s.identity

  pub record IsValid (sessions : Registry d) : Type 0 where
    pub bounded : length sessions ≤ max_sessions
    pub entries : All (λ s. valid d s ≡ true) sessions
    pub distinct : DistinctKeys (pair_key text_key text_key) session_key sessions

  -- A write that leaves the identity of a session as it is, and a valid session valid.
  abbrev pub Keeps : (Descriptor d → Descriptor d) → Type 0
  Keeps f =
      ((s : Descriptor d) → session_key (f s) ≡ session_key s)
      × ((s : Descriptor d) → valid d s ≡ true → valid d (f s) ≡ true)

  same_key_of_hit :
      (i : Identity) (s : Descriptor d) → has_identity d i s ≡ true → session_key s ≡ identity_key i
  same_key_of_hit i s hit = (pair_key text_key text_key).beq_eq (session_key s) (identity_key i) hit

  update-IsValid :
      (sessions : Registry d) (i : Identity) (f : Descriptor d → Descriptor d)
      → ((s : Descriptor d) → has_identity d i s ≡ true → session_key (f s) ≡ identity_key i)
      → ((s : Descriptor d) → valid d s ≡ true → valid d (f s) ≡ true)
      → IsValid sessions
      → IsValid (update_entry (has_identity d i) f sessions)
  update-IsValid sessions i f same keep v = record {
    bounded = omega (arith, length-update_entry (has_identity d i) f sessions, v.bounded);
    entries = All-update_entry _ (has_identity d i) f sessions (λ s _. keep s) v.entries;
    distinct =
        DistinctKeys-update (pair_key text_key text_key) session_key (identity_key i) f sessions
          same v.distinct;
  }

  pub change-IsValid :
      (sessions : Registry d) (i : Identity) (f : Descriptor d → Descriptor d)
      → ((s : Descriptor d) → session_key (f s) ≡ session_key s)
      → ((s : Descriptor d) → valid d s ≡ true → valid d (f s) ≡ true)
      → IsValid sessions
      → IsValid (change d sessions i f).0
  unfolding change
  change-IsValid sessions i f same keep v =
      elim (Option-cases (find_entry (has_identity d i) sessions)) [
        | inl e ↦ rw (change, e) v
        | inr (s, e) ↦
            rw (change, e)
              (update-IsValid sessions i f (λ s hit. same s ∙ same_key_of_hit i s hit) keep v)
      ]

  pub bind-valid :
      (s : Descriptor d) (lane group : Text)
      → valid_binding d lane group ≡ true
      → valid d s ≡ true
      → valid d (record s { lane_id = lane; output_group = group }) ≡ true
  unfolding valid
  bind-valid s lane group b h = ground arith

  pub gain-valid :
      (s : Descriptor d) (gain : d.Value)
      → valid_gain d gain ≡ true
      → valid d s ≡ true
      → valid d (record s { makeup_gain_db = gain }) ≡ true
  unfolding valid
  gain-valid s gain b h = ground arith

  pub owner-valid :
      (s : Descriptor d) (owner : GainOwner)
      → valid d s ≡ true
      → valid d (record s { gain_owner = owner }) ≡ true
  unfolding valid
  owner-valid s owner h = ground arith

  merged-valid :
      (s old : Descriptor d)
      → valid d s ≡ true
      → valid d old ≡ true
      → valid d (merged d s old) ≡ true
  unfolding valid
  merged-valid s old h k = ground arith

  pub upsert-IsValid :
      (sessions : Registry d) (s : Descriptor d)
      → IsValid sessions
      → IsValid (upsert d sessions s).0
  unfolding upsert
  upsert-IsValid sessions s v = elim (Bool-cases (valid d s)) [
    | inr e ↦ rw e v
    | inl e ↦ rw e (elim (Option-cases (find_entry (has_identity d s.identity) sessions)) [
      | inl fresh ↦ rw fresh (elim (Bool-cases (leb max_sessions (length sessions))) [
        | inl full ↦ rw full v
        | inr room ↦ rw room (record {
          bounded =
              omega (
                arith,
                length-append sessions (s ∷ []),
                leb-lt max_sessions (length sessions) room,
              );
          entries = All-snoc _ sessions s v.entries e;
          distinct =
              DistinctKeys-snoc (pair_key text_key text_key) session_key sessions s
                (find_entry-none (pair_key text_key text_key) session_key (identity_key s.identity)
                  sessions fresh)
                v.distinct;
        })
      ])
      | inr (old, hit) ↦ rw hit (
          update-IsValid sessions s.identity (merged d s) (λ old h. refl)
            (λ old k. merged-valid s old e k) v)
    ])
  ]

  pub remove-IsValid :
      (sessions : Registry d) (i : Identity) → IsValid sessions → IsValid (remove d sessions i).0
  unfolding remove
  remove-IsValid sessions i v = elim (Option-cases (find_entry (has_identity d i) sessions)) [
    | inl e ↦ rw (remove, e) v
    | inr (s, e) ↦
        rw (remove, e)
          (record {
            bounded = omega (arith, length-erase_entry (has_identity d i) sessions, v.bounded);
            entries = All-erase_entry _ (has_identity d i) sessions v.entries;
            distinct =
                DistinctKeys-erase (pair_key text_key text_key) session_key (has_identity d i)
                  sessions v.distinct;
          })
  ]

  pub map-IsValid :
      (f : Descriptor d → Descriptor d) (sessions : Registry d)
      → Keeps f
      → IsValid sessions
      → IsValid (map f sessions)
  map-IsValid f sessions keep v = record {
    bounded = omega (arith, length-map f sessions, v.bounded);
    entries = All-map _ f sessions keep.1 v.entries;
    distinct =
        DistinctKeys-map (pair_key text_key text_key) session_key f sessions keep.0 v.distinct;
  }

  pub deactivate-Keeps : (endpoint : Text) → Keeps (deactivate d endpoint)
  unfolding valid
  deactivate-Keeps endpoint = ((λ s. ground arith), (λ s h. ground arith))
