-- ===== src/Sessions/Registry/Access.antt =====
-- The writes through the references that the registry of src/hub/src/audio_session_registry.cpp hands out: by its
-- mutable `find` and by `mutable_sessions`, which the refresh of src/hub/src/windows_audio_session_route.cpp uses.
use hibiki_dsp.Base.{
  ◌≡◌, true, ◌||◌, not, none, some, if◌then◌else◌, All, map, Bool-cases, Option-cases, inl, inr,
  arith,
}
use hibiki_dsp.Base.Double.{Double}
use hibiki_dsp.Base.Entries.{find_entry, All-find_entry}
use hibiki_dsp.Sessions.Registry.{
  Identity, Descriptor, Registry, valid, is_empty, has_identity, find, change,
}

module _ (d : Double) where
  -- A change of the session that the mutable `find` points at; nothing where it is null.
  unfoldable pub write_found : Registry d → Identity → (Descriptor d → Descriptor d) → Registry d
  unfolding change
  write_found sessions identity f = (change d sessions identity f).0

  -- A loop over `mutable_sessions()` that changes each session in place.
  unfoldable pub write_each : Registry d → (Descriptor d → Descriptor d) → Registry d
  write_each sessions f = map f sessions

  -- The route that a session of a fresh snapshot keeps from the registry before it.
  unfoldable pub carried : Registry d → Descriptor d → Descriptor d
  unfolding find
  carried previous session =
      if not session.active then session else elim (find d previous session.identity) [
        | none ↦ session
        | some known ↦
            if is_empty known.lane_id || is_empty known.output_group
            then session
            else record session { lane_id = known.lane_id; output_group = known.output_group }
      ]

  -- The loop of the refresh over `candidate_registry.mutable_sessions()`.
  unfoldable pub carry_bindings : Registry d → Registry d → Registry d
  unfolding carried
  carry_bindings previous candidate = map (carried previous) candidate

  with_route-valid :
      (s known : Descriptor d)
      → valid d s ≡ true
      → valid d known ≡ true
      → valid d (record s { lane_id = known.lane_id; output_group = known.output_group }) ≡ true
  unfolding valid
  with_route-valid s known h k = ground arith

  pub carried-valid :
      (previous : Registry d) (s : Descriptor d)
      → All (λ known. valid d known ≡ true) previous
      → valid d s ≡ true
      → valid d (carried previous s) ≡ true
  unfolding carried find valid
  carried-valid previous s v h =
      elim (Option-cases (find_entry (has_identity d s.identity) previous)) [
        | inl e ↦ unknown e
        | inr (known, e) ↦ kept known e
      ]
    where
      unknown :
          find_entry (has_identity d s.identity) previous ≡ none
          → valid d (carried previous s) ≡ true
      unknown e = elim (Bool-cases s.active) [
        | inl on ↦ rw (carried, on, find, e) h
        | inr off ↦ rw (carried, off) h
      ]

      kept :
          (known : Descriptor d)
          → find_entry (has_identity d s.identity) previous ≡ some known
          → valid d (carried previous s) ≡ true
      kept known e =
          let k =
            (All-find_entry (λ x. valid d x ≡ true) (has_identity d s.identity) previous v e).0 in
          elim (Bool-cases s.active) [
            | inr off ↦ rw (carried, off) h
            | inl on ↦ elim (Bool-cases (is_empty known.lane_id || is_empty known.output_group)) [
              | inl unrouted ↦ rw (carried, on, find, e, unrouted) h
              | inr routed ↦ rw (carried, on, find, e, routed) (with_route-valid s known h k)
            ]
          ]

  pub carried-identity :
      (previous : Registry d) (s : Descriptor d) → (carried previous s).identity ≡ s.identity
  unfolding carried
  carried-identity previous s = ground (arith, Option-cases (find d previous s.identity))
