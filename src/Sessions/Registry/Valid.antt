-- ===== src/Sessions/Registry/Valid.antt =====
-- Every operation of the registry and every careful write through its references keeps it well formed.
use hibiki_dsp.Base.{◌≡◌, refl, ap, true, All, Text, Bool-cases, inl, inr}
use hibiki_dsp.Base.Double.{Double}
use hibiki_dsp.Sessions.Registry.{
  Identity, GainOwner, Descriptor, Registry, valid, valid_gain, valid_binding, upsert, remove, bind,
  set_gain_owner, set_makeup_gain_db, mark_endpoint_sessions_inactive, deactivate, valid_gain_owner,
}
use hibiki_dsp.Sessions.Registry.Access.{
  write_found, write_each, carried, carry_bindings, carried-valid, carried-identity,
}
use hibiki_dsp.Sessions.Registry.Kept.{
  IsValid, identity_key, Keeps, change-IsValid, bind-valid, gain-valid, owner-valid, upsert-IsValid,
  remove-IsValid, map-IsValid, deactivate-Keeps,
}

module _ (d : Double) where
  -- The operations that check what they are given, and the writes through the references that the registry
  -- hands out, which nothing checks: to the session that `find` points at, to each session of
  -- `mutable_sessions()` in place, and the one that the refresh of the routes makes there.
  pub data Call : Type 0 where
    upserts : Descriptor d → Call
    removes : Identity → Call
    binds : Identity → Text → Text → Call
    sets_owner : Identity → GainOwner → Call
    sets_gain : Identity → d.Value → Call
    marks_inactive : Text → Call
    writes_found : Identity → (Descriptor d → Descriptor d) → Call
    writes_each : (Descriptor d → Descriptor d) → Call
    carries : Registry d → Call

  unfoldable pub after : Registry d → Call → Registry d
  after sessions (upserts s) = (upsert d sessions s).0
  after sessions (removes i) = (remove d sessions i).0
  after sessions (binds i lane group) = (bind d sessions i lane group).0
  after sessions (sets_owner i owner) = (set_gain_owner d sessions i owner).0
  after sessions (sets_gain i gain) = (set_makeup_gain_db d sessions i gain).0
  after sessions (marks_inactive endpoint) = mark_endpoint_sessions_inactive d sessions endpoint
  after sessions (writes_found i f) = write_found d sessions i f
  after sessions (writes_each f) = write_each d sessions f
  after sessions (carries previous) = carry_bindings d previous sessions

  -- What a caller answers for: nothing for an operation that checks its arguments, and for a write through a
  -- reference what it writes.
  abbrev pub IsCareful : Call → Type 0
  IsCareful (upserts s) = Unit
  IsCareful (removes i) = Unit
  IsCareful (binds i lane group) = Unit
  IsCareful (sets_owner i owner) = Unit
  IsCareful (sets_gain i gain) = Unit
  IsCareful (marks_inactive endpoint) = Unit
  IsCareful (writes_found i f) = Keeps d f
  IsCareful (writes_each f) = Keeps d f
  IsCareful (carries previous) = All (λ s. valid d s ≡ true) previous

  -- Each operation that checks its arguments (upsert, remove, bind, set_gain_owner, set_makeup_gain_db,
  -- mark_endpoint_sessions_inactive), accepted or refused, keeps the registry well formed: at most 256 sessions,
  -- each one valid, no two of the same identity. So does a write through the pointer of the mutable `find`, or to
  -- each session of `mutable_sessions()` in place, provided that it leaves the identity of a session and keeps a
  -- valid session valid, which the registry does not check; and the write that the refresh of the routes makes
  -- there, from a registry of valid sessions.
  pub after-IsValid :
      (sessions : Registry d) (call : Call)
      → IsCareful call
      → IsValid d sessions
      → IsValid d (after sessions call)
  unfolding after mark_endpoint_sessions_inactive write_found write_each carry_bindings bind
      set_gain_owner set_makeup_gain_db
  after-IsValid sessions (upserts s) careful v = upsert-IsValid d sessions s v
  after-IsValid sessions (removes i) careful v = remove-IsValid d sessions i v
  after-IsValid sessions (binds i lane group) careful v =
      elim (Bool-cases (valid_binding d lane group)) [
        | inl e ↦
            rw (after, bind, e)
              (change-IsValid d sessions i _ (λ s. refl) (λ s. bind-valid d s lane group e) v)
        | inr e ↦ rw (after, bind, e) v
      ]
  after-IsValid sessions (sets_owner i owner) careful v =
      elim (Bool-cases (valid_gain_owner owner)) [
        | inl e ↦
            rw (after, set_gain_owner, e)
              (change-IsValid d sessions i _ (λ s. refl) (λ s. owner-valid d s owner) v)
        | inr e ↦ rw (after, set_gain_owner, e) v
      ]
  after-IsValid sessions (sets_gain i gain) careful v = elim (Bool-cases (valid_gain d gain)) [
    | inl e ↦
        rw (after, set_makeup_gain_db, e)
          (change-IsValid d sessions i _ (λ s. refl) (λ s. gain-valid d s gain e) v)
    | inr e ↦ rw (after, set_makeup_gain_db, e) v
  ]
  after-IsValid sessions (marks_inactive endpoint) careful v =
      map-IsValid d (deactivate d endpoint) sessions (deactivate-Keeps d endpoint) v
  after-IsValid sessions (writes_found i f) careful v =
      change-IsValid d sessions i f careful.0 careful.1 v
  after-IsValid sessions (writes_each f) careful v = map-IsValid d f sessions careful v
  after-IsValid sessions (carries previous) careful v =
      map-IsValid d (carried d previous) sessions
        (
          (λ s. ap identity_key (carried-identity d previous s)),
          (λ s h. carried-valid d previous s careful h),
        )
        v
