-- ===== src/Devices/Handoff/Complete.antt =====
-- A new output is committed exactly when the fade to it is complete.
use mathlib.Core.Path.{subst}
use hibiki_dsp.Base.{
  ℕ, ◌+◌, ◌≤◌, ◌≡◌, ◌⊎◌, refl, true, false, List, [], ◌∷◌, Option, none, some, min, ltb, leb,
  if◌then◌else◌, Bool-cases, inl, inr, arith,
}
use hibiki_dsp.Base.Double.{Double}
use hibiki_dsp.Devices.Switch
use hibiki_dsp.Devices.Switch.{Switch, Target, SwitchState, valid_target, opening}
use hibiki_dsp.Devices.Crossfade.{Crossfade, fade_frames, begin_fade, fade_block, process_fade}
use hibiki_dsp.Devices.Handoff.{
  Handoff, HandoffState, is_fading, begin_handoff, prepare_handoff, process_handoff, commit_handoff,
}

-- A fade is under way or over: so many frames of so many, to the target, from the output in force.
pub record IsFading (handoff : Handoff) (before target : Target) (total accepted : ℕ) : Type 0 where
  pub fades : is_fading handoff.state ≡ true
  pub pends : handoff.transaction.state ≡ SwitchState.write_pending
  pub next : handoff.transaction.pending ≡ target
  pub current : handoff.transaction.active ≡ before
  pub whole : handoff.crossfade.total_frames ≡ total
  pub done : handoff.crossfade.processed_frames ≡ min total accepted
  pub under_way : handoff.crossfade.active ≡ ltb accepted total

begin-accepted :
    (handoff : Handoff) (target : Target) (crossfade_ms : ℕ)
    → (begin_handoff handoff target crossfade_ms).1 ≡ true
    → ((begin_handoff handoff target crossfade_ms).0 ≡ record {
      transaction = record handoff.transaction {
        pending = target;
        state = opening handoff.transaction.state;
      };
      crossfade = record {
        active = true;
        channels = target.channels;
        total_frames = fade_frames target.sample_rate crossfade_ms;
        processed_frames = 0;
      };
      state = HandoffState.preparing;
    })
      × (1 ≤ fade_frames target.sample_rate crossfade_ms)
unfolding begin_handoff Switch.begin begin_fade
begin-accepted handoff target crossfade_ms h = ground arith

opened_prepares : (state : SwitchState) → Switch.is_preparing (opening state) ≡ true
opened_prepares SwitchState.synced = refl
opened_prepares SwitchState.unbound = refl
opened_prepares SwitchState.binding = refl
opened_prepares SwitchState.write_pending = refl
opened_prepares SwitchState.rebinding = refl
opened_prepares SwitchState.degraded = refl

-- After a successful begin, the preparation succeeds and the fade has not moved.
begun :
    (handoff : Handoff) (target : Target) (crossfade_ms : ℕ)
    → (begin_handoff handoff target crossfade_ms).1 ≡ true
    → IsFading
        (prepare_handoff (begin_handoff handoff target crossfade_ms).0).0
        handoff.transaction.active
        target
        (fade_frames target.sample_rate crossfade_ms)
        0
unfolding prepare_handoff Switch.prepare_complete
begun handoff target crossfade_ms h =
    let (same, some_frames) = begin-accepted handoff target crossfade_ms h in
    rw (same, prepare_handoff, Switch.prepare_complete, opened_prepares handoff.transaction.state)
      (record {
        fades = refl;
        pends = refl;
        next = refl;
        current = refl;
        whole = refl;
        done = omega arith;
        under_way = ground (arith, some_frames);
      })

pub record FadeBlock (d : Double) : Type 0 where
  pub olds : Option (List d.Value)
  pub news : Option (List d.Value)
  pub output : Option (List d.Value)
  pub frames : ℕ

module _ (d : Double) (mix : ℕ → ℕ → d.Value → d.Value → d.Value) where
  -- The blocks in their order: the handoff after them, and the number of frames in those it accepted.
  unfoldable pub run_handoff : Handoff → List (FadeBlock d) → Handoff × ℕ
  run_handoff handoff [] = (handoff, 0)
  run_handoff handoff (block ∷ blocks) =
      let now = process_handoff d mix handoff block.olds block.news block.output block.frames in
      let later = run_handoff now.0 blocks in
      (later.0, (if now.1 then block.frames else 0) + later.1)

  -- What a block does to the fade.
  fade_step :
      (crossfade : Crossfade) (olds news output : Option (List d.Value)) (frames : ℕ)
      → let after = process_fade d mix crossfade olds news output frames in
        ((after.1 ≡ false) × (after.0 ≡ crossfade))
        ⊎ ((after.1 ≡ true)
            × (crossfade.active ≡ true)
            × (after.0 ≡ record crossfade {
              processed_frames = min crossfade.total_frames (crossfade.processed_frames + frames);
              active =
                  if leb crossfade.total_frames
                    (min crossfade.total_frames (crossfade.processed_frames + frames))
                  then false
                  else crossfade.active;
            }))
  unfolding process_fade fade_block
  fade_step crossfade none news output frames = inl (refl, refl)
  fade_step crossfade (some olds) none output frames = inl (refl, refl)
  fade_step crossfade (some olds) (some news) none frames = inl (refl, refl)
  fade_step crossfade (some olds) (some news) (some output) frames = ground arith

  block-IsFading :
      (handoff : Handoff) (before target : Target) (total accepted : ℕ) (block : FadeBlock d)
      → IsFading handoff before target total accepted
      → let now = process_handoff d mix handoff block.olds block.news block.output block.frames in
        IsFading now.0 before target total (accepted + (if now.1 then block.frames else 0))
  unfolding process_handoff
  block-IsFading handoff before target total accepted block v =
      elim (fade_step handoff.crossfade block.olds block.news block.output block.frames) [
        | inl (refused, same) ↦
            rw (process_handoff, v.fades, refused, same)
              (record {
                fades = v.fades;
                pends = v.pends;
                next = v.next;
                current = v.current;
                whole = v.whole;
                done = omega (arith, v.done);
                under_way = ground (arith, v.under_way);
              })
        | inr (taken, on, same) ↦
            rw (process_handoff, v.fades, taken, same)
              (record {
                fades = v.fades;
                pends = v.pends;
                next = v.next;
                current = v.current;
                whole = v.whole;
                done = ground (arith, v.done, v.whole, v.under_way, on);
                under_way = ground (arith, v.done, v.whole, v.under_way, on);
              })
      ]

  run-IsFading :
      (handoff : Handoff) (before target : Target) (total accepted : ℕ)
      (blocks : List (FadeBlock d))
      → IsFading handoff before target total accepted
      → IsFading
          (run_handoff handoff blocks).0
          before
          target
          total
          (accepted + (run_handoff handoff blocks).1)
  unfolding run_handoff
  run-IsFading handoff before target total accepted [] v =
      subst (IsFading handoff before target total) (omega arith) v
  run-IsFading handoff before target total accepted (block ∷ blocks) v =
      let now = process_handoff d mix handoff block.olds block.news block.output block.frames in
      subst (IsFading (run_handoff now.0 blocks).0 before target total) (omega arith) (
        run-IsFading now.0 before target total (accepted + (if now.1 then block.frames else 0))
          blocks (block-IsFading handoff before target total accepted block v))

from_zero :
    {handoff : Handoff} {before target : Target} {total accepted : ℕ}
    → IsFading handoff before target total (0 + accepted)
    → IsFading handoff before target total accepted
from_zero {handoff = handoff} {before = before} {target = target} {total = total} v =
    subst (IsFading handoff before target total) (omega arith) v

-- The commit of a fade.
commit-fade :
    (handoff : Handoff) (before target : Target) (total accepted : ℕ)
    → IsFading handoff before target total accepted
    → ((commit_handoff handoff).1 ≡ leb total accepted)
      × ((commit_handoff handoff).0.transaction.active
          ≡ (if leb total accepted then target else before))
unfolding commit_handoff Switch.commit
commit-fade handoff before target total accepted v = elim (Bool-cases (leb total accepted)) [
  | inl complete ↦
      let over : handoff.crossfade.active ≡ false = ground (arith, v.under_way) in
      rw (commit_handoff, Switch.commit, v.fades, over, v.pends, complete) (refl, v.next)
  | inr short ↦
      let going : handoff.crossfade.active ≡ true = ground (arith, v.under_way) in
      rw (commit_handoff, v.fades, going, short) (refl, v.current)
]

module _ (d : Double) (mix : ℕ → ℕ → d.Value → d.Value → d.Value) where
  -- From a begin that succeeds and the preparation after it, whatever blocks are then offered, accepted or not,
  -- the old output is in force until the commit, and the commit succeeds exactly when the accepted blocks have as
  -- many frames as the fade is long, which is the duration rounded up to a frame; then the target is in force.
  pub handoff_complete :
      (handoff : Handoff) (target : Target) (crossfade_ms : ℕ) (blocks : List (FadeBlock d))
      → (begin_handoff handoff target crossfade_ms).1 ≡ true
      → let begun_handoff = (begin_handoff handoff target crossfade_ms).0 in
        let run = run_handoff d mix (prepare_handoff begun_handoff).0 blocks in
        let complete = leb (fade_frames target.sample_rate crossfade_ms) run.1 in
        (run.0.transaction.active ≡ handoff.transaction.active)
        × ((commit_handoff run.0).1 ≡ complete)
        × ((commit_handoff run.0).0.transaction.active
            ≡ (if complete then target else handoff.transaction.active))
  handoff_complete handoff target crossfade_ms blocks h =
      let v = from_zero (
        run-IsFading d mix (prepare_handoff (begin_handoff handoff target crossfade_ms).0).0
          handoff.transaction.active target (fade_frames target.sample_rate crossfade_ms) 0 blocks
          (begun handoff target crossfade_ms h)) in
      let (answer, force) = commit-fade _ _ _ _ _ v in (v.current, answer, force)
