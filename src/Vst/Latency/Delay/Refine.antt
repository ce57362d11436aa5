-- ===== src/Vst/Latency/Delay/Refine.antt =====
-- The delay line refines a queue of frames.
use mathlib.Core.Path.{subst}
use hibiki_dsp.Base.{
  ℕ, zero, suc, ◌*◌, ◌≤◌, ◌≡◌, ◌∙◌, refl, sym, ap, true, List, [], ◌∷◌, ◌++◌, length, length-append,
  length-drop, take, drop, arith,
}
use hibiki_dsp.Base.Double.{Double}
use hibiki_dsp.Vst.Latency.Delay.{
  max_frames, DelayLine, Processed, delay_frames, all_finite, process_frames,
}
use hibiki_dsp.Vst.Latency.Delay.Frames.{
  interleave, HoldAll, Shaped, Shaped-append, Shaped-drop, frames_step,
}

module _ (d : Double) where
  -- A line that is ready and holds the queue of frames, oldest first.
  pub record Represents (line : DelayLine d) (queue : List (List d.Value)) : Type 0 where
    pub ready : line.prepared ≡ true
    pub delay : line.delay_samples ≡ length queue
    pub shape : Shaped d line.channels queue
    pub held : HoldAll d line.channels 0 line.ring line.write_index queue

  length-interleave :
      (channels : ℕ) (frames : List (List d.Value))
      → Shaped d channels frames
      → length (interleave frames) ≡ length frames * channels
  length-interleave channels [] h = omega arith
  length-interleave channels (frame ∷ frames) h =
      omega
        (arith, length-append frame (interleave frames), length-interleave channels frames h.1, h.0)

  take_all : (n : ℕ) (xs : List d.Value) → length xs ≡ n → take n xs ≡ xs
  take_all zero [] h = refl
  take_all zero (x ∷ xs) h = absurd (omega arith)
  take_all (suc n) [] h = refl
  take_all (suc n) (x ∷ xs) h = ap (λ ys. x ∷ ys) (take_all n xs (omega arith))

  take_frames : (n : ℕ) (xs : List (List d.Value)) → length xs ≡ n → take n xs ≡ xs
  take_frames zero [] h = refl
  take_frames zero (x ∷ xs) h = absurd (omega arith)
  take_frames (suc n) [] h = refl
  take_frames (suc n) (x ∷ xs) h = ap (λ ys. x ∷ ys) (take_frames n xs (omega arith))

  drop_frames : (n : ℕ) (xs : List (List d.Value)) → length xs ≡ n → drop n xs ≡ []
  drop_frames zero [] h = refl
  drop_frames zero (x ∷ xs) h = absurd (omega arith)
  drop_frames (suc n) [] h = refl
  drop_frames (suc n) (x ∷ xs) h = drop_frames n xs (omega arith)

  -- A block of whole frames goes in at the end of the queue, and as many come out at its front.
  abbrev pub Passed :
      DelayLine d → List (List d.Value) → List (List d.Value) → List d.Value → Processed d → Type 0
  Passed line queue frames output processed =
      (processed.accepted ≡ true)
      × (processed.output
          ≡ interleave (take (length frames) (queue ++ frames))
            ++ drop (length frames * line.channels) output)
      × Represents processed.line (drop (length frames) (queue ++ frames))

  -- A block that passes the checks, without a delay and with one.
  module _ (line : DelayLine d) (frames : List (List d.Value)) (output : List d.Value)
      (some : 1 ≤ length frames) (few : length frames ≤ max_frames)
      (shapes : Shaped d line.channels frames) (finite : all_finite d (interleave frames) ≡ true)
      (ready : line.prepared ≡ true) where
    all_taken : take (length frames * line.channels) (interleave frames) ≡ interleave frames
    all_taken = take_all _ (interleave frames) (length-interleave line.channels frames shapes)

    abbrev processed : Processed d
    processed = process_frames d line (interleave frames) output (length frames)

    undelayed :
        line.delay_samples ≡ 0
        → processed ≡ record {
          line = line;
          accepted = true;
          output = interleave frames ++ drop (length frames * line.channels) output;
        }
    unfolding process_frames
    undelayed e = rw (ready, all_taken, finite, e) (ground arith)

    delayed :
        1 ≤ line.delay_samples
        → let run =
            delay_frames d
              (length frames)
              line.channels
              line.delay_samples
              line.write_index
              line.ring
              (interleave frames) in
          processed ≡ record {
            line = record line { ring = run.0.ring; write_index = run.1 };
            accepted = true;
            output = run.0.written ++ drop (length frames * line.channels) output;
          }
    unfolding process_frames
    delayed e = rw (ready, all_taken, finite) (ground arith)

    empty_queue : Represents line [] → Passed line [] frames output processed
    empty_queue v = subst (Passed line [] frames output) (sym (undelayed v.delay)) (
      refl,
      ap (λ fs. interleave fs ++ drop (length frames * line.channels) output)
          (sym (take_frames (length frames) frames refl)),
      subst (Represents line) (sym (drop_frames (length frames) frames refl)) v,
    )

    full_queue :
        (front : List d.Value) (queue : List (List d.Value))
        → Represents line (front ∷ queue)
        → Passed line (front ∷ queue) frames output processed
    full_queue front queue v =
        let (held, out) =
          frames_step d frames line.channels line.write_index line.delay_samples (front ∷ queue)
            line.ring v.held (omega (arith, v.delay)) v.delay v.shape shapes in
        subst (Passed line (front ∷ queue) frames output) (sym (delayed (omega (arith, v.delay)))) (
          refl,
          ap (λ xs. xs ++ drop (length frames * line.channels) output) out,
          record {
            ready = ready;
            delay = v.delay ∙ length-drop_append (length frames) (front ∷ queue) frames refl;
            shape =
                Shaped-drop d line.channels (length frames) ((front ∷ queue) ++ frames)
                  (Shaped-append d line.channels (front ∷ queue) frames v.shape shapes);
            held = held;
          },
        )
      where
        length-drop_append :
            (n : ℕ) (xs ys : List (List d.Value))
            → n ≡ length ys
            → length xs ≡ length (drop n (xs ++ ys))
        length-drop_append n xs ys h = omega (arith, length-drop n (xs ++ ys), length-append xs ys)

  -- A prepared line refines a queue as long as its delay: a block of whole frames, with finite samples and of a
  -- legal size, is accepted; what comes out are the frames at the front of the queue with the block behind it,
  -- as many as went in, the rest of the output buffer stays, and the frames left are the new queue.
  pub process_frames-Passed :
      (line : DelayLine d) (queue frames : List (List d.Value)) (output : List d.Value)
      → Represents line queue
      → 1 ≤ length frames
      → length frames ≤ max_frames
      → Shaped d line.channels frames
      → all_finite d (interleave frames) ≡ true
      → Passed line queue frames output
          (process_frames d line (interleave frames) output (length frames))
  process_frames-Passed line [] frames output v some few shapes finite =
      empty_queue line frames output some few shapes finite v.ready v
  process_frames-Passed line (front ∷ queue) frames output v some few shapes finite =
      full_queue line frames output some few shapes finite v.ready front queue v
