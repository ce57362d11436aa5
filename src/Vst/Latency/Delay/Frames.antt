-- ===== src/Vst/Latency/Delay/Frames.antt =====
-- The loops of the delay line move a queue of frames.
use mathlib.Core.Path.{subst}
use hibiki_dsp.Base.{
  ℕ, zero, suc, ◌+◌, ◌≤◌, ◌<◌, ◌≡◌, ◌∙◌, refl, sym, ap, ap₂, List, [], ◌∷◌, ◌++◌, length,
  length-append, map, take, drop, set, get_or, All, arith,
}
use hibiki_dsp.Base.Double.{Double}
use hibiki_dsp.Vst.Latency.Delay.{
  read_index, next_index, Run, silence, delay_channels, delay_frames,
}
use hibiki_dsp.Vst.Latency.Delay.Queue.{Holds, ring-Holds, ring-first}

-- Frames one after another: interleaved samples.
abbrev pub interleave {ℓ} : {A : Type ℓ} → List (List A) → List A
interleave [] = []
interleave (frame ∷ frames) = frame ++ interleave frames

module _ (d : Double) where
  abbrev pub sample_at : ℕ → List d.Value → d.Value
  sample_at c frame = get_or frame c (silence d)

  -- The first `n` rings hold the channels `c`, `c + 1`, ... of the queue of frames.
  abbrev pub HoldAll : ℕ → ℕ → List (List d.Value) → ℕ → List (List d.Value) → Type 0
  HoldAll zero c rings write queue = Unit
  HoldAll (suc n) c [] write queue = ⊥
  HoldAll (suc n) c (ring ∷ rings) write queue =
      Holds (silence d) ring write (map (sample_at c) queue) × HoldAll n (suc c) rings write queue

  drop_end : (c : ℕ) (xs : List d.Value) → length xs ≡ c → drop c xs ≡ []
  drop_end zero [] h = refl
  drop_end zero (x ∷ xs) h = absurd (omega arith)
  drop_end (suc c) [] h = refl
  drop_end (suc c) (x ∷ xs) h = drop_end c xs (omega arith)

  drop_next :
      (c : ℕ) (xs : List d.Value) → c < length xs → drop c xs ≡ sample_at c xs ∷ drop (suc c) xs
  drop_next c [] h = absurd (omega arith)
  drop_next zero (x ∷ xs) h = refl
  drop_next (suc c) (x ∷ xs) h = drop_next c xs (omega arith)

  length-map : {A : Type 0} (f : A → d.Value) (xs : List A) → length (map f xs) ≡ length xs
  length-map f [] = refl
  length-map f (x ∷ xs) = ap suc (length-map f xs)

  map-append :
      {A : Type 0} (f : A → d.Value) (xs ys : List A) → map f (xs ++ ys) ≡ map f xs ++ map f ys
  map-append f [] ys = refl
  map-append f (x ∷ xs) ys = ap (λ zs. f x ∷ zs) (map-append f xs ys)

  -- One frame: the front of the queue comes out, and the frame goes to its end.
  channels_step :
      (n c write delay : ℕ) (front : List d.Value) (queue : List (List d.Value))
      (frame rest : List d.Value) (rings : List (List d.Value))
      → HoldAll n c rings write (front ∷ queue)
      → delay ≡ suc (length queue)
      → length frame ≡ c + n
      → length front ≡ c + n
      → let run = delay_channels d n write (read_index write delay) rings (drop c frame ++ rest) in
        HoldAll n c run.ring (next_index write) (queue ++ (frame ∷ []))
        × (run.written ≡ drop c front)
        × (run.behind ≡ rest)
  unfolding delay_channels
  channels_step zero c write delay front queue frame rest rings v same e e' = (
    tt,
    sym (drop_end c front (omega arith)),
    ap (λ xs. xs ++ rest) (drop_end c frame (omega arith)),
  )
  channels_step (suc n) c write delay front queue frame rest [] v same e e' = absurd v
  channels_step (suc n) c write delay front queue frame rest (ring ∷ rings) v same e e' =
      let (hold, out, behind) =
        channels_step n (suc c) write delay front queue frame rest rings v.1 same (omega arith)
          (omega arith) in
      rw (drop_next c frame (omega arith), drop_next c front (omega arith))
        (
          (
            subst (λ q. Holds (silence d) (set ring write (sample_at c frame)) (next_index write) q)
                (sym (map-append (sample_at c) queue (frame ∷ [])))
                (ring-Holds (silence d) ring write (sample_at c front) (map (sample_at c) queue)
                  (sample_at c frame) v.0),
            hold,
          ),
          ap₂ ◌∷◌
              (subst
                (λ l.
                  get_or (set ring write (sample_at c frame)) (read_index write l) (silence d)
                  ≡ sample_at c front)
                (ap suc (length-map (sample_at c) queue) ∙ sym same)
                (ring-first (silence d) ring write (sample_at c front) (map (sample_at c) queue)
                  (sample_at c frame) v.0))
              out,
          behind,
        )

  pub append_nil : {A : Type 0} (xs : List A) → xs ++ [] ≡ xs
  append_nil [] = refl
  append_nil (x ∷ xs) = ap (λ ys. x ∷ ys) (append_nil xs)

  append_assoc :
      {A : Type 0} (xs : List A) (y : A) (ys : List A) → (xs ++ (y ∷ [])) ++ ys ≡ xs ++ (y ∷ ys)
  append_assoc [] y ys = refl
  append_assoc (x ∷ xs) y ys = ap (λ zs. x ∷ zs) (append_assoc xs y ys)

  abbrev pub Shaped : ℕ → List (List d.Value) → Type 0
  Shaped channels frames = All (λ frame. length frame ≡ channels) frames

  pub Shaped-append :
      (channels : ℕ) (xs ys : List (List d.Value))
      → Shaped channels xs
      → Shaped channels ys
      → Shaped channels (xs ++ ys)
  Shaped-append channels [] ys u v = v
  Shaped-append channels (x ∷ xs) ys u v = (u.0, Shaped-append channels xs ys u.1 v)

  pub Shaped-drop :
      (channels n : ℕ) (xs : List (List d.Value)) → Shaped channels xs → Shaped channels (drop n xs)
  Shaped-drop channels zero xs u = u
  Shaped-drop channels (suc n) [] u = tt
  Shaped-drop channels (suc n) (x ∷ xs) u = Shaped-drop channels n xs u.1

  -- What `frames` frames leave behind a queue.
  abbrev pub Delayed : ℕ → List (List d.Value) → List (List d.Value) → Run d × ℕ → Type 0
  Delayed channels queue frames run =
      HoldAll channels 0 run.0.ring run.1 (drop (length frames) (queue ++ frames))
      × (run.0.written ≡ interleave (take (length frames) (queue ++ frames)))

  pub frames_step :
      (frames : List (List d.Value)) (channels write delay : ℕ) (queue : List (List d.Value))
      (rings : List (List d.Value))
      → HoldAll channels 0 rings write queue
      → 1 ≤ delay
      → delay ≡ length queue
      → Shaped channels queue
      → Shaped channels frames
      → Delayed channels queue frames
          (delay_frames d (length frames) channels delay write rings (interleave frames))
  unfolding delay_frames
  frames_step [] channels write delay queue rings v some same shape shapes =
      (subst (λ q. HoldAll channels 0 rings write q) (sym (append_nil queue)) v, refl)
  frames_step (frame ∷ frames) channels write delay [] rings v some same shape shapes =
      absurd (omega arith)
  frames_step (frame ∷ frames) channels write delay (front ∷ queue) rings v some same shape shapes =
      let run : Run d =
        delay_channels d channels write (read_index write delay) rings
          (frame ++ interleave frames) in
      let (hold, out, behind) =
        channels_step channels 0 write delay front queue frame (interleave frames) rings v same
          (omega (arith, shapes.0)) (omega (arith, shape.0)) in
      let later : Run d × ℕ =
        delay_frames d (length frames) channels delay (next_index write) run.ring run.behind in
      let joined : (queue ++ (frame ∷ [])) ++ frames ≡ queue ++ (frame ∷ frames) =
        append_assoc queue frame frames in
      let (held, rest) =
        subst
          (λ input.
            Delayed channels (queue ++ (frame ∷ [])) frames
              (delay_frames d (length frames) channels delay (next_index write) run.ring input))
          (sym behind)
          (frames_step frames channels (next_index write) delay (queue ++ (frame ∷ [])) run.ring
            hold some (omega (arith, length-append queue (frame ∷ [])))
            (Shaped-append channels queue (frame ∷ []) shape.1 (shapes.0, tt)) shapes.1) in
      (
        subst (λ q. HoldAll channels 0 later.0.ring later.1 (drop (length frames) q)) joined held,
        ap₂ ◌++◌ out (rest ∙ ap (λ q. interleave (take (length frames) q)) joined),
      )
