-- ===== src/Vst/Latency/Delay/Prepare.antt =====
-- A prepared delay line holds silence.
use hibiki_dsp.Base.{
  ℕ, zero, suc, ◌≤◌, ◌<◌, ◌≡◌, refl, sym, ap, true, List, [], ◌∷◌, length, length-replicate, map,
  replicate, get_or, All, arith,
}
use hibiki_dsp.Base.Double.{Double}
use hibiki_dsp.Vst.Latency.Plan.{max_samples}
use hibiki_dsp.Vst.Latency.Delay.{
  ring_samples, max_channels, DelayLine, silence, prepare_line, reset_line, new_line,
}
use hibiki_dsp.Vst.Latency.Delay.Queue.{replicate-Holds}
use hibiki_dsp.Vst.Latency.Delay.Frames.{HoldAll, Shaped, sample_at}
use hibiki_dsp.Vst.Latency.Delay.Refine.{Represents}

module _ (d : Double) where
  -- Eight rings of the right size.
  abbrev pub IsRings : List (List d.Value) → Type 0
  IsRings rings = (length rings ≡ max_channels) × All (λ ring. length ring ≡ ring_samples) rings

  All-replicate :
      (n : ℕ) (ring : List d.Value)
      → length ring ≡ ring_samples
      → All (λ r. length r ≡ ring_samples) (replicate n ring)
  All-replicate zero ring h = tt
  All-replicate (suc n) ring h = (h, All-replicate n ring h)

  pub new_line-IsRings : IsRings (new_line d).ring
  new_line-IsRings = (
    length-replicate max_channels (replicate ring_samples (silence d)),
    All-replicate max_channels (replicate ring_samples (silence d))
        (length-replicate ring_samples (silence d)),
  )

  silent_frame : (c n : ℕ) → sample_at d c (replicate n (silence d)) ≡ silence d
  silent_frame c zero = refl
  silent_frame zero (suc n) = refl
  silent_frame (suc c) (suc n) = silent_frame c n

  silent_queue :
      (c channels delay j : ℕ)
      → get_or
          (map (sample_at d c) (replicate delay (replicate channels (silence d))))
          j
          (silence d)
        ≡ silence d
  silent_queue c channels zero j = refl
  silent_queue c channels (suc delay) zero = silent_frame c channels
  silent_queue c channels (suc delay) (suc j) = silent_queue c channels delay j

  length-silent :
      (c channels delay : ℕ)
      → length (map (sample_at d c) (replicate delay (replicate channels (silence d)))) ≡ delay
  length-silent c channels zero = refl
  length-silent c channels (suc delay) = ap suc (length-silent c channels delay)

  HoldAll-silent :
      (n c channels delay : ℕ) (rings : List (List d.Value))
      → n ≤ length rings
      → All (λ ring. length ring ≡ ring_samples) rings
      → delay < ring_samples
      → HoldAll d n c
          (map (λ ring. replicate (length ring) (silence d)) rings)
          0
          (replicate delay (replicate channels (silence d)))
  HoldAll-silent zero c channels delay rings h sizes short = tt
  HoldAll-silent (suc n) c channels delay [] h sizes short = absurd (omega arith)
  HoldAll-silent (suc n) c channels delay (ring ∷ rings) h sizes short = (
    replicate-Holds (silence d) (length ring) 0 _ sizes.0 (omega arith)
        (omega (arith, length-silent c channels delay)) (silent_queue c channels delay),
    HoldAll-silent n (suc c) channels delay rings (omega arith) sizes.1 short,
  )

  Shaped-silent :
      (channels delay : ℕ) → Shaped d channels (replicate delay (replicate channels (silence d)))
  Shaped-silent channels zero = tt
  Shaped-silent channels (suc delay) =
      (length-replicate channels (silence d), Shaped-silent channels delay)

  -- Preparing a line for one to eight channels and a delay of at most 16384 samples succeeds, whatever the
  -- line held, and leaves a queue of as many silent frames.
  pub prepare_line-silent :
      (line : DelayLine d) (channels delay : ℕ)
      → IsRings line.ring
      → 1 ≤ channels
      → channels ≤ max_channels
      → delay ≤ max_samples
      → ((prepare_line d line channels delay).1 ≡ true)
        × ((prepare_line d line channels delay).0.channels ≡ channels)
        × Represents d
            (prepare_line d line channels delay).0
            (replicate delay (replicate channels (silence d)))
  unfolding prepare_line reset_line
  prepare_line-silent line channels delay (count, sizes) some few short = rw accepted (
    refl,
    refl,
    record {
      ready = refl;
      delay = sym (length-replicate delay (replicate channels (silence d)));
      shape = Shaped-silent channels delay;
      held = HoldAll-silent channels 0 channels delay line.ring (omega arith) sizes (omega arith);
    },
  )
    where
      accepted : prepare_line d line channels delay ≡ (
        record (reset_line d (record line { channels = channels; delay_samples = delay })) {
          prepared = true;
        },
        true,
      )
      accepted = ground arith
