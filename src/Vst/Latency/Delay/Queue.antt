-- ===== src/Vst/Latency/Delay/Queue.antt =====
-- What the delay line stands for: one queue of samples per channel.
use hibiki_dsp.Base.{
  ℕ, zero, suc, ◌+◌, ◌-◌, ◌%◌, ◌<◌, ◌≡◌, ◌≢◌, ◌∙◌, refl, sym, ap, List, [], ◌∷◌, ◌++◌, length,
  length-set, length-append, length-replicate, replicate, ◌⊎◌, inl, inr, set, get_or,
  get_or-set_self, get_or-set_ne, arith,
}
use hibiki_dsp.Vst.Latency.Delay.{ring_samples, read_index, next_index}

module _ {ℓ} {A : Type ℓ} (silence : A) where
  -- A ring holds a queue: the sample that is due in `j` frames stands `j` behind the read index.
  pub record Holds (ring : List A) (write : ℕ) (queue : List A) : Type ℓ where
    pub size : length ring ≡ ring_samples
    pub inside : write < ring_samples
    pub short : length queue < ring_samples
    pub due :
        (j : ℕ)
        → j < length queue
        → get_or ring ((write + ring_samples - length queue + j) % ring_samples) silence
          ≡ get_or queue j silence

  get_or-append_last :
      (xs : List A) (x : A) (j : ℕ) → j ≡ length xs → get_or (xs ++ (x ∷ [])) j silence ≡ x
  get_or-append_last [] x zero h = refl
  get_or-append_last [] x (suc j) h = absurd (omega arith)
  get_or-append_last (y ∷ ys) x zero h = absurd (omega arith)
  get_or-append_last (y ∷ ys) x (suc j) h = get_or-append_last ys x j (omega arith)

  get_or-append_lt :
      (xs ys : List A) (j : ℕ) → j < length xs → get_or (xs ++ ys) j silence ≡ get_or xs j silence
  get_or-append_lt [] ys j h = absurd (omega arith)
  get_or-append_lt (x ∷ xs) ys zero h = refl
  get_or-append_lt (x ∷ xs) ys (suc j) h = get_or-append_lt xs ys j (omega arith)

  module _ (ring : List A) (write : ℕ) (first : A) (queue : List A) (sample : A)
      (v : Holds ring write (first ∷ queue)) where
    -- A sample that is not yet due is found again, one frame later.
    later :
        (j : ℕ)
        → j < length queue
        → get_or
            (set ring write sample)
            ((next_index write + ring_samples - suc (length queue) + j) % ring_samples)
            silence
          ≡ get_or queue j silence
    later j h =
        let same : (next_index write + ring_samples - suc (length queue) + j) % ring_samples
            ≡ (write + ring_samples - suc (length queue) + suc j) % ring_samples =
          omega (arith, v.inside, v.short) in
        let other : write ≢ (write + ring_samples - suc (length queue) + suc j) % ring_samples =
          λ e. omega (arith, v.inside, v.short) in
        ap (λ i. get_or (set ring write sample) i silence) same
        ∙ get_or-set_ne ring sample silence other
        ∙ v.due (suc j) (omega arith)

    -- The sample just written is due last.
    newest :
        (j : ℕ)
        → j ≡ length queue
        → get_or
            (set ring write sample)
            ((next_index write + ring_samples - suc (length queue) + j) % ring_samples)
            silence
          ≡ sample
    newest j h =
        let same : (next_index write + ring_samples - suc (length queue) + j) % ring_samples
            ≡ write =
          omega (arith, v.inside, v.short) in
        ap (λ i. get_or (set ring write sample) i silence) same
        ∙ get_or-set_self ring write sample silence (omega (arith, v.inside, v.size))

    pub ring-Holds : Holds (set ring write sample) (next_index write) (queue ++ (sample ∷ []))
    ring-Holds = record {
      size = length-set ring write sample ∙ v.size;
      inside = omega arith;
      short = omega (arith, length-append queue (sample ∷ []), v.short);
      due = λ j h.
          ap
            (λ n.
              get_or (set ring write sample)
                ((next_index write + ring_samples - n + j) % ring_samples) silence)
            (omega (arith, length-append queue (sample ∷ [])))
          ∙ elim (place j h) [
            | inl before ↦ later j before ∙ sym (get_or-append_lt queue (sample ∷ []) j before)
            | inr last ↦ newest j last ∙ sym (get_or-append_last queue sample j last)
          ];
    }
      where
        place :
            (j : ℕ) → j < length (queue ++ (sample ∷ [])) → (j < length queue) ⊎ (j ≡ length queue)
        place j h = omega (arith, length-append queue (sample ∷ []))

    pub ring-first :
        get_or (set ring write sample) (read_index write (suc (length queue))) silence ≡ first
    ring-first =
        let same : read_index write (suc (length queue))
            ≡ (write + ring_samples - suc (length queue) + 0) % ring_samples =
          omega (arith, v.inside, v.short) in
        let other : write ≢ (write + ring_samples - suc (length queue) + 0) % ring_samples =
          λ e. omega (arith, v.inside, v.short) in
        ap (λ i. get_or (set ring write sample) i silence) same
        ∙ get_or-set_ne ring sample silence other
        ∙ v.due 0 (omega arith)

  -- An empty ring holds silence.
  get_or-replicate : (n i : ℕ) → get_or (replicate n silence) i silence ≡ silence
  get_or-replicate zero i = refl
  get_or-replicate (suc n) zero = refl
  get_or-replicate (suc n) (suc i) = get_or-replicate n i

  pub replicate-Holds :
      (n write : ℕ) (queue : List A)
      → n ≡ ring_samples
      → write < ring_samples
      → length queue < ring_samples
      → ((j : ℕ) → get_or queue j silence ≡ silence)
      → Holds (replicate n silence) write queue
  replicate-Holds n write queue size inside short silent = record {
    size = length-replicate n silence ∙ size;
    inside = inside;
    short = short;
    due = λ j h. get_or-replicate n _ ∙ sym (silent j);
  }
