-- ===== src/CommandQueue/Invariant.antt =====
-- What holds between any two accesses of the two threads: positions count the items ever sent and
-- received, the counters hold them modulo 2 ^ 64, and the slots between them hold what was sent and
-- not yet received. A thread's copy of the other's counter may be out of date.
use hibiki_dsp.Base.{
  ℕ, zero, suc, ◌+◌, ◌-◌, ◌%◌, ◌^◌, ◌≤◌, ◌<◌, ◌≡◌, refl, sym, ap, ap₂, ◌∙◌, false, List, [], ◌∷◌,
  ◌++◌, arith, leb, length, get_or, set, length-set, length-append, length-replicate,
  get_or-set_self, get_or-set_ne, Bool-cases, inl, inr, leb-lt,
}
use mathlib.Core.Path.{subst}
use mathlib.Core.List.{append_assoc}
use hibiki_dsp.CommandQueue.{capacity, sub_u64}
use hibiki_dsp.CommandQueue.Fifo.{window, window-set_ne}
use hibiki_dsp.CommandQueue.Threads.{
  Producer, outside, at_tail, at_test, at_publish, Consumer, waiting, at_head, at_read, at_release,
  System, start, move_producer, move_consumer,
}

module _ {ℓ} {A : Type ℓ} (blank : A) where
  -- The producer's knowledge, with `h` items sent and `t` received.
  abbrev pub Producing : List A → ℕ → ℕ → Producer A → Type ℓ
  Producing slots h t outside = Unit {ℓ}
  Producing slots h t (at_tail x head) = (head ≡ h % 2 ^ 64) × Unit {ℓ}
  Producing slots h t (at_test x head tail) =
      (head ≡ h % 2 ^ 64)
      × ((t' : ℕ) × (tail ≡ t' % 2 ^ 64) × (t' ≤ t) × (h ≤ t' + capacity))
      × Unit {ℓ}
  Producing slots h t (at_publish x head) =
      (head ≡ h % 2 ^ 64) × (h < t + capacity) × (get_or slots (h % capacity) blank ≡ x)

  -- The consumer's knowledge.
  abbrev pub Consuming : List A → ℕ → ℕ → Consumer A → Type ℓ
  Consuming slots h t waiting = Unit {ℓ}
  Consuming slots h t (at_head tail) = (tail ≡ t % 2 ^ 64) × Unit {ℓ}
  Consuming slots h t (at_read tail head) =
      (tail ≡ t % 2 ^ 64) × ((h' : ℕ) × (head ≡ h' % 2 ^ 64) × (h' ≤ h) × (t ≤ h')) × Unit {ℓ}
  Consuming slots h t (at_release tail x) =
      (tail ≡ t % 2 ^ 64) × (t < h) × (get_or slots (t % capacity) blank ≡ x)

  pub record Inv (s : System A) : Type ℓ where
    pub size : length s.slots ≡ capacity
    pub head_at : s.head ≡ length s.sent % 2 ^ 64
    pub tail_at : s.tail ≡ length s.received % 2 ^ 64
    pub behind : length s.received ≤ length s.sent
    pub few : length s.sent ≤ length s.received + capacity
    pub held :
        s.sent
        ≡ s.received ++ window blank s.slots (length s.received) (length s.sent - length s.received)
    pub producing : Producing s.slots (length s.sent) (length s.received) s.producer
    pub consuming : Consuming s.slots (length s.sent) (length s.received) s.consumer

  pub start-Inv : Inv (start blank)
  unfolding start
  start-Inv = record {
    size = length-replicate capacity blank;
    head_at = refl;
    tail_at = refl;
    behind = omega arith;
    few = omega arith;
    held = refl;
    producing = tt;
    consuming = tt;
  }

  -- A store into the slot behind the last sent item changes nothing that the consumer relies on.
  Consuming-store :
      (slots : List A) (h t : ℕ) (x : A) (c : Consumer A)
      → h < t + capacity
      → Consuming slots h t c
      → Consuming (set slots (h % capacity) x) h t c
  Consuming-store slots h t x waiting room k = tt
  Consuming-store slots h t x (at_head tail) room k = k
  Consuming-store slots h t x (at_read tail head) room k = k
  Consuming-store slots h t x (at_release tail y) room k =
      (k.0, k.1, get_or-set_ne slots x blank (omega (arith, k.1)) ∙ k.2)

  -- One more item sent, or received, leaves the other thread's knowledge true.
  Consuming-sent :
      (slots : List A) (h t : ℕ) (c : Consumer A)
      → Consuming slots h t c
      → Consuming slots (suc h) t c
  Consuming-sent slots h t waiting k = tt
  Consuming-sent slots h t (at_head tail) k = k
  Consuming-sent slots h t (at_read tail head) k =
      (k.0, (k.1.0, k.1.1, omega (arith, k.1), k.1.3), tt)
  Consuming-sent slots h t (at_release tail y) k = (k.0, omega (arith, k.1), k.2)

  Producing-received :
      (slots : List A) (h t : ℕ) (p : Producer A)
      → Producing slots h t p
      → Producing slots h (suc t) p
  Producing-received slots h t outside k = tt
  Producing-received slots h t (at_tail x head) k = k
  Producing-received slots h t (at_test x head tail) k =
      (k.0, (k.1.0, k.1.1, omega (arith, k.1), k.1.3), tt)
  Producing-received slots h t (at_publish x head) k = (k.0, omega (arith, k.1), k.2)

  window-snoc :
      (slots : List A) (t n : ℕ)
      → window blank slots t (suc n)
        ≡ window blank slots t n ++ (get_or slots ((t + n) % capacity) blank ∷ [])
  window-snoc slots t zero = ap (λ k. get_or slots (k % capacity) blank ∷ []) (omega arith)
  window-snoc slots t (suc n) = ap (◌∷◌ (get_or slots (t % capacity) blank)) (
      window-snoc slots (t + 1) n
      ∙ ap (λ k. window blank slots (t + 1) n ++ (get_or slots (k % capacity) blank ∷ [])) moved)
    where
      moved : t + 1 + n ≡ t + suc n
      moved = omega arith

  -- A thread that only moves on keeps the invariant, if what it knows at the new place holds.
  pub moved :
      (s : System A) (d : ℕ) (p : Producer A) (c : Consumer A)
      → Inv s
      → Producing s.slots (length s.sent) (length s.received) p
      → Consuming s.slots (length s.sent) (length s.received) c
      → Inv (record s { dropped = d; producer = p; consumer = c })
  moved s d p c v k l = record {
    size = v.size;
    head_at = v.head_at;
    tail_at = v.tail_at;
    behind = v.behind;
    few = v.few;
    held = v.held;
    producing = k;
    consuming = l;
  }

  pub store-Inv :
      (s : System A) (x : A) (head tail : ℕ)
      → Inv s
      → Producing s.slots (length s.sent) (length s.received) (at_test x head tail)
      → Inv (move_producer s (at_test x head tail))
  unfolding move_producer
  store-Inv s x head tail v k = elim (Bool-cases (leb capacity (sub_u64 head tail))) [
    | inl full ↦ rw full (moved s _ _ _ v (tt) (v.consuming))
    | inr free ↦
        rw (free, index)
          (record {
            size = length-set s.slots (length s.sent % capacity) x ∙ v.size;
            head_at = v.head_at;
            tail_at = v.tail_at;
            behind = v.behind;
            few = v.few;
            held =
                v.held
                ∙ ap (◌++◌ s.received) (
                    sym (
                      window-set_ne blank s.slots _ _ (length s.sent) x (omega (arith, v.few))
                        (room free) (omega (arith, v.behind))));
            producing = (k.0, room free, get_or-set_self s.slots _ x blank (omega (arith, v.size)));
            consuming = Consuming-store s.slots _ _ x s.consumer (room free) v.consuming;
          })
  ]
    where
      index : head % capacity ≡ length s.sent % capacity
      index = omega (arith, k.0)

      room : leb capacity (sub_u64 head tail) ≡ false → length s.sent < length s.received + capacity
      room free =
          omega
            (arith, k.0, k.1.1, k.1.2, k.1.3, v.behind, leb-lt capacity (sub_u64 head tail) free)

  pub publish-Inv :
      (s : System A) (x : A) (head : ℕ)
      → Inv s
      → Producing s.slots (length s.sent) (length s.received) (at_publish x head)
      → Inv (move_producer s (at_publish x head))
  unfolding move_producer
  publish-Inv s x head v k = record {
    size = v.size;
    head_at = omega (arith, k.0, count);
    tail_at = v.tail_at;
    behind = omega (arith, v.behind, count);
    few = omega (arith, k.1, count);
    held =
        ap (λ l. l ++ (x ∷ [])) v.held
        ∙ append_assoc s.received _ (x ∷ [])
        ∙ ap (◌++◌ s.received) (sym (extend gap_size));
    producing = tt;
    consuming =
        subst (λ n. Consuming s.slots n (length s.received) s.consumer) (sym count)
          (Consuming-sent s.slots _ _ s.consumer v.consuming);
  }
    where
      count : length (s.sent ++ (x ∷ [])) ≡ suc (length s.sent)
      count = omega (arith, length-append s.sent (x ∷ []))

      gap : ℕ
      gap = length s.sent - length s.received

      gap_size : length (s.sent ++ (x ∷ [])) - length s.received ≡ suc gap
      gap_size = omega (arith, count, v.behind)

      last : get_or s.slots ((length s.received + gap) % capacity) blank ≡ x
      last = ap (λ n. get_or s.slots (n % capacity) blank) (omega (arith, v.behind)) ∙ k.2

      extend :
          length (s.sent ++ (x ∷ [])) - length s.received ≡ suc gap
          → window blank s.slots
              (length s.received)
              (length (s.sent ++ (x ∷ [])) - length s.received)
            ≡ window blank s.slots (length s.received) gap ++ (x ∷ [])
      extend e =
          ap (window blank s.slots (length s.received)) e
          ∙ window-snoc s.slots (length s.received) gap
          ∙ ap (λ y. window blank s.slots (length s.received) gap ++ (y ∷ [])) last

  pub release-Inv :
      (s : System A) (tail : ℕ) (x : A)
      → Inv s
      → Consuming s.slots (length s.sent) (length s.received) (at_release tail x)
      → Inv (move_consumer blank s (at_release tail x))
  unfolding move_consumer
  release-Inv s tail x v k = record {
    size = v.size;
    head_at = v.head_at;
    tail_at = omega (arith, k.0, count);
    behind = omega (arith, k.1, count);
    few = omega (arith, v.few, count);
    held = v.held ∙ ap (◌++◌ s.received) first ∙ sym (append_assoc s.received (x ∷ []) _);
    producing =
        subst (λ n. Producing s.slots (length s.sent) n s.producer) (sym count)
          (Producing-received s.slots _ _ s.producer v.producing);
    consuming = tt;
  }
    where
      count : length (s.received ++ (x ∷ [])) ≡ suc (length s.received)
      count = omega (arith, length-append s.received (x ∷ []))

      shorter :
          length s.sent - length s.received ≡ suc (length s.sent - length (s.received ++ (x ∷ [])))
      shorter = omega (arith, count, k.1)

      next : length s.received + 1 ≡ length (s.received ++ (x ∷ []))
      next = omega (arith, count)

      first :
          window blank s.slots (length s.received) (length s.sent - length s.received)
          ≡ x
            ∷ window blank s.slots
                (length (s.received ++ (x ∷ [])))
                (length s.sent - length (s.received ++ (x ∷ [])))
      first =
          ap (window blank s.slots (length s.received)) shorter
          ∙ ap₂
              (λ y t. y ∷ window blank s.slots t (length s.sent - length (s.received ++ (x ∷ []))))
              k.2 next
