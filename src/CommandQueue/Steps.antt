-- ===== src/CommandQueue/Steps.antt =====
-- Every access of either thread, and so every schedule, keeps the invariant.
use hibiki_dsp.Base.{
  ◌%◌, ◌<◌, ◌≡◌, ◌≢◌, ap, false, List, [], ◌∷◌, arith, ◌==◌, length, get_or, Bool-cases, inl, inr,
}
use hibiki_dsp.CommandQueue.{capacity}
use hibiki_dsp.CommandQueue.Threads.{
  Producer, outside, at_tail, at_test, at_publish, Consumer, waiting, at_head, at_read, at_release,
  System, Event, begin_push, producer_step, begin_pop, consumer_step, move_producer, move_consumer,
  call_push, call_pop, step, run,
}
use hibiki_dsp.CommandQueue.Invariant.{
  Inv, Producing, Consuming, moved, store-Inv, publish-Inv, release-Inv,
}

module _ {ℓ} {A : Type ℓ} (blank : A) where
  move_producer-Inv :
      (s : System A) (p : Producer A)
      → Inv blank s
      → Producing blank s.slots (length s.sent) (length s.received) p
      → Inv blank (move_producer s p)
  unfolding move_producer
  move_producer-Inv s outside v k = v
  move_producer-Inv s (at_tail x head) v k =
      moved blank s _ _ _ v ((k.0, (length s.received, v.tail_at, omega arith, v.few), tt))
        (v.consuming)
  move_producer-Inv s (at_test x head tail) v k = store-Inv blank s x head tail v k
  move_producer-Inv s (at_publish x head) v k = publish-Inv blank s x head v k

  move_consumer-Inv :
      (s : System A) (c : Consumer A)
      → Inv blank s
      → Consuming blank s.slots (length s.sent) (length s.received) c
      → Inv blank (move_consumer blank s c)
  unfolding move_consumer
  move_consumer-Inv s waiting v k = v
  move_consumer-Inv s (at_head tail) v k =
      moved blank s _ _ _ v (v.producing)
        ((k.0, (length s.sent, v.head_at, omega arith, v.behind), tt))
  move_consumer-Inv s (at_read tail head) v k = elim (Bool-cases (tail == head)) [
    | inl empty ↦ rw empty (moved blank s _ _ _ v (v.producing) (tt))
    | inr more ↦ rw more (
        moved blank s _ _ _ v (v.producing)
          ((k.0, ahead more, ap (λ i. get_or s.slots i blank) index)))
  ]
    where
      ahead : (tail == head) ≡ false → length s.received < length s.sent
      ahead more = omega (arith, k.0, k.1.1, k.1.2, k.1.3, v.few, differ more)
        where
          differ : (tail == head) ≡ false → tail ≢ head
          differ more e = ground arith

      index : length s.received % capacity ≡ tail % capacity
      index = omega (arith, k.0)
  move_consumer-Inv s (at_release tail x) v k = release-Inv blank s tail x v k

  call_push-Inv :
      (s : System A) (x : A) (p : Producer A) → Inv blank s → Inv blank (call_push s x p)
  unfolding call_push
  call_push-Inv s x outside v =
      moved blank s s.dropped (at_tail x s.head) s.consumer v (v.head_at, tt) v.consuming
  call_push-Inv s x (at_tail y head) v = v
  call_push-Inv s x (at_test y head tail) v = v
  call_push-Inv s x (at_publish y head) v = v

  call_pop-Inv : (s : System A) (c : Consumer A) → Inv blank s → Inv blank (call_pop s c)
  unfolding call_pop
  call_pop-Inv s waiting v =
      moved blank s s.dropped s.producer (at_head s.tail) v v.producing (v.tail_at, tt)
  call_pop-Inv s (at_head tail) v = v
  call_pop-Inv s (at_read tail head) v = v
  call_pop-Inv s (at_release tail y) v = v

  step-Inv : (s : System A) (e : Event A) → Inv blank s → Inv blank (step blank s e)
  unfolding step
  step-Inv s (begin_push x) v = call_push-Inv s x s.producer v
  step-Inv s producer_step v = move_producer-Inv s s.producer v v.producing
  step-Inv s begin_pop v = call_pop-Inv s s.consumer v
  step-Inv s consumer_step v = move_consumer-Inv s s.consumer v v.consuming

  pub run-Inv : (s : System A) (es : List (Event A)) → Inv blank s → Inv blank (run blank s es)
  unfolding run
  run-Inv s [] v = v
  run-Inv s (e ∷ es) v = run-Inv (step blank s e) es (step-Inv s e v)
