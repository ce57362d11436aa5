-- ===== src/CommandQueue/Threads.antt =====
-- The two threads of a command queue whose allocation succeeded, one atomic access at a time. An
-- acquire load reads the last value stored and shows what was written before that store: the
-- interleavings below are those of sequential consistency, which the acquire and release pairs of the
-- source give on the two counters and on the slots between them.
use hibiki_dsp.Base.{ℕ, ◌%◌, List, [], ◌∷◌, ◌++◌, leb, ◌==◌, if◌then◌else◌, get_or, set, replicate}
use hibiki_dsp.CommandQueue.{capacity, add_u64, sub_u64}

module _ {ℓ} (A : Type ℓ) where
  -- Where the producer is in `try_push`, with its local variables.
  pub data Producer : Type ℓ where
    outside : Producer
    at_tail : A → ℕ → Producer
    at_test : A → ℕ → ℕ → Producer
    at_publish : A → ℕ → Producer

  -- Where the consumer is in `try_pop`.
  pub data Consumer : Type ℓ where
    waiting : Consumer
    at_head : ℕ → Consumer
    at_read : ℕ → ℕ → Consumer
    at_release : ℕ → A → Consumer

  -- `sent` and `received` record the items of the successful calls, in order.
  pub record System : Type ℓ where
    pub slots : List A
    pub head : ℕ
    pub tail : ℕ
    pub dropped : ℕ
    pub producer : Producer
    pub consumer : Consumer
    pub sent : List A
    pub received : List A

  -- `begin_push` and `begin_pop` call the operation and make its first load.
  pub data Event : Type ℓ where
    begin_push : A → Event
    producer_step : Event
    begin_pop : Event
    consumer_step : Event

module _ {ℓ} {A : Type ℓ} where
  unfoldable pub move_producer : System A → Producer A → System A
  move_producer s outside = s
  move_producer s (at_tail x head) = record s { producer = at_test x head s.tail }
  move_producer s (at_test x head tail) =
      if leb capacity (sub_u64 head tail)
      then record s { dropped = add_u64 s.dropped 1; producer = outside }
      else record s { slots = set s.slots (head % capacity) x; producer = at_publish x head }
  move_producer s (at_publish x head) = record s {
    head = add_u64 head 1;
    producer = outside;
    sent = s.sent ++ (x ∷ []);
  }

  -- A thread calls the next operation only when it is out of the last one.
  unfoldable pub call_push : System A → A → Producer A → System A
  call_push s x outside = record s { producer = at_tail x s.head }
  call_push s x _ = s

  unfoldable pub call_pop : System A → Consumer A → System A
  call_pop s waiting = record s { consumer = at_head s.tail }
  call_pop s _ = s

module _ {ℓ} {A : Type ℓ} (blank : A) where
  unfoldable pub start : System A
  start = record {
    slots = replicate capacity blank;
    head = 0;
    tail = 0;
    dropped = 0;
    producer = outside;
    consumer = waiting;
    sent = [];
    received = [];
  }

  unfoldable pub move_consumer : System A → Consumer A → System A
  move_consumer s waiting = s
  move_consumer s (at_head tail) = record s { consumer = at_read tail s.head }
  move_consumer s (at_read tail head) =
      if tail == head
      then record s { consumer = waiting }
      else record s { consumer = at_release tail (get_or s.slots (tail % capacity) blank) }
  move_consumer s (at_release tail x) = record s {
    tail = add_u64 tail 1;
    consumer = waiting;
    received = s.received ++ (x ∷ []);
  }

  unfoldable pub step : System A → Event A → System A
  step s (begin_push x) = call_push s x s.producer
  step s producer_step = move_producer s s.producer
  step s begin_pop = call_pop s s.consumer
  step s consumer_step = move_consumer s s.consumer

  -- A schedule of the two threads.
  unfoldable pub run : System A → List (Event A) → System A
  run s [] = s
  run s (e ∷ es) = run (step s e) es
