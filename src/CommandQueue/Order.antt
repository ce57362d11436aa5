-- ===== src/CommandQueue/Order.antt =====
-- The guarantees of the command queues to the two threads that share one, for every schedule.
use hibiki_dsp.Base.{◌-◌, ◌≤◌, ◌≡◌, List, ◌++◌, arith, length}
use hibiki_dsp.CommandQueue.{capacity}
use hibiki_dsp.CommandQueue.Fifo.{window, length-window}
use hibiki_dsp.CommandQueue.Threads.{Event, start, run}
use hibiki_dsp.CommandQueue.Invariant.{start-Inv}
use hibiki_dsp.CommandQueue.Steps.{run-Inv}

module _ {ℓ} {A : Type ℓ} (blank : A) where
  -- However the accesses of the two threads interleave, the items received are the first items sent,
  -- in order and none of them lost or repeated; at most `capacity` are on the way.
  pub received_in_order :
      (events : List (Event A))
      → let s = run blank (start blank) events in
        (pending : List A) × (s.sent ≡ s.received ++ pending) × (length pending ≤ capacity)
  received_in_order events =
      let s = run blank (start blank) events in
      let v = run-Inv blank (start blank) events (start-Inv blank) in
      (
        window blank s.slots (length s.received) (length s.sent - length s.received),
        v.held,
        omega (
          arith,
          v.few,
          length-window blank s.slots (length s.received) (length s.sent - length s.received),
        ),
      )
