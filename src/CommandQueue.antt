-- ===== src/CommandQueue.antt =====
-- src/hub/include/hibiki/session_command_queue.hpp, src/hub/src/session_command_queue.cpp and
-- src/hub/src/control_queue.cpp: the two single-producer, single-consumer command queues, which are
-- one algorithm over their item types. The operations here run undisturbed; `Threads` interleaves
-- their atomic accesses.
pub mod Fifo
pub mod Threads
pub mod Invariant
pub mod Steps
pub mod Order
use hibiki_dsp.Base.{
  ℕ, ◌+◌, ◌-◌, ◌%◌, ◌^◌, Bool, true, false, List, Option, none, some, leb, ◌==◌, if◌then◌else◌,
  get_or, set, replicate,
}

abbrev pub capacity : ℕ
capacity = 64

-- `std::uint64_t` addition and subtraction.
abbrev pub add_u64 : ℕ → ℕ → ℕ
add_u64 a b = (a + b) % 2 ^ 64

abbrev pub sub_u64 : ℕ → ℕ → ℕ
sub_u64 a b = (a + 2 ^ 64 - b) % 2 ^ 64

-- `slots` is `none` where the allocation in the constructor failed.
pub record CommandQueue {ℓ} (A : Type ℓ) : Type ℓ where
  pub slots : Option (List A)
  pub head : ℕ
  pub tail : ℕ
  pub dropped : ℕ

-- `blank` is the value-initialised item `{}`, which fills fresh slots.
module _ {ℓ} {A : Type ℓ} (blank : A) where
  -- The constructor, where the allocation succeeds.
  unfoldable pub new_queue : CommandQueue A
  new_queue = record { slots = some (replicate capacity blank); head = 0; tail = 0; dropped = 0 }

  drop_item : CommandQueue A → CommandQueue A × Bool
  drop_item q = (record q { dropped = add_u64 q.dropped 1 }, false)

  unfoldable pub try_push : CommandQueue A → A → CommandQueue A × Bool
  unfolding drop_item
  try_push q item = elim q.slots [
    | none ↦ drop_item q
    | some slots ↦ if leb capacity (sub_u64 q.head q.tail) then drop_item q else (
      record q { slots = some (set slots (q.head % capacity) item); head = add_u64 q.head 1 },
      true,
    )
  ]

  -- The item out-parameter is written only on success.
  unfoldable pub try_pop : CommandQueue A → CommandQueue A × Option A
  try_pop q = elim q.slots [
    | none ↦ (q, none)
    | some slots ↦
        if q.tail == q.head
        then (q, none)
        else (record q { tail = add_u64 q.tail 1 }, some (get_or slots (q.tail % capacity) blank))
  ]

  unfoldable pub reset : CommandQueue A → CommandQueue A
  reset q = record {
    slots = elim q.slots [ none ↦ none | some slots ↦ some (replicate capacity blank) ];
    head = 0;
    tail = 0;
    dropped = 0;
  }
