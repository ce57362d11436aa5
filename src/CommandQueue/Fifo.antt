-- ===== src/CommandQueue/Fifo.antt =====
-- Undisturbed, the command queue is a bounded first-in first-out queue: what it holds is a list of at
-- most `capacity` items, at the slots from `tail` on. The counters may wrap.
use hibiki_dsp.Base.{
  ℕ, zero, suc, ◌+◌, ◌%◌, ◌^◌, ◌≤◌, ◌<◌, ◌≡◌, refl, sym, ap, ap₂, ◌∙◌, Bool, true, false, List, [],
  ◌∷◌, ◌++◌, Option, none, some, arith, leb, if◌then◌else◌, length, get_or, set, replicate,
  length-set, length-append, length-replicate, get_or-set_self, get_or-set_ne,
}
use hibiki_dsp.Base.{Bool-cases, inl, inr, eq→==, ne→==, leb-lt}
use hibiki_dsp.CommandQueue.{CommandQueue, capacity, sub_u64, new_queue, try_push, try_pop, reset}

module _ {ℓ} {A : Type ℓ} (blank : A) where
  -- The n items from position t on, going round the slots.
  abbrev pub window : List A → ℕ → ℕ → List A
  window slots t zero = []
  window slots t (suc n) = get_or slots (t % capacity) blank ∷ window slots (t + 1) n

  pub length-window : (slots : List A) (t n : ℕ) → length (window slots t n) ≡ n
  length-window slots t zero = refl
  length-window slots t (suc n) = ap suc (length-window slots (t + 1) n)

  -- A write outside the window is not seen in it.
  pub window-set_ne :
      (slots : List A) (t n i : ℕ) (x : A)
      → n ≤ capacity
      → i < t + capacity
      → t + n ≤ i
      → window (set slots (i % capacity) x) t n ≡ window slots t n
  window-set_ne slots t zero i x h above below = refl
  window-set_ne slots t (suc n) i x h above below =
      ap₂ ◌∷◌ (get_or-set_ne slots x blank (omega arith))
        (window-set_ne slots (t + 1) n i x (omega arith) (omega arith) (omega arith))

  -- A write just behind the window extends it.
  pub window-set :
      (slots : List A) (t n : ℕ) (x : A)
      → length slots ≡ capacity
      → n < capacity
      → window (set slots ((t + n) % capacity) x) t (suc n) ≡ window slots t n ++ (x ∷ [])
  window-set slots t zero x size h =
      ap (λ y. y ∷ [])
        (ap (λ k. get_or (set slots (k % capacity) x) (t % capacity) blank) (omega arith)
          ∙ get_or-set_self slots (t % capacity) x blank (omega arith))
  window-set slots t (suc n) x size h = ap₂ ◌∷◌ (get_or-set_ne slots x blank (omega arith)) (
      ap (λ k. window (set slots (k % capacity) x) (t + 1) (suc n)) (omega arith)
      ∙ window-set slots (t + 1) n x size (omega arith))

  -- The queue holds the items, oldest first. `start` counts the items popped so far.
  pub record Holds (q : CommandQueue A) (items : List A) : Type ℓ where
    pub slots : List A
    pub allocated : q.slots ≡ some slots
    pub size : length slots ≡ capacity
    pub start : ℕ
    pub tail_at : q.tail ≡ start % 2 ^ 64
    pub head_at : q.head ≡ (start + length items) % 2 ^ 64
    pub few : length items ≤ capacity
    pub held : window slots start (length items) ≡ items

  -- A queue with the same slots and counters holds the same items.
  Holds-same :
      {q q' : CommandQueue A} {items : List A} (h : Holds q items)
      → some h.slots ≡ q'.slots
      → q'.head ≡ q.head
      → q'.tail ≡ q.tail
      → Holds q' items
  Holds-same h s e f = record {
    slots = h.slots;
    allocated = sym s;
    size = h.size;
    start = h.start;
    tail_at = f ∙ h.tail_at;
    head_at = e ∙ h.head_at;
    few = h.few;
    held = h.held;
  }

  pub new_queue-Holds : Holds (new_queue blank) []
  unfolding new_queue
  new_queue-Holds = record {
    slots = replicate capacity blank;
    allocated = refl;
    size = length-replicate capacity blank;
    start = 0;
    tail_at = refl;
    head_at = refl;
    few = omega arith;
    held = refl;
  }

  -- The calls of a client, and what each returns.
  pub data Call : Type ℓ where
    push : A → Call
    pop : Call
    clear : Call

  pub data Reply : Type ℓ where
    pushed : Bool → Reply
    popped : Option A → Reply
    cleared : Reply

  pub call : CommandQueue A → Call → CommandQueue A × Reply
  call q (push x) = let (q', done) = try_push blank q x in (q', pushed done)
  call q pop = let (q', item) = try_pop blank q in (q', popped item)
  call q clear = (reset blank q, cleared)

  -- The same calls on a list of at most `capacity` items.
  pub spec : List A → Call → List A × Reply
  spec items (push x) =
      if leb capacity (length items)
      then (items, pushed false)
      else (items ++ (x ∷ []), pushed true)
  spec [] pop = ([], popped none)
  spec (x ∷ items) pop = (items, popped (some x))
  spec items clear = ([], cleared)

  pub replies : CommandQueue A → List Call → List Reply
  replies q [] = []
  replies q (c ∷ cs) = let (q', r) = call q c in r ∷ replies q' cs

  pub spec_replies : List A → List Call → List Reply
  spec_replies items [] = []
  spec_replies items (c ∷ cs) = let (items', r) = spec items c in r ∷ spec_replies items' cs

  -- One call returns what the list returns, and holds what the list holds afterwards.
  Refines : CommandQueue A × Reply → List A × Reply → Type ℓ
  Refines a b = Holds a.0 b.0 × (a.1 ≡ b.1)

  distance :
      (q : CommandQueue A) (items : List A) → Holds q items → sub_u64 q.head q.tail ≡ length items
  distance q items h = omega (arith, h.tail_at, h.head_at, h.few)

  push-held :
      (q : CommandQueue A) (items : List A) (x : A) (h : Holds q items)
      → length items < capacity
      → window (set h.slots (q.head % capacity) x) h.start (length (items ++ (x ∷ [])))
        ≡ items ++ (x ∷ [])
  push-held q items x h room =
      ap₂ (λ i n. window (set h.slots i x) h.start n) index count
      ∙ window-set h.slots h.start (length items) x h.size room
      ∙ ap (λ l. l ++ (x ∷ [])) h.held
    where
      index : q.head % capacity ≡ (h.start + length items) % capacity
      index = omega (arith, h.head_at)

      count : length (items ++ (x ∷ [])) ≡ suc (length items)
      count = omega (arith, length-append items (x ∷ []))

  push-Refines :
      (q : CommandQueue A) (items : List A) (x : A)
      → Holds q items
      → Refines (call q (push x)) (spec items (push x))
  unfolding call spec try_push Refines
  push-Refines q items x h = elim (Bool-cases (leb capacity (length items))) [
    | inl full ↦ rw (h.allocated, distance q items h, full) (Holds-same h refl refl refl, refl)
    | inr room ↦
        rw (h.allocated, distance q items h, room)
          (
            record {
              slots = set h.slots (q.head % capacity) x;
              allocated = refl;
              size = length-set h.slots (q.head % capacity) x ∙ h.size;
              start = h.start;
              tail_at = h.tail_at;
              head_at = omega (arith, h.head_at, length-append items (x ∷ []));
              few =
                  omega (arith, length-append items (x ∷ []), leb-lt capacity (length items) room);
              held = push-held q items x h (leb-lt capacity (length items) room);
            },
            refl,
          )
  ]

  pop-Refines :
      (q : CommandQueue A) (items : List A) → Holds q items → Refines (call q pop) (spec items pop)
  unfolding call spec try_pop Refines
  pop-Refines q [] h =
      rw (h.allocated, eq→== q.tail q.head (omega (arith, h.tail_at, h.head_at)))
        (Holds-same h refl refl refl, refl)
  pop-Refines q (x ∷ items) h =
      rw (h.allocated, ne→== q.tail q.head (λ e. omega (arith, h.tail_at, h.head_at, h.few)))
        (
          record {
            slots = h.slots;
            allocated = refl;
            size = h.size;
            start = h.start + 1;
            tail_at = omega (arith, h.tail_at);
            head_at = omega (arith, h.head_at);
            few = omega (arith, h.few);
            held = tail-eq h.held;
          },
          ap (λ y. popped (some y))
              (ap (λ i. get_or h.slots i blank) (omega (arith, h.tail_at)) ∙ head-eq h.held),
        )
    where
      head-eq : {y z : A} {ys zs : List A} → y ∷ ys ≡ z ∷ zs → y ≡ z
      head-eq e = ground arith

      tail-eq : {y z : A} {ys zs : List A} → y ∷ ys ≡ z ∷ zs → ys ≡ zs
      tail-eq e = ground arith

  clear-Refines :
      (q : CommandQueue A) (items : List A)
      → Holds q items
      → Refines (call q clear) (spec items clear)
  unfolding call spec reset Refines new_queue
  clear-Refines q items h = (
    record {
      slots = replicate capacity blank;
      allocated = rw h.allocated;
      size = length-replicate capacity blank;
      start = 0;
      tail_at = refl;
      head_at = refl;
      few = omega arith;
      held = refl;
    },
    refl,
  )

  call-Refines :
      (q : CommandQueue A) (items : List A) (c : Call)
      → Holds q items
      → Refines (call q c) (spec items c)
  call-Refines q items (push x) h = push-Refines q items x h
  call-Refines q items pop h = pop-Refines q items h
  call-Refines q items clear h = clear-Refines q items h

  -- Whatever the calls, a client of a queue that holds some items gets the replies of the bounded
  -- list: pushes fail exactly when `capacity` items are held, and pops return the oldest item.
  pub replies-refine :
      (cs : List Call) (q : CommandQueue A) (items : List A)
      → Holds q items
      → replies q cs ≡ spec_replies items cs
  unfolding replies spec_replies Refines
  replies-refine [] q items h = refl
  replies-refine (c ∷ cs) q items h =
      let (h', same) = call-Refines q items c h in
      ap₂ ◌∷◌ same (replies-refine cs (call q c).0 (spec items c).0 h')
