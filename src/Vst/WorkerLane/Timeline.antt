-- ===== src/Vst/WorkerLane/Timeline.antt =====
-- The blocks that a lane accepts follow one another, without a gap and without wrapping.
use hibiki_dsp.Base.{
  ℕ, ◌+◌, ◌≤◌, ◌≡◌, ◌↔◌, ◌∙◌, refl, sym, ap, Bool, true, false, List, [], ◌∷◌, if◌then◌else◌,
  Bool-cases, arith,
}
use hibiki_dsp.Base.Double.{Double}
use hibiki_dsp.Vst.WorkerLane.{
  ExchangeResult, ok, is_ok, is_ready, WorkerLane, max_u64, block_range_fits, process_block,
}

-- A block, and what the worker answers to it.
pub record Block : Type 0 where
  pub block_start : ℕ
  pub frames : ℕ
  pub answer : ExchangeResult

module _ (d : Double) where
  -- The blocks in their order: the lane after them, and whether every one was answered `ok`.
  unfoldable pub run_blocks : WorkerLane d → List Block → WorkerLane d × Bool
  run_blocks lane [] = (lane, true)
  run_blocks lane (block ∷ blocks) =
      let now = process_block d lane block.block_start block.frames block.answer in
      let later = run_blocks now.0 blocks in if is_ok now.1 then later else (later.0, false)

  -- Blocks from a position on, each where the one before it ended, with its end below 2 ^ 64.
  abbrev pub Tiles : ℕ → ℕ → List Block → Type 0
  Tiles limit start [] = Unit
  Tiles limit start (block ∷ blocks) =
      (block.block_start ≡ start)
      × (1 ≤ block.frames)
      × (block.frames ≤ limit)
      × (start + block.frames ≤ max_u64)
      × (is_ok block.answer ≡ true)
      × Tiles limit (start + block.frames) blocks

  abbrev pub total_frames : List Block → ℕ
  total_frames [] = 0
  total_frames (block ∷ blocks) = block.frames + total_frames blocks

  -- A lane that takes its next block at the given position: where the last one ended, if there was one.
  pub record IsRunning (lane : WorkerLane d) (start : ℕ) : Type 0 where
    pub connected : lane.has_sandbox ≡ true
    pub shaken : is_ready lane.state ≡ true
    pub continued : lane.has_processed_block ≡ true → lane.next_block_start ≡ start
    pub representable : start ≤ max_u64

  abbrev advanced : WorkerLane d → ℕ → WorkerLane d
  advanced lane next = record lane { next_block_start = next; has_processed_block = true }

  block-forth :
      (lane : WorkerLane d) (start : ℕ) (block : Block)
      → IsRunning lane start
      → block.block_start ≡ start
      → is_ok (process_block d lane block.block_start block.frames block.answer).1 ≡ true
      → (1 ≤ block.frames)
        × (block.frames ≤ lane.config.max_block_frames)
        × (start + block.frames ≤ max_u64)
        × (is_ok block.answer ≡ true)
  unfolding process_block block_range_fits
  block-forth lane start block v same h = ground (arith, v.connected, v.shaken, v.representable)

  block-back :
      (lane : WorkerLane d) (start : ℕ) (block : Block)
      → IsRunning lane start
      → block.block_start ≡ start
      → 1 ≤ block.frames
      → block.frames ≤ lane.config.max_block_frames
      → start + block.frames ≤ max_u64
      → is_ok block.answer ≡ true
      → process_block d lane block.block_start block.frames block.answer
        ≡ (advanced lane (start + block.frames), ok)
  unfolding process_block block_range_fits
  block-back lane start block v same some few fits answer = ground (
    arith,
    v.connected,
    v.shaken,
    v.continued,
    v.representable,
    Bool-cases lane.has_processed_block,
  )

  -- After a block the next one must stand at its end.
  block-continued :
      (lane : WorkerLane d) (block : Block)
      → lane.has_processed_block ≡ true
      → is_ok (process_block d lane block.block_start block.frames block.answer).1 ≡ true
      → block.block_start ≡ lane.next_block_start
  unfolding process_block
  block-continued lane block started h = ground (arith, started)

  IsRunning-advanced :
      (lane : WorkerLane d) (start next : ℕ)
      → IsRunning lane start
      → next ≤ max_u64
      → IsRunning (advanced lane next) next
  IsRunning-advanced lane start next v fits = record {
    connected = v.connected;
    shaken = v.shaken;
    continued = λ e. refl;
    representable = fits;
  }

  head_ok :
      (lane : WorkerLane d) (block : Block) (blocks : List Block)
      → (run_blocks lane (block ∷ blocks)).1 ≡ true
      → is_ok (process_block d lane block.block_start block.frames block.answer).1 ≡ true
  unfolding run_blocks
  head_ok lane block blocks h = ground arith

  run-step :
      (lane next : WorkerLane d) (block : Block) (blocks : List Block)
      → process_block d lane block.block_start block.frames block.answer ≡ (next, ok)
      → run_blocks lane (block ∷ blocks) ≡ run_blocks next blocks
  unfolding run_blocks
  run-step lane next block blocks e = rw e

  abbrev First : ℕ → List Block → Type 0
  First start [] = Unit
  First start (block ∷ blocks) = block.block_start ≡ start

  First-continued :
      (lane : WorkerLane d) (blocks : List Block)
      → lane.has_processed_block ≡ true
      → (run_blocks lane blocks).1 ≡ true
      → First lane.next_block_start blocks
  First-continued lane [] started h = tt
  First-continued lane (block ∷ blocks) started h =
      block-continued lane block started (head_ok lane block blocks h)

  run-Tiles :
      (lane : WorkerLane d) (start : ℕ) (blocks : List Block)
      → IsRunning lane start
      → First start blocks
      → (run_blocks lane blocks).1 ≡ true
      → Tiles lane.config.max_block_frames start blocks
  run-Tiles lane start [] v same h = tt
  run-Tiles lane start (block ∷ blocks) v same h =
      let (some, few, fits, answer) =
        block-forth lane start block v same (head_ok lane block blocks h) in
      let next : WorkerLane d = advanced lane (start + block.frames) in
      let later : (run_blocks next blocks).1 ≡ true =
        sym (
          ap (λ r. r.1)
            (run-step lane next block blocks
              (block-back lane start block v same some few fits answer)))
        ∙ h in
      (
        same,
        some,
        few,
        fits,
        answer,
        run-Tiles next (start + block.frames) blocks
            (IsRunning-advanced lane start (start + block.frames) v fits)
            (First-continued next blocks refl later) later,
      )

  Tiles-run :
      (lane : WorkerLane d) (start : ℕ) (block : Block) (blocks : List Block)
      → IsRunning lane start
      → Tiles lane.config.max_block_frames start (block ∷ blocks)
      → run_blocks lane (block ∷ blocks)
        ≡ (advanced lane (start + total_frames (block ∷ blocks)), true)
  unfolding run_blocks
  Tiles-run lane start block [] v (same, some, few, fits, answer, tiles) =
      run-step lane (advanced lane (start + block.frames)) block []
        (block-back lane start block v same some few fits answer)
      ∙ ap (λ n. (advanced lane n, true)) (omega arith)
  Tiles-run lane start block (other ∷ blocks) v (same, some, few, fits, answer, tiles) =
      run-step lane (advanced lane (start + block.frames)) block (other ∷ blocks)
        (block-back lane start block v same some few fits answer)
      ∙ Tiles-run (advanced lane (start + block.frames)) (start + block.frames) other blocks
          (IsRunning-advanced lane start (start + block.frames) v fits) tiles
      ∙ ap (λ n. (advanced lane n, true)) (omega arith)

  -- A connected lane that has shaken hands and not yet processed a block answers `ok` to a sequence of blocks
  -- exactly when they follow one another without a gap from the first one's start, none is empty or longer
  -- than the limit, none ends beyond 2 ^ 64 - 1, and the worker answers `ok` to each; it then waits at the end of
  -- the last one.
  pub run_blocks_iff :
      (lane : WorkerLane d) (block : Block) (blocks : List Block)
      → lane.has_sandbox ≡ true
      → is_ready lane.state ≡ true
      → lane.has_processed_block ≡ false
      → block.block_start ≤ max_u64
      → ((run_blocks lane (block ∷ blocks)).1 ≡ true) ↔ (
          Tiles lane.config.max_block_frames block.block_start (block ∷ blocks)
          × ((run_blocks lane (block ∷ blocks)).0.next_block_start
              ≡ block.block_start + total_frames (block ∷ blocks)))
  run_blocks_iff lane block blocks connected shaken fresh representable =
      let v : IsRunning lane block.block_start = record {
        connected = connected;
        shaken = shaken;
        continued = λ e. absurd cc;
        representable = representable;
      } in
      (
        λ h.
            let tiles = run-Tiles lane block.block_start (block ∷ blocks) v refl h in
            (
              tiles,
              ap (λ r. r.0.next_block_start)
                  (Tiles-run lane block.block_start block blocks v tiles),
            ),
        λ ended. ap (λ r. r.1) (Tiles-run lane block.block_start block blocks v ended.0),
      )
