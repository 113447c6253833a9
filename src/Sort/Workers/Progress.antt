-- ===== src/Sort/Workers/Progress.antt =====
-- How many steps the local sort of LAB_6/src/sort_index.c takes.
use os_sp.Prelude.{ℕ, ◌+◌, ◌≡◌, Option, some, none, List, ◌∷◌, ◌++◌, total}
use os_sp.Sort.{Index, BlockInfo, State, free, busy, finished}
use os_sp.Sort.Claim.{Claim}
use os_sp.Sort.Workers.{
  Worker, claiming, sorting, marking, arrived, LocalSort, WorkerStep, Runs, stays, goes,
}

abbrev pub ahead : Worker → ℕ
ahead claiming = 1
ahead (sorting i) = 3
ahead (marking i) = 2
ahead arrived = 0

abbrev pub state_left : State → ℕ
state_left free = 3
state_left busy = 0
state_left finished = 0

abbrev pub left : BlockInfo → ℕ
left b = state_left b.state

-- What is left to do: three steps for each free block, and what each thread has begun.
abbrev pub weight : List BlockInfo → List Worker → ℕ
weight bs ws = total left bs + total ahead ws

-- What a claim takes from the blocks.
abbrev Claimed : List BlockInfo → Option (ℕ × List BlockInfo) → Type 0
Claimed bs none = Unit
Claimed bs (some r) = total left r.1 + 3 ≡ total left bs

module _ (qsort : List Index → List Index) where
  pub steps : {s t : LocalSort} → Runs qsort s t → ℕ
  steps (stays _) = 0
  steps (goes _ buf buf' bs bs' before after w w' r step) = steps r + 1

  -- A thread that is not at the barrier has a step.
  record HasStep (buf : List Index) (bs : List BlockInfo) (w : Worker) : Type 0 where
    buf_then : List Index
    map_then : List BlockInfo
    worker_then : Worker
    step : WorkerStep qsort buf bs w buf_then map_then worker_then

  -- One of the threads has a step.
  record SomeStep (buf : List Index) (bs : List BlockInfo) (ws : List Worker) : Type 0 where
    before : List Worker
    after : List Worker
    worker : Worker
    among : ws ≡ before ++ worker ∷ after
    has_step : HasStep buf bs worker

  -- The same steps to a state whose threads are written in another way.
  abbrev At : (s t : LocalSort) → Runs qsort s t → List Worker → Type 0
  At s t r ws =
      (r' : Runs qsort s (record { buf = t.buf; block_map = t.block_map; workers = ws })) × (steps
          r'
        ≡ steps r)
