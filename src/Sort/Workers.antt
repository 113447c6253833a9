-- ===== src/Sort/Workers.antt =====
-- The local sort of LAB_6/src/sort_index.c as the steps of its worker threads: each claims a block
-- under the map's mutex, sorts it outside the mutex, and marks it, until none is free. The steps
-- interleave in any order; the sort of a block is one step, since no other thread has its part of
-- the buffer.
pub mod Buffer
pub mod Held
pub mod Phase
pub mod Ending
pub mod Progress
use os_sp.Prelude.{
  ℕ, ◌+◌, ◌≡◌, Option, none, some, List, [], ◌∷◌, ◌++◌, get_or, set, take, drop, splice, replicate,
}
use os_sp.Sort.{Index, BlockInfo, State, free, busy, finished, no_block, get_free_block_for_sort}

-- Where a thread is in phase 1, up to the barrier.
pub data Worker : Type 0 where
  claiming : Worker
  sorting : ℕ → Worker
  marking : ℕ → Worker
  arrived : Worker

-- A block with another state.
abbrev pub with_state : State → List BlockInfo → ℕ → List BlockInfo
with_state s bs i = set bs i (record (get_or bs i no_block) { state = s })

pub record LocalSort : Type 0 where
  pub buf : List Index
  pub block_map : List BlockInfo
  pub workers : List Worker

-- The threads at the start of phase 1.
abbrev pub start : List BlockInfo → List Index → ℕ → LocalSort
start bs buf threads = record { buf = buf; block_map = bs; workers = replicate threads claiming }

module _ (qsort : List Index → List Index) where
  abbrev pub sort_block : BlockInfo → List Index → List Index
  sort_block b buf = splice buf b.offset (qsort (take b.size (drop b.offset buf)))

  -- One step of one thread.
  pub data WorkerStep
      : List Index → List BlockInfo → Worker → List Index → List BlockInfo → Worker → Type 0 where
    claims :
        (buf : List Index) (bs bs' : List BlockInfo) (i : ℕ)
        → get_free_block_for_sort bs ≡ some (i, bs')
        → WorkerStep buf bs claiming buf bs' (sorting i)
    finds_none :
        (buf : List Index) (bs : List BlockInfo)
        → get_free_block_for_sort bs ≡ none
        → WorkerStep buf bs claiming buf bs arrived
    sorts :
        (buf : List Index) (bs : List BlockInfo) (i : ℕ)
        → WorkerStep buf bs (sorting i) (sort_block (get_or bs i no_block) buf) bs (marking i)
    marks :
        (buf : List Index) (bs : List BlockInfo) (i : ℕ)
        → WorkerStep buf bs (marking i) buf (with_state finished bs i) claiming

  pub data Runs : LocalSort → LocalSort → Type 0 where
    stays : (s : LocalSort) → Runs s s
    goes :
        (s : LocalSort) (buf buf' : List Index) (bs bs' : List BlockInfo)
        (before after : List Worker) (w w' : Worker)
        → Runs s (record { buf = buf; block_map = bs; workers = before ++ w ∷ after })
        → WorkerStep buf bs w buf' bs' w'
        → Runs s (record { buf = buf'; block_map = bs'; workers = before ++ w' ∷ after })
