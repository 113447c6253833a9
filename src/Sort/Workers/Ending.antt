-- ===== src/Sort/Workers/Ending.antt =====
-- The end of the local sort of LAB_6/src/sort_index.c: all its threads are at the barrier.
use os_sp.Prelude.{
  ℕ, zero, suc, ◌<◌, ◌≡◌, refl, sym, ◌∙◌, ap, subst, Bool, false, List, [], ◌∷◌, ◌++◌, arith,
  length, length-append, length-replicate, replicate, total, All, All-of, All-at, All-replicate,
  map,
}
use os_sp.Sort.{Index, BlockInfo, State, free, busy, finished, no_block, sort_blocks}
use os_sp.Sort.Blocks.{Consecutive, total_size, pieces, join-pieces, pieces-Describes}
use os_sp.Sort.Rounds.{length-Describes}
use os_sp.Sort.Runs.{Run, join, Describes}
use os_sp.Sort.Phase.{SortsIndex, sort_blocks-map, length-perm}
use os_sp.Sort.Claim.{Taken}
use os_sp.Sort.Workers.{Worker, claiming, arrived, LocalSort, start, Runs, stays, goes}
use os_sp.Sort.Workers.Buffer.{partly_sorted_none, partly_sorted_all}
use os_sp.Sort.Workers.Held.{state_at, holds, is_busy, Matches, Knows, Going}
use os_sp.Sort.Workers.Phase.{Sorting, Runs-Sorting}

abbrev pub Arrived : Worker → Type 0
Arrived w = w ≡ arrived

abbrev pub IsState : State → BlockInfo → Type 0
IsState s b = b.state ≡ s

none_held : (i : ℕ) (ws : List Worker) → All Arrived ws → total (holds i) ws ≡ 0
none_held i [] h = refl
none_held i (w ∷ ws) h = omega (arith, ap (holds i) h.0, none_held i ws h.1)

none_claimed : (i threads : ℕ) → total (holds i) (replicate threads claiming) ≡ 0
none_claimed i zero = refl
none_claimed i (suc threads) = omega (arith, none_claimed i threads)

-- A thread at the barrier has found no free block.
no_free_block :
    (bs : List BlockInfo) (sorted : ℕ → Bool) (ws : List Worker)
    → 0 < length ws
    → All Arrived ws
    → All (Knows bs sorted) ws
    → All Taken bs
no_free_block bs sorted [] some_thread h k = absurd (omega (arith, some_thread))
no_free_block bs sorted (w ∷ ws) some_thread h k = subst (Knows bs sorted) h.0 k.0

only_finished : (s : State) → (s ≡ free → ⊥) → is_busy s ≡ 0 → s ≡ finished
only_finished free taken rest = absurd (taken refl)
only_finished busy taken rest = absurd (omega (arith, rest))
only_finished finished taken rest = refl

module _ (qsort : List Index → List Index) (q : SortsIndex qsort) where
  Runs-length : (s t : LocalSort) → Runs qsort s t → length t.workers ≡ length s.workers
  Runs-length s _ (stays _) = refl
  Runs-length s _ (goes _ buf buf' bs bs' before after w w' r step) = omega (
    arith,
    length-append before (w' ∷ after),
    length-append before (w ∷ after),
    Runs-length s (record { buf = buf; block_map = bs; workers = before ++ w ∷ after }) r,
  )

  same_length : (r : Run) → length (qsort r) ≡ length r
  same_length r = length-perm (qsort r) r (q.kept r)

  start-Sorting :
      (bs : List BlockInfo) (rs : List Run) (buf : List Index) (threads : ℕ)
      → buf ≡ join rs
      → Describes 0 bs rs
      → All (IsState free) bs
      → Sorting qsort same_length rs (start bs buf threads)
  start-Sorting bs rs buf threads in_buf in_map all_free = record {
    sorted = λ i. false;
    going = record {
      in_buf =
          in_buf
          ∙ ap join (sym (partly_sorted_none qsort same_length (λ i. false) 0 rs (λ i. refl)));
      in_map = in_map;
      held = λ i h.
          none_claimed i threads
          ∙ sym (ap is_busy (All-at (IsState free) bs i no_block h all_free));
      matching = λ i h.
          subst (λ s. Matches s false) (sym (All-at (IsState free) bs i no_block h all_free)) refl;
      known = All-replicate (Knows bs (λ i. false)) threads claiming tt;
    };
  }

  all_finished :
      (rs : List Run) (t : LocalSort) (sorted : ℕ → Bool)
      → Going qsort same_length rs t.buf t.block_map t.workers sorted
      → 0 < length t.workers
      → All Arrived t.workers
      → (i : ℕ) → i < length t.block_map
      → state_at t.block_map i ≡ finished
  all_finished rs t sorted g some_thread h i inside =
      only_finished (state_at t.block_map i)
        (All-at Taken t.block_map i no_block inside
          (no_free_block t.block_map sorted t.workers some_thread h g.known))
        (sym (g.held i inside) ∙ none_held i t.workers h)

  all_sorted :
      (rs : List Run) (t : LocalSort) (sorted : ℕ → Bool)
      → Going qsort same_length rs t.buf t.block_map t.workers sorted
      → 0 < length t.workers
      → All Arrived t.workers
      → t.buf ≡ join (map qsort rs)
  all_sorted rs t sorted g some_thread h =
      g.in_buf
      ∙ ap join (
          partly_sorted_all qsort same_length sorted 0 rs (λ i low high.
            let inside : i < length t.block_map =
              omega (arith, high, length-Describes 0 t.block_map rs g.in_map) in
            subst (λ s. Matches s (sorted i)) (all_finished rs t sorted g some_thread h i inside)
              (g.matching i inside)))

  -- For a map of free blocks that cut the buffer, one after another, and at least one thread: once
  -- all threads are at the barrier, in whatever order they took their steps, the buffer is what
  -- sorting the blocks one after another gives, and all blocks are finished.
  pub Runs-sort_blocks :
      (bs : List BlockInfo) (buf : List Index) (threads : ℕ) (t : LocalSort)
      → 0 < threads
      → Consecutive 0 bs
      → total_size bs ≡ length buf
      → All (IsState free) bs
      → Runs qsort (start bs buf threads) t
      → All Arrived t.workers
      → (t.buf ≡ sort_blocks qsort bs buf) × All (IsState finished) t.block_map
  Runs-sort_blocks bs buf threads t pos c e all_free r h =
      let rs : List Run = pieces bs buf in
      let cut = join-pieces bs buf e in
      let d = pieces-Describes 0 bs buf c e in
      let first = start-Sorting bs rs buf threads (sym cut) d all_free in
      let now = Runs-Sorting qsort same_length rs (start bs buf threads) t first r in
      let enough : 0 < length t.workers =
        omega
          (arith, pos, Runs-length (start bs buf threads) t r, length-replicate threads claiming) in
      (
        all_sorted rs t now.sorted now.going enough h
            ∙ sym (sort_blocks-map qsort q [] bs rs d)
            ∙ ap (sort_blocks qsort bs) cut,
        All-of (IsState finished) t.block_map no_block
            (all_finished rs t now.sorted now.going enough h),
      )
