-- ===== src/Sort.antt =====
-- LAB_6/src/sort_index.c and index.h: the index sorter. A chunk of records is cut into blocks,
-- the blocks are sorted, and rounds of merges join neighbours; sorted chunks are merged on file.
-- A `time_mark` is a non-negative double, given by its bit pattern: the order of such doubles is
-- the order of their patterns.
pub mod OnFile
pub mod Merge
pub mod Blocks
pub mod Claim
pub mod Runs
pub mod Phase
pub mod Rounds
pub mod Chunks
pub mod Cli
pub mod Args
pub mod Numerals
pub mod Workers
mod Tests
use os_sp.Prelude.{
  ℕ, zero, suc, ◌+◌, ◌-◌, ◌*◌, ◌/◌, ◌%◌, ◌≡◌, Bool, true, false, ◌&&◌, ◌||◌, Option, none, some,
  List, [], ◌∷◌, ◌++◌, ltb, leb, ◌==◌, if◌then◌else◌, length, get_elem?, get_or, take, drop, set,
  splice,
}

-- `struct index_s`
pub record Index : Type 0 where
  pub time_mark : ℕ
  pub recno : ℕ

-- The results -1, 0 and 1 of `cmp_index`.
pub data Comparison : Type 0 where
  less equal greater : Comparison

pub cmp_index : Index → Index → Comparison
cmp_index a b =
    if ltb a.time_mark b.time_mark
    then less
    else if ltb b.time_mark a.time_mark
    then greater
    else equal

-- The three loops of `merge_two_runs`: an index that moves forward through a run is the part of
-- the run that is left, and `tmp` is the result.
pub merge_runs : List Index → List Index → List Index
merge_runs [] r = r
merge_runs (x ∷ l) [] = x ∷ l
merge_runs (x ∷ l) (y ∷ r) =
    let left_first = x ∷ merge_runs l (y ∷ r) in
    let right_first = y ∷ merge_runs (x ∷ l) r in
    if leb x.time_mark y.time_mark then left_first else right_first

-- `arr` is `buf + offset`; `tmp` is allocated (`pairs_allocated` has the exit without memory).
pub merge_two_runs : List Index → (offset left_count right_count : ℕ) → List Index
unfolding merge_runs
merge_two_runs buf offset left_count right_count =
    let left = take left_count (drop offset buf) in
    let right = take right_count (drop (offset + left_count) buf) in
    splice buf offset (merge_runs left right)

-- The values 0, 1 and 2 of `block_info.state`.
pub data State : Type 0 where
  free busy finished : State

-- `struct block_info`
pub record BlockInfo : Type 0 where
  pub state : State
  pub offset : ℕ
  pub size : ℕ

-- The part of `struct sort_context` that a phase changes; the first `active_blocks` entries of
-- the array are the list.
pub record SortContext : Type 0 where
  pub buf : List Index
  pub block_map : List BlockInfo
  pub threads : ℕ

abbrev pub is_free : State → Bool
is_free free = true
is_free _ = false

-- The loop goes on past a block that is not free.
abbrev pub after : BlockInfo → Option (ℕ × List BlockInfo) → Option (ℕ × List BlockInfo)
after b none = none
after b (some (i, bs)) = some (i + 1, b ∷ bs)

-- `get_free_block_for_sort` under the map's mutex: the index claimed, and the map.
pub get_free_block_for_sort : List BlockInfo → Option (ℕ × List BlockInfo)
get_free_block_for_sort [] = none
get_free_block_for_sort (b ∷ bs) =
    let later = after b (get_free_block_for_sort bs) in
    if is_free b.state then some (0, record b { state = busy } ∷ bs) else later

-- `get_free_pair_for_merge` looks at the first `pair_count` entries only.
pub get_free_pair_for_merge : (pair_count : ℕ) → List BlockInfo → Option (ℕ × List BlockInfo)
get_free_pair_for_merge zero bs = none
get_free_pair_for_merge (suc n) [] = none
get_free_pair_for_merge (suc n) (b ∷ bs) =
    let later = after b (get_free_pair_for_merge n bs) in
    if is_free b.state then some (0, record b { state = busy } ∷ bs) else later

-- The loop of `init_block_map`; `i` blocks are done and `n` are left.
pub cut_blocks : (n i base remainder offset : ℕ) → List BlockInfo
cut_blocks zero i base remainder offset = []
cut_blocks (suc n) i base remainder offset =
    let size = base + (if ltb i remainder then 1 else 0) in
    record { state = free; offset = offset; size = size }
    ∷ cut_blocks n (i + 1) base remainder (offset + size)

-- `none` is the exit with "too many blocks for this chunk".
pub init_block_map : (chunk_records blocks : ℕ) → Option (List BlockInfo)
unfolding cut_blocks
init_block_map chunk_records blocks =
    if chunk_records == 0
    then some []
    else if chunk_records / blocks == 0
    then none
    else some (cut_blocks blocks 0 (chunk_records / blocks) (chunk_records % blocks) 0)

-- `qsort` is the C library's. Between the barriers the workers together sort every block once,
-- each in its own part of the buffer, so the order in which they do it does not matter.
module _ (qsort : List Index → List Index) where
  pub sort_blocks : List BlockInfo → List Index → List Index
  sort_blocks [] buf = buf
  sort_blocks (b ∷ bs) buf =
      sort_blocks bs (splice buf b.offset (qsort (take b.size (drop b.offset buf))))

abbrev pub no_block : BlockInfo
no_block = record { state = free; offset = 0; size = 0 }

-- The merge of one pair, by the thread that has it.
pub merge_pair : (pair_index : ℕ) → List BlockInfo → List Index → List Index
unfolding merge_two_runs
merge_pair pair_index block_map buf =
    let left = get_or block_map (pair_index * 2) no_block in
    let right = get_or block_map (pair_index * 2 + 1) no_block in
    merge_two_runs buf left.offset left.size right.size

-- The pairs `i`, `i + 1`, up to `n` pairs. Their parts of the buffer are disjoint.
pub merge_pairs : (n i : ℕ) → List BlockInfo → List Index → List Index
merge_pairs zero i block_map buf = buf
merge_pairs (suc n) i block_map buf = merge_pairs n (i + 1) block_map (merge_pair i block_map buf)

-- Thread 0 joins the entries of each pair; the write index never passes the read index.
pub join_blocks : List BlockInfo → List BlockInfo
join_blocks [] = []
join_blocks (b ∷ []) = b ∷ []
join_blocks (b ∷ c ∷ bs) =
    record { state = free; offset = b.offset; size = b.size + c.size } ∷ join_blocks bs

-- One round between the barriers. In an early round each thread takes the pair of its own number;
-- in a late one the threads claim pairs until none is left.
pub merge_round : SortContext → SortContext
unfolding merge_pairs join_blocks
merge_round ctx =
    let pair_count = length ctx.block_map / 2 in
    let merged = if leb ctx.threads pair_count then ctx.threads else pair_count in
    record ctx {
      buf = merge_pairs merged 0 ctx.block_map ctx.buf;
      block_map = join_blocks ctx.block_map;
    }

-- `malloc` says if there is memory for so many records. Without it `merge_two_runs` ends the program,
-- which is tested here for all pairs that a round merges.
module _ (malloc : ℕ → Bool) where
  pub pairs_allocated : (n i : ℕ) → List BlockInfo → Bool
  pairs_allocated zero i block_map = true
  pairs_allocated (suc n) i block_map =
      let left = get_or block_map (i * 2) no_block in
      let right = get_or block_map (i * 2 + 1) no_block in
      malloc (left.size + right.size) && pairs_allocated n (i + 1) block_map

  -- `while (1) { if (active <= 1) break; ... }`; `none` is an exit, or means that the fuel ran out.
  pub merge_rounds : (fuel : ℕ) → SortContext → Option SortContext
  unfolding merge_round pairs_allocated
  merge_rounds zero ctx = none
  merge_rounds (suc fuel) ctx =
      let pair_count = length ctx.block_map / 2 in
      let merged = if leb ctx.threads pair_count then ctx.threads else pair_count in
      let later = merge_rounds fuel (merge_round ctx) in
      let rest = if pairs_allocated merged 0 ctx.block_map then later else none in
      if leb (length ctx.block_map) 1 then some ctx else rest

  -- A chunk's phase 1, from `init_block_map` to the end of the rounds; `none` is an exit.
  pub sort_chunk :
      (qsort : List Index → List Index) (threads blocks : ℕ) → List Index → Option SortContext
  unfolding init_block_map sort_blocks merge_rounds
  sort_chunk qsort threads blocks buf = elim (init_block_map (length buf) blocks) [
    | none ↦ none
    | some block_map ↦
        merge_rounds (length block_map + 1) (record {
          buf = sort_blocks qsort block_map buf;
          block_map = block_map;
          threads = threads;
        })
  ]
