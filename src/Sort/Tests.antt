-- ===== src/Sort/Tests.antt =====
-- The sorter of LAB_6/src/sort_index.c on concrete inputs, with an insertion sort for `qsort`.
use os_sp.Prelude.{
  ℕ, ◌≤◌, ◌≡◌, refl, some, false, List, [], ◌∷◌, ◌++◌, arith, length, All, get_or, take, drop,
}
use os_sp.Prelude.Int.{pos}
use mathlib.Core.List.{Perm}
use mathlib.Core.List.Perm
use os_sp.Message.{success}
use os_sp.Sort.{
  Index, BlockInfo, free, busy, SortContext, merge_runs, merge_round, no_block, sort_chunk,
}
use os_sp.Sort.OnFile.{ChunkInfo, Attempt, sorted, merge_sorted_chunks}
use os_sp.Sort.Merge.{IsSorted, merge_runs-IsSorted, merge_runs-perm}
use os_sp.Sort.Runs.{Run, join}
use os_sp.Sort.Rounds.{Holds}
use os_sp.Sort.Chunks.{AllSucceed, merge_sorted_chunks-sorted}
use os_sp.Sort.Args.{parse_size, parse_int, parse_cli}
use os_sp.Sort.Numerals.{SizeOf, IntOf, Reads, parse_size-numeral}
use os_sp.Prelude.Text.{codes}
use os_sp.Sort.Cli.{CliArgs, is_power_of_two, validate_threads, validate_cli, validate_cli-unmerged}
use os_sp.Sort.{State, finished, get_free_block_for_sort, sort_blocks}
use os_sp.Sort.Blocks.{total_size}
use os_sp.Sort.Workers.{
  Worker, claiming, sorting, marking, arrived, LocalSort, start, claims, finds_none, sorts, marks,
  Runs, stays, goes,
}
use os_sp.Sort.Workers.Ending.{IsState, Runs-sort_blocks}
use os_sp.Sort.{merge_two_runs}
use os_sp.Prelude.{Bool, true}
use os_sp.Sort.Rounds.Sorted.{AlwaysAllocates, merge_two_runs-IsSorted}
use os_sp.Sort.Phase.{SortsIndex, sort_chunk-perm}

abbrev index : ℕ → Index
index n = record { time_mark = n; recno = n }

insertion_sort : List Index → List Index
insertion_sort [] = []
insertion_sort (x ∷ xs) = merge_runs (x ∷ []) (insertion_sort xs)

insertion_sort-IsSorted : (xs : List Index) → IsSorted (insertion_sort xs)
unfolding insertion_sort
insertion_sort-IsSorted [] = tt
insertion_sort-IsSorted (x ∷ xs) =
    merge_runs-IsSorted (x ∷ []) (insertion_sort xs) (tt, tt) (insertion_sort-IsSorted xs)

insertion_sort-perm : (xs : List Index) → Perm (insertion_sort xs) xs
unfolding insertion_sort
insertion_sort-perm [] = Perm.rfl
insertion_sort-perm (x ∷ xs) =
    Perm.trans (merge_runs-perm (x ∷ []) (insertion_sort xs)) (Perm.cons x (insertion_sort-perm xs))

insertion_sort-SortsIndex : SortsIndex insertion_sort
insertion_sort-SortsIndex = record {
  in_order = insertion_sort-IsSorted;
  kept = insertion_sort-perm;
}

abbrev five : List Index
five = index 5 ∷ index 2 ∷ index 4 ∷ index 1 ∷ index 3 ∷ []

abbrev memory : ℕ → Bool
memory n = true

memory-AlwaysAllocates : AlwaysAllocates memory
unfolding AlwaysAllocates
memory-AlwaysAllocates n = refl

sort_chunk-perm_example :
    (ctx : SortContext) × (sort_chunk memory insertion_sort 1 4 five ≡ some ctx)
    × (length ctx.block_map ≤ 1)
    × Perm ctx.buf five
sort_chunk-perm_example =
    sort_chunk-perm insertion_sort insertion_sort-SortsIndex memory 1 4 five memory-AlwaysAllocates
      (omega arith) (omega arith)

abbrev left_run : Run
left_run = index 1 ∷ index 4 ∷ []

abbrev right_run : Run
right_run = index 2 ∷ index 3 ∷ []

left_run-IsSorted : IsSorted left_run
left_run-IsSorted = ((omega arith, tt), (tt, tt))

right_run-IsSorted : IsSorted right_run
right_run-IsSorted = ((omega arith, tt), (tt, tt))

abbrev four_runs : List Run
four_runs = left_run ∷ right_run ∷ left_run ∷ right_run ∷ []

abbrev block : ℕ → BlockInfo
block offset = record { state = free; offset = offset; size = 2 }

-- Four blocks for one thread, the least that is accepted.
abbrev four_blocks : SortContext
four_blocks = record {
  buf = join four_runs;
  block_map = block 0 ∷ block 2 ∷ block 4 ∷ block 6 ∷ [];
  threads = 1;
}

four_blocks-Holds : Holds four_blocks four_runs
four_blocks-Holds = record {
  in_buf = refl;
  in_map = (refl, refl, (refl, refl, (refl, refl, (refl, refl, tt))));
}

abbrev args : CliArgs
args = record { memsize = 4096; blocks = pos 4; threads = pos 1 }

args-accepted : validate_cli (pos 4096) args ≡ success
unfolding validate_cli is_power_of_two validate_threads
args-accepted = refl

validate_cli-unmerged_example :
    let after = merge_round four_blocks in
    let b = get_or after.block_map 1 no_block in
    take b.size (drop b.offset after.buf) ≡ left_run ++ right_run
validate_cli-unmerged_example =
    validate_cli-unmerged (pos 4096) args four_blocks four_runs args-accepted refl refl
      four_blocks-Holds

abbrev busy_block : BlockInfo
busy_block = record { state = busy; offset = 0; size = 2 }

abbrev three_chunks : List ChunkInfo
three_chunks =
    record { file_offset = 0; records = 2 }
    ∷ record { file_offset = 2; records = 2 }
    ∷ record { file_offset = 4; records = 2 }
    ∷ []

abbrev three_runs : List Run
three_runs = left_run ∷ right_run ∷ left_run ∷ []

abbrev works : ChunkInfo → ChunkInfo → Attempt
works c d = record { allocated = true; written = true }

works-AllSucceed : AllSucceed works
unfolding AllSucceed
works-AllSucceed c d = (refl, refl)

merge_sorted_chunks-sorted_example :
    (file : List Index) × (merge_sorted_chunks works 4 (join three_runs) three_chunks ≡ sorted file)
    × IsSorted file
    × Perm file (join three_runs)
merge_sorted_chunks-sorted_example =
    merge_sorted_chunks-sorted works works-AllSucceed 4 three_chunks three_runs
      (refl, refl, (refl, refl, (refl, refl, tt)))
      (left_run-IsSorted, (right_run-IsSorted, (left_run-IsSorted, tt))) (omega arith)

merge_two_runs-IsSorted_example :
    (m : Run) × (merge_two_runs (five ++ (left_run ++ (right_run ++ five))) 5 2 2
      ≡ five ++ (m ++ five))
    × IsSorted m
    × Perm m (left_run ++ right_run)
merge_two_runs-IsSorted_example =
    merge_two_runs-IsSorted five left_run right_run five left_run-IsSorted right_run-IsSorted

-- `12x`.
parse_size-numeral_example :
    Reads (SizeOf false 12) (codes "x") (parse_size (codes "12x"))
    × Reads (IntOf false 12) (codes "x") (parse_int (codes "12x"))
parse_size-numeral_example =
    parse_size-numeral false 1 (2 ∷ []) (codes "x") (omega arith, (omega arith, tt)) refl

parse_cli_test :
    parse_cli (codes "sort_index" ∷ codes "4096" ∷ codes " 8" ∷ codes "+2" ∷ codes "f" ∷ [])
    ≡ some (record { memsize = 4096; blocks = pos 8; threads = pos 2 }, codes "f")
unfolding parse_cli parse_size parse_int
parse_cli_test = refl

abbrev mixed : List Index
mixed = index 5 ∷ index 2 ∷ index 4 ∷ index 3 ∷ index 1 ∷ []

abbrev two_blocks : State → State → List BlockInfo
two_blocks s t =
    record { state = s; offset = 0; size = 3 } ∷ record { state = t; offset = 3; size = 2 } ∷ []

abbrev two_threads : List Index → List BlockInfo → Worker → Worker → LocalSort
two_threads buf bs w v = record { buf = buf; block_map = bs; workers = w ∷ v ∷ [] }

abbrev second_sorted : List Index
second_sorted = index 5 ∷ index 2 ∷ index 4 ∷ index 1 ∷ index 3 ∷ []

abbrev both_sorted : List Index
both_sorted = index 2 ∷ index 4 ∷ index 5 ∷ index 1 ∷ index 3 ∷ []

-- The first thread claims the first block, the second thread the second block, and sorts it.
claimed_run :
    Runs insertion_sort
      (start (two_blocks free free) mixed 2)
      (two_threads second_sorted (two_blocks busy busy) (sorting 0) (marking 1))
unfolding get_free_block_for_sort insertion_sort merge_runs
claimed_run =
    goes _ mixed second_sorted (two_blocks busy busy) (two_blocks busy busy) (sorting 0 ∷ []) []
      (sorting 1) (marking 1)
      (goes _ mixed mixed (two_blocks busy free) (two_blocks busy busy) (sorting 0 ∷ []) [] claiming
        (sorting 1)
        (goes _ mixed mixed (two_blocks free free) (two_blocks busy free) [] (claiming ∷ [])
          claiming (sorting 0) (stays _)
          (claims mixed (two_blocks free free) (two_blocks busy free) 0 refl))
        (claims mixed (two_blocks busy free) (two_blocks busy busy) 1 refl))
      (sorts mixed (two_blocks busy busy) 1)

-- The second thread finds nothing more to sort before the first one does.
ended_run :
    Runs insertion_sort
      (start (two_blocks free free) mixed 2)
      (two_threads both_sorted (two_blocks finished finished) arrived arrived)
unfolding get_free_block_for_sort insertion_sort merge_runs
ended_run =
    goes _ both_sorted both_sorted (two_blocks finished finished) (two_blocks finished finished) []
      (arrived ∷ []) claiming arrived
      (goes _ both_sorted both_sorted (two_blocks busy finished) (two_blocks finished finished) []
        (arrived ∷ []) (marking 0) claiming
        (goes _ second_sorted both_sorted (two_blocks busy finished) (two_blocks busy finished) []
          (arrived ∷ []) (sorting 0) (marking 0)
          (goes _ second_sorted second_sorted (two_blocks busy finished) (two_blocks busy finished)
            (sorting 0 ∷ []) [] claiming arrived
            (goes _ second_sorted second_sorted (two_blocks busy busy) (two_blocks busy finished)
              (sorting 0 ∷ []) [] (marking 1) claiming claimed_run
              (marks second_sorted (two_blocks busy busy) 1))
            (finds_none second_sorted (two_blocks busy finished) refl))
          (sorts second_sorted (two_blocks busy finished) 0))
        (marks both_sorted (two_blocks busy finished) 0))
      (finds_none both_sorted (two_blocks finished finished) refl)

two_blocks-total_size : total_size (two_blocks free free) ≡ length mixed
unfolding total_size
two_blocks-total_size = refl

Runs-sort_blocks_example :
    (both_sorted ≡ sort_blocks insertion_sort (two_blocks free free) mixed)
    × All (IsState finished) (two_blocks finished finished)
Runs-sort_blocks_example =
    Runs-sort_blocks insertion_sort insertion_sort-SortsIndex (two_blocks free free) mixed 2
      (two_threads both_sorted (two_blocks finished finished) arrived arrived) (omega arith)
      (refl, (refl, tt)) two_blocks-total_size (refl, (refl, tt)) ended_run (refl, (refl, tt))
