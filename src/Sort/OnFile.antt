-- ===== src/Sort/OnFile.antt =====
-- The chunks of LAB_6/src/sort_index.c: the loop of `main` that cuts the file, and the merge of
-- sorted chunks on file.
use os_sp.Prelude.{
  ℕ, zero, suc, ◌+◌, ◌-◌, Bool, Option, none, some, List, [], ◌∷◌, ltb, leb, if◌then◌else◌, length,
  take, drop, splice,
}
use os_sp.Sort.{Index, greater, cmp_index}

-- `struct chunk_info`, with the offset counted in records from the end of the header.
pub record ChunkInfo : Type 0 where
  pub file_offset : ℕ
  pub records : ℕ

-- The merge loop of `merge_two_sorted_chunks`, which asks `cmp_index`.
unfoldable pub merge_chunk_runs : List Index → List Index → List Index
merge_chunk_runs [] r = r
merge_chunk_runs (x ∷ l) [] = x ∷ l
merge_chunk_runs (x ∷ l) (y ∷ r) =
    let left_first = x ∷ merge_chunk_runs l (y ∷ r) in
    let right_first = y ∷ merge_chunk_runs (x ∷ l) r in
    elim (cmp_index x y) [ greater ↦ right_first | _ ↦ left_first ]

-- `pread` of `n` records; `none` is a short read.
unfoldable pub pread : List Index → (n offset : ℕ) → Option (List Index)
pread file n offset =
    if leb (offset + n) (length file) then some (take n (drop offset file)) else none

-- What the C library does in one merge: if the three `malloc` succeed, and if `pwrite` writes all.
pub record Attempt : Type 0 where
  pub allocated : Bool
  pub written : Bool

-- What the passes end in: the sorted file, an error return, or no fuel.
pub data Merged : Type 0 where
  sorted : List Index → Merged
  failed : Merged
  out_of_fuel : Merged

module _ (attempt : ChunkInfo → ChunkInfo → Attempt) where
  -- The file after the merge; `none` is the error return, after which the file is not looked at.
  unfoldable pub merge_two_sorted_chunks : List Index → ChunkInfo → ChunkInfo → Option (List Index)
  unfolding merge_chunk_runs pread
  merge_two_sorted_chunks file left right =
      let io = attempt left right in
      let merged = elim (pread file left.records left.file_offset) as (λ _. Option (List Index)) [
        | none ↦ none
        | some left_buf ↦ elim (pread file right.records right.file_offset) [
          | none ↦ none
          | some right_buf ↦
              if io.written
              then some (splice file left.file_offset (merge_chunk_runs left_buf right_buf))
              else none
        ]
      ] in
      if io.allocated then merged else none

  -- One pass of the loop over `i` of `merge_sorted_chunks`.
  unfoldable pub merge_pass : List Index → List ChunkInfo → Option (List Index × List ChunkInfo)
  unfolding merge_two_sorted_chunks
  merge_pass file [] = some (file, [])
  merge_pass file (c ∷ []) = some (file, c ∷ [])
  merge_pass file (c ∷ d ∷ cs) = elim (merge_two_sorted_chunks file c d) [
    | none ↦ none
    | some file' ↦ elim (merge_pass file' cs) [
      | none ↦ none
      | some (file'', cs') ↦
          some
            (file'', record { file_offset = c.file_offset; records = c.records + d.records } ∷ cs')
    ]
  ]

  unfoldable pub merge_sorted_chunks : (fuel : ℕ) → List Index → List ChunkInfo → Merged
  unfolding merge_pass
  merge_sorted_chunks zero file chunks = out_of_fuel
  merge_sorted_chunks (suc fuel) file chunks =
      let rest = elim (merge_pass file chunks) as (λ _. Merged) [
        | none ↦ failed
        | some (file', chunks') ↦ merge_sorted_chunks fuel file' chunks'
      ] in
      if leb (length chunks) 1 then sorted file else rest

-- The chunks of `main`; `n` bounds the rounds. `none` means that it was too small.
unfoldable pub split_chunks : (n processed records records_per_chunk : ℕ) → Option (List ChunkInfo)
split_chunks zero processed records records_per_chunk =
    if ltb processed records then none else some []
split_chunks (suc n) processed records records_per_chunk =
    let remaining = records - processed in
    let chunk_records = if ltb records_per_chunk remaining then records_per_chunk else remaining in
    let rest =
      elim (split_chunks n (processed + chunk_records) records records_per_chunk)
        as (λ _. Option (List ChunkInfo)) [
          | none ↦ none
          | some cs ↦ some (record { file_offset = processed; records = chunk_records } ∷ cs)
        ] in
    if ltb processed records then rest else some []
