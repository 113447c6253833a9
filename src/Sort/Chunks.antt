-- ===== src/Sort/Chunks.antt =====
-- The chunks of LAB_6/src/sort_index.c: `main` cuts the file into chunks of the buffer's size, and
-- `merge_sorted_chunks` merges neighbours on file until one is left.
pub mod Split
use os_sp.Prelude.{
  ℕ, zero, suc, ◌+◌, ◌-◌, ◌*◌, ◌/◌, ◌≤◌, ◌<◌, ◌≡◌, refl, ◌∙◌, sym, ap, ap₂, subst, Option, some,
  none, List, [], ◌∷◌, ◌++◌, arith, length, leb, append_assoc, append-nil, length-append, All,
  Bool-cases, inl, inr, take, drop, take-append, true, splice, if◌then◌else◌,
}
use mathlib.Core.List.{Perm}
use mathlib.Core.List.Perm
use os_sp.Sort.{Index, merge_runs}
use os_sp.Sort.OnFile.{
  ChunkInfo, Attempt, Merged, sorted, pread, merge_chunk_runs, merge_two_sorted_chunks, merge_pass,
  merge_sorted_chunks,
}
use os_sp.Sort.Merge.{IsSorted, merge_chunk_runs-merge_runs, length-merge_runs}
use os_sp.Sort.Runs.{Run, join, take-drop-middle, drop-middle, splice-middle}
use os_sp.Sort.Rounds.{joined}
use os_sp.Sort.Rounds.Sorted.{length-joined, joined-perm, joined-IsSorted, join-IsSorted}

-- The chunks lie one after another from record `o` on and hold the runs.
abbrev pub Locates : ℕ → List ChunkInfo → List Run → Type 0
Locates o [] [] = Unit
Locates o [] (r ∷ rs) = ⊥
Locates o (c ∷ cs) [] = ⊥
Locates o (c ∷ cs) (r ∷ rs) =
    (c.file_offset ≡ o) × (c.records ≡ length r) × Locates (o + length r) cs rs

length-Locates :
    (o : ℕ) (cs : List ChunkInfo) (rs : List Run) → Locates o cs rs → length cs ≡ length rs
length-Locates o [] [] d = refl
length-Locates o [] (r ∷ rs) d = absurd d
length-Locates o (c ∷ cs) [] d = absurd d
length-Locates o (c ∷ cs) (r ∷ rs) d = ap suc (length-Locates (o + length r) cs rs d.2)

pread-middle :
    (pre xs post : List Index) → pread (pre ++ (xs ++ post)) (length xs) (length pre) ≡ some xs
unfolding pread
pread-middle pre xs post = rw (fits, take-drop-middle pre xs post)
  where
    fits : leb (length pre + length xs) (length (pre ++ (xs ++ post))) ≡ true
    fits = ground (arith, length-append pre (xs ++ post), length-append xs post)

-- The three `malloc` and the `pwrite` of each merge succeed.
unfoldable pub AllSucceed : (ChunkInfo → ChunkInfo → Attempt) → Type 0
AllSucceed attempt =
    (c d : ChunkInfo) → ((attempt c d).allocated ≡ true) × ((attempt c d).written ≡ true)

module _ (attempt : ChunkInfo → ChunkInfo → Attempt) (succeeds : AllSucceed attempt) where
  merge_located :
      (pre l r post : List Index)
      → merge_two_sorted_chunks attempt
          (pre ++ (l ++ (r ++ post)))
          (record { file_offset = length pre; records = length l })
          (record { file_offset = length pre + length l; records = length r })
        ≡ some (pre ++ (merge_runs l r ++ post))
  unfolding merge_two_sorted_chunks AllSucceed
  merge_located pre l r post =
      rw
        (
          (succeeds left_chunk right_chunk).0,
          pread-middle pre l (r ++ post),
          right,
          (succeeds left_chunk right_chunk).1,
          merge_chunk_runs-merge_runs,
          merge_two_sorted_chunks,
        )
        (ap some (
          ap (λ b. splice_at b) (ap (λ b. pre ++ b) (sym (append_assoc l r post)))
          ∙ splice-middle pre (l ++ r) (merge_runs l r) post
              (length-merge_runs l r ∙ sym (length-append l r))))
    where
      left_chunk : ChunkInfo
      left_chunk = record { file_offset = length pre; records = length l }

      right_chunk : ChunkInfo
      right_chunk = record { file_offset = length pre + length l; records = length r }

      right : pread (pre ++ (l ++ (r ++ post))) (length r) (length pre + length l) ≡ some r
      right =
          ap₂ (λ file o. pread file (length r) o) (sym (append_assoc pre l (r ++ post)))
            (sym (length-append pre l))
          ∙ pread-middle (pre ++ l) r post

      splice_at : List Index → List Index
      splice_at file = splice file (length pre) (merge_runs l r)

  merge_two_sorted_chunks-middle :
      (pre l r post : List Index) (c d : ChunkInfo)
      → c.file_offset ≡ length pre
      → c.records ≡ length l
      → d.file_offset ≡ length pre + length l
      → d.records ≡ length r
      → merge_two_sorted_chunks attempt (pre ++ (l ++ (r ++ post))) c d
        ≡ some (pre ++ (merge_runs l r ++ post))
  merge_two_sorted_chunks-middle pre l r post c d at_l of_l at_r of_r =
      rw (at_l, of_l, at_r, of_r) (merge_located pre l r post)

  -- One pass merges every pair of neighbours on file.
  merge_pass-joined :
      (n : ℕ) (pre : List Index) (cs : List ChunkInfo) (rs : List Run)
      → Locates (length pre) cs rs
      → length rs / 2 ≤ n
      → (cs' : List ChunkInfo) × (merge_pass attempt (pre ++ join rs) cs
          ≡ some (pre ++ join (joined n rs), cs'))
        × Locates (length pre) cs' (joined n rs)
  unfolding merge_pass joined
  merge_pass-joined n pre [] [] d p = ([], refl, tt)
  merge_pass-joined n pre [] (r ∷ rs) d p = absurd d
  merge_pass-joined n pre (c ∷ cs) [] d p = absurd d
  merge_pass-joined n pre (c ∷ []) (r ∷ []) d p = (c ∷ [], refl, d)
  merge_pass-joined n pre (c ∷ []) (l ∷ r ∷ rs) d p = absurd d.2
  merge_pass-joined n pre (c ∷ e ∷ cs) (r ∷ []) d p = absurd d.2
  merge_pass-joined zero pre (c ∷ e ∷ cs) (l ∷ r ∷ rs) d p = absurd (omega arith)
  merge_pass-joined (suc n) pre (c ∷ e ∷ cs) (l ∷ r ∷ rs) d p =
      let m = merge_runs l r in
      let (cs', passed, at) =
        merge_pass-joined n (pre ++ m) cs rs
          (subst (λ o. Locates o cs rs) (omega (arith, length-append pre m, length-merge_runs l r))
            d.2.2)
          (omega arith) in
      (
        record { file_offset = c.file_offset; records = c.records + e.records } ∷ cs',
        rw (
          merge_two_sorted_chunks-middle pre l r (join rs) c e d.0 d.1 d.2.0 d.2.1,
          ← append_assoc pre m (join rs),
          passed,
          append_assoc pre m (join (joined n rs)),
          merge_pass,
        ),
        (
          d.0,
          omega (arith, d.1, d.2.1, length-merge_runs l r),
          subst (λ o. Locates o cs' (joined n rs)) (length-append pre m) at,
        ),
      )

  -- If every `malloc` and every `pwrite` succeeds, and the chunks lie one after another from the start
  -- of the data and hold sorted runs that make up the file, then with fuel above their number `merge_sorted_chunks` ends without an error, and the
  -- file is sorted and keeps every record.
  pub merge_sorted_chunks-sorted :
      (fuel : ℕ) (cs : List ChunkInfo) (rs : List Run)
      → Locates 0 cs rs
      → All IsSorted rs
      → length rs < fuel
      → (file : List Index) × (merge_sorted_chunks attempt fuel (join rs) cs ≡ sorted file)
        × IsSorted file
        × Perm file (join rs)
  unfolding merge_sorted_chunks
  merge_sorted_chunks-sorted zero cs rs d s p = absurd (omega arith)
  merge_sorted_chunks-sorted (suc fuel) cs rs d s p = elim (Bool-cases (leb (length cs) 1)) [
    | inl stop ↦
        let single : length rs ≤ 1 = ground (arith, length-Locates 0 cs rs d) in
        (join rs, rw stop, join-IsSorted rs single s, Perm.rfl)
    | inr go ↦
        let n = length rs in
        let many : 1 < length rs = ground (arith, length-Locates 0 cs rs d) in
        let (cs', passed, at) = merge_pass-joined n [] cs rs d (omega arith) in
        let (file, done, in_order, kept) =
          merge_sorted_chunks-sorted fuel cs' (joined n rs) at
            (joined-IsSorted n rs (omega arith) s) (omega (arith, length-joined n rs)) in
        (file, rw (go, passed) done, in_order, Perm.trans kept (joined-perm n rs))
  ]
