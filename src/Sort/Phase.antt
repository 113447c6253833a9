-- ===== src/Sort/Phase.antt =====
-- Phase 1 and the rounds of LAB_6/src/sort_index.c together: what becomes of a chunk.
use os_sp.Prelude.{
  Bool, ℕ, suc, ◌+◌, ◌≤◌, ◌<◌, ◌≡◌, refl, ◌∙◌, sym, ap, subst, some, List, [], ◌∷◌, ◌++◌, arith,
  length, append_assoc, length-append, map,
}
use mathlib.Core.List
use mathlib.Core.List.{Perm}
use mathlib.Core.List.Perm
use native.Mathlib.Bridge.{from_ℕ}
use os_sp.Sort.{Index, BlockInfo, SortContext, sort_blocks, sort_chunk, merge_rounds}
use os_sp.Sort.Blocks.{
  Consecutive, total_size, pieces, join-pieces, pieces-Describes, init_block_map-some,
}
use os_sp.Sort.Merge.{IsSorted}
use os_sp.Sort.Runs.{Run, join, Describes, take-drop-middle, splice-middle}
use os_sp.Sort.Rounds.{Holds, length-Describes}
use os_sp.Sort.Rounds.Sorted.{AlwaysAllocates, Rounded, merge_rounds-Rounded}

length-from_ℕ : (xs : List Index) → length xs ≡ from_ℕ (List.length xs)
length-from_ℕ [] = refl
length-from_ℕ (x ∷ xs) = ap suc (length-from_ℕ xs)

pub length-perm : (xs ys : List Index) → Perm xs ys → length xs ≡ length ys
length-perm xs ys p = length-from_ℕ xs ∙ ap from_ℕ (Perm.length-eq p) ∙ sym (length-from_ℕ ys)

-- What the C library promises of `qsort` with `cmp_index`.
pub record SortsIndex (qsort : List Index → List Index) : Type 0 where
  pub in_order : (xs : List Index) → IsSorted (qsort xs)
  pub kept : (xs : List Index) → Perm (qsort xs) xs

module _ (qsort : List Index → List Index) (q : SortsIndex qsort) where
  pub sort_blocks-map :
      (pre : List Index) (bs : List BlockInfo) (rs : List Run)
      → Describes (length pre) bs rs
      → sort_blocks qsort bs (pre ++ join rs) ≡ pre ++ join (map qsort rs)
  unfolding sort_blocks
  sort_blocks-map pre [] [] d = refl
  sort_blocks-map pre [] (r ∷ rs) d = absurd d
  sort_blocks-map pre (b ∷ bs) [] d = absurd d
  sort_blocks-map pre (b ∷ bs) (r ∷ rs) d =
      rw (d.0, d.1, take-drop-middle pre r (join rs))
        (ap (sort_blocks qsort bs) (splice-middle pre r (qsort r) (join rs) same)
          ∙ ap (sort_blocks qsort bs) (sym (append_assoc pre (qsort r) (join rs)))
          ∙ sort_blocks-map (pre ++ qsort r) bs rs (
              subst (λ o. Describes o bs rs) (omega (arith, same, length-append pre (qsort r))) d.2)
          ∙ append_assoc pre (qsort r) (join (map qsort rs)))
    where
      same : length (qsort r) ≡ length r
      same = length-perm (qsort r) r (q.kept r)

  map-Describes :
      (o : ℕ) (bs : List BlockInfo) (rs : List Run)
      → Describes o bs rs
      → Describes o bs (map qsort rs)
  map-Describes o [] [] d = tt
  map-Describes o [] (r ∷ rs) d = absurd d
  map-Describes o (b ∷ bs) [] d = absurd d
  map-Describes o (b ∷ bs) (r ∷ rs) d =
      let same = length-perm (qsort r) r (q.kept r) in
      (
        d.0,
        d.1 ∙ sym same,
        map-Describes (o + length (qsort r)) bs rs
            (subst (λ n. Describes (o + n) bs rs) (sym same) d.2),
      )

  map-perm : (rs : List Run) → Perm (join (map qsort rs)) (join rs)
  map-perm [] = Perm.rfl
  map-perm (r ∷ rs) = Perm.append (q.kept r) (map-perm rs)

  phase-Holds :
      (bs : List BlockInfo) (buf : List Index) (threads : ℕ)
      → Consecutive 0 bs
      → total_size bs ≡ length buf
      → Holds
          (record { buf = sort_blocks qsort bs buf; block_map = bs; threads = threads })
          (map qsort (pieces bs buf))
  phase-Holds bs buf threads c e = record {
    in_buf =
        ap (sort_blocks qsort bs) (sym (join-pieces bs buf e))
        ∙ sort_blocks-map [] bs (pieces bs buf) (pieces-Describes 0 bs buf c e);
    in_map = map-Describes 0 bs (pieces bs buf) (pieces-Describes 0 bs buf c e);
  }

  -- If `malloc` always gives memory and `qsort` sorts and keeps the records: a chunk with at least as
  -- many records as there are blocks, at least one, is processed to the end, whatever the number of
  -- threads: at most one block is left, and the buffer keeps every record.
  pub sort_chunk-perm :
      (malloc : ℕ → Bool) (threads blocks : ℕ) (buf : List Index)
      → AlwaysAllocates malloc
      → 0 < blocks
      → blocks ≤ length buf
      → (ctx : SortContext) × (sort_chunk malloc qsort threads blocks buf ≡ some ctx)
        × (length ctx.block_map ≤ 1)
        × Perm ctx.buf buf
  unfolding sort_chunk
  sort_chunk-perm malloc threads blocks buf memory pos enough =
      let (bs, cut, count, c, e, _) = init_block_map-some (length buf) blocks pos enough in
      let ctx : SortContext = record {
        buf = sort_blocks qsort bs buf;
        block_map = bs;
        threads = threads;
      } in
      let rs : List Run = map qsort (pieces bs buf) in
      let h : Holds ctx rs = phase-Holds bs buf threads c e in
      let n = length-Describes 0 bs rs h.in_map in
      let r : Rounded ctx rs (merge_rounds malloc (length bs + 1) ctx) =
        merge_rounds-Rounded malloc (length bs + 1) ctx rs memory h (omega (arith, n)) in
      (
        r.last,
        rw (cut, sort_chunk) r.returned,
        omega (arith, length-Describes 0 r.last.block_map r.runs r.held.in_map, r.single),
        rw r.held.in_buf (
            Perm.trans r.kept
              (subst (λ b. Perm (join rs) b) (join-pieces bs buf e) (map-perm (pieces bs buf)))),
      )
