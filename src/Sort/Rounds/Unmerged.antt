-- ===== src/Sort/Rounds/Unmerged.antt =====
-- The pairs that no thread has in an early round of LAB_6/src/sort_index.c.
use os_sp.Prelude.{
  ℕ, zero, suc, ◌+◌, ◌*◌, ◌≤◌, ◌<◌, ◌≡◌, refl, ◌∙◌, sym, ap, ap₂, subst, List, [], ◌∷◌, ◌++◌, arith,
  length, get_or, take, drop, append_assoc, length-append,
}
use os_sp.Sort.{Index, BlockInfo, SortContext, no_block, merge_round}
use os_sp.Sort.Runs.{Run, join, Describes, take-drop-middle}
use os_sp.Sort.Rounds.{joined, Holds, pairs_merged, merge_round-joined, length-Describes}

two_runs :
    (rs : List Run) (a b c d : ℕ)
    → a ≡ c
    → b ≡ d
    → get_or rs a [] ++ get_or rs b [] ≡ get_or rs c [] ++ get_or rs d []
two_runs rs a b c d e f = ap₂ (λ m n. get_or rs m [] ++ get_or rs n []) e f

joined-unmerged :
    (n i : ℕ) (rs : List Run)
    → n ≤ i
    → i * 2 + 1 < length rs
    → get_or (joined n rs) i [] ≡ get_or rs (i * 2) [] ++ get_or rs (i * 2 + 1) []
unfolding joined
joined-unmerged n i [] p q = absurd (omega arith)
joined-unmerged n i (r ∷ []) p q = absurd (omega arith)
joined-unmerged zero zero (l ∷ r ∷ rs) p q = refl
joined-unmerged zero (suc i) (l ∷ r ∷ rs) p q =
    joined-unmerged zero i rs (omega arith) (omega arith)
    ∙ two_runs (l ∷ r ∷ rs) (suc (suc (i * 2))) (suc (suc (i * 2 + 1))) (suc i * 2) (suc i * 2 + 1)
        (omega arith) (omega arith)
joined-unmerged (suc n) zero (l ∷ r ∷ rs) p q = absurd (omega arith)
joined-unmerged (suc n) (suc i) (l ∷ r ∷ rs) p q =
    joined-unmerged n i rs (omega arith) (omega arith)
    ∙ two_runs (l ∷ r ∷ rs) (suc (suc (i * 2))) (suc (suc (i * 2 + 1))) (suc i * 2) (suc i * 2 + 1)
        (omega arith) (omega arith)

-- The part of the buffer that entry `i` of the map describes is run `i`.
pub block-run :
    (i : ℕ) (pre : List Index) (bs : List BlockInfo) (rs : List Run)
    → Describes (length pre) bs rs
    → i < length rs
    → take (get_or bs i no_block).size (drop (get_or bs i no_block).offset (pre ++ join rs))
      ≡ get_or rs i []
block-run i pre [] [] d p = elim p [ ]
block-run i pre [] (r ∷ rs) d p = absurd d
block-run i pre (b ∷ bs) [] d p = absurd d
block-run zero pre (b ∷ bs) (r ∷ rs) d p = rw (d.0, d.1) (take-drop-middle pre r (join rs))
block-run (suc i) pre (b ∷ bs) (r ∷ rs) d p =
    ap (λ m. take (get_or bs i no_block).size (drop (get_or bs i no_block).offset m))
      (sym (append_assoc pre r (join rs)))
    ∙ block-run i (pre ++ r) bs rs (subst (λ o. Describes o bs rs) (sym (length-append pre r)) d.2)
        (omega arith)

length-joined-lt : (n i : ℕ) (rs : List Run) → i * 2 + 1 < length rs → i < length (joined n rs)
unfolding joined
length-joined-lt n i [] p = absurd (omega arith)
length-joined-lt n i (r ∷ []) p = absurd (omega arith)
length-joined-lt zero zero (l ∷ r ∷ rs) p = omega arith
length-joined-lt zero (suc i) (l ∷ r ∷ rs) p = omega (arith, length-joined-lt zero i rs)
length-joined-lt (suc n) zero (l ∷ r ∷ rs) p = omega arith
length-joined-lt (suc n) (suc i) (l ∷ r ∷ rs) p = omega (arith, length-joined-lt n i rs)

-- In a round with at least as many pairs as threads, a pair whose number is no thread's is not
-- merged, although its two entries become one: that entry describes the left run followed by the
-- right one.
pub merge_round-unmerged :
    (ctx : SortContext) (rs : List Run) (i : ℕ)
    → Holds ctx rs
    → ctx.threads ≤ i
    → i * 2 + 1 < length rs
    → let after = merge_round ctx in
      let b = get_or after.block_map i no_block in
      take b.size (drop b.offset after.buf) ≡ get_or rs (i * 2) [] ++ get_or rs (i * 2 + 1) []
merge_round-unmerged ctx rs i h no_thread in_range =
    let round = merge_round-joined ctx rs h in
    let n = pairs_merged ctx in
    let at_most : n ≤ i = ground (arith, length-Describes 0 ctx.block_map rs h.in_map) in
    let b = get_or (merge_round ctx).block_map i no_block in
    ap (λ buf. take b.size (drop b.offset buf)) round.in_buf
    ∙ block-run i [] (merge_round ctx).block_map (joined n rs) round.in_map
        (length-joined-lt n i rs in_range)
    ∙ joined-unmerged n i rs at_most in_range
