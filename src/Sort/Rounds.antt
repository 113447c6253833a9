-- ===== src/Sort/Rounds.antt =====
-- The merge rounds of `worker_thread` in LAB_6/src/sort_index.c, seen as operations on the runs
-- that the block map describes.
pub mod Sorted
pub mod Unmerged
use os_sp.Prelude.{
  size_laws, ℕ, zero, suc, ◌+◌, ◌-◌, ◌*◌, ◌/◌, ◌≤◌, ◌<◌, ◌≡◌, refl, ◌∙◌, sym, ap, ap₂, subst, List,
  [], ◌∷◌, ◌++◌, arith, length, leb, get_or, append_assoc, append-nil, length-append, if◌then◌else◌,
}
use os_sp.Sort.{
  Index, BlockInfo, SortContext, free, no_block, merge_runs, merge_pair, merge_pairs, join_blocks,
  merge_round,
}
use os_sp.Sort.Merge.{length-merge_runs}
use os_sp.Sort.Runs.{Run, join, Describes, merge_two_runs-middle, map-get_or}

-- The runs after the first `n` pairs are merged and the entries of every pair are joined.
unfoldable pub joined : ℕ → List Run → List Run
joined n [] = []
joined n (r ∷ []) = r ∷ []
joined zero (l ∷ r ∷ rs) = (l ++ r) ∷ joined zero rs
joined (suc n) (l ∷ r ∷ rs) = merge_runs l r ∷ joined n rs

join-joined_zero : (rs : List Run) → join (joined zero rs) ≡ join rs
unfolding joined
join-joined_zero [] = refl
join-joined_zero (r ∷ []) = refl
join-joined_zero (l ∷ r ∷ rs) =
    ap (λ b. (l ++ r) ++ b) (join-joined_zero rs) ∙ append_assoc l r (join rs)

Describes-cong :
    (a b : ℕ) (bs : List BlockInfo) (rs : List Run) → a ≡ b → Describes a bs rs → Describes b bs rs
Describes-cong a b bs rs e d = subst (λ o. Describes o bs rs) e d

pub length-Describes :
    (o : ℕ) (bs : List BlockInfo) (rs : List Run) → Describes o bs rs → length bs ≡ length rs
length-Describes o [] [] d = refl
length-Describes o [] (r ∷ rs) d = absurd d
length-Describes o (b ∷ bs) [] d = absurd d
length-Describes o (b ∷ bs) (r ∷ rs) d = ap suc (length-Describes (o + length r) bs rs d.2)

merge_pair-joined :
    (i : ℕ) (done : List BlockInfo) (b c : BlockInfo) (bs : List BlockInfo)
    (pre l r post : List Index)
    → length done ≡ i * 2
    → b.offset ≡ length pre
    → b.size ≡ length l
    → c.size ≡ length r
    → merge_pair i (done ++ b ∷ c ∷ bs) (pre ++ (l ++ (r ++ post)))
      ≡ pre ++ (merge_runs l r ++ post)
unfolding merge_pair
merge_pair-joined i done b c bs pre l r post e at_pre at_l at_r =
    rw (left, right, at_pre, at_l, at_r) (merge_two_runs-middle pre l r post)
  where
    left : get_or (done ++ b ∷ c ∷ bs) (i * 2) no_block ≡ b
    left = map-get_or done (b ∷ c ∷ bs) (i * 2) (sym e)

    right : get_or (done ++ b ∷ c ∷ bs) (i * 2 + 1) no_block ≡ c
    right =
        ap (λ m. get_or m (i * 2 + 1) no_block) (sym (append_assoc done (b ∷ []) (c ∷ bs)))
        ∙ map-get_or (done ++ b ∷ []) (c ∷ bs) (i * 2 + 1) (grind size_laws)

merge_pairs-joined :
    (n i : ℕ) (done bs : List BlockInfo) (pre : List Index) (rs : List Run)
    → length done ≡ i * 2
    → Describes (length pre) bs rs
    → n * 2 ≤ length rs
    → merge_pairs n i (done ++ bs) (pre ++ join rs) ≡ pre ++ join (joined n rs)
unfolding merge_pairs joined
merge_pairs-joined zero i done bs pre rs e d p = ap (λ b. pre ++ b) (sym (join-joined_zero rs))
merge_pairs-joined (suc n) i done bs pre [] e d p = absurd (omega arith)
merge_pairs-joined (suc n) i done bs pre (r ∷ []) e d p = absurd (omega arith)
merge_pairs-joined (suc n) i done [] pre (l ∷ r ∷ rs) e d p = absurd d
merge_pairs-joined (suc n) i done (b ∷ []) pre (l ∷ r ∷ rs) e d p = absurd d.2
merge_pairs-joined (suc n) i done (b ∷ c ∷ bs) pre (l ∷ r ∷ rs) e d p =
    ap (merge_pairs n (i + 1) (done ++ b ∷ c ∷ bs))
      (merge_pair-joined i done b c bs pre l r (join rs) e d.0 d.1 d.2.1)
    ∙ ap₂ (merge_pairs n (i + 1)) (sym (append_assoc done (b ∷ c ∷ []) bs))
        (sym (append_assoc pre (merge_runs l r) (join rs)))
    ∙ merge_pairs-joined n (i + 1) (done ++ b ∷ c ∷ []) bs (pre ++ merge_runs l r) rs
        (grind size_laws)
        (Describes-cong (length pre + length l + length r) (length (pre ++ merge_runs l r)) bs rs
          (omega (arith, length-append pre (merge_runs l r), length-merge_runs l r)) d.2.2)
        (omega arith)
    ∙ append_assoc pre (merge_runs l r) (join (joined n rs))

join_blocks-Describes :
    (n o : ℕ) (bs : List BlockInfo) (rs : List Run)
    → Describes o bs rs
    → Describes o (join_blocks bs) (joined n rs)
unfolding join_blocks joined
join_blocks-Describes n o [] [] d = tt
join_blocks-Describes n o [] (r ∷ rs) d = absurd d
join_blocks-Describes n o (b ∷ bs) [] d = absurd d
join_blocks-Describes n o (b ∷ []) (r ∷ []) d = d
join_blocks-Describes n o (b ∷ []) (l ∷ r ∷ rs) d = absurd d.2
join_blocks-Describes n o (b ∷ c ∷ bs) (r ∷ []) d = absurd d.2
join_blocks-Describes zero o (b ∷ c ∷ bs) (l ∷ r ∷ rs) d = (
  d.0,
  omega (arith, d.1, d.2.1, length-append l r),
  join_blocks-Describes zero (o + length (l ++ r)) bs rs (
      Describes-cong (o + length l + length r) (o + length (l ++ r)) bs rs
        (omega (arith, length-append l r)) d.2.2),
)
join_blocks-Describes (suc n) o (b ∷ c ∷ bs) (l ∷ r ∷ rs) d = (
  d.0,
  omega (arith, d.1, d.2.1, length-merge_runs l r),
  join_blocks-Describes n (o + length (merge_runs l r)) bs rs (
      Describes-cong (o + length l + length r) (o + length (merge_runs l r)) bs rs
        (omega (arith, length-merge_runs l r)) d.2.2),
)

-- The context holds the runs, described by its map.
pub record Holds (ctx : SortContext) (rs : List Run) : Type 0 where
  pub in_buf : ctx.buf ≡ join rs
  pub in_map : Describes 0 ctx.block_map rs

-- The number of pairs that a round merges.
abbrev pub pairs_merged : SortContext → ℕ
pairs_merged ctx =
    if leb ctx.threads (length ctx.block_map / 2) then ctx.threads else length ctx.block_map / 2

pub merge_round-joined :
    (ctx : SortContext) (rs : List Run)
    → Holds ctx rs
    → Holds (merge_round ctx) (joined (pairs_merged ctx) rs)
unfolding merge_round
merge_round-joined ctx rs h = record {
  in_buf =
      ap (merge_pairs (pairs_merged ctx) 0 ctx.block_map) h.in_buf
      ∙ merge_pairs-joined (pairs_merged ctx) 0 [] ctx.block_map [] rs refl h.in_map
          (ground (arith, length-Describes 0 ctx.block_map rs h.in_map));
  in_map = join_blocks-Describes (pairs_merged ctx) 0 ctx.block_map rs h.in_map;
}
