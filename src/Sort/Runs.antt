-- ===== src/Sort/Runs.antt =====
-- The buffer of LAB_6/src/sort_index.c as a list of runs that lie one after another, the block map
-- giving their offsets and sizes.
use os_sp.Prelude.{
  ℕ, ◌+◌, ◌≡◌, refl, ◌∙◌, sym, ap, ap₂, List, [], ◌∷◌, ◌++◌, arith, length, get_or, take, drop,
  splice, append_assoc, length-append, take-append, drop-append,
}
use os_sp.Sort.{Index, BlockInfo, no_block, merge_runs, merge_two_runs}
use os_sp.Sort.Merge.{length-merge_runs}

abbrev pub Run : Type 0
Run = List Index

-- The buffer that holds the runs.
abbrev pub join : List Run → List Index
join [] = []
join (r ∷ rs) = r ++ join rs

-- The blocks of a map describe the runs, the first of which is at `offset`.
abbrev pub Describes : ℕ → List BlockInfo → List Run → Type 0
Describes offset [] [] = Unit
Describes offset [] (r ∷ rs) = ⊥
Describes offset (b ∷ bs) [] = ⊥
Describes offset (b ∷ bs) (r ∷ rs) =
    (b.offset ≡ offset) × (b.size ≡ length r) × Describes (offset + length r) bs rs

pub take-drop-middle :
    (pre xs post : List Index) → take (length xs) (drop (length pre) (pre ++ (xs ++ post))) ≡ xs
take-drop-middle pre xs post = rw drop-append (take-append xs post)

take-prefix : (pre post : List Index) → take (length pre) (pre ++ post) ≡ pre
take-prefix pre post = take-append pre post

pub drop-middle :
    (pre xs post : List Index) (n : ℕ)
    → n ≡ length pre + length xs
    → drop n (pre ++ (xs ++ post)) ≡ post
drop-middle pre xs post n e =
    ap₂ drop (e ∙ sym (length-append pre xs)) (sym (append_assoc pre xs post))
    ∙ drop-append (pre ++ xs) post

-- Replacing the middle of a buffer by as many records.
pub splice-middle :
    (pre xs ys post : List Index)
    → length ys ≡ length xs
    → splice (pre ++ (xs ++ post)) (length pre) ys ≡ pre ++ (ys ++ post)
splice-middle pre xs ys post e =
    ap₂ (λ a b. a ++ (ys ++ b)) (take-append pre (xs ++ post))
      (drop-middle pre xs post (length pre + length ys) (omega arith))

pub merge_two_runs-middle :
    (pre l r post : List Index)
    → merge_two_runs (pre ++ (l ++ (r ++ post))) (length pre) (length l) (length r)
      ≡ pre ++ (merge_runs l r ++ post)
unfolding merge_two_runs
merge_two_runs-middle pre l r post =
    rw
      (
        take-drop-middle pre l (r ++ post),
        drop-middle pre l (r ++ post) (length pre + length l) refl,
        take-append r post,
        ← append_assoc l r post,
      )
      (splice-middle pre (l ++ r) (merge_runs l r) post
        (length-merge_runs l r ∙ sym (length-append l r)))

pub map-get_or :
    (done rest : List BlockInfo) (n : ℕ)
    → n ≡ length done
    → get_or (done ++ rest) n no_block ≡ get_or rest 0 no_block
map-get_or done rest n e = ap (λ k. get_or (done ++ rest) k no_block) e ∙ at_end done rest
  where
    at_end :
        (done rest : List BlockInfo)
        → get_or (done ++ rest) (length done) no_block ≡ get_or rest 0 no_block
    at_end [] rest = refl
    at_end (b ∷ done) rest = at_end done rest
