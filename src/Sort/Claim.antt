-- ===== src/Sort/Claim.antt =====
-- How the workers of LAB_6/src/sort_index.c share the blocks: `get_free_block_for_sort` and
-- `get_free_pair_for_merge`, each one step under the map's mutex.
use os_sp.Prelude.{
  ℕ, suc, ◌+◌, ◌<◌, ◌≡◌, ◌≢◌, refl, false, Bool-cases, Option, some, none, List, [], ◌∷◌, ◌++◌,
  arith, length, get_or, set, All, inl, inr, take,
}
use mathlib.Core.Option
use os_sp.Sort.{
  BlockInfo, State, free, busy, is_free, after, no_block, get_free_block_for_sort,
  get_free_pair_for_merge,
}

abbrev pub Taken : BlockInfo → Type 0
Taken b = b.state ≢ free

-- What a claim among blocks may give: the first free one, now busy, with all else unchanged; or
-- nothing, if none is free.
pub data Claim (bs : List BlockInfo) : Option (ℕ × List BlockInfo) → Type 0 where
  claimed :
      (i : ℕ)
      → i < length bs
      → (get_or bs i no_block).state ≡ free
      → All Taken (take i bs)
      → Claim bs (some (i, set bs i (record (get_or bs i no_block) { state = busy })))
  exhausted : All Taken bs → Claim bs none

after-map :
    (b : BlockInfo) (o : Option (ℕ × List BlockInfo)) (rest : List BlockInfo)
    → after b (Option.map (λ r. (r.0, r.1 ++ rest)) o)
      ≡ Option.map (λ r. (r.0, r.1 ++ rest)) (after b o)
after-map b none rest = refl
after-map b (some r) rest = refl

taken_of_test : (s : State) → is_free s ≡ false → s ≢ free
taken_of_test s e f = ground arith

Claim-after :
    (b : BlockInfo) (bs : List BlockInfo) (o : Option (ℕ × List BlockInfo))
    → Taken b
    → Claim bs o
    → Claim (b ∷ bs) (after b o)
Claim-after b bs _ t (claimed i inside was before) =
    let e : i + 1 ≡ suc i = omega arith in rw e (claimed (suc i) (omega arith) was (t, before))
Claim-after b bs _ t (exhausted all) = exhausted (t, all)

-- `get_free_block_for_sort` claims the first free block of the map and changes nothing but its
-- state, which becomes busy; it gives -1 only if no block is free.
pub get_free_block_for_sort-Claim : (bs : List BlockInfo) → Claim bs (get_free_block_for_sort bs)
unfolding get_free_block_for_sort
get_free_block_for_sort-Claim [] = exhausted tt
get_free_block_for_sort-Claim (b ∷ bs) = elim (Bool-cases (is_free b.state)) [
  | inl e ↦ rw e (claimed 0 (omega arith) (ground arith) tt)
  | inr e ↦ rw e (
      Claim-after b bs (get_free_block_for_sort bs) (taken_of_test b.state e)
        (get_free_block_for_sort-Claim bs))
]

-- Among the first `pair_count` blocks, `get_free_pair_for_merge` claims the first free one and
-- changes nothing but its state, which becomes busy, or gives -1 if none of them is free; it
-- leaves the later blocks as they are.
pub get_free_pair_for_merge-Claim :
    (bs rest : List BlockInfo)
    → (o : Option (ℕ × List BlockInfo)) × Claim bs o
      × (get_free_pair_for_merge (length bs) (bs ++ rest) ≡ Option.map (λ r. (r.0, r.1 ++ rest)) o)
unfolding get_free_pair_for_merge
get_free_pair_for_merge-Claim [] rest = (none, exhausted tt, refl)
get_free_pair_for_merge-Claim (b ∷ bs) rest = elim (Bool-cases (is_free b.state)) [
  | inl e ↦
      (some (0, record b { state = busy } ∷ bs), claimed 0 (omega arith) (ground arith) tt, rw e)
  | inr e ↦
      let (o, c, same) = get_free_pair_for_merge-Claim bs rest in
      (after b o, Claim-after b bs o (taken_of_test b.state e) c, rw (e, same) (after-map b o rest))
]
