-- ===== src/Sort/Rounds/Sorted.antt =====
-- The order and the number of the runs in the rounds of LAB_6/src/sort_index.c.
use os_sp.Prelude.{
  ℕ, zero, suc, ◌+◌, ◌*◌, ◌/◌, Bool, true, get_or, ◌≤◌, ◌<◌, ◌≡◌, refl, Option, some, List, [], ◌∷◌,
  ◌++◌, arith, length, leb, append_assoc, append-nil, All, Bool-cases, inl, inr,
}
use mathlib.Core.List.{Perm}
use mathlib.Core.List.Perm
use os_sp.Sort.{
  Index, BlockInfo, SortContext, no_block, merge_runs, merge_two_runs, merge_round, pairs_allocated,
  merge_rounds,
}
use os_sp.Sort.Merge.{IsSorted, merge_runs-IsSorted, merge_runs-perm}
use os_sp.Sort.Runs.{Run, join, merge_two_runs-middle}
use os_sp.Sort.Rounds.{joined, Holds, pairs_merged, merge_round-joined, length-Describes}

pub length-joined : (n : ℕ) (rs : List Run) → length (joined n rs) ≡ (length rs + 1) / 2
unfolding joined
length-joined n [] = omega arith
length-joined n (r ∷ []) = omega arith
length-joined zero (l ∷ r ∷ rs) = omega (arith, length-joined zero rs)
length-joined (suc n) (l ∷ r ∷ rs) = omega (arith, length-joined n rs)

pub joined-perm : (n : ℕ) (rs : List Run) → Perm (join (joined n rs)) (join rs)
unfolding joined
joined-perm n [] = Perm.rfl
joined-perm n (r ∷ []) = Perm.rfl
joined-perm zero (l ∷ r ∷ rs) =
    rw (← append_assoc l r (join rs)) (Perm.append_left (l ++ r) (joined-perm zero rs))
joined-perm (suc n) (l ∷ r ∷ rs) =
    rw (← append_assoc l r (join rs)) (Perm.append (merge_runs-perm l r) (joined-perm n rs))

pub joined-IsSorted :
    (n : ℕ) (rs : List Run) → length rs / 2 ≤ n → All IsSorted rs → All IsSorted (joined n rs)
unfolding joined
joined-IsSorted n [] p s = tt
joined-IsSorted n (r ∷ []) p s = s
joined-IsSorted zero (l ∷ r ∷ rs) p s = absurd (omega arith)
joined-IsSorted (suc n) (l ∷ r ∷ rs) p s =
    (merge_runs-IsSorted l r s.0 s.1.0, joined-IsSorted n rs (omega arith) s.1.1)

-- What the rounds make of a context that holds `rs`.
pub record Rounded (ctx : SortContext) (rs : List Run) (result : Option SortContext) : Type 0 where
  pub last : SortContext
  pub runs : List Run
  pub returned : result ≡ some last
  pub held : Holds last runs
  pub single : length runs ≤ 1
  pub kept : Perm (join runs) (join rs)

later-Rounded :
    (ctx : SortContext) (rs : List Run) (result : Option SortContext)
    → Holds ctx rs
    → Rounded (merge_round ctx) (joined (pairs_merged ctx) rs) result
    → Rounded ctx rs result
unfolding merge_round
later-Rounded ctx rs result h r = record {
  last = r.last;
  runs = r.runs;
  returned = r.returned;
  held = r.held;
  single = r.single;
  kept = Perm.trans r.kept (joined-perm (pairs_merged ctx) rs);
}

-- There is memory for every merge.
unfoldable pub AlwaysAllocates : (ℕ → Bool) → Type 0
AlwaysAllocates malloc = (n : ℕ) → malloc n ≡ true

pairs_allocated-true :
    (malloc : ℕ → Bool) (n i : ℕ) (bs : List BlockInfo)
    → AlwaysAllocates malloc
    → pairs_allocated malloc n i bs ≡ true
unfolding pairs_allocated AlwaysAllocates
pairs_allocated-true malloc zero i bs memory = refl
pairs_allocated-true malloc (suc n) i bs memory =
    rw (memory ((get_or bs (i * 2) no_block).size + (get_or bs (i * 2 + 1) no_block).size))
      (pairs_allocated-true malloc n (i + 1) bs memory)

-- With fuel above the number of runs the rounds end, in at most one run.
pub merge_rounds-Rounded :
    (malloc : ℕ → Bool) (fuel : ℕ) (ctx : SortContext) (rs : List Run)
    → AlwaysAllocates malloc
    → Holds ctx rs
    → length rs < fuel
    → Rounded ctx rs (merge_rounds malloc fuel ctx)
unfolding merge_rounds
merge_rounds-Rounded malloc zero ctx rs memory h p = absurd (omega arith)
merge_rounds-Rounded malloc (suc fuel) ctx rs memory h p =
    elim (Bool-cases (leb (length ctx.block_map) 1)) [
      | inl stop ↦ rw stop (record {
        last = ctx;
        runs = rs;
        returned = refl;
        held = h;
        single = ground (arith, length-Describes 0 ctx.block_map rs h.in_map);
        kept = Perm.rfl;
      })
      | inr go ↦
          rw (go, pairs_allocated-true malloc (pairs_merged ctx) 0 ctx.block_map memory)
            (later-Rounded ctx rs (merge_rounds malloc fuel (merge_round ctx)) h (
              merge_rounds-Rounded malloc fuel (merge_round ctx) (joined (pairs_merged ctx) rs)
                memory (merge_round-joined ctx rs h)
                (ground (
                  arith,
                  length-Describes 0 ctx.block_map rs h.in_map,
                  length-joined (pairs_merged ctx) rs,
                ))))
    ]

pub join-IsSorted : (rs : List Run) → length rs ≤ 1 → All IsSorted rs → IsSorted (join rs)
join-IsSorted [] p s = tt
join-IsSorted (r ∷ []) p s = rw append-nil s.0
join-IsSorted (l ∷ r ∷ rs) p s = absurd (omega arith)

-- Two sorted runs that lie one after the other in the buffer become one sorted run of their records,
-- in their place; the rest of the buffer is as before.
pub merge_two_runs-IsSorted :
    (pre l r post : List Index)
    → IsSorted l
    → IsSorted r
    → (m : Run) × (merge_two_runs (pre ++ (l ++ (r ++ post))) (length pre) (length l) (length r)
        ≡ pre ++ (m ++ post))
      × IsSorted m
      × Perm m (l ++ r)
merge_two_runs-IsSorted pre l r post left right = (
  merge_runs l r,
  merge_two_runs-middle pre l r post,
  merge_runs-IsSorted l r left right,
  merge_runs-perm l r,
)
