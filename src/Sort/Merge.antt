-- ===== src/Sort/Merge.antt =====
-- The merge loops of LAB_6/src/sort_index.c, in `merge_two_runs` and `merge_two_sorted_chunks`:
-- the order of the result and its records.
use os_sp.Prelude.{
  ◌+◌, ◌≤◌, ◌≡◌, refl, List, [], ◌∷◌, ◌++◌, arith, length, leb, All, Bool-cases, inl, inr,
  append-nil,
}
use mathlib.Core.List.{Perm, perm_middle}
use mathlib.Core.List.Perm
use os_sp.Sort.{Index, cmp_index, merge_runs}
use os_sp.Sort.OnFile.{merge_chunk_runs}

-- No record of the list is before the given one.
abbrev pub IsBelow : Index → List Index → Type 0
IsBelow x xs = All (λ y. x.time_mark ≤ y.time_mark) xs

-- Every record is at or before all later ones.
abbrev pub IsSorted : List Index → Type 0
IsSorted [] = Unit
IsSorted (x ∷ xs) = IsBelow x xs × IsSorted xs

IsBelow-trans :
    (x y : Index) (xs : List Index) → x.time_mark ≤ y.time_mark → IsBelow y xs → IsBelow x xs
IsBelow-trans x y [] p h = tt
IsBelow-trans x y (z ∷ xs) p h = (omega (arith, h.0), IsBelow-trans x y xs p h.1)

merge_runs-IsBelow :
    (x : Index) (l r : List Index) → IsBelow x l → IsBelow x r → IsBelow x (merge_runs l r)
unfolding merge_runs
merge_runs-IsBelow x [] r hl hr = hr
merge_runs-IsBelow x (y ∷ l) [] hl hr = hl
merge_runs-IsBelow x (y ∷ l) (z ∷ r) hl hr = elim (Bool-cases (leb y.time_mark z.time_mark)) [
  | inl e ↦ rw e (hl.0, merge_runs-IsBelow x l (z ∷ r) hl.1 hr)
  | inr e ↦ rw e (hr.0, merge_runs-IsBelow x (y ∷ l) r hl hr.1)
]

-- Merging two sorted runs gives a sorted run.
pub merge_runs-IsSorted : (l r : List Index) → IsSorted l → IsSorted r → IsSorted (merge_runs l r)
unfolding merge_runs
merge_runs-IsSorted [] r sl sr = sr
merge_runs-IsSorted (x ∷ l) [] sl sr = sl
merge_runs-IsSorted (x ∷ l) (y ∷ r) sl sr = elim (Bool-cases (leb x.time_mark y.time_mark)) [
  | inl e ↦
      let p : x.time_mark ≤ y.time_mark = ground arith in
      rw e (
        merge_runs-IsBelow x l (y ∷ r) sl.0 (p, IsBelow-trans x y r p sr.0),
        merge_runs-IsSorted l (y ∷ r) sl.1 sr,
      )
  | inr e ↦
      let p : y.time_mark ≤ x.time_mark = ground arith in
      rw e (
        merge_runs-IsBelow y (x ∷ l) r (p, IsBelow-trans y x l p sl.0) sr.0,
        merge_runs-IsSorted (x ∷ l) r sl sr.1,
      )
]

-- Merging keeps every record as often as it occurs.
pub merge_runs-perm : (l r : List Index) → Perm (merge_runs l r) (l ++ r)
unfolding merge_runs
merge_runs-perm [] r = Perm.rfl
merge_runs-perm (x ∷ l) [] = rw (append-nil l) Perm.rfl
merge_runs-perm (x ∷ l) (y ∷ r) = elim (Bool-cases (leb x.time_mark y.time_mark)) [
  | inl e ↦ rw e (Perm.cons x (merge_runs-perm l (y ∷ r)))
  | inr e ↦
      rw e
        (Perm.trans (Perm.cons y (merge_runs-perm (x ∷ l) r)) (Perm.symm (perm_middle (x ∷ l) r)))
]

pub length-merge_runs : (l r : List Index) → length (merge_runs l r) ≡ length l + length r
unfolding merge_runs
length-merge_runs [] r = omega arith
length-merge_runs (x ∷ l) [] = omega arith
length-merge_runs (x ∷ l) (y ∷ r) =
    ground (arith, length-merge_runs l (y ∷ r), length-merge_runs (x ∷ l) r)

-- The merge on file, which asks `cmp_index`, takes the same records as the merge in memory, which
-- asks `<=`.
pub merge_chunk_runs-merge_runs : (l r : List Index) → merge_chunk_runs l r ≡ merge_runs l r
unfolding merge_chunk_runs merge_runs cmp_index
merge_chunk_runs-merge_runs [] r = refl
merge_chunk_runs-merge_runs (x ∷ l) [] = refl
merge_chunk_runs-merge_runs (x ∷ l) (y ∷ r) =
    ground (arith, merge_chunk_runs-merge_runs l (y ∷ r), merge_chunk_runs-merge_runs (x ∷ l) r)
