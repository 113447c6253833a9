-- ===== src/Walker/Memory.antt =====
-- The list of LAB_1/dirwalk/src/dirwalker.c when an allocation fails.
use os_sp.Prelude.{
  size_laws, ◌+◌, ◌≤◌, ◌≡◌, refl, ap, true, false, Bool-cases, inl, inr, [], ◌∷◌, ◌++◌, arith, leb,
  if◌then◌else◌, ◌==◌, ◌*◌, length,
}
use os_sp.Message.{Status, success, failure}
use os_sp.Walker.{
  Text, Options, Stat, should_print, FileList, Memory, allocate, add_to_list, store_path, Walk,
  visit,
}

-- The paths are within the allocated array.
abbrev pub IsWithin : FileList → Type 0
IsWithin files = length files.list ≤ files.capacity

-- What `add_to_list` may end in.
pub data Added (files : FileList) (path : Text) : Status × (FileList × Memory) → Type 0 where
  stored :
      (files' : FileList) (m : Memory)
      → IsWithin files'
      → files'.list ≡ files.list ++ path ∷ []
      → Added files path (success, (files', m))
  refused :
      (files' : FileList) (m : Memory)
      → IsWithin files'
      → files'.list ≡ files.list
      → Added files path (failure, (files', m))

store_path-Added :
    (files files' : FileList) (path : Text) (m : Memory)
    → files'.list ≡ files.list
    → length files'.list + 1 ≤ files'.capacity
    → Added files path (store_path files' path m)
unfolding store_path
store_path-Added files files' path [] e p =
    stored (record files' { list = files'.list ++ path ∷ [] }) [] (grind size_laws)
      (ap (λ l. l ++ path ∷ []) e)
store_path-Added files files' path (true ∷ m) e p =
    stored (record files' { list = files'.list ++ path ∷ [] }) m (grind size_laws)
      (ap (λ l. l ++ path ∷ []) e)
store_path-Added files files' path (false ∷ m) e p = refused files' m (omega arith) e

-- From a list within its array, whatever the allocations give, `add_to_list` appends the path
-- inside the array or fails with the same paths in the list.
pub add_to_list-Added :
    (files : FileList) (path : Text) (m : Memory)
    → IsWithin files
    → Added files path (add_to_list files path m)
unfolding add_to_list
add_to_list-Added files path m v = elim (Bool-cases (leb files.capacity (length files.list))) [
  | inl full ↦
      let new_capacity = if files.capacity == 0 then 1024 else files.capacity * 2 in
      elim (Bool-cases (allocate m).0) [
        | inl grown ↦
            rw (full, grown)
              (store_path-Added files (record files { capacity = new_capacity }) path (allocate m).1
                refl (ground arith))
        | inr failed ↦ rw (full, failed) (refused files (allocate m).1 v refl)
      ]
  | inr room ↦ rw room (store_path-Added files files path m refl (ground arith))
]

-- If the output is sorted and the first allocation fails for an object that the filters let pass,
-- then the paths found so far are dropped, and what is inside the object, if it is a directory, is
-- not visited: the result is the same whatever the visit of its inside would do.
pub visit-dropped :
    (opts : Options) (path : Text) (st : Stat) (descend other : Walk → Walk) (w : Walk) (m : Memory)
    → should_print st opts ≡ true
    → opts.sort_output ≡ true
    → w.memory ≡ false ∷ m
    → (visit opts path st descend w ≡ visit opts path st other w)
      × ((visit opts path st descend w).files.list ≡ [])
unfolding visit add_to_list store_path
visit-dropped opts path st descend other w m p s e =
    elim (Bool-cases (leb w.files.capacity (length w.files.list))) [
      | inl full ↦ (rw (p, s, e, full) refl, rw (p, s, e, full) refl)
      | inr room ↦ (rw (p, s, e, room) refl, rw (p, s, e, room) refl)
    ]
