-- ===== src/Environ/Cleanup.antt =====
-- LAB_2/src/parent.c: the loop at the end of `main`, which frees as many pointers as the array has
-- room for, not as many as were set.
use os_sp.Prelude.{
  if◌then◌else◌, if-holds, ◌==◌, ==_iff, ℕ, zero, suc, ◌+◌, ◌<◌, ◌≡◌, ◌∙◌, refl, sym, ap, ap₂, some,
  List, [], ◌∷◌, ◌++◌, append_assoc, arith, length, length-append, get_elem?, get_elem?-none,
  replicate, map, append-nil,
}
use os_sp.Queue.{Outcome, done, fault}
use os_sp.Environ.{
  Cell, uninitialised, null, text, ChildEnv, Allocs, build_env, strings, free_from, free_env,
}
use os_sp.Environ.Build.{Finished, build_env-Finished}

-- The loop, along the rest of the array.
free_all : ℕ → List Cell → Outcome {0} Unit
free_all zero cells = done tt
free_all (suc n) [] = fault
free_all (suc n) (uninitialised ∷ cells) = fault
free_all (suc n) (null ∷ cells) = free_all n cells
free_all (suc n) (text v ∷ cells) = free_all n cells

get_elem?-behind :
    (before after : List Cell) (c : Cell) → get_elem? (before ++ c ∷ after) (length before) ≡ some c
get_elem?-behind [] after c = refl
get_elem?-behind (b ∷ before) after c = get_elem?-behind before after c

-- The loop goes on behind an element that can be freed.
further :
    (n : ℕ) (before after : List Cell) (c : Cell)
    → free_from n (length (before ++ c ∷ [])) ((before ++ c ∷ []) ++ after) ≡ free_all n after
    → free_from n (length before + 1) (before ++ c ∷ after) ≡ free_all n after
further n before after c rest =
    ap₂ (free_from n) (omega (arith, length-append before (c ∷ [])))
      (sym (append_assoc before (c ∷ []) after))
    ∙ rest

free_from-free_all :
    (n : ℕ) (before after : List Cell)
    → free_from n (length before) (before ++ after) ≡ free_all n after
unfolding free_from free_all
free_from-free_all zero before after = refl
free_from-free_all (suc n) before [] =
    rw
      (
        get_elem?-none (before ++ []) (length before)
            (omega (arith, ap length (append-nil before))),
        free_from,
      )
      refl
free_from-free_all (suc n) before (uninitialised ∷ after) =
    rw (get_elem?-behind before after uninitialised, free_from) refl
free_from-free_all (suc n) before (null ∷ after) =
    rw (get_elem?-behind before after null, free_from)
      (further n before after null (free_from-free_all n (before ++ null ∷ []) after))
free_from-free_all (suc n) before (text v ∷ after) =
    rw (get_elem?-behind before after (text v), free_from)
      (further n before after (text v) (free_from-free_all n (before ++ text v ∷ []) after))

-- The first pointer behind the null pointer is not set, or is outside the array.
free_all-behind :
    (n : ℕ) (vs : List (List ℕ)) (s : ℕ)
    → length vs + 1 < n
    → free_all n (map text vs ++ null ∷ replicate s uninitialised) ≡ fault
unfolding free_all
free_all-behind zero vs s more = absurd (omega (arith, more))
free_all-behind (suc zero) [] s more = absurd (omega (arith, more))
free_all-behind (suc (suc n)) [] zero more = refl
free_all-behind (suc (suc n)) [] (suc s) more = refl
free_all-behind (suc n) (v ∷ vs) s more = free_all-behind n vs s (omega (arith, more))

free_all-exact :
    (n : ℕ) (vs : List (List ℕ)) (s : ℕ)
    → length vs + 1 ≡ n
    → free_all n (map text vs ++ null ∷ replicate s uninitialised) ≡ done tt
unfolding free_all
free_all-exact zero vs s e = absurd (omega (arith, e))
free_all-exact (suc zero) [] s e = refl
free_all-exact (suc (suc n)) [] s e = absurd (omega (arith, e))
free_all-exact (suc n) (v ∷ vs) s e = free_all-exact n vs s (omega (arith, e))

Finished-free_env :
    (vs : List (List ℕ)) (e : ChildEnv) (h : Finished vs e)
    → free_env e ≡ free_all e.capacity (map text vs ++ null ∷ replicate h.spare uninitialised)
unfolding free_env
Finished-free_env vs e h =
    free_from-free_all e.capacity [] e.cells ∙ ap (free_all e.capacity) h.cells_are

Finished-exact :
    (vs : List (List ℕ)) (e : ChildEnv)
    → Finished vs e
    → free_env e ≡ (if length vs + 1 == e.capacity then done tt else fault)
Finished-exact vs e h =
    if-holds (λ r. free_env e ≡ r) (length vs + 1 == e.capacity) (done tt) fault
      (λ exact.
        Finished-free_env vs e h
        ∙ free_all-exact e.capacity vs h.spare ((==_iff (length vs + 1) e.capacity).0 exact))
      (λ other.
        Finished-free_env vs e h
        ∙ free_all-behind e.capacity vs h.spare (ground (arith, other, h.capacity_le)))

-- The cleanup of `main` frees the array that it has built without a fault if the variables and the
-- null pointer fill the capacity. Otherwise it frees a pointer that was never set, or one behind the
-- array.
pub free_env-fault :
    (environ : List (List ℕ)) (allocs : List Allocs) (file : List ℕ)
    → (vs : List (List ℕ)) × (e : ChildEnv) × (build_env environ allocs file ≡ done e)
      × (strings e.cells ≡ done vs)
      × (free_env e ≡ (if length vs + 1 == e.capacity then done tt else fault))
free_env-fault environ allocs file =
    let (vs, e, built, h, read) = build_env-Finished environ allocs file in
    (vs, e, built, read, Finished-exact vs e h)
