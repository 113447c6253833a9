-- ===== src/Environ/Build.antt =====
-- LAB_2/src/parent.c: the array that the parent builds, whatever allocations fail.
use os_sp.Prelude.{
  ℕ, suc, ◌+◌, ◌≤◌, ◌≡◌, ◌∙◌, refl, sym, ap, ap₂, subst, true, Option, none, some, List, [], ◌∷◌,
  ◌++◌, append-nil, append_assoc, arith, length, set, replicate, map, if◌then◌else◌, if-holds,
}
use os_sp.Message.{Status, success, failure}
use os_sp.Queue.{Outcome, done, ◌>>=◌}
use os_sp.Environ.{
  Cell, uninitialised, null, text, ChildEnv, new_env, getenv, fgets_from, cut_line, variable,
  Allocs, put, grow, add_variable, add_name, add_line, next_allocs, add_lines, build_env, strings,
}
use os_sp.Environ.Growth.{
  Holds, Ended, new_env-Holds, Next, goes_on, ends, after_grow-Next, grow-Grown, length-spare,
  put-done, set-behind,
}

-- The variable that a line stands for, if any.
abbrev valued : List ℕ → Option (List ℕ) → List (List ℕ)
valued name none = []
valued name (some value) = variable name value ∷ []

abbrev named : List (List ℕ) → List ℕ → List (List ℕ)
named environ [] = []
named environ (n ∷ name) = valued (n ∷ name) (getenv environ (n ∷ name))

-- The variables of the lines: `name=value` for each line that is not empty and whose name has a
-- value in `environ`.
abbrev pub variables : List (List ℕ) → List (List ℕ) → List (List ℕ)
variables environ [] = []
variables environ (line ∷ lines) = named environ (cut_line line) ++ variables environ lines

-- A round that adds nothing.
unchanged :
    (a : Allocs) (vs : List (List ℕ)) (e : ChildEnv) → Holds vs e → Next a vs [] (done (success, e))
unchanged a vs e h = goes_on e (subst (λ ws. Holds ws e) (sym (append-nil vs)) h)

-- What is stored of the variable of a line.
abbrev kept : Allocs → List (List ℕ) → List (List ℕ)
kept a vs = if a.stores then vs else []

kept_nil : (a : Allocs) → kept a [] ≡ []
kept_nil a = if-holds (λ r. r ≡ []) a.stores [] [] (λ _. refl) (λ _. refl)

add_variable-Next :
    (a : Allocs) (vs : List (List ℕ)) (name : List ℕ) (value : Option (List ℕ)) (e : ChildEnv)
    → Holds vs e
    → Next a vs (kept a (valued name value)) (add_variable a name value e)
add_variable-Next a vs name none e h = rw (kept_nil a) (unchanged a vs e h)
add_variable-Next a vs name (some value) e h =
    after_grow-Next a vs (variable name value) (grow a e) (grow-Grown a vs e h)

add_name-Next :
    (environ : List (List ℕ)) (a : Allocs) (vs : List (List ℕ)) (name : List ℕ) (e : ChildEnv)
    → Holds vs e
    → Next a vs (kept a (named environ name)) (add_name environ a name e)
add_name-Next environ a vs [] e h = rw (kept_nil a) (unchanged a vs e h)
add_name-Next environ a vs (n ∷ name) e h =
    add_variable-Next a vs (n ∷ name) (getenv environ (n ∷ name)) e h

-- The loop: the variables that it adds, and the array that it leaves.
record Built (environ : List (List ℕ)) (allocs : List Allocs) (vs lines : List (List ℕ))
    (r : Outcome ChildEnv) : Type 0 where
  pub more : List (List ℕ)
  pub env : ChildEnv
  pub result : r ≡ done env
  pub ended : Ended (vs ++ more) env
  pub all_there : allocs ≡ [] → more ≡ variables environ lines

-- Without a failure, all of it is stored.
no_failure :
    (allocs : List Allocs) (v : List (List ℕ))
    → allocs ≡ []
    → ((next_allocs allocs).0.grows ≡ true)
      × ((next_allocs allocs).1 ≡ [])
      × (kept (next_allocs allocs).0 v ≡ v)
no_failure [] v e = (refl, refl, refl)
no_failure (a ∷ allocs) v e = absurd (ground (arith, e))

Next-Built :
    (environ : List (List ℕ)) (allocs : List Allocs) (vs more lines : List (List ℕ)) (line : List ℕ)
    (r : Outcome (Status × ChildEnv))
    → Next (next_allocs allocs).0 vs more r
    → (more ≡ kept (next_allocs allocs).0 (named environ (cut_line line)))
    → ((e : ChildEnv)
        → Holds (vs ++ more) e
        → Built environ
            (next_allocs allocs).1
            (vs ++ more)
            lines
            (add_lines environ (next_allocs allocs).1 lines e))
    → Built environ allocs vs (line ∷ lines) (
        r >>= λ r. elim r.0 [
          | success ↦ add_lines environ (next_allocs allocs).1 lines r.1
          | failure ↦ done r.1
        ])
Next-Built environ allocs vs more lines line _ (goes_on e h) kept_more rest =
    let b = rest e h in
    record {
      more = more ++ b.more;
      env = b.env;
      result = b.result;
      ended = subst (λ ws. Ended ws b.env) (append_assoc vs more b.more) b.ended;
      all_there = λ none_fails.
          let (_, later, all_kept) = no_failure allocs (named environ (cut_line line)) none_fails in
          ap₂ (λ ws us. ws ++ us) (kept_more ∙ all_kept) (b.all_there later);
    }
Next-Built environ allocs vs more lines line _ (ends e fails h) kept_more rest = record {
  more = [];
  env = e;
  result = refl;
  ended = subst (λ ws. Ended ws e) (sym (append-nil vs)) h;
  all_there = λ none_fails. absurd (ground (arith, fails, (no_failure allocs [] none_fails).0));
}

add_lines-Built :
    (environ : List (List ℕ)) (allocs : List Allocs) (vs lines : List (List ℕ)) (e : ChildEnv)
    → Holds vs e
    → Built environ allocs vs lines (add_lines environ allocs lines e)
unfolding add_lines
add_lines-Built environ allocs vs [] e h = record {
  more = [];
  env = e;
  result = refl;
  ended =
      subst (λ ws. Ended ws e) (sym (append-nil vs))
        record {
          count_is = h.count_is;
          spare = h.spare;
          cells_are = h.cells_are;
          capacity_le = omega (arith, h.capacity_is);
        };
  all_there = λ _. refl;
}
add_lines-Built environ allocs vs (line ∷ lines) e h =
    let (a, later) = next_allocs allocs in
    let more = kept a (named environ (cut_line line)) in
    Next-Built environ allocs vs more lines line (add_line environ a line e)
      (add_name-Next environ a vs (cut_line line) e h) refl
      (λ e' h'. add_lines-Built environ later (vs ++ more) lines e' h')

strings-texts :
    (vs : List (List ℕ)) (cells : List Cell) → strings (map text vs ++ null ∷ cells) ≡ done vs
unfolding strings
strings-texts [] cells = refl
strings-texts (v ∷ vs) cells = rw (strings-texts vs cells) refl

-- The array that `build_env` leaves: the variables, the null pointer, and pointers that are not
-- set.
pub record Finished (vs : List (List ℕ)) (e : ChildEnv) : Type 0 where
  pub spare : ℕ
  pub cells_are : e.cells ≡ map text vs ++ null ∷ replicate spare uninitialised
  pub capacity_le : length vs + suc spare ≤ e.capacity

-- The variables, the array, and that nothing is missing without a failure.
build :
    (environ : List (List ℕ)) (allocs : List Allocs) (file : List ℕ)
    → (vs : List (List ℕ)) × (e : ChildEnv) × (build_env environ allocs file ≡ done e)
      × Finished vs e
      × (strings e.cells ≡ done vs)
      × (allocs ≡ [] → vs ≡ variables environ (fgets_from 255 [] file))
unfolding build_env
build environ allocs file =
    let b = add_lines-Built environ allocs [] (fgets_from 255 [] file) new_env new_env-Holds in
    let h = b.ended in
    let e = record b.env { cells = set b.env.cells b.env.count null } in
    let size = length-spare b.more b.env (suc h.spare) h.cells_are in
    let cells : e.cells ≡ map text b.more ++ null ∷ replicate h.spare uninitialised =
      ap₂ (λ cs n. set cs n null) h.cells_are h.count_is
      ∙ set-behind b.more null uninitialised (replicate h.spare uninitialised) in
    (
      b.more,
      e,
      ap (λ r. r >>= λ e. put e e.count null) b.result
          ∙ put-done b.env b.env.count null (omega (arith, h.count_is, size)),
      record {
        spare = h.spare;
        cells_are = cells;
        capacity_le = omega (arith, h.capacity_le, size);
      },
      ap strings cells ∙ strings-texts b.more (replicate h.spare uninitialised),
      b.all_there,
    )

-- Whatever allocations fail, the array `child_env` is built without a write outside it, and ends
-- with a null pointer behind the variables that it holds.
pub build_env-Finished :
    (environ : List (List ℕ)) (allocs : List Allocs) (file : List ℕ)
    → (vs : List (List ℕ)) × (e : ChildEnv) × (build_env environ allocs file ≡ done e)
      × Finished vs e
      × (strings e.cells ≡ done vs)
build_env-Finished environ allocs file =
    let (vs, e, built, h, read, _) = build environ allocs file in (vs, e, built, h, read)

-- If no allocation fails, `child_env` has exactly the variables of the file, in order: `name=value`
-- for each line, without its end, that is not empty and names a variable that is set.
pub build_env-variables :
    (environ : List (List ℕ)) (file : List ℕ)
    → (e : ChildEnv) × (build_env environ [] file ≡ done e)
      × (strings e.cells ≡ done (variables environ (fgets_from 255 [] file)))
build_env-variables environ file =
    let (vs, e, built, h, read, all_there) = build environ [] file in
    (e, built, read ∙ ap done (all_there refl))
