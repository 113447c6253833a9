-- ===== src/Environ/Commands.antt =====
-- LAB_2: the children that the parent starts, and what each does.
use os_sp.Prelude.{
  ℕ, ◌+◌, ◌%◌, ◌≡◌, refl, Bool, true, ◌||◌, Option, none, some, List, [], ◌∷◌, arith, ◌==◌,
  if◌then◌else◌, if-holds,
}
use os_sp.Environ.{child_name, child_main, Started, run_commands}

abbrev first : List (List ℕ) → Option (List ℕ)
first [] = none
first (arg ∷ args) = some arg

-- The children from the number `n` on: each is started from the path under the next number below
-- 100, and prints the environment it was given.
abbrev pub Proper : (path : List ℕ) → (envp : List (List ℕ)) → ℕ → List Started → Type 0
Proper path envp n [] = Unit
Proper path envp n (s ∷ started) =
    (s.path ≡ path)
    × (first s.argv ≡ some (child_name n))
    × (child_main s.argv s.envp ≡ some envp)
    × Proper path envp ((n + 1) % 100) started

-- The child accepts both actions that the parent passes on.
accepts :
    (name : List ℕ) (c : ℕ) (envp : List (List ℕ))
    → ((c == 43) || (c == 42)) ≡ true
    → child_main (name ∷ (c ∷ []) ∷ []) envp ≡ some envp
unfolding child_main
accepts name c envp h = ground (arith, h)

-- Whatever the input and the results of `fork`, every child that the parent starts has the path,
-- the name with the next number modulo 100, and an action that it knows: it prints the environment
-- that the parent built.
pub run_commands-Proper :
    (path : List ℕ) (envp : List (List ℕ)) (n : ℕ) (input : List (ℕ × Bool))
    → Proper path envp n (run_commands path envp n input)
unfolding run_commands
run_commands-Proper path envp n [] = tt
run_commands-Proper path envp n ((c, forked) ∷ input) =
    let child : Started = record {
      path = path;
      argv = child_name n ∷ (c ∷ []) ∷ [];
      envp = envp;
    } in
    let counted = run_commands path envp ((n + 1) % 100) input in
    let same = run_commands path envp n input in
    let same_Proper = run_commands-Proper path envp n input in
    if-holds (Proper path envp n) ((c == 43) || (c == 42))
      (if forked then child ∷ counted else same) (if c == 113 then [] else same)
      (λ known.
        if-holds (Proper path envp n) forked (child ∷ counted) same
          (λ _. (
            refl,
            refl,
            accepts (child_name n) c envp known,
            run_commands-Proper path envp ((n + 1) % 100) input,
          ))
          (λ _. same_Proper))
      (λ _. if-holds (Proper path envp n) (c == 113) [] same (λ _. tt) (λ _. same_Proper))
