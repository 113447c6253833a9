-- ===== src/Environ.antt =====
-- LAB_2/src/parent.c and child.c: the environment that the parent builds for its children from the
-- names in a file, the commands that start them, and what they print.
pub mod Growth
pub mod Build
pub mod Cleanup
pub mod Commands
mod Tests
use os_sp.Prelude.{
  ℕ, zero, suc, ◌+◌, ◌-◌, ◌*◌, ◌/◌, ◌%◌, Bool, true, false, ◌&&◌, ◌||◌, Option, none, some, List,
  [], ◌∷◌, ◌++◌, leb, ◌==◌, if◌then◌else◌, length, get_elem?, set, replicate, take, ltb, map,
}
use os_sp.Prelude.Text.{codes}
use os_sp.Message.{Status, success, failure}
use os_sp.Queue.{Outcome, done, fault, ◌>>=◌}

-- An element of a `char **` array that `malloc` or `realloc` has given.
pub data Cell : Type 0 where
  uninitialised : Cell
  null : Cell
  text : List ℕ → Cell

-- `child_env` with `c_env_capacity` and `c_env_count`.
pub record ChildEnv : Type 0 where
  pub cells : List Cell
  pub capacity : ℕ
  pub count : ℕ

-- The first allocation, which the program ends without.
abbrev pub new_env : ChildEnv
new_env = record { cells = replicate 10 uninitialised; capacity = 10; count = 0 }

-- What follows `name=` in an entry.
abbrev pub value_of : List ℕ → List ℕ → Option (List ℕ)
value_of [] [] = none
value_of [] (c ∷ entry) = if c == 61 then some entry else none
value_of (n ∷ name) [] = none
value_of (n ∷ name) (c ∷ entry) = let rest = value_of name entry in if n == c then rest else none

-- `getenv`, on the entries of `environ`.
abbrev pub getenv : List (List ℕ) → List ℕ → Option (List ℕ)
getenv [] name = none
getenv (entry ∷ environ) name =
    let rest = getenv environ name in elim (value_of name entry) [ none ↦ rest | some v ↦ some v ]

-- The chunks of a file that `fgets (line, 256, f)` returns: `room` bytes are left in `line`, which
-- has `read` so far.
pub fgets_from : (room : ℕ) → (read : List ℕ) → List ℕ → List (List ℕ)
fgets_from room [] [] = []
fgets_from room (r ∷ read) [] = (r ∷ read) ∷ []
fgets_from room read (b ∷ bs) =
    let on = fgets_from (room - 1) (read ++ b ∷ []) bs in
    let next = fgets_from 255 [] bs in if b == 10 || room == 1 then (read ++ b ∷ []) ∷ next else on

-- `line[strcspn (line, "\n")] = 0`, and what of it is a string.
abbrev pub cut_line : List ℕ → List ℕ
cut_line [] = []
cut_line (b ∷ bs) = let rest = cut_line bs in if b == 10 || b == 0 then [] else b ∷ rest

-- `"%s=%s"`
abbrev pub variable : List ℕ → List ℕ → List ℕ
variable name value = name ++ 61 ∷ value

-- If the two allocations of a line succeed, when they are made.
pub record Allocs : Type 0 where
  pub grows : Bool
  pub stores : Bool

-- `child_env[i] = c`
abbrev pub put : ChildEnv → ℕ → Cell → Outcome ChildEnv
put e i c = if ltb i (length e.cells) then done (record e { cells = set e.cells i c }) else fault

-- The growth for one more variable; without memory the capacity is already doubled.
abbrev pub grow : Allocs → ChildEnv → Status × ChildEnv
grow a e =
    if leb (e.capacity - 1) e.count
    then (if a.grows
        then (
          success,
          record e {
            cells = e.cells ++ replicate (e.capacity * 2 - length e.cells) uninitialised;
            capacity = e.capacity * 2;
          },
        )
        else (failure, record e { capacity = e.capacity * 2 }))
    else (success, e)

-- The new variable, unless there is no memory for it.
abbrev pub store : Allocs → List ℕ → ChildEnv → Outcome ChildEnv
store a v e =
    if a.stores
    then (put e e.count (text v) >>= λ e'. done (record e' { count = e.count + 1 }))
    else done e

-- The lines after the growth; with `failure` the loop ends.
abbrev pub after_grow : Allocs → List ℕ → Status × ChildEnv → Outcome (Status × ChildEnv)
after_grow a v (success, e) = store a v e >>= λ e'. done (success, e')
after_grow a v (failure, e) = done (failure, e)

-- The round for a name, with the result of `getenv`.
abbrev pub add_variable : Allocs → List ℕ → Option (List ℕ) → ChildEnv → Outcome (Status × ChildEnv)
add_variable a name none e = done (success, e)
add_variable a name (some value) e = after_grow a (variable name value) (grow a e)

abbrev pub add_name : List (List ℕ) → Allocs → List ℕ → ChildEnv → Outcome (Status × ChildEnv)
add_name environ a [] e = done (success, e)
add_name environ a (n ∷ name) e = add_variable a (n ∷ name) (getenv environ (n ∷ name)) e

-- One round of the loop.
abbrev pub add_line : List (List ℕ) → Allocs → List ℕ → ChildEnv → Outcome (Status × ChildEnv)
add_line environ a line e = add_name environ a (cut_line line) e

-- The loop over the lines. Allocations beyond those of `allocs` succeed.
abbrev pub next_allocs : List Allocs → Allocs × List Allocs
next_allocs [] = (record { grows = true; stores = true }, [])
next_allocs (a ∷ allocs) = (a, allocs)

pub add_lines : List (List ℕ) → List Allocs → List (List ℕ) → ChildEnv → Outcome ChildEnv
add_lines environ allocs [] e = done e
add_lines environ allocs (line ∷ lines) e = add_line environ (next_allocs allocs).0 line e >>= λ r.
    elim r.0 [ success ↦ add_lines environ (next_allocs allocs).1 lines r.1 | failure ↦ done r.1 ]

-- The reading of the file `env`, with the null pointer at the end.
unfoldable pub build_env : List (List ℕ) → List Allocs → List ℕ → Outcome ChildEnv
unfolding add_lines fgets_from
build_env environ allocs file =
    add_lines environ allocs (fgets_from 255 [] file) new_env >>= λ e. put e e.count null

-- The loop of `free` at the end of `main`, from index `i` on. To free a pointer that was never set
-- is a fault.
pub free_from : (n i : ℕ) → List Cell → Outcome {0} Unit
free_from zero i cells = done tt
free_from (suc n) i cells =
    let rest = free_from n (i + 1) cells in
    elim (get_elem? cells i) [
      | none ↦ fault
      | some uninitialised ↦ fault
      | some null ↦ rest
      | some (text v) ↦ rest
    ]

unfoldable pub free_env : ChildEnv → Outcome {0} Unit
unfolding free_from
free_env e = free_from e.capacity 0 e.cells

-- `child_path`, for the value of `CHILD_PATH`.
unfoldable pub child_path : Option (List ℕ) → List ℕ
child_path none = codes "./child"
child_path (some []) = codes "./child"
child_path (some (c ∷ dir)) = take 4095 ((c ∷ dir) ++ codes "/child")

-- `"child_%02d"`, for a number below 100.
abbrev pub child_name : ℕ → List ℕ
child_name n = codes "child_" ++ (48 + n / 10) ∷ (48 + n % 10) ∷ []

-- The strings of a `char **` array up to its null pointer.
pub strings : List Cell → Outcome (List (List ℕ))
strings [] = fault
strings (uninitialised ∷ cells) = fault
strings (null ∷ cells) = done []
strings (text v ∷ cells) = strings cells >>= λ vs. done (v ∷ vs)

-- `main` of child.c: the entries that it prints, or an error. `environ` and `envp` are both what
-- `execve` was given.
unfoldable pub child_main : (argv : List (List ℕ)) → (envp : List (List ℕ)) → Option (List (List ℕ))
child_main [] envp = none
child_main (name ∷ []) envp = none
child_main (name ∷ [] ∷ args) envp = none
child_main (name ∷ (c ∷ action) ∷ args) envp =
    if c == 43 then some envp else if c == 42 then some envp else none

-- A child that was started: the path, the arguments and the environment.
pub record Started : Type 0 where
  pub path : List ℕ
  pub argv : List (List ℕ)
  pub envp : List (List ℕ)

-- The loop of `main` over the characters that `scanf (" %c")` reads, each with the result of `fork`
-- if it comes to one.
pub run_commands :
    (path : List ℕ) → (envp : List (List ℕ)) → (child_num : ℕ) → List (ℕ × Bool) → List Started
run_commands path envp child_num [] = []
run_commands path envp child_num ((action, forked) ∷ input) =
    let child : Started = record {
      path = path;
      argv = child_name child_num ∷ (action ∷ []) ∷ [];
      envp = envp;
    } in
    let counted = run_commands path envp ((child_num + 1) % 100) input in
    let same = run_commands path envp child_num input in
    if action == 43 || action == 42
    then (if forked then child ∷ counted else same)
    else if action == 113
    then []
    else same
