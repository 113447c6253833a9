-- ===== src/Environ/Tests.antt =====
-- Environments of LAB_2 with two entries, and files that name them.
use os_sp.Prelude.{ℕ, ◌+◌, ◌≡◌, refl, true, false, List, [], ◌∷◌, length, ◌==◌, if◌then◌else◌}
use os_sp.Prelude.Text.{codes}
use os_sp.Queue.{done, fault}
use os_sp.Environ.{
  ChildEnv, Allocs, build_env, strings, free_env, fgets_from, run_commands, getenv, child_path,
}
use os_sp.Prelude.{some, none}
use os_sp.Environ.Build.{variables, build_env-variables}
use os_sp.Environ.Cleanup.{free_env-fault}
use os_sp.Environ.Commands.{Proper, run_commands-Proper}

abbrev two_entries : List (List ℕ)
two_entries = codes "HOME=/root" ∷ codes "LANG=C" ∷ []

-- A known name, an empty line, an unknown name, and a known name without a line end.
abbrev file : List ℕ
file = 72 ∷ 79 ∷ 77 ∷ 69 ∷ 10 ∷ 10 ∷ 80 ∷ 10 ∷ codes "LANG"

file_variables : variables two_entries (fgets_from 255 [] file) ≡ two_entries
unfolding fgets_from
file_variables = refl

file_getenv : getenv two_entries (codes "LAN") ≡ none
file_getenv = refl

-- The second variable finds no memory.
abbrev one_fails : List Allocs
one_fails =
    record { grows = true; stores = true }
    ∷ record { grows = true; stores = true }
    ∷ record { grows = true; stores = true }
    ∷ record { grows = true; stores = false }
    ∷ []

build_env-variables_example :
    (e : ChildEnv) × (build_env two_entries [] file ≡ done e)
    × (strings e.cells ≡ done (variables two_entries (fgets_from 255 [] file)))
build_env-variables_example = build_env-variables two_entries file

free_env-fault_example :
    (vs : List (List ℕ)) × (e : ChildEnv) × (build_env two_entries one_fails file ≡ done e)
    × (strings e.cells ≡ done vs)
    × (free_env e ≡ (if length vs + 1 == e.capacity then done tt else fault))
free_env-fault_example = free_env-fault two_entries one_fails file

path_default : child_path (some []) ≡ codes "./child"
unfolding child_path
path_default = refl

run_commands-Proper_example : Proper (codes "./child") two_entries 99 (
    run_commands
      (codes "./child")
      two_entries
      99
      ((43, true) ∷ (120, true) ∷ (42, false) ∷ (42, true) ∷ (113, true) ∷ []))
run_commands-Proper_example =
    run_commands-Proper (codes "./child") two_entries 99
      ((43, true) ∷ (120, true) ∷ (42, false) ∷ (42, true) ∷ (113, true) ∷ [])
