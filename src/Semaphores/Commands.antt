-- ===== src/Semaphores/Commands.antt =====
-- The parent of LAB_4/src/parent.c: its commands, and the shutdown of its children.
pub mod Reaping
use os_sp.Prelude.{
  ℕ, Bool, true, false, ◌&&◌, Option, none, some, List, [], ◌∷◌, ◌++◌, map, ltb, length,
  if◌then◌else◌,
}
use os_sp.Prelude.Text.{codes, str_eq}

-- `MAX_PROC`
abbrev pub max_proc : ℕ
max_proc = 10

-- What the parent does to processes: `fork`, `kill` and `waitpid`, by the process.
pub data Event : Type 0 where
  forked : ℕ → Event
  sent_term : ℕ → Event
  sent_kill : ℕ → Event
  waited : ℕ → Event

-- `prods` and `cons`, each up to its count, and what has been done so far.
pub record Parent : Type 0 where
  pub prods : List ℕ
  pub cons : List ℕ
  pub log : List Event

-- `kill_last_producer` and `kill_last_consumer`, which differ in their array only.
pub kill_last : List ℕ → List ℕ × List Event
kill_last [] = ([], [])
kill_last (pid ∷ []) = ([], sent_term pid ∷ waited pid ∷ [])
kill_last (first ∷ pid ∷ pids) =
    let (rest, events) = kill_last (pid ∷ pids) in (first ∷ rest, events)

-- The start of a child, with the result of `fork`.
abbrev pub start_child : Option ℕ → List ℕ → List ℕ × List Event
start_child none pids = (pids, [])
start_child (some pid) pids = (pids ++ pid ∷ [], forked pid ∷ [])

abbrev pub with_prods : Parent → List ℕ × List Event → Parent
with_prods p r = record p { prods = r.0; log = p.log ++ r.1 }

abbrev pub with_cons : Parent → List ℕ × List Event → Parent
with_cons p r = record p { cons = r.0; log = p.log ++ r.1 }

-- One command; the flag is false if the loop ends.
pub run_command : Option ℕ → List ℕ → Parent → Parent × Bool
unfolding kill_last
run_command fork cmd p =
    if str_eq cmd (codes "p") && ltb (length p.prods) max_proc
    then (with_prods p (start_child fork p.prods), true)
    else if str_eq cmd (codes "c") && ltb (length p.cons) max_proc
    then (with_cons p (start_child fork p.cons), true)
    else if str_eq cmd (codes "kpl")
    then (with_prods p (kill_last p.prods), true)
    else if str_eq cmd (codes "kcl")
    then (with_cons p (kill_last p.cons), true)
    else if str_eq cmd (codes "q")
    then (p, false)
    else (p, true)

-- The loop of `main`, over the words that `scanf` reads, each with the result of `fork` if it comes
-- to one. The list ends with the input or when the flag is down.
pub run_commands : List (List ℕ × Option ℕ) → Parent → Parent
unfolding run_command
run_commands [] p = p
run_commands ((cmd, fork) ∷ input) p =
    let (p', goes_on) = run_command fork cmd p in
    let later = run_commands input p' in if goes_on then later else p'

-- The last two loops of `main`, after what is in `log`; `exists` is whether `kill (pid, 0)` finds a
-- process then.
pub force_kill : (exists : List Event → ℕ → Bool) → List ℕ → List Event → List Event
force_kill exists [] log = log
force_kill exists (pid ∷ pids) log =
    let killed = force_kill exists pids (log ++ sent_kill pid ∷ waited pid ∷ []) in
    let passed = force_kill exists pids log in if exists log pid then killed else passed

pub shutdown : (exists : List Event → ℕ → Bool) → Parent → List Event
unfolding force_kill
shutdown exists p =
    let told = p.log ++ (map sent_term p.prods ++ map sent_term p.cons) in
    force_kill exists p.cons (force_kill exists p.prods told)

-- What `main` does to its children.
pub run_parent : (exists : List Event → ℕ → Bool) → List (List ℕ × Option ℕ) → List Event
unfolding run_commands shutdown
run_parent exists input =
    shutdown exists (run_commands input (record { prods = []; cons = []; log = [] }))
