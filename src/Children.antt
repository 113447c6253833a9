-- ===== src/Children.antt =====
-- LAB_3/src/parent.c and child.c: a parent that forks and deletes children, and children that count
-- random pairs and ask the parent, by signals, for leave to print. The steps of the processes and
-- the delivery of the signals interleave in any order. A standard signal that is pending is not
-- queued again. A process id is taken not to be given twice.
pub mod Wake
pub mod Apart
pub mod Permission
pub mod Lost
pub mod Hung
pub mod Ending
mod Tests
use os_sp.Prelude.{
  ℕ, zero, suc, ◌+◌, ◌%◌, ◌<◌, ◌≤◌, ◌≡◌, ◌≢◌, ◌⊎◌, Bool, true, false, Option, none, some, List, [],
  ◌∷◌, ◌++◌, ◌==◌, if◌then◌else◌, length, All, map,
}

-- `struct stats_data`
pub record StatsData : Type 0 where
  pub s00 : ℕ
  pub s01 : ℕ
  pub s10 : ℕ
  pub s11 : ℕ

-- The `switch` for one number below 4.
abbrev pub count_choice : ℕ → StatsData → StatsData
count_choice zero s = record s { s00 = s.s00 + 1 }
count_choice (suc zero) s = record s { s01 = s.s01 + 1 }
count_choice (suc (suc zero)) s = record s { s10 = s.s10 + 1 }
count_choice (suc (suc (suc zero))) s = record s { s11 = s.s11 + 1 }
count_choice (suc (suc (suc (suc n)))) s = s

-- The loop over `i`, for the rounds that are left: what `rand` returns in each, and if the flag
-- `terminate_child` stands before it.
pub collect : List (ℕ × Bool) → StatsData → StatsData
collect [] s = s
collect ((r, stop) ∷ rounds) s =
    let more = collect rounds (count_choice (r % 4) s) in if stop then s else more

-- `MAX_CHILDREN` and `MAX_CYCLES`
abbrev pub max_children : ℕ
max_children = 100

abbrev pub max_cycles : ℕ
max_cycles = 50

-- Where a child is in `child_main_loop`. From `pausing` only a signal wakes it.
pub data ChildPlace : Type 0 where
  testing collected asking clearing waiting before_pause pausing reporting finished : ChildPlace

-- A child with its two flags, the signals that are pending for it, and two counts that the program
-- does not keep: the reports it has printed, and the times that it was sent `SIGUSR2`.
pub record Child : Type 0 where
  pub pid : ℕ
  pub place : ChildPlace
  pub cycles_completed : ℕ
  pub can_print : Bool
  pub terminate_child : Bool
  pub usr2 : Bool
  pub term : Bool
  pub printed : ℕ
  pub granted : ℕ

abbrev pub new_child : ℕ → Child
new_child pid = record {
  pid = pid;
  place = testing;
  cycles_completed = 0;
  can_print = false;
  terminate_child = false;
  usr2 = false;
  term = false;
  printed = 0;
  granted = 0;
}

-- A handler that has run ends `pause`.
abbrev pub wake : ChildPlace → ChildPlace
wake pausing = waiting
wake at = at

-- `kill (getppid (), SIGUSR1)`, for the `SIGUSR1` that is pending at the parent, by its sender.
abbrev pub ask : Option ℕ → ℕ → Option ℕ
ask none pid = some pid
ask (some q) pid = some q

-- One step of a child, with the parent's pending `SIGUSR1`.
pub data ChildStep : Option ℕ → Child → Option ℕ → Child → Type 0 where
  begins_cycle :
      (q : Option ℕ) (c : Child)
      → c.place ≡ testing
      → c.terminate_child ≡ false
      → c.cycles_completed < max_cycles
      → ChildStep q c q (record c { place = collected })
  leaves_loop :
      (q : Option ℕ) (c : Child)
      → c.place ≡ testing
      → (c.terminate_child ≡ true) ⊎ (max_cycles ≤ c.cycles_completed)
      → ChildStep q c q (record c { place = finished })
  completes :
      (q : Option ℕ) (c : Child)
      → c.place ≡ collected
      → c.terminate_child ≡ false
      → ChildStep q c q (record c { place = asking; cycles_completed = c.cycles_completed + 1 })
  breaks_off :
      (q : Option ℕ) (c : Child)
      → (c.place ≡ collected) ⊎ (c.place ≡ reporting)
      → c.terminate_child ≡ true
      → ChildStep q c q (record c { place = finished })
  asks :
      (q : Option ℕ) (c : Child)
      → c.place ≡ asking
      → ChildStep q c (ask q c.pid) (record c { place = clearing })
  ask_fails :
      (q : Option ℕ) (c : Child)
      → c.place ≡ asking
      → ChildStep q c q (record c { place = finished })
  clears :
      (q : Option ℕ) (c : Child)
      → c.place ≡ clearing
      → ChildStep q c q (record c { place = waiting; can_print = false })
  must_wait :
      (q : Option ℕ) (c : Child)
      → c.place ≡ waiting
      → c.can_print ≡ false
      → c.terminate_child ≡ false
      → ChildStep q c q (record c { place = before_pause })
  pauses :
      (q : Option ℕ) (c : Child)
      → c.place ≡ before_pause
      → ChildStep q c q (record c { place = pausing })
  goes_on :
      (q : Option ℕ) (c : Child)
      → c.place ≡ waiting
      → (c.can_print ≡ true) ⊎ (c.terminate_child ≡ true)
      → ChildStep q c q (record c { place = reporting })
  reports :
      (q : Option ℕ) (c : Child)
      → c.place ≡ reporting
      → c.terminate_child ≡ false
      → ChildStep q c q (record c { place = testing; printed = c.printed + 1 })
  handles_usr2 :
      (q : Option ℕ) (c : Child)
      → c.place ≢ finished
      → c.usr2 ≡ true
      → ChildStep q c q (record c { place = wake c.place; usr2 = false; can_print = true })
  handles_term :
      (q : Option ℕ) (c : Child)
      → c.place ≢ finished
      → c.term ≡ true
      → ChildStep q c q (record c { place = wake c.place; term = false; terminate_child = true })

-- `kill (pid, SIGUSR2)` and `kill (pid, SIGTERM)`
abbrev pub get_usr2 : ℕ → Child → Child
get_usr2 pid c = if c.pid == pid then record c { usr2 = true; granted = c.granted + 1 } else c

abbrev pub get_term : ℕ → Child → Child
get_term pid c = if c.pid == pid then record c { term = true } else c

-- What comes after `delete_last_child`: the loop of `main` (`once`), the loop of
-- `kill_all_children` (`all`), or that loop and `exit` (`all_and_exit`).
pub data Removal : Type 0 where
  once all all_and_exit : Removal

-- Where the parent is in `main`.
pub data ParentPlace : Type 0 where
  checking : ParentPlace
  resetting : ParentPlace
  selecting : ParentPlace
  removing : Removal → ParentPlace
  reaping : Removal → ℕ → ParentPlace
  exited : ParentPlace

-- `child_pids` has the first `child_count` entries of the array, the newest first. `usr1` is the
-- sender of the pending `SIGUSR1`.
pub record Parent : Type 0 where
  pub place : ParentPlace
  pub child_pids : List ℕ
  pub ready_to_print_pid : ℕ
  pub got_sigint : Bool
  pub usr1 : Option ℕ

abbrev pub after_removal : Removal → ParentPlace
after_removal once = checking
after_removal all = checking
after_removal all_and_exit = exited

abbrev pub next_removal : Removal → ParentPlace
next_removal once = checking
next_removal k = removing k

-- A handler that has run ends `waitpid`, since the handlers are set without `SA_RESTART`.
abbrev pub end_wait : ParentPlace → ParentPlace
end_wait (reaping k pid) = next_removal k
end_wait at = at

abbrev pub IsFresh : ℕ → List Child → Type 0
IsFresh pid cs = (0 < pid) × All (λ c. c.pid ≢ pid) cs

-- One step of the parent, with the children.
pub data ParentStep : Parent → List Child → Parent → List Child → Type 0 where
  sees_sigint :
      (p : Parent) (cs : List Child)
      → p.place ≡ checking
      → p.got_sigint ≡ true
      → ParentStep p cs (record p { place = removing all_and_exit }) cs
  grants :
      (p : Parent) (cs : List Child)
      → p.place ≡ checking
      → p.got_sigint ≡ false
      → p.ready_to_print_pid ≢ 0
      → ParentStep p cs (record p { place = resetting }) (map (get_usr2 p.ready_to_print_pid) cs)
  resets :
      (p : Parent) (cs : List Child)
      → p.place ≡ resetting
      → ParentStep p cs (record p { place = selecting; ready_to_print_pid = 0 }) cs
  grants_none :
      (p : Parent) (cs : List Child)
      → p.place ≡ checking
      → p.got_sigint ≡ false
      → p.ready_to_print_pid ≡ 0
      → ParentStep p cs (record p { place = selecting }) cs
  gets_no_command :
      (p : Parent) (cs : List Child)
      → p.place ≡ selecting
      → ParentStep p cs (record p { place = checking }) cs
  creates :
      (p : Parent) (cs : List Child) (pid : ℕ)
      → p.place ≡ selecting
      → length p.child_pids < max_children
      → IsFresh pid cs
      → ParentStep p cs
          (record p { place = checking; child_pids = pid ∷ p.child_pids })
          (new_child pid ∷ cs)
  gets_removal :
      (p : Parent) (cs : List Child) (k : Removal)
      → p.place ≡ selecting
      → ParentStep p cs (record p { place = removing k }) cs
  has_none :
      (p : Parent) (cs : List Child) (k : Removal)
      → p.place ≡ removing k
      → p.child_pids ≡ []
      → ParentStep p cs (record p { place = after_removal k }) cs
  deletes :
      (p : Parent) (cs : List Child) (k : Removal) (pid : ℕ) (rest : List ℕ)
      → p.place ≡ removing k
      → p.child_pids ≡ pid ∷ rest
      → ParentStep p cs
          (record p { place = reaping k pid; child_pids = rest })
          (map (get_term pid) cs)
  reaps :
      (p : Parent) (cs : List Child) (k : Removal) (pid : ℕ)
      → p.place ≡ reaping k pid
      → All (λ c. (c.pid ≡ pid) → c.place ≡ finished) cs
      → ParentStep p cs (record p { place = next_removal k }) cs
  handles_usr1 :
      (p : Parent) (cs : List Child) (pid : ℕ) (at : ParentPlace)
      → p.usr1 ≡ some pid
      → (at ≡ p.place) ⊎ (at ≡ end_wait p.place)
      → ParentStep p cs (record p { place = at; usr1 = none; ready_to_print_pid = pid }) cs
  handles_int :
      (p : Parent) (cs : List Child) (at : ParentPlace)
      → (at ≡ p.place) ⊎ (at ≡ end_wait p.place)
      → ParentStep p cs (record p { place = at; got_sigint = true }) cs

pub record Family : Type 0 where
  pub parent : Parent
  pub children : List Child

pub data Step : Family → Family → Type 0 where
  child_acts :
      (p : Parent) (before after : List Child) (c c' : Child) (q : Option ℕ)
      → ChildStep p.usr1 c q c'
      → Step
          (record { parent = p; children = before ++ c ∷ after })
          (record { parent = record p { usr1 = q }; children = before ++ c' ∷ after })
  parent_acts :
      (p p' : Parent) (cs cs' : List Child)
      → ParentStep p cs p' cs'
      → Step (record { parent = p; children = cs }) (record { parent = p'; children = cs' })

pub data Runs : Family → Family → Type 0 where
  stays : (s : Family) → Runs s s
  goes : (s t u : Family) → Runs s t → Step t u → Runs s u

abbrev pub start : Family
start = record {
  parent = record {
    place = checking;
    child_pids = [];
    ready_to_print_pid = 0;
    got_sigint = false;
    usr1 = none;
  };
  children = [];
}
