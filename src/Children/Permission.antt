-- ===== src/Children/Permission.antt =====
-- LAB_3: a child prints a report only for a cycle that it has completed and with a `SIGUSR2` that
-- the parent has sent to it.
use os_sp.Prelude.{
  bit, bit_le, ℕ, ◌+◌, ◌≤◌, ◌≡◌, ◌⊎◌, inl, inr, ap, subst, refl, Bool, true, false, Option, List,
  ◌∷◌, ◌++◌, ◌==◌, if-holds, arith, All, All-middle, All-replace, All-map, All-weaken,
}
use os_sp.Children.Wake.{wake_keeps}
use os_sp.Children.{
  Parent, ParentStep, sees_sigint, grants, resets, grants_none, gets_no_command, creates,
  gets_removal, has_none, deletes, reaps, handles_usr1, handles_int, Family, child_acts,
  parent_acts, Runs, stays, goes, start, max_cycles, ChildPlace, testing, collected, asking,
  clearing, waiting, before_pause, pausing, reporting, finished, Child, ChildStep, begins_cycle,
  leaves_loop, completes, breaks_off, asks, ask_fails, clears, must_wait, pauses, goes_on, reports,
  handles_usr2, handles_term, wake, new_child, get_usr2, get_term,
}

-- 1 for a `can_print` that the child has not used and will not clear.
abbrev leave : ChildPlace → Bool → ℕ
leave waiting b = bit b
leave before_pause b = bit b
leave pausing b = bit b
leave reporting b = bit b
leave _ b = 0

-- 1 for a cycle that is completed and not printed.
abbrev busy : ChildPlace → ℕ
busy testing = 0
busy collected = 0
busy finished = 0
busy _ = 1

-- 1 for a cycle that is begun and not counted.
abbrev begun : ChildPlace → ℕ
begun collected = 1
begun _ = 0

-- What `goes_on` has seen.
abbrev WentOn : ChildPlace → Bool → Bool → Type 0
WentOn reporting leave_given ended = (leave_given ≡ true) ⊎ (ended ≡ true)
WentOn _ _ _ = Unit

record Allowed (c : Child) : Type 0 where
  by_grants : c.printed + (bit c.usr2 + leave c.place c.can_print) ≤ c.granted
  by_cycles : c.printed + busy c.place ≤ c.cycles_completed
  in_bound : c.cycles_completed + begun c.place ≤ max_cycles
  went_on : WentOn c.place c.can_print c.terminate_child

leave_le : (at : ChildPlace) (b : Bool) → leave at b ≤ 1
leave_le testing b = omega arith
leave_le collected b = omega arith
leave_le asking b = omega arith
leave_le clearing b = omega arith
leave_le waiting b = bit_le b
leave_le before_pause b = bit_le b
leave_le pausing b = bit_le b
leave_le reporting b = bit_le b
leave_le finished b = omega arith

-- The child that waited for leave still has it when it prints.
WentOn-bit : (given ended : Bool) → WentOn reporting given ended → ended ≡ false → bit given ≡ 1
WentOn-bit true ended w go = refl
WentOn-bit false true w go = absurd (ground arith)
WentOn-bit false false (inl e) go = absurd (ground arith)
WentOn-bit false false (inr e) go = absurd (ground arith)

-- `WentOn` at every place, once one of the flags is up.
WentOn-set :
    (at : ChildPlace) (given ended : Bool) → (given ≡ true) ⊎ (ended ≡ true) → WentOn at given ended
WentOn-set testing given ended w = tt
WentOn-set collected given ended w = tt
WentOn-set asking given ended w = tt
WentOn-set clearing given ended w = tt
WentOn-set waiting given ended w = tt
WentOn-set before_pause given ended w = tt
WentOn-set pausing given ended w = tt
WentOn-set reporting given ended w = w
WentOn-set finished given ended w = tt

-- A place with the same sums and no demand on the flags.
go_to :
    (c : Child) (at : ChildPlace)
    → leave at c.can_print ≤ leave c.place c.can_print
    → busy at ≤ busy c.place
    → begun at ≤ begun c.place
    → WentOn at c.can_print c.terminate_child
    → Allowed c
    → Allowed (record c { place = at })
go_to c at l b n w a = record {
  by_grants = omega (arith, a.by_grants, l);
  by_cycles = omega (arith, a.by_cycles, b);
  in_bound = omega (arith, a.in_bound, n);
  went_on = w;
}

ChildStep-Allowed : (q q' : Option ℕ) (c c' : Child) → ChildStep q c q' c' → Allowed c → Allowed c'
ChildStep-Allowed q _ c _ (begins_cycle _ _ at go more) a = record {
  by_grants = omega (arith, a.by_grants);
  by_cycles = omega (arith, a.by_cycles);
  in_bound = omega (arith, more);
  went_on = tt;
}
ChildStep-Allowed q _ c _ (leaves_loop _ _ at e) a = record {
  by_grants = omega (arith, a.by_grants);
  by_cycles = omega (arith, a.by_cycles);
  in_bound = omega (arith, a.in_bound);
  went_on = tt;
}
ChildStep-Allowed q _ c _ (completes _ _ at go) a = record {
  by_grants = omega (arith, a.by_grants);
  by_cycles = omega (arith, a.by_cycles);
  in_bound = omega (arith, a.in_bound, ap begun at);
  went_on = tt;
}
ChildStep-Allowed q _ c _ (reports _ _ at go) a = record {
  by_grants = omega (
    arith,
    a.by_grants,
    ap (λ at. leave at c.can_print) at,
    WentOn-bit c.can_print c.terminate_child
        (subst (λ at. WentOn at c.can_print c.terminate_child) at a.went_on) go,
  );
  by_cycles = omega (arith, a.by_cycles, ap busy at);
  in_bound = omega (arith, a.in_bound);
  went_on = tt;
}
ChildStep-Allowed q _ c _ (handles_usr2 _ _ at e) a = record {
  by_grants = omega (arith, a.by_grants, ap bit e, leave_le (wake c.place) true);
  by_cycles =
      wake_keeps (λ at. c.printed + busy at ≤ c.cycles_completed) c.place a.by_cycles (λ h. h);
  in_bound =
      wake_keeps (λ at. c.cycles_completed + begun at ≤ max_cycles) c.place a.in_bound (λ h. h);
  went_on =
      wake_keeps (λ at. WentOn at true c.terminate_child) c.place
        (WentOn-set c.place true c.terminate_child (inl refl)) (λ h. h);
}
ChildStep-Allowed q _ c _ (handles_term _ _ at e) a = record {
  by_grants =
      wake_keeps (λ at. c.printed + (bit c.usr2 + leave at c.can_print) ≤ c.granted) c.place
        a.by_grants (λ h. h);
  by_cycles =
      wake_keeps (λ at. c.printed + busy at ≤ c.cycles_completed) c.place a.by_cycles (λ h. h);
  in_bound =
      wake_keeps (λ at. c.cycles_completed + begun at ≤ max_cycles) c.place a.in_bound (λ h. h);
  went_on =
      wake_keeps (λ at. WentOn at c.can_print true) c.place
        (WentOn-set c.place c.can_print true (inr refl)) (λ h. h);
}
ChildStep-Allowed q _ c _ (breaks_off _ _ at e) a =
    go_to c finished (omega arith) (omega arith) (omega arith) tt a
ChildStep-Allowed q _ c _ (asks _ _ at) a =
    go_to c clearing (omega arith) (omega (arith, ap busy at)) (omega arith) tt a
ChildStep-Allowed q _ c _ (ask_fails _ _ at) a =
    go_to c finished (omega arith) (omega arith) (omega arith) tt a
ChildStep-Allowed q _ c _ (clears _ _ at) a = record {
  by_grants = omega (arith, a.by_grants);
  by_cycles = omega (arith, a.by_cycles, ap busy at);
  in_bound = omega (arith, a.in_bound);
  went_on = tt;
}
ChildStep-Allowed q _ c _ (must_wait _ _ at none_given go) a =
    go_to c before_pause (omega (arith, ap (λ at. leave at c.can_print) at))
      (omega (arith, ap busy at)) (omega arith) tt a
ChildStep-Allowed q _ c _ (pauses _ _ at) a =
    go_to c pausing (omega (arith, ap (λ at. leave at c.can_print) at)) (omega (arith, ap busy at))
      (omega arith) tt a
ChildStep-Allowed q _ c _ (goes_on _ _ at why) a =
    go_to c reporting (omega (arith, ap (λ at. leave at c.can_print) at))
      (omega (arith, ap busy at)) (omega arith) why a

-- What the parent does to the children.
granted-Allowed :
    (c : Child) → Allowed c → Allowed (record c { usr2 = true; granted = c.granted + 1 })
granted-Allowed c a = record {
  by_grants = omega (arith, a.by_grants, bit_le c.usr2);
  by_cycles = a.by_cycles;
  in_bound = a.in_bound;
  went_on = a.went_on;
}

get_usr2-Allowed : (pid : ℕ) (c : Child) → Allowed c → Allowed (get_usr2 pid c)
get_usr2-Allowed pid c a =
    if-holds Allowed (c.pid == pid) (record c { usr2 = true; granted = c.granted + 1 }) c
      (λ _. granted-Allowed c a) (λ _. a)

get_term-Allowed : (pid : ℕ) (c : Child) → Allowed c → Allowed (get_term pid c)
get_term-Allowed pid c a =
    if-holds Allowed (c.pid == pid) (record c { term = true }) c
      (λ _. record {
        by_grants = a.by_grants;
        by_cycles = a.by_cycles;
        in_bound = a.in_bound;
        went_on = a.went_on;
      })
      (λ _. a)

new_child-Allowed : (pid : ℕ) → Allowed (new_child pid)
new_child-Allowed pid = record {
  by_grants = omega arith;
  by_cycles = omega arith;
  in_bound = omega arith;
  went_on = tt;
}

ParentStep-Allowed :
    (p p' : Parent) (cs cs' : List Child)
    → ParentStep p cs p' cs'
    → All Allowed cs
    → All Allowed cs'
ParentStep-Allowed p _ cs _ (grants _ _ at quiet ready) h =
    All-map Allowed Allowed (get_usr2 p.ready_to_print_pid) cs
      (get_usr2-Allowed p.ready_to_print_pid) h
ParentStep-Allowed p _ cs _ (creates _ _ pid at room fresh) h = (new_child-Allowed pid, h)
ParentStep-Allowed p _ cs _ (deletes _ _ k pid rest at e) h =
    All-map Allowed Allowed (get_term pid) cs (get_term-Allowed pid) h
ParentStep-Allowed p _ cs _ (sees_sigint _ _ at int) h = h
ParentStep-Allowed p _ cs _ (resets _ _ at) h = h
ParentStep-Allowed p _ cs _ (grants_none _ _ at quiet ready) h = h
ParentStep-Allowed p _ cs _ (gets_no_command _ _ at) h = h
ParentStep-Allowed p _ cs _ (gets_removal _ _ k at) h = h
ParentStep-Allowed p _ cs _ (has_none _ _ k at e) h = h
ParentStep-Allowed p _ cs _ (reaps _ _ k pid at e) h = h
ParentStep-Allowed p _ cs _ (handles_usr1 _ _ pid at e place) h = h
ParentStep-Allowed p _ cs _ (handles_int _ _ at place) h = h

Runs-Allowed : (s t : Family) → Runs s t → All Allowed s.children → All Allowed t.children
Runs-Allowed s _ (stays _) h = h
Runs-Allowed s _ (goes _ _ _ run (child_acts p before after c c' q step)) h =
    let before_step =
      Runs-Allowed s (record { parent = p; children = before ++ c ∷ after }) run h in
    All-replace Allowed before after c c' before_step
      (ChildStep-Allowed p.usr1 q c c' step (All-middle Allowed before after c before_step))
Runs-Allowed s _ (goes _ _ _ run (parent_acts p p' cs cs' step)) h =
    ParentStep-Allowed p p' cs cs' step
      (Runs-Allowed s (record { parent = p; children = cs }) run h)

-- In every run from the start, whatever the order of steps and signals, each child has printed at
-- most as many reports as it was sent `SIGUSR2`, and as it has completed cycles, of which there are
-- at most `MAX_CYCLES`.
pub Runs-permitted :
    (s : Family)
    → Runs start s
    → All
        (λ c.
          (c.printed ≤ c.granted)
          × (c.printed ≤ c.cycles_completed)
          × (c.cycles_completed ≤ max_cycles))
        s.children
Runs-permitted s run =
    All-weaken Allowed
      (λ c.
        (c.printed ≤ c.granted)
        × (c.printed ≤ c.cycles_completed)
        × (c.cycles_completed ≤ max_cycles))
      s.children
      (λ c a. (omega (arith, a.by_grants), omega (arith, a.by_cycles), omega (arith, a.in_bound)))
      (Runs-Allowed start s run tt)
