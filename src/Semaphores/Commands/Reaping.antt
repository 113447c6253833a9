-- ===== src/Semaphores/Commands/Reaping.antt =====
-- LAB_4/src/parent.c: the processes that the parent forks, and those that it waits for.
use os_sp.Prelude.{
  ℕ, ◌+◌, ◌<◌, ◌≡◌, ◌∙◌, refl, Bool, true, false, ◌&&◌, Option, none, some, List, [], ◌∷◌, ◌++◌,
  map, ltb, length, ◌==◌, if◌then◌else◌, if-holds, arith, bit, total, total-append, total-map,
  total-zero,
}
use os_sp.Prelude.Text.{codes, str_eq}
use os_sp.Semaphores.Commands.{
  max_proc, Event, forked, sent_term, sent_kill, waited, Parent, kill_last, start_child, with_prods,
  with_cons, run_command, run_commands, force_kill, shutdown, run_parent,
}

abbrev is : ℕ → ℕ → ℕ
is x pid = bit (pid == x)

-- How often a process is forked and waited for.
abbrev forked_of : ℕ → Event → ℕ
forked_of x (forked pid) = is x pid
forked_of x _ = 0

abbrev waited_of : ℕ → Event → ℕ
waited_of x (waited pid) = is x pid
waited_of x _ = 0

abbrev pub times_forked : ℕ → List Event → ℕ
times_forked x log = total (forked_of x) log

abbrev pub times_waited : ℕ → List Event → ℕ
times_waited x log = total (waited_of x) log

-- The children that are not waited for yet are in the arrays.
Counted : ℕ → Parent → Type 0
Counted x p =
    times_waited x p.log + (total (is x) p.prods + total (is x) p.cons) ≡ times_forked x p.log

-- What a change of one array does to it.
Keeps : ℕ → List ℕ → List ℕ × List Event → Type 0
Keeps x pids r = times_waited x r.1 + total (is x) r.0 ≡ times_forked x r.1 + total (is x) pids

kill_last-Keeps : (x : ℕ) (pids : List ℕ) → Keeps x pids (kill_last pids)
unfolding kill_last Keeps
kill_last-Keeps x [] = refl
kill_last-Keeps x (pid ∷ []) = omega arith
kill_last-Keeps x (first ∷ pid ∷ pids) = omega (arith, kill_last-Keeps x (pid ∷ pids))

start_child-Keeps : (x : ℕ) (fork : Option ℕ) (pids : List ℕ) → Keeps x pids (start_child fork pids)
unfolding Keeps
start_child-Keeps x none pids = refl
start_child-Keeps x (some pid) pids = omega (arith, total-append (is x) pids (pid ∷ []))

with_prods-Counted :
    (x : ℕ) (p : Parent) (r : List ℕ × List Event)
    → Counted x p
    → Keeps x p.prods r
    → Counted x (with_prods p r)
unfolding Counted Keeps
with_prods-Counted x p r c k =
    omega (arith, c, k, total-append (waited_of x) p.log r.1, total-append (forked_of x) p.log r.1)

with_cons-Counted :
    (x : ℕ) (p : Parent) (r : List ℕ × List Event)
    → Counted x p
    → Keeps x p.cons r
    → Counted x (with_cons p r)
unfolding Counted Keeps
with_cons-Counted x p r c k =
    omega (arith, c, k, total-append (waited_of x) p.log r.1, total-append (forked_of x) p.log r.1)

run_command-Counted :
    (x : ℕ) (fork : Option ℕ) (cmd : List ℕ) (p : Parent)
    → Counted x p
    → Counted x (run_command fork cmd p).0
unfolding run_command
run_command-Counted x fork cmd p c =
    let P : Parent × Bool → Type 0 = λ r. Counted x r.0 in
    let quits = if str_eq cmd (codes "q") then (p, false) else (p, true) in
    let kills_consumer =
      if str_eq cmd (codes "kcl") then (with_cons p (kill_last p.cons), true) else quits in
    let kills_producer =
      if str_eq cmd (codes "kpl")
      then (with_prods p (kill_last p.prods), true)
      else kills_consumer in
    let starts_consumer =
      if str_eq cmd (codes "c") && ltb (length p.cons) max_proc
      then (with_cons p (start_child fork p.cons), true)
      else kills_producer in
    if-holds P (str_eq cmd (codes "p") && ltb (length p.prods) max_proc)
      (with_prods p (start_child fork p.prods), true) starts_consumer
      (λ _. with_prods-Counted x p (start_child fork p.prods) c (start_child-Keeps x fork p.prods))
      (λ _.
        if-holds P (str_eq cmd (codes "c") && ltb (length p.cons) max_proc)
          (with_cons p (start_child fork p.cons), true) kills_producer
          (λ _. with_cons-Counted x p (start_child fork p.cons) c (start_child-Keeps x fork p.cons))
          (λ _.
            if-holds P (str_eq cmd (codes "kpl")) (with_prods p (kill_last p.prods), true)
              kills_consumer
              (λ _. with_prods-Counted x p (kill_last p.prods) c (kill_last-Keeps x p.prods))
              (λ _.
                if-holds P (str_eq cmd (codes "kcl")) (with_cons p (kill_last p.cons), true) quits
                  (λ _. with_cons-Counted x p (kill_last p.cons) c (kill_last-Keeps x p.cons))
                  (λ _.
                    if-holds P (str_eq cmd (codes "q")) (p, false) (p, true) (λ _. c) (λ _. c)))))

run_commands-Counted :
    (x : ℕ) (input : List (List ℕ × Option ℕ)) (p : Parent)
    → Counted x p
    → Counted x (run_commands input p)
unfolding run_commands
run_commands-Counted x [] p c = c
run_commands-Counted x ((cmd, fork) ∷ input) p c =
    let (p', goes_on) = run_command fork cmd p in
    let c' = run_command-Counted x fork cmd p c in
    if-holds (Counted x) goes_on (run_commands input p') p'
      (λ _. run_commands-Counted x input p' c') (λ _. c')

-- The children that are not waited for yet are in the lists.
Pending : List Event → List ℕ → List ℕ → Type 0
Pending log pids more =
    (x : ℕ) → times_waited x log + (total (is x) pids + total (is x) more) ≡ times_forked x log

-- What the kernel promises of `kill (pid, 0)`: a child that was not waited for is found, also when
-- it has ended.
unfoldable pub FindsChildren : (exists : List Event → ℕ → Bool) → Type 0
FindsChildren exists =
    (log : List Event) (pid : ℕ)
    → times_waited pid log < times_forked pid log
    → exists log pid ≡ true

force_kill-Pending :
    (exists : List Event → ℕ → Bool) (pids more : List ℕ) (log : List Event)
    → FindsChildren exists
    → Pending log pids more
    → Pending (force_kill exists pids log) [] more
unfolding force_kill Pending FindsChildren
force_kill-Pending exists [] more log finds h = h
force_kill-Pending exists (pid ∷ pids) more log finds h =
    let self : is pid pid ≡ 1 = ground arith in
    let ends = sent_kill pid ∷ waited pid ∷ [] in
    rw (finds log pid (omega (arith, h pid, self))) (
      force_kill-Pending exists pids more (log ++ ends) finds (λ x.
        omega
          (arith, h x, total-append (waited_of x) log ends, total-append (forked_of x) log ends)))

total-terms :
    (f : Event → ℕ) (pids : List ℕ)
    → ((pid : ℕ) → f (sent_term pid) ≡ 0)
    → total f (map sent_term pids) ≡ 0
total-terms f pids no_term =
    total-map f sent_term pids ∙ total-zero (λ pid. f (sent_term pid)) pids no_term

-- The signals of the shutdown, for a count in which `SIGTERM` does not matter.
told-total :
    (f : Event → ℕ) (p : Parent)
    → ((pid : ℕ) → f (sent_term pid) ≡ 0)
    → total f (p.log ++ (map sent_term p.prods ++ map sent_term p.cons)) ≡ total f p.log
told-total f p no_term = omega (
  arith,
  total-append f p.log (map sent_term p.prods ++ map sent_term p.cons),
  total-append f (map sent_term p.prods) (map sent_term p.cons),
  total-terms f p.prods no_term,
  total-terms f p.cons no_term,
)

-- If `kill (pid, 0)` finds a child whenever it was not waited for yet, then through the commands and
-- the shutdown the parent waits for each process as often as it has forked it.
pub run_parent-waits :
    (x : ℕ) (exists : List Event → ℕ → Bool) (input : List (List ℕ × Option ℕ))
    → FindsChildren exists
    → times_waited x (run_parent exists input) ≡ times_forked x (run_parent exists input)
unfolding run_parent shutdown Counted Pending
run_parent-waits x exists input finds =
    let nothing : Parent = record { prods = []; cons = []; log = [] } in
    let p = run_commands input nothing in
    let told = p.log ++ (map sent_term p.prods ++ map sent_term p.cons) in
    let start : Pending told p.prods p.cons = λ y. omega (
      arith,
      run_commands-Counted y input nothing refl,
      told-total (waited_of y) p (λ pid. refl),
      told-total (forked_of y) p (λ pid. refl),
    ) in
    let first = force_kill-Pending exists p.prods p.cons told finds start in
    let log = force_kill exists p.prods told in
    let last = force_kill-Pending exists p.cons [] log finds (λ y. omega (arith, first y)) in
    omega (arith, last x)
