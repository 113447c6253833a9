-- ===== src/Semaphores/Progress.antt =====
-- Deadlock in LAB_4: whether some process can take a step.
use os_sp.Prelude.{
  ◌+◌, ◌≡◌, ◌⊎◌, inl, inr, refl, sym, subst, ◌-◌, Bool, true, false, List, [], ◌∷◌, ◌++◌, arith,
  total, All, All-middle, All-replace, dec_lt,
}
use os_sp.Message.{Message}
use os_sp.Semaphores.{
  Shared, Role, producer, consumer, Place, looping, waiting_slot, checking, waiting_mutex, inside,
  unlocking, signalling, finished, Process, process, slots, take_slot, give_slot, move, Act, begins,
  leaves, gets_slot, slot_interrupted, goes_on, breaks, gets_mutex, mutex_interrupted, moves,
  unlocks, signals, System, acts, forks, Reachable, starts, continues,
}
use os_sp.Semaphores.Invariant.{holding, reserved, unannounced}
use os_sp.Semaphores.Safety.{IsRunning, Reachable-Safe}

abbrev is_finished : Place → Bool
is_finished finished = true
is_finished _ = false

abbrev IsGoing : Process → Type 0
IsGoing p = is_finished p.place ≡ false

Act-IsGoing : (g g' : Shared) (p p' : Process) → Act g p g' p' → IsRunning p → IsGoing p'
Act-IsGoing g _ _ _ (begins _ r m m') e = refl
Act-IsGoing g _ _ _ (leaves _ r m) e = absurd (ground arith)
Act-IsGoing g _ _ _ (gets_slot _ r f m p) e = refl
Act-IsGoing g _ _ _ (slot_interrupted _ r m blocks) e = absurd (ground arith)
Act-IsGoing g _ _ _ (goes_on _ r m) e = refl
Act-IsGoing g _ _ _ (breaks _ r m) e = absurd (ground arith)
Act-IsGoing g _ _ _ (gets_mutex _ r f m p) e = refl
Act-IsGoing g _ _ _ (mutex_interrupted _ r m blocks) e = absurd (ground arith)
Act-IsGoing g _ _ _ (moves _ r f m) e = refl
Act-IsGoing g _ _ _ (unlocks _ r f m) e = refl
Act-IsGoing g _ _ _ (signals _ r f m) e = refl

Reachable-IsGoing : (s : System) → Reachable s → All IsGoing s.processes
Reachable-IsGoing _ starts = tt
Reachable-IsGoing _ (continues _ _ r (acts before after g g' p p' a)) =
    All-replace IsGoing before after p p'
      (Reachable-IsGoing (record { shared = g; processes = before ++ p ∷ after }) r)
      (Act-IsGoing g g' p p' a (
        All-middle IsRunning before after p
          (Reachable-Safe (record { shared = g; processes = before ++ p ∷ after }) r).all_running))
Reachable-IsGoing _ (continues _ _ r (forks g ps f m)) =
    (refl, Reachable-IsGoing (record { shared = g; processes = ps }) r)

-- A step that the process can take now.
abbrev CanAct : Shared → Process → Type 0
CanAct g p = (g' : Shared) × (p' : Process) × Act g p g' p'

-- What stops a process: the semaphore that it waits for is zero.
data Stuck (g : Shared) : Process → Type 0 where
  no_slot :
      (r : Role) (f : Bool) (m : Message) → slots r g ≡ 0 → Stuck g (process r f waiting_slot m)
  no_mutex :
      (r : Role) (f : Bool) (m : Message) → g.sem_mutex ≡ 0 → Stuck g (process r f waiting_mutex m)

wait_slot :
    (g : Shared) (r : Role) (m : Message)
    → CanAct g (process r true waiting_slot m) ⊎ Stuck g (process r true waiting_slot m)
wait_slot g r m = elim (dec_lt 0 (slots r g)) [
  | yes p ↦ inl (take_slot r g, process r true checking m, gets_slot g r true m p)
  | no p ↦ inr (no_slot r true m (omega arith))
]

wait_mutex :
    (g : Shared) (r : Role) (m : Message)
    → CanAct g (process r true waiting_mutex m) ⊎ Stuck g (process r true waiting_mutex m)
wait_mutex g r m = elim (dec_lt 0 g.sem_mutex) [
  | yes p ↦
      inl
        (record g { sem_mutex = g.sem_mutex - 1 }, process r true inside m, gets_mutex g r true m p)
  | no p ↦ inr (no_mutex r true m (omega arith))
]

-- By the place of a running process.
at_place :
    (g : Shared) (r : Role) (at : Place) (m : Message)
    → is_finished at ≡ false
    → CanAct g (process r true at m) ⊎ Stuck g (process r true at m)
at_place g r looping m k = inl (g, process r true waiting_slot m, begins g r m m)
at_place g r waiting_slot m k = wait_slot g r m
at_place g r checking m k = inl (g, process r true waiting_mutex m, goes_on g r m)
at_place g r waiting_mutex m k = wait_mutex g r m
at_place g r inside m k =
    inl ((move r m g).1, process r true unlocking (move r m g).0, moves g r true m)
at_place g r unlocking m k =
    inl (record g { sem_mutex = g.sem_mutex + 1 }, process r true signalling m, unlocks g r true m)
at_place g r signalling m k = inl (give_slot r g, process r true looping m, signals g r true m)
at_place g r finished m k = absurd (ground arith)

CanAct-or_Stuck : (g : Shared) (p : Process) → IsRunning p → IsGoing p → CanAct g p ⊎ Stuck g p
CanAct-or_Stuck g p e k =
    subst
      (λ f.
        CanAct g (process p.role f p.place p.message)
        ⊎ Stuck g (process p.role f p.place p.message))
      (sym e) (at_place g p.role p.place p.message k)

-- Some process of the list can take a step, or all wait for semaphores that are zero.
data Search (g : Shared) : List Process → Type 0 where
  found : (before after : List Process) (p : Process) → CanAct g p → Search g (before ++ p ∷ after)
  all_stuck : (ps : List Process) → All (Stuck g) ps → Search g ps

Search-cons :
    (g : Shared) (p : Process) (ps : List Process) → Stuck g p → Search g ps → Search g (p ∷ ps)
Search-cons g p _ s (found before after q c) = found (p ∷ before) after q c
Search-cons g p _ s (all_stuck ps k) = all_stuck (p ∷ ps) (s, k)

Search-all : (g : Shared) (ps : List Process) → All IsRunning ps → All IsGoing ps → Search g ps
Search-all g [] r k = all_stuck [] tt
Search-all g (p ∷ ps) r k = elim (CanAct-or_Stuck g p r.0 k.0) [
  | inl can ↦ found [] ps p can
  | inr stuck ↦ Search-cons g p ps stuck (Search-all g ps r.1 k.1)
]

-- Processes that wait hold nothing.
Stuck-holding : (g : Shared) (p : Process) → Stuck g p → holding p ≡ 0
Stuck-holding g _ (no_slot r f m e) = refl
Stuck-holding g _ (no_mutex r f m e) = refl

total-holding : (g : Shared) (ps : List Process) → All (Stuck g) ps → total holding ps ≡ 0
total-holding g [] k = refl
total-holding g (p ∷ ps) k = omega (arith, Stuck-holding g p k.0, total-holding g ps k.1)

-- With the mutex free, they wait for slots.
data WaitsSlot (g : Shared) : Process → Type 0 where
  waits :
      (r : Role) (f : Bool) (m : Message) → slots r g ≡ 0 → WaitsSlot g (process r f waiting_slot m)

Stuck-WaitsSlot : (g : Shared) (p : Process) → g.sem_mutex ≡ 1 → Stuck g p → WaitsSlot g p
Stuck-WaitsSlot g _ e (no_slot r f m z) = waits r f m z
Stuck-WaitsSlot g _ e (no_mutex r f m z) = absurd (omega arith)

all_wait :
    (g : Shared) (ps : List Process) → g.sem_mutex ≡ 1 → All (Stuck g) ps → All (WaitsSlot g) ps
all_wait g [] e k = tt
all_wait g (p ∷ ps) e k = (Stuck-WaitsSlot g p e k.0, all_wait g ps e k.1)

WaitsSlot-nothing :
    (g : Shared) (p : Process) → WaitsSlot g p → (reserved p ≡ 0) × (unannounced p ≡ 0)
WaitsSlot-nothing g _ (waits producer f m e) = (refl, refl)
WaitsSlot-nothing g _ (waits consumer f m e) = (refl, refl)

totals_zero :
    (g : Shared) (ps : List Process)
    → All (WaitsSlot g) ps
    → (total reserved ps ≡ 0) × (total unannounced ps ≡ 0)
totals_zero g [] k = (refl, refl)
totals_zero g (p ∷ ps) k =
    let here = WaitsSlot-nothing g p k.0 in
    let rest = totals_zero g ps k.1 in
    (omega (arith, here.0, rest.0), omega (arith, here.1, rest.1))

abbrev pub HasRole : Role → List Process → Type 0
HasRole r [] = ⊥
HasRole r (p ∷ ps) = (p.role ≡ r) ⊎ HasRole r ps

WaitsSlot-role : (g : Shared) (p : Process) → WaitsSlot g p → slots p.role g ≡ 0
WaitsSlot-role g _ (waits r f m e) = e

role_slots :
    (g : Shared) (r : Role) (ps : List Process)
    → All (WaitsSlot g) ps
    → HasRole r ps
    → slots r g ≡ 0
role_slots g r [] k h = absurd h
role_slots g r (p ∷ ps) k (inl e) = subst (λ r. slots r g ≡ 0) e (WaitsSlot-role g p k.0)
role_slots g r (p ∷ ps) k (inr h) = role_slots g r ps k.1 h

-- A step that one of the processes takes.
abbrev pub Moves : System → Type 0
Moves s =
    (before : List Process) × (after : List Process) × (p : Process) × (p' : Process)
    × (g' : Shared) × (s.processes ≡ before ++ p ∷ after)
    × Act s.shared p g' p'

Moves-Search :
    (g : Shared) (ps : List Process)
    → Search g ps
    → (All (Stuck g) ps → ⊥)
    → Moves (record { shared = g; processes = ps })
Moves-Search g _ (found before after p (g', p', a)) k = (before, after, p, p', g', refl, a)
Moves-Search g _ (all_stuck ps s) k = absurd (k s)

-- While no signal has arrived, the processes do not deadlock: if there are a producer and a
-- consumer, then some process can take a step.
pub Reachable-Moves :
    (s : System)
    → Reachable s
    → HasRole producer s.processes
    → HasRole consumer s.processes
    → Moves s
Reachable-Moves s r p c =
    let v = Reachable-Safe s r in
    let g = s.shared in
    let ps = s.processes in
    Moves-Search g ps (Search-all g ps v.all_running (Reachable-IsGoing s r)) (λ stuck.
      let free : g.sem_mutex ≡ 1 = omega (arith, v.balanced.mutex, total-holding g ps stuck) in
      let waiting = all_wait g ps free stuck in
      let nothing = totals_zero g ps waiting in
      omega (
        arith,
        v.balanced.room,
        v.balanced.filled,
        nothing.0,
        nothing.1,
        role_slots g producer ps waiting p,
        role_slots g consumer ps waiting c,
      ))
