-- ===== src/Semaphores/Tests.antt =====
-- A producer of LAB_4 that is inside its critical section.
use os_sp.Prelude.{refl, inl, inr, ◌+◌, ◌-◌, ◌≤◌, ◌≡◌, true, [], ◌∷◌, arith, total}
use os_sp.Queue.{empty_message}
use os_sp.Prelude.{ℕ, Bool, ltb, List, Option, none, some}
use os_sp.Prelude.Text.{codes}
use os_sp.Semaphores.Commands.{Event, run_parent}
use os_sp.Semaphores.Commands.Reaping.{times_forked, times_waited, FindsChildren, run_parent-waits}
use os_sp.Semaphores.{
  queue_size, Shared, init_semaphores, producer, consumer, Place, looping, waiting_slot, checking,
  waiting_mutex, inside, Process, process, take_slot, begins, goes_on, gets_slot, gets_mutex,
  System, acts, forks, Reachable, starts, continues, Act,
}
use os_sp.Semaphores.Invariant.{holding, reserved, IsValid}
use os_sp.Semaphores.Progress.{Moves, Reachable-Moves}
use os_sp.Semaphores.Safety.{Reachable-exclusive, Moved, Reachable-Moved}

abbrev one : Place → Process
one at = process producer true at empty_message

abbrev state : Shared → Place → System
state g at = record { shared = g; processes = one at ∷ [] }

abbrev with_slot : Shared
with_slot = take_slot producer init_semaphores

abbrev with_mutex : Shared
with_mutex = record with_slot { sem_mutex = with_slot.sem_mutex - 1 }

next :
    (g g' : Shared) (at at' : Place)
    → Reachable (state g at)
    → Act g (one at) g' (one at')
    → Reachable (state g' at')
next g g' at at' r a =
    continues (state g at) (state g' at') r (acts [] [] g g' (one at) (one at') a)

inside_reached : Reachable (state with_mutex inside)
unfolding init_semaphores
inside_reached =
    next with_slot with_mutex waiting_mutex inside
      (next with_slot with_slot checking waiting_mutex
        (next init_semaphores with_slot waiting_slot checking
          (next init_semaphores init_semaphores looping waiting_slot
            (continues (record { shared = init_semaphores; processes = [] })
              (state init_semaphores looping) starts
              (forks init_semaphores [] producer empty_message))
            (begins init_semaphores producer empty_message empty_message))
          (gets_slot init_semaphores producer true empty_message (omega arith)))
        (goes_on with_slot producer empty_message))
      (gets_mutex with_slot producer true empty_message (omega arith))

Reachable-exclusive_example :
    (total holding (one inside ∷ []) ≤ 1)
    × IsValid with_mutex.queue
    × (with_mutex.sem_empty + total reserved (one inside ∷ []) + with_mutex.queue.current_load
        ≡ queue_size)
Reachable-exclusive_example = Reachable-exclusive (state with_mutex inside) inside_reached

Reachable-Moved_example : Moved producer empty_message with_mutex
Reachable-Moved_example =
    Reachable-Moved with_mutex [] [] producer true empty_message inside_reached

-- A second producer comes to the mutex while the first is inside.
abbrev beside : Shared → Place → System
beside g at = record { shared = g; processes = one at ∷ one inside ∷ [] }

abbrev two_slots : Shared
two_slots = take_slot producer with_mutex

-- One producer and one consumer, both just started.
abbrev pair : System
pair = record {
  shared = init_semaphores;
  processes =
      process consumer true looping empty_message
      ∷ process producer true looping empty_message
      ∷ [];
}

pair_reached : Reachable pair
pair_reached =
    continues (state init_semaphores looping) pair
      (continues (record { shared = init_semaphores; processes = [] })
        (state init_semaphores looping) starts (forks init_semaphores [] producer empty_message))
      (forks init_semaphores (one looping ∷ []) consumer empty_message)

Reachable-Moves_example : Moves pair
Reachable-Moves_example = Reachable-Moves pair pair_reached (inr (inl refl)) (inl refl)

-- Two producers and a consumer are started, a third fork fails, and a producer is killed.
abbrev input : List (List ℕ × Option ℕ)
input =
    (codes "p", some 101)
    ∷ (codes "c", some 102)
    ∷ (codes "p", some 103)
    ∷ (codes "p", none)
    ∷ (codes "kpl", none)
    ∷ (codes "q", none)
    ∷ []

-- A process is found from its fork on until it is waited for.
abbrev still_there : List Event → ℕ → Bool
still_there log pid = ltb (times_waited pid log) (times_forked pid log)

still_there-FindsChildren : FindsChildren still_there
unfolding FindsChildren
still_there-FindsChildren log pid h = ground (arith, h)

run_parent-waits_example :
    times_waited 103 (run_parent still_there input)
    ≡ times_forked 103 (run_parent still_there input)
run_parent-waits_example = run_parent-waits 103 still_there input still_there-FindsChildren
