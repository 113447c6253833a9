-- ===== src/Semaphores/Safety.antt =====
-- The reachable states of LAB_4: mutual exclusion, and the bounds of the queue.
use os_sp.Prelude.{
  ℕ, ◌+◌, ◌<◌, ◌≤◌, ◌≡◌, ◌∙◌, refl, ap, tabulate, Bool, true, List, [], ◌∷◌, ◌++◌, arith, total,
  total-middle, All, All-middle, All-replace,
}
use os_sp.Message.{Message}
use os_sp.Semaphores.{
  queue_size, SharedQueue, queue_push, queue_pop, move, Shared, init_semaphores, Role, producer,
  consumer, inside, Process, process, System, Step, acts, forks, Signal, Reachable, starts,
  continues,
}
use os_sp.Queue
use os_sp.Queue.Invariant
use os_sp.Queue.Invariant.{pushed, popped}
use os_sp.Queue.Contents.{contents, slot, oldest, contents-pushed, contents-popped}
use os_sp.Semaphores.Steps.{Act-Around}
use os_sp.Semaphores.Invariant.{holding, reserved, unannounced, IsValid, Balanced, Around}

abbrev pub IsRunning : Process → Type 0
IsRunning p = p.running ≡ true

-- The sums over all processes.
abbrev pub AllBalanced : Shared → List Process → Type 0
AllBalanced g ps = Balanced g (total holding ps) (total reserved ps) (total unannounced ps)

-- The same, with one process set apart.
abbrev AroundMiddle : Shared → Process → (before after : List Process) → Type 0
AroundMiddle g p before after =
    Around g p (total holding before + total holding after)
      (total reserved before + total reserved after)
      (total unannounced before + total unannounced after)

AllBalanced-AroundMiddle :
    (g : Shared) (p : Process) (before after : List Process)
    → AllBalanced g (before ++ p ∷ after)
    → AroundMiddle g p before after
AllBalanced-AroundMiddle g p before after b =
    rw
      (
        ← total-middle holding before after p,
        ← total-middle reserved before after p,
        ← total-middle unannounced before after p,
      )
      b

AroundMiddle-AllBalanced :
    (g : Shared) (p : Process) (before after : List Process)
    → AroundMiddle g p before after
    → AllBalanced g (before ++ p ∷ after)
AroundMiddle-AllBalanced g p before after b =
    rw
      (
        total-middle holding before after p,
        total-middle reserved before after p,
        total-middle unannounced before after p,
      )
      b

-- All processes run, and the semaphores balance.
pub record Safe (s : System) : Type 0 where
  pub all_running : All IsRunning s.processes
  pub balanced : AllBalanced s.shared s.processes

Step-Safe : (s s' : System) → Step s s' → Safe s → Safe s'
Step-Safe _ _ (acts before after g g' p p' a) v =
    let (e, next) =
      Act-Around g g' p p' (total holding before + total holding after)
        (total reserved before + total reserved after)
        (total unannounced before + total unannounced after) a
        (All-middle IsRunning before after p v.all_running)
        (AllBalanced-AroundMiddle g p before after v.balanced) in
    record {
      all_running = All-replace IsRunning before after p p' v.all_running e;
      balanced = AroundMiddle-AllBalanced g' p' before after next;
    }
Step-Safe _ _ (forks g ps producer m) v = record {
  all_running = (refl, v.all_running);
  balanced = record {
    valid = v.balanced.valid;
    mutex = omega (arith, v.balanced.mutex);
    room = omega (arith, v.balanced.room);
    filled = omega (arith, v.balanced.filled);
  };
}
Step-Safe _ _ (forks g ps consumer m) v = record {
  all_running = (refl, v.all_running);
  balanced = record {
    valid = v.balanced.valid;
    mutex = omega (arith, v.balanced.mutex);
    room = omega (arith, v.balanced.room);
    filled = omega (arith, v.balanced.filled);
  };
}

pub Reachable-Safe : (s : System) → Reachable s → Safe s
unfolding init_semaphores
Reachable-Safe _ starts = record {
  all_running = tt;
  balanced = record {
    valid = record { storage = refl; head_in = omega arith; load_in = omega arith; tail_at = refl };
    mutex = refl;
    room = refl;
    filled = refl;
  };
}
Reachable-Safe _ (continues s s' r st) = Step-Safe s s' st (Reachable-Safe s r)

-- While no signal has arrived, at most one process is between taking and giving back `SEM_MUTEX`,
-- the queue is valid with at most `QUEUE_SIZE` messages, and the free places that `SEM_EMPTY`
-- counts, those that processes hold, and the load add up to `QUEUE_SIZE`.
pub Reachable-exclusive :
    (s : System)
    → Reachable s
    → (total holding s.processes ≤ 1)
      × IsValid s.shared.queue
      × (s.shared.sem_empty + total reserved s.processes + s.shared.queue.current_load ≡ queue_size)
Reachable-exclusive s r =
    let v = (Reachable-Safe s r).balanced in (omega (arith, v.mutex), v.valid, v.room)

-- The messages of the queue, oldest first.
abbrev base : SharedQueue → Queue.SharedQueue
base q = record {
  buffer = q.buffer;
  head = q.head;
  tail = q.tail;
  added_count = q.current_load;
  extracted_count = 0;
  current_load = q.current_load;
  queue_size = queue_size;
}

abbrev pub messages : SharedQueue → List Message
messages q = contents (base q)

base-IsValid : (q : SharedQueue) → IsValid q → Queue.Invariant.IsValid (base q)
base-IsValid q v = record {
  storage = v.storage;
  positive = omega arith;
  head_in = v.head_in;
  load_in = v.load_in;
  tail_at = v.tail_at;
  counted = omega arith;
}

-- What the critical section does: a producer finds room and appends its message, a consumer finds a
-- message and takes the oldest.
abbrev pub Moved : Role → Message → Shared → Type 0
Moved producer m g =
    (g.queue.current_load < queue_size)
    × (messages (move producer m g).1.queue ≡ messages g.queue ++ m ∷ [])
Moved consumer m g =
    (0 < g.queue.current_load)
    × (messages g.queue ≡ (move consumer m g).0 ∷ messages (move consumer m g).1.queue)

queue_push-messages :
    (q : SharedQueue) (m : Message)
    → IsValid q
    → q.current_load < queue_size
    → messages (queue_push q m) ≡ messages q ++ m ∷ []
unfolding queue_push
queue_push-messages q m v room =
    ap (λ l. tabulate (slot (pushed (base q) m)) 0 l) (omega (arith, room))
    ∙ contents-pushed (base q) m (base-IsValid q v) room

queue_pop-messages :
    (q : SharedQueue)
    → IsValid q
    → 0 < q.current_load
    → messages q ≡ (queue_pop q).0 ∷ messages (queue_pop q).1
unfolding queue_pop
queue_pop-messages q v some_load =
    contents-popped (base q) (base-IsValid q v) some_load
    ∙ ap (λ l. oldest (base q) ∷ tabulate (slot (popped (base q))) 0 l)
        (omega (arith, some_load, v.load_in))

moves-Moved :
    (g : Shared) (r : Role) (f : Bool) (m : Message) (x y z : ℕ)
    → Around g (process r f inside m) x y z
    → Moved r m g
moves-Moved g producer f m x y z b =
    let room : g.queue.current_load < queue_size = omega (arith, b.room) in
    (room, queue_push-messages g.queue m b.valid room)
moves-Moved g consumer f m x y z b =
    let some_load : 0 < g.queue.current_load = omega (arith, b.filled) in
    (some_load, queue_pop-messages g.queue b.valid some_load)

-- While no signal has arrived, a producer in the critical section finds room in the queue and
-- appends its message to those that are there, and a consumer finds a message and takes the oldest
-- one, leaving the others.
pub Reachable-Moved :
    (g : Shared) (before after : List Process) (r : Role) (f : Bool) (m : Message)
    → Reachable (record { shared = g; processes = before ++ process r f inside m ∷ after })
    → Moved r m g
Reachable-Moved g before after r f m reached =
    let p = process r f inside m in
    moves-Moved g r f m (total holding before + total holding after)
      (total reserved before + total reserved after)
      (total unannounced before + total unannounced after)
      (AllBalanced-AroundMiddle g p before after
        (Reachable-Safe (record { shared = g; processes = before ++ p ∷ after }) reached).balanced)

-- Runs in which signals arrive.
pub data Signalled : System → System → Type 0 where
  ends : (s : System) → Signalled s s
  steps : (s t u : System) → Step s t → Signalled t u → Signalled s u
  interrupts : (s t u : System) → Signal s t → Signalled t u → Signalled s u
