-- ===== src/Posix/Safety.antt =====
-- LAB_5.1: the reachable states, with the shutdown.
use os_sp.Prelude.{
  ◌+◌, ◌<◌, ◌≤◌, ◌≡◌, refl, Bool, true, false, List, ◌∷◌, ◌++◌, arith, get_or, total, total-middle,
  total_le,
}
use os_sp.Message.{Message, success}
use os_sp.Queue.{done, empty_message}
use os_sp.Semaphores.{Role, producer, consumer}
use os_sp.Posix.{
  SharedQueue, queue_init, queue_push, queue_pop, looping, checking, moving, posting_empty,
  posting_full, finished, waiting, Place, Thread, thread, give_back, System, Act, Step, acts,
  starts_thread, stops, wakes_all, Reachable, starts, continues,
}
use os_sp.Posix.Invariant.{
  reserved, unannounced, pushing, popping, IsValid, Balanced, Within, pushed, queue_push-pushed,
  popped, queue_pop-popped, pushed-IsValid, popped-IsValid,
}
use os_sp.Posix.Steps.{Held, Left, Act-Held, Act-Left, posted}

abbrev pub Safe : Bool → SharedQueue → List Thread → Type 0
Safe true q ts = Balanced q (total reserved ts) (total unannounced ts)
Safe false q ts = Within q (total pushing ts) (total popping ts)

-- The same, with one thread set apart.
abbrev Apart : Bool → SharedQueue → Thread → (before after : List Thread) → Type 0
Apart true q t before after =
    Held q t (total reserved before + total reserved after)
      (total unannounced before + total unannounced after)
Apart false q t before after =
    Left q t (total pushing before + total pushing after)
      (total popping before + total popping after)

Safe-Apart :
    (f : Bool) (q : SharedQueue) (t : Thread) (before after : List Thread)
    → Safe f q (before ++ t ∷ after)
    → Apart f q t before after
Safe-Apart true q t before after b =
    rw (← total-middle reserved before after t, ← total-middle unannounced before after t) b
Safe-Apart false q t before after b =
    rw (← total-middle pushing before after t, ← total-middle popping before after t) b

Apart-Safe :
    (f : Bool) (q : SharedQueue) (t : Thread) (before after : List Thread)
    → Apart f q t before after
    → Safe f q (before ++ t ∷ after)
Apart-Safe true q t before after b =
    rw (total-middle reserved before after t, total-middle unannounced before after t) b
Apart-Safe false q t before after b =
    rw (total-middle pushing before after t, total-middle popping before after t) b

pushing_le : (t : Thread) → pushing t ≤ reserved t
pushing_le t = le t.role t.place
  where
    le :
        (r : Role) (at : Place) → pushing (thread r at t.message) ≤ reserved (thread r at t.message)
    le producer looping = omega arith
    le producer waiting = omega arith
    le producer checking = omega arith
    le producer moving = omega arith
    le producer posting_empty = omega arith
    le producer posting_full = omega arith
    le producer finished = omega arith
    le consumer at = omega arith

popping_le : (t : Thread) → popping t ≤ unannounced t
popping_le t = le t.role t.place
  where
    le :
        (r : Role) (at : Place)
        → popping (thread r at t.message) ≤ unannounced (thread r at t.message)
    le consumer looping = omega arith
    le consumer waiting = omega arith
    le consumer checking = omega arith
    le consumer moving = omega arith
    le consumer posting_empty = omega arith
    le consumer posting_full = omega arith
    le consumer finished = omega arith
    le producer at = omega arith

-- When the flag goes down, the threads that are about to push or pop have what they need.
Balanced-Within : (q : SharedQueue) (ts : List Thread) → Safe true q ts → Safe false q ts
Balanced-Within q ts b = record {
  valid = b.valid;
  room = omega (arith, b.room, total_le pushing reserved ts pushing_le);
  filled = omega (arith, b.filled, total_le popping unannounced ts popping_le);
}

Act-Apart :
    (f : Bool) (q q' : SharedQueue) (t t' : Thread) (before after : List Thread)
    → Act f q t q' t'
    → Apart f q t before after
    → Apart f q' t' before after
Act-Apart true q q' t t' before after a h =
    Act-Held q q' t t' (total reserved before + total reserved after)
      (total unannounced before + total unannounced after) a h
Act-Apart false q q' t t' before after a h =
    Act-Left q q' t t' (total pushing before + total pushing after)
      (total popping before + total popping after) a h

woken :
    (q : SharedQueue) (ts : List Thread) (r : Role)
    → Safe false q ts
    → Safe false (give_back r q) ts
woken q ts producer h = posted q (q.empty + 1) q.full (total pushing ts) (total popping ts) h
woken q ts consumer h = posted q q.empty (q.full + 1) (total pushing ts) (total popping ts) h

-- A thread that starts holds nothing.
started :
    (f : Bool) (q : SharedQueue) (ts : List Thread) (r : Role) (m : Message)
    → Safe f q ts
    → Safe f q (thread r looping m ∷ ts)
started true q ts producer m h = record {
  valid = h.valid;
  room = omega (arith, h.room);
  filled = omega (arith, h.filled);
}
started true q ts consumer m h = record {
  valid = h.valid;
  room = omega (arith, h.room);
  filled = omega (arith, h.filled);
}
started false q ts producer m h = record {
  valid = h.valid;
  room = omega (arith, h.room);
  filled = omega (arith, h.filled);
}
started false q ts consumer m h = record {
  valid = h.valid;
  room = omega (arith, h.room);
  filled = omega (arith, h.filled);
}

stopped : (f : Bool) (q : SharedQueue) (ts : List Thread) → Safe f q ts → Safe false q ts
stopped true q ts h = Balanced-Within q ts h
stopped false q ts h = h

pub Step-Safe :
    (s s' : System)
    → Step s s'
    → Safe s.running s.queue s.threads
    → Safe s'.running s'.queue s'.threads
Step-Safe _ _ (acts before after f q q' t t' a) h =
    Apart-Safe f q' t' before after
      (Act-Apart f q q' t t' before after a (Safe-Apart f q t before after h))
Step-Safe _ _ (starts_thread f q ts r m) h = started f q ts r m h
Step-Safe _ _ (stops f q ts) h = stopped f q ts h
Step-Safe _ _ (wakes_all q ts r) h = woken q ts r h

pub Reachable-Safe : (s : System) → Reachable s → Safe s.running s.queue s.threads
unfolding queue_init
Reachable-Safe _ (starts raw len) = record {
  valid = record {
    storage = len;
    in_bound = omega arith;
    head_in = omega arith;
    load_in = omega arith;
    tail_at = refl;
  };
  room = refl;
  filled = refl;
}
Reachable-Safe _ (continues s s' r step) = Step-Safe s s' step (Reachable-Safe s r)

-- Until the flag goes down, the queue is valid; the count of `empty`, the places that threads have
-- taken from it, and the load add up to the queue's size; and the load is the count of `full` and
-- the messages that it does not count.
pub Reachable-balance :
    (q : SharedQueue) (ts : List Thread)
    → Reachable (record { running = true; queue = q; threads = ts })
    → IsValid q
      × (q.empty + total reserved ts + q.current_load ≡ q.queue_size)
      × (q.current_load ≡ q.full + total unannounced ts)
Reachable-balance q ts reached =
    let b = Reachable-Safe (record { running = true; queue = q; threads = ts }) reached in
    (b.valid, b.room, b.filled)

-- What a call does that comes in time: a push that succeeds, inside the buffer, and a pop of the
-- message at the head.
abbrev pub Succeeds : Role → Message → SharedQueue → Type 0
Succeeds producer m q =
    (q.current_load < q.queue_size)
    × (queue_push q m ≡ done (success, pushed q m))
    × IsValid (pushed q m)
Succeeds consumer m q =
    (0 < q.current_load)
    × (queue_pop q ≡ done (get_or q.buffer q.head empty_message, popped q))
    × IsValid (popped q)

can_push :
    (q : SharedQueue) (m : Message)
    → IsValid q
    → q.current_load < q.queue_size
    → Succeeds producer m q
can_push q m v room = (room, queue_push-pushed q m v room, (pushed-IsValid q m v room).0)

can_pop : (q : SharedQueue) (m : Message) → IsValid q → 0 < q.current_load → Succeeds consumer m q
can_pop q m v some_load = (some_load, queue_pop-popped q v, (popped-IsValid q v some_load).0)

Apart-Succeeds :
    (f : Bool) (q : SharedQueue) (r : Role) (m : Message) (before after : List Thread)
    → Apart f q (thread r moving m) before after
    → Succeeds r m q
Apart-Succeeds true q producer m before after h = can_push q m h.valid (omega (arith, h.room))
Apart-Succeeds true q consumer m before after h = can_pop q m h.valid (omega (arith, h.filled))
Apart-Succeeds false q producer m before after h = can_push q m h.valid (omega (arith, h.room))
Apart-Succeeds false q consumer m before after h = can_pop q m h.valid (omega (arith, h.filled))

-- Without a resize, in every reachable state, the shutdown with its posts included, a producer that
-- goes on to push finds room and its push succeeds, and a consumer that goes on to pop finds a
-- message. Both leave a valid queue.
pub Reachable-Succeeds :
    (f : Bool) (q : SharedQueue) (before after : List Thread) (r : Role) (m : Message)
    → Reachable (record { running = f; queue = q; threads = before ++ thread r moving m ∷ after })
    → Succeeds r m q
Reachable-Succeeds f q before after r m reached =
    let t = thread r moving m in
    Apart-Succeeds f q r m before after (
      Safe-Apart f q t before after
        (Reachable-Safe (record { running = f; queue = q; threads = before ++ t ∷ after }) reached))
