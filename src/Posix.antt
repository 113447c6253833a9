-- ===== src/Posix.antt =====
-- LAB_5.1: producer and consumer threads that share a queue under two POSIX semaphores and a mutex
-- (queue.c, producer.c, consumer.c). The mutex makes each function of the queue one step; the waits
-- and posts of the threads interleave with them in any order.
pub mod Invariant
pub mod Steps
pub mod Safety
pub mod Shrink
pub mod Ending
pub mod Shutdown
mod Tests
use os_sp.Prelude.{
  ℕ, zero, suc, ◌+◌, ◌-◌, ◌%◌, ◌^◌, ◌<◌, ◌≤◌, ◌≡◌, Bool, true, false, ◌&&◌, ◌||◌, Option, none,
  some, List, [], ◌∷◌, ◌++◌, ltb, leb, if◌then◌else◌, length, get_elem?, set,
}
use os_sp.Message.{Message, Status, success, failure}
use os_sp.Queue
use os_sp.Queue.{Outcome, done, fault, ◌>>=◌}
use os_sp.Semaphores.{Role, producer, consumer}

-- `INITIAL_QUEUE_SIZE`
abbrev pub initial_queue_size : ℕ
initial_queue_size = 10

-- `SharedQueue` of LAB_5.1, without its mutex; an `int` is given by its 32 bits, and `buffer` has
-- the slots allocated.
pub record SharedQueue : Type 0 where
  pub buffer : List Message
  pub head : ℕ
  pub tail : ℕ
  pub added_count : ℕ
  pub extracted_count : ℕ
  pub current_load : ℕ
  pub queue_size : ℕ
  pub empty : ℕ
  pub full : ℕ

-- `raw` is the block that `malloc` returns.
unfoldable pub queue_init : List Message → ℕ → SharedQueue
queue_init raw size = record {
  buffer = raw;
  head = 0;
  tail = 0;
  added_count = 0;
  extracted_count = 0;
  current_load = 0;
  queue_size = size;
  empty = size;
  full = 0;
}

-- `current_load >= queue_size`, for a size from 0 to 100: a load with the sign bit is negative.
abbrev pub is_full : SharedQueue → Bool
is_full q = ltb q.current_load (2 ^ 31) && leb q.queue_size q.current_load

pub queue_push : SharedQueue → Message → Outcome (Status × SharedQueue)
queue_push q m =
    if is_full q
    then done (failure, q)
    else if ltb q.tail (length q.buffer)
    then done (
      success,
      record q {
        buffer = set q.buffer q.tail m;
        tail = (q.tail + 1) % q.queue_size;
        added_count = (q.added_count + 1) % 2 ^ 32;
        current_load = (q.current_load + 1) % 2 ^ 32;
      },
    )
    else fault

pub queue_pop : SharedQueue → Outcome (Message × SharedQueue)
queue_pop q = elim (get_elem? q.buffer q.head) [
  | none ↦ fault
  | some m ↦ done (
    m,
    record q {
      head = (q.head + 1) % q.queue_size;
      extracted_count = (q.extracted_count + 1) % 2 ^ 32;
      current_load = (q.current_load + (2 ^ 32 - 1)) % 2 ^ 32;
    },
  )
]

-- The fields that `queue_resize` reads under the mutex, whose text is that of LAB_5.2. A negative
-- load is below each size, and its loop copies nothing.
abbrev pub base : SharedQueue → Queue.SharedQueue
base q = record {
  buffer = q.buffer;
  head = q.head;
  tail = q.tail;
  added_count = q.added_count;
  extracted_count = q.extracted_count;
  current_load = if ltb q.current_load (2 ^ 31) then q.current_load else 0;
  queue_size = q.queue_size;
}

-- The part of `queue_resize` under the mutex; `raw` is the result of `malloc`.
unfoldable pub resize_locked :
    SharedQueue → ℕ → Option (List Message) → Outcome (Status × SharedQueue)
unfolding Queue.queue_resize
resize_locked q new_size raw = Queue.queue_resize (base q) new_size raw >>= λ r. elim r.0 [
  | success ↦ done (
    success,
    record q {
      buffer = r.1.buffer;
      head = r.1.head;
      tail = q.current_load;
      queue_size = r.1.queue_size;
    },
  )
  | failure ↦ done (failure, q)
]

-- The part after it, which sets the semaphores.
abbrev pub set_semaphores : ℕ → SharedQueue → SharedQueue
set_semaphores new_size q = record q {
  empty = (new_size + (2 ^ 32 - q.current_load)) % 2 ^ 32;
  full = q.current_load;
}

-- Where a thread is in the loop of `run_producer` or `run_consumer`. In `waiting` it is in
-- `sem_timedwait`, in `checking` it has the semaphore, in `moving` it has seen the flag up.
pub data Place : Type 0 where
  looping waiting checking moving posting_empty posting_full finished : Place

pub record Thread : Type 0 where
  pub role : Role
  pub place : Place
  pub message : Message

abbrev pub thread : Role → Place → Message → Thread
thread r at m = record { role = r; place = at; message = m }

-- The semaphore that the loop waits for.
abbrev pub slots : Role → SharedQueue → ℕ
slots producer q = q.empty
slots consumer q = q.full

abbrev pub take_slot : Role → SharedQueue → SharedQueue
take_slot producer q = record q { empty = q.empty - 1 }
take_slot consumer q = record q { full = q.full - 1 }

abbrev pub give_back : Role → SharedQueue → SharedQueue
give_back producer q = record q { empty = q.empty + 1 }
give_back consumer q = record q { full = q.full + 1 }

-- The post of a producer, by the result of `queue_push`.
abbrev pub after_push : Status → Place
after_push success = posting_full
after_push failure = posting_empty

-- One step of one thread, by the flag `keep_running`. A thread is cancelled in `sleep`, at the end
-- of its loop, or in `sem_timedwait`.
pub data Act : Bool → SharedQueue → Thread → SharedQueue → Thread → Type 0 where
  begins :
      (q : SharedQueue) (r : Role) (m m' : Message)
      → Act true q (thread r looping m) q (thread r waiting m')
  leaves :
      (q : SharedQueue) (r : Role) (m : Message)
      → Act false q (thread r looping m) q (thread r finished m)
  gets_slot :
      (f : Bool) (q : SharedQueue) (r : Role) (m : Message)
      → 0 < slots r q
      → Act f q (thread r waiting m) (take_slot r q) (thread r checking m)
  times_out :
      (q : SharedQueue) (r : Role) (m : Message)
      → Act true q (thread r waiting m) q (thread r looping m)
  gives_up :
      (q : SharedQueue) (r : Role) (m : Message)
      → Act false q (thread r waiting m) q (thread r finished m)
  cancelled_asleep :
      (f : Bool) (q : SharedQueue) (r : Role) (m : Message)
      → Act f q (thread r looping m) q (thread r finished m)
  cancelled_waiting :
      (f : Bool) (q : SharedQueue) (r : Role) (m : Message)
      → Act f q (thread r waiting m) q (thread r finished m)
  goes_on :
      (q : SharedQueue) (r : Role) (m : Message)
      → Act true q (thread r checking m) q (thread r moving m)
  returns :
      (q : SharedQueue) (r : Role) (m : Message)
      → Act false q (thread r checking m) (give_back r q) (thread r finished m)
  pushes :
      (f : Bool) (q q' : SharedQueue) (m : Message) (s : Status)
      → queue_push q m ≡ done (s, q')
      → Act f q (thread producer moving m) q' (thread producer (after_push s) m)
  pops :
      (f : Bool) (q q' : SharedQueue) (m m' : Message)
      → queue_pop q ≡ done (m', q')
      → Act f q (thread consumer moving m) q' (thread consumer posting_empty m')
  posts_empty :
      (f : Bool) (q : SharedQueue) (r : Role) (m : Message)
      → Act f q (thread r posting_empty m) (record q { empty = q.empty + 1 }) (thread r looping m)
  posts_full :
      (f : Bool) (q : SharedQueue) (r : Role) (m : Message)
      → Act f q (thread r posting_full m) (record q { full = q.full + 1 }) (thread r looping m)

pub record System : Type 0 where
  pub running : Bool
  pub queue : SharedQueue
  pub threads : List Thread

-- A thread acts, `main` starts one, or `signal_handler` or `cleanup_all` clears the flag and posts
-- both semaphores `MAX_THREADS * 2` times, each post a step.
pub data Step : System → System → Type 0 where
  acts :
      (before after : List Thread) (f : Bool) (q q' : SharedQueue) (t t' : Thread)
      → Act f q t q' t'
      → Step
          (record { running = f; queue = q; threads = before ++ t ∷ after })
          (record { running = f; queue = q'; threads = before ++ t' ∷ after })
  starts_thread :
      (f : Bool) (q : SharedQueue) (ts : List Thread) (r : Role) (m : Message)
      → Step
          (record { running = f; queue = q; threads = ts })
          (record { running = f; queue = q; threads = thread r looping m ∷ ts })
  stops :
      (f : Bool) (q : SharedQueue) (ts : List Thread)
      → Step
          (record { running = f; queue = q; threads = ts })
          (record { running = false; queue = q; threads = ts })
  wakes_all :
      (q : SharedQueue) (ts : List Thread) (r : Role)
      → Step
          (record { running = false; queue = q; threads = ts })
          (record { running = false; queue = give_back r q; threads = ts })

-- The states from the start of `main` on, with a block of the size that `malloc` was asked for.
pub data Reachable : System → Type 0 where
  starts :
      (raw : List Message)
      → length raw ≡ initial_queue_size
      → Reachable
          (record { running = true; queue = queue_init raw initial_queue_size; threads = [] })
  continues : (s s' : System) → Reachable s → Step s s' → Reachable s'

pub data Runs : System → System → Type 0 where
  stays : (s : System) → Runs s s
  goes : (s t u : System) → Runs s t → Step t u → Runs s u

-- A resize by `main` that succeeds. The threads run on between its two parts.
pub data Resize (n : ℕ) (raw : Option (List Message)) : System → System → Type 0 where
  resizes :
      (f g : Bool) (q q' q'' : SharedQueue) (ts us : List Thread)
      → resize_locked q n raw ≡ done (success, q')
      → Runs
          (record { running = f; queue = q'; threads = ts })
          (record { running = g; queue = q''; threads = us })
      → Resize n raw
          (record { running = f; queue = q; threads = ts })
          (record { running = g; queue = set_semaphores n q''; threads = us })
