-- ===== src/Semaphores.antt =====
-- LAB_4: producers and consumers as processes that share a queue under three System V semaphores
-- (ipc_utils.c, producer.c, consumer.c). The steps of the processes interleave in any order.
pub mod Invariant
pub mod Steps
pub mod Safety
pub mod Progress
pub mod Commands
mod Tests
use os_sp.Prelude.{
  ℕ, zero, suc, ◌+◌, ◌-◌, ◌%◌, ◌^◌, ◌<◌, ◌≡◌, Bool, true, false, List, [], ◌∷◌, ◌++◌, replicate,
  get_or, set,
}
use os_sp.Message.{Message}
use os_sp.Queue.{empty_message}

-- `QUEUE_SIZE`
abbrev pub queue_size : ℕ
queue_size = 10

-- `SharedQueue` of LAB_4; an `int` is given by its 32 bits.
pub record SharedQueue : Type 0 where
  pub buffer : List Message
  pub head : ℕ
  pub tail : ℕ
  pub added_count : ℕ
  pub extracted_count : ℕ
  pub current_load : ℕ

pub queue_push : SharedQueue → Message → SharedQueue
queue_push q m = record q {
  buffer = set q.buffer q.tail m;
  tail = (q.tail + 1) % queue_size;
  added_count = (q.added_count + 1) % 2 ^ 32;
  current_load = (q.current_load + 1) % 2 ^ 32;
}

pub queue_pop : SharedQueue → Message × SharedQueue
queue_pop q = (
  get_or q.buffer q.head empty_message,
  record q {
    head = (q.head + 1) % queue_size;
    extracted_count = (q.extracted_count + 1) % 2 ^ 32;
    current_load = (q.current_load + (2 ^ 32 - 1)) % 2 ^ 32;
  },
)

-- The values of `SEM_EMPTY`, `SEM_FULL` and `SEM_MUTEX`, and the queue.
pub record Shared : Type 0 where
  pub sem_empty : ℕ
  pub sem_full : ℕ
  pub sem_mutex : ℕ
  pub queue : SharedQueue

-- `init_semaphores`, on a segment that `memset` has cleared.
pub init_semaphores : Shared
init_semaphores = record {
  sem_empty = queue_size;
  sem_full = 0;
  sem_mutex = 1;
  queue = record {
    buffer = replicate queue_size empty_message;
    head = 0;
    tail = 0;
    added_count = 0;
    extracted_count = 0;
    current_load = 0;
  };
}

pub data Role : Type 0 where
  producer consumer : Role

-- Where a process is in the loop of `run_producer` or `run_consumer`.
pub data Place : Type 0 where
  looping : Place
  waiting_slot : Place
  checking : Place
  waiting_mutex : Place
  inside : Place
  unlocking : Place
  signalling : Place
  finished : Place

-- `running` is the process's own `keep_running`, `message` its `msg`.
pub record Process : Type 0 where
  pub role : Role
  pub running : Bool
  pub place : Place
  pub message : Message

-- The semaphore that the loop waits for first.
abbrev pub slots : Role → Shared → ℕ
slots producer g = g.sem_empty
slots consumer g = g.sem_full

-- `sem_wait` on that semaphore, when it is given.
abbrev pub take_slot : Role → Shared → Shared
take_slot producer g = record g { sem_empty = g.sem_empty - 1 }
take_slot consumer g = record g { sem_full = g.sem_full - 1 }

-- The last `sem_signal` of the loop.
abbrev pub give_slot : Role → Shared → Shared
give_slot producer g = record g { sem_full = g.sem_full + 1 }
give_slot consumer g = record g { sem_empty = g.sem_empty + 1 }

-- The critical section.
abbrev pub move : Role → Message → Shared → Message × Shared
move producer m g = (m, record g { queue = queue_push g.queue m })
move consumer m g = ((queue_pop g.queue).0, record g { queue = (queue_pop g.queue).1 })

abbrev pub process : Role → Bool → Place → Message → Process
process r b at m = record { role = r; running = b; place = at; message = m }

-- One step of one process. A wait goes on until it is given; while it blocks, the semaphore being
-- 0, it returns without it if a signal has cleared the flag. A flag that was cleared before the wait
-- is enough here, so there are more steps than the program has.
pub data Act : Shared → Process → Shared → Process → Type 0 where
  begins :
      (g : Shared) (r : Role) (m m' : Message)
      → Act g (process r true looping m) g (process r true waiting_slot m')
  leaves :
      (g : Shared) (r : Role) (m : Message)
      → Act g (process r false looping m) g (process r false finished m)
  gets_slot :
      (g : Shared) (r : Role) (b : Bool) (m : Message)
      → 0 < slots r g
      → Act g (process r b waiting_slot m) (take_slot r g) (process r b checking m)
  slot_interrupted :
      (g : Shared) (r : Role) (m : Message)
      → slots r g ≡ 0
      → Act g (process r false waiting_slot m) g (process r false checking m)
  goes_on :
      (g : Shared) (r : Role) (m : Message)
      → Act g (process r true checking m) g (process r true waiting_mutex m)
  breaks :
      (g : Shared) (r : Role) (m : Message)
      → Act g (process r false checking m) g (process r false finished m)
  gets_mutex :
      (g : Shared) (r : Role) (b : Bool) (m : Message)
      → 0 < g.sem_mutex
      → Act g
          (process r b waiting_mutex m)
          (record g { sem_mutex = g.sem_mutex - 1 })
          (process r b inside m)
  mutex_interrupted :
      (g : Shared) (r : Role) (m : Message)
      → g.sem_mutex ≡ 0
      → Act g (process r false waiting_mutex m) g (process r false inside m)
  moves :
      (g : Shared) (r : Role) (b : Bool) (m : Message)
      → Act g (process r b inside m) (move r m g).1 (process r b unlocking (move r m g).0)
  unlocks :
      (g : Shared) (r : Role) (b : Bool) (m : Message)
      → Act g
          (process r b unlocking m)
          (record g { sem_mutex = g.sem_mutex + 1 })
          (process r b signalling m)
  signals :
      (g : Shared) (r : Role) (b : Bool) (m : Message)
      → Act g (process r b signalling m) (give_slot r g) (process r b looping m)

pub record System : Type 0 where
  pub shared : Shared
  pub processes : List Process

-- One process acts, or a new one is started by the parent's `fork`.
pub data Step : System → System → Type 0 where
  acts :
      (before after : List Process) (g g' : Shared) (p p' : Process)
      → Act g p g' p'
      → Step
          (record { shared = g; processes = before ++ p ∷ after })
          (record { shared = g'; processes = before ++ p' ∷ after })
  forks :
      (g : Shared) (ps : List Process) (r : Role) (m : Message)
      → Step
          (record { shared = g; processes = ps })
          (record { shared = g; processes = process r true looping m ∷ ps })

-- `SIGTERM` or `SIGINT` arrives at a process.
pub data Signal : System → System → Type 0 where
  signalled :
      (before after : List Process) (g : Shared) (r : Role) (b : Bool) (at : Place) (m : Message)
      → Signal
          (record { shared = g; processes = before ++ process r b at m ∷ after })
          (record { shared = g; processes = before ++ process r false at m ∷ after })

-- The states from the start of `main` on, while no signal has arrived.
pub data Reachable : System → Type 0 where
  starts : Reachable (record { shared = init_semaphores; processes = [] })
  continues : (s s' : System) → Reachable s → Step s s' → Reachable s'
