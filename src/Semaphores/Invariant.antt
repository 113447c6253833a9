-- ===== src/Semaphores/Invariant.antt =====
-- What the semaphores of LAB_4 count, while no signal arrives.
use os_sp.Prelude.{ℕ, ◌+◌, ◌-◌, ◌%◌, ◌<◌, ◌≤◌, ◌≡◌, ◌∙◌, true, arith, length, length-set}
use os_sp.Message.{Message}
use os_sp.Semaphores.{
  queue_size, SharedQueue, queue_push, queue_pop, Shared, Role, producer, consumer, Place, checking,
  waiting_mutex, inside, unlocking, signalling, Process, process, move,
}

-- 1 for a process between `sem_wait (SEM_MUTEX)` and `sem_signal (SEM_MUTEX)`.
abbrev holding_at : Place → ℕ
holding_at inside = 1
holding_at unlocking = 1
holding_at _ = 0

abbrev pub holding : Process → ℕ
holding p = holding_at p.place

-- 1 between the first wait and the move of a message, and 1 between the move and the last signal.
abbrev before_move : Place → ℕ
before_move checking = 1
before_move waiting_mutex = 1
before_move inside = 1
before_move _ = 0

abbrev after_move : Place → ℕ
after_move unlocking = 1
after_move signalling = 1
after_move _ = 0

-- 1 for a slot that is taken from `SEM_EMPTY` and not in the load: a producer that will fill it, or
-- a consumer that has cleared it.
abbrev reserved_by : Role → Place → ℕ
reserved_by producer at = before_move at
reserved_by consumer at = after_move at

abbrev pub reserved : Process → ℕ
reserved p = reserved_by p.role p.place

-- 1 for a message in the load that `SEM_FULL` does not count.
abbrev unannounced_by : Role → Place → ℕ
unannounced_by producer at = after_move at
unannounced_by consumer at = before_move at

abbrev pub unannounced : Process → ℕ
unannounced p = unannounced_by p.role p.place

pub record IsValid (q : SharedQueue) : Type 0 where
  pub storage : length q.buffer ≡ queue_size
  pub head_in : q.head < queue_size
  pub load_in : q.current_load ≤ queue_size
  pub tail_at : q.tail ≡ (q.head + q.current_load) % queue_size

-- The balance of the semaphores, the load and the processes.
pub record Balanced (g : Shared) (held kept hidden : ℕ) : Type 0 where
  pub valid : IsValid g.queue
  pub mutex : g.sem_mutex + held ≡ 1
  pub room : g.sem_empty + kept + g.queue.current_load ≡ queue_size
  pub filled : g.queue.current_load ≡ g.sem_full + hidden

pub queue_push-IsValid :
    (q : SharedQueue) (m : Message)
    → IsValid q
    → q.current_load < queue_size
    → IsValid (queue_push q m) × ((queue_push q m).current_load ≡ q.current_load + 1)
unfolding queue_push
queue_push-IsValid q m v room = (
  record {
    storage = length-set q.buffer q.tail m ∙ v.storage;
    head_in = v.head_in;
    load_in = omega arith;
    tail_at = omega (arith, v.tail_at, v.head_in);
  },
  omega arith,
)

pub queue_pop-IsValid :
    (q : SharedQueue)
    → IsValid q
    → 0 < q.current_load
    → IsValid (queue_pop q).1 × ((queue_pop q).1.current_load ≡ q.current_load - 1)
unfolding queue_pop
queue_pop-IsValid q v some_load = (
  record {
    storage = v.storage;
    head_in = omega arith;
    load_in = omega (arith, v.load_in);
    tail_at = omega (arith, v.tail_at, v.head_in, v.load_in);
  },
  omega (arith, v.load_in),
)

-- What one process changes, with the sums over the others.
abbrev pub Around : Shared → Process → (x y z : ℕ) → Type 0
Around g p x y z = Balanced g (holding p + x) (reserved p + y) (unannounced p + z)

pub move-Around :
    (g : Shared) (r : Role) (m m' : Message) (x y z : ℕ)
    → Around g (process r true inside m) x y z
    → Around (move r m g).1 (process r true unlocking m') x y z
move-Around g producer m m' x y z b =
    let (v, load) = queue_push-IsValid g.queue m b.valid (omega (arith, b.room)) in
    record {
      valid = v;
      mutex = b.mutex;
      room = omega (arith, b.room, load);
      filled = omega (arith, b.filled, load);
    }
move-Around g consumer m m' x y z b =
    let (v, load) = queue_pop-IsValid g.queue b.valid (omega (arith, b.filled)) in
    record {
      valid = v;
      mutex = b.mutex;
      room = omega (arith, b.room, b.filled, load);
      filled = omega (arith, b.filled, load);
    }
