-- ===== src/Posix/Invariant.antt =====
-- LAB_5.1: what the semaphores and the queue count, while the flag is up and after.
use os_sp.Prelude.{
  ℕ, ◌+◌, ◌-◌, ◌%◌, ◌^◌, ◌<◌, ◌≤◌, ◌≡◌, ◌∙◌, refl, ap, arith, length, length-set, set, sym,
  get_elem?-eq-get_or, get_or,
}
use native.Mathlib.Nat.{mod-lt, mod-add-mod}
use os_sp.Message.{Message, success}
use os_sp.Queue.{done, empty_message}
use os_sp.Semaphores.{Role, producer, consumer}
use os_sp.Posix.{
  SharedQueue, queue_push, queue_pop, Place, checking, moving, posting_empty, posting_full, Thread,
}

-- 1 for a place that a thread has taken from `empty` and that is not in the load.
abbrev reserved_by : Role → Place → ℕ
reserved_by producer checking = 1
reserved_by producer moving = 1
reserved_by producer posting_empty = 1
reserved_by producer _ = 0
reserved_by consumer posting_empty = 1
reserved_by consumer _ = 0

abbrev pub reserved : Thread → ℕ
reserved t = reserved_by t.role t.place

-- 1 for a message in the load that `full` does not count.
abbrev unannounced_by : Role → Place → ℕ
unannounced_by producer posting_full = 1
unannounced_by producer _ = 0
unannounced_by consumer checking = 1
unannounced_by consumer moving = 1
unannounced_by consumer posting_full = 1
unannounced_by consumer _ = 0

abbrev pub unannounced : Thread → ℕ
unannounced t = unannounced_by t.role t.place

-- 1 for a producer that is about to push, and for a consumer that is about to pop.
abbrev pushing_by : Role → Place → ℕ
pushing_by producer moving = 1
pushing_by producer _ = 0
pushing_by consumer _ = 0

abbrev pub pushing : Thread → ℕ
pushing t = pushing_by t.role t.place

abbrev popping_by : Role → Place → ℕ
popping_by consumer moving = 1
popping_by consumer _ = 0
popping_by producer _ = 0

abbrev pub popping : Thread → ℕ
popping t = popping_by t.role t.place

pub record IsValid (q : SharedQueue) : Type 0 where
  pub storage : length q.buffer ≡ q.queue_size
  pub in_bound : q.queue_size ≤ 100
  pub head_in : q.head < q.queue_size
  pub load_in : q.current_load ≤ q.queue_size
  pub tail_at : q.tail ≡ (q.head + q.current_load) % q.queue_size

-- The queue with other semaphores.
pub posted-IsValid :
    (q : SharedQueue) (e f : ℕ) → IsValid q → IsValid (record q { empty = e; full = f })
posted-IsValid q e f v = record {
  storage = v.storage;
  in_bound = v.in_bound;
  head_in = v.head_in;
  load_in = v.load_in;
  tail_at = v.tail_at;
}

-- The balance while the flag is up.
pub record Balanced (q : SharedQueue) (kept hidden : ℕ) : Type 0 where
  pub valid : IsValid q
  pub room : q.empty + kept + q.current_load ≡ q.queue_size
  pub filled : q.current_load ≡ q.full + hidden

-- What is left of it when the semaphores have been posted to wake the threads.
pub record Within (q : SharedQueue) (pushes pops : ℕ) : Type 0 where
  pub valid : IsValid q
  pub room : q.current_load + pushes ≤ q.queue_size
  pub filled : pops ≤ q.current_load

-- A push into a queue with room, with the queue that it leaves.
abbrev pub pushed : SharedQueue → Message → SharedQueue
pushed q m = record q {
  buffer = set q.buffer q.tail m;
  tail = (q.tail + 1) % q.queue_size;
  added_count = (q.added_count + 1) % 2 ^ 32;
  current_load = (q.current_load + 1) % 2 ^ 32;
}

pub queue_push-pushed :
    (q : SharedQueue) (m : Message)
    → IsValid q
    → q.current_load < q.queue_size
    → queue_push q m ≡ done (success, pushed q m)
unfolding queue_push
queue_push-pushed q m v room =
    let tail_in = mod-lt (q.head + q.current_load) {m = q.queue_size} (omega arith) in
    ground (arith, v.storage, v.tail_at, tail_in)

pub pushed-IsValid :
    (q : SharedQueue) (m : Message)
    → IsValid q
    → q.current_load < q.queue_size
    → IsValid (pushed q m) × ((pushed q m).current_load ≡ q.current_load + 1)
pushed-IsValid q m v room = (
  record {
    storage = length-set q.buffer q.tail m ∙ v.storage;
    in_bound = v.in_bound;
    head_in = v.head_in;
    load_in = omega (arith, v.in_bound);
    tail_at = next;
  },
  omega (arith, v.in_bound),
)
  where
    next : (q.tail + 1) % q.queue_size ≡ (q.head + (q.current_load + 1) % 2 ^ 32) % q.queue_size
    next =
        ap (λ t. (t + 1) % q.queue_size) v.tail_at
        ∙ mod-add-mod (q.head + q.current_load) q.queue_size 1
        ∙ ap (λ t. t % q.queue_size) (omega (arith, v.in_bound))

abbrev pub popped : SharedQueue → SharedQueue
popped q = record q {
  head = (q.head + 1) % q.queue_size;
  extracted_count = (q.extracted_count + 1) % 2 ^ 32;
  current_load = (q.current_load + (2 ^ 32 - 1)) % 2 ^ 32;
}

pub queue_pop-popped :
    (q : SharedQueue)
    → IsValid q
    → queue_pop q ≡ done (get_or q.buffer q.head empty_message, popped q)
unfolding queue_pop
queue_pop-popped q v =
    rw
      (
        get_elem?-eq-get_or q.buffer q.head empty_message (omega (arith, v.storage, v.head_in)),
        queue_pop,
      )
      refl

pub popped-IsValid :
    (q : SharedQueue)
    → IsValid q
    → 0 < q.current_load
    → IsValid (popped q) × ((popped q).current_load ≡ q.current_load - 1)
popped-IsValid q v some_load = (
  record {
    storage = v.storage;
    in_bound = v.in_bound;
    head_in = mod-lt (q.head + 1) {m = q.queue_size} (omega (arith, v.head_in));
    load_in = omega (arith, v.load_in, v.in_bound);
    tail_at = next;
  },
  omega (arith, v.load_in, v.in_bound),
)
  where
    next :
        q.tail
        ≡ ((q.head + 1) % q.queue_size + (q.current_load + (2 ^ 32 - 1)) % 2 ^ 32) % q.queue_size
    next =
        v.tail_at
        ∙ ap (λ t. t % q.queue_size) (omega (arith, v.load_in, v.in_bound))
        ∙ sym (mod-add-mod (q.head + 1) q.queue_size ((q.current_load + (2 ^ 32 - 1)) % 2 ^ 32))
