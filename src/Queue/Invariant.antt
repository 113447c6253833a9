-- ===== src/Queue/Invariant.antt =====
-- The representation invariant of `SharedQueue` (LAB_5.2/src/common.h), for push and pop.
use os_sp.Prelude.{
  ℕ, ◌+◌, ◌-◌, ◌%◌, ◌≤◌, ◌<◌, ◌≡◌, refl, ◌∙◌, sym, ap, true, some, List, arith, length, length-set,
  set,
}
use os_sp.Message.{Message}
use os_sp.Queue.{done, fault, is_full, SharedQueue, queue_init, queue_destroy, push_write}
use native.Mathlib.Nat.{mod-lt, mod-eq_of_lt, mod-add-mod}

pub record IsValid (q : SharedQueue) : Type 0 where
  pub storage : length q.buffer ≡ q.queue_size
  pub positive : 0 < q.queue_size
  pub head_in : q.head < q.queue_size
  pub load_in : q.current_load ≤ q.queue_size
  pub tail_at : q.tail ≡ (q.head + q.current_load) % q.queue_size
  -- No message is lost or made up.
  pub counted : q.added_count ≡ q.extracted_count + q.current_load

pub queue_init-IsValid :
    (raw : List Message) (size : ℕ)
    → length raw ≡ size
    → 0 < size
    → (q : SharedQueue) × (queue_init (some raw) size ≡ some q) × IsValid q × (q.current_load ≡ 0)
unfolding queue_init
queue_init-IsValid raw size len pos = (
  record {
    buffer = raw;
    head = 0;
    tail = 0;
    added_count = 0;
    extracted_count = 0;
    current_load = 0;
    queue_size = size;
  },
  refl,
  record {
    storage = len;
    positive = pos;
    head_in = pos;
    load_in = omega arith;
    tail_at = omega (arith, mod-eq_of_lt {n = 0} {m = size} pos);
    counted = refl;
  },
  refl,
)

pub queue_init-added :
    (raw : List Message) (size : ℕ) (queue : SharedQueue)
    → queue_init (some raw) size ≡ some queue
    → queue.added_count ≡ 0
unfolding queue_init
queue_init-added raw size queue e = ground (arith, e)

-- The queue after a write that stays inside the buffer.
abbrev pub pushed : SharedQueue → Message → SharedQueue
pushed q m = record q {
  buffer = set q.buffer q.tail m;
  tail = (q.tail + 1) % q.queue_size;
  added_count = q.added_count + 1;
  current_load = q.current_load + 1;
}

abbrev pub popped : SharedQueue → SharedQueue
popped q = record q {
  head = (q.head + 1) % q.queue_size;
  extracted_count = q.extracted_count + 1;
  current_load = q.current_load - 1;
}

pub push_write-pushed :
    (q : SharedQueue) (m : Message) → IsValid q → push_write q m ≡ done (pushed q m)
unfolding push_write
push_write-pushed q m v = ground arith

pub pushed-IsValid :
    (q : SharedQueue) (m : Message)
    → IsValid q
    → q.current_load < q.queue_size
    → IsValid (pushed q m)
pushed-IsValid q m v room = record {
  storage = length-set q.buffer q.tail m ∙ v.storage;
  positive = v.positive;
  head_in = v.head_in;
  load_in = omega arith;
  tail_at = next;
  counted = omega (arith, v.counted);
}
  where
    next : (q.tail + 1) % q.queue_size ≡ (q.head + (q.current_load + 1)) % q.queue_size
    next =
        ap (λ t. (t + 1) % q.queue_size) v.tail_at
        ∙ mod-add-mod (q.head + q.current_load) q.queue_size 1
        ∙ ap (λ t. t % q.queue_size) (omega arith)

pub popped-IsValid : (q : SharedQueue) → IsValid q → 0 < q.current_load → IsValid (popped q)
popped-IsValid q v some_load = record {
  storage = v.storage;
  positive = v.positive;
  head_in = mod-lt (q.head + 1) v.positive;
  load_in = omega (arith, v.load_in);
  tail_at = next;
  counted = omega (arith, v.counted);
}
  where
    next : q.tail ≡ ((q.head + 1) % q.queue_size + (q.current_load - 1)) % q.queue_size
    next =
        v.tail_at
        ∙ ap (λ t. t % q.queue_size) (omega arith)
        ∙ sym (mod-add-mod (q.head + 1) q.queue_size (q.current_load - 1))

-- Destroying frees the buffer and leaves a queue that is full for every later push.
pub queue_destroy-push_write :
    (q : SharedQueue) (m : Message)
    → (is_full (queue_destroy q) ≡ true) × (push_write (queue_destroy q) m ≡ fault)
unfolding queue_destroy push_write
queue_destroy-push_write q m = (refl, refl)
