-- ===== src/Queue.antt =====
-- LAB_5.2/src/queue.c: the bounded queue with condition variables. The mutex makes each function
-- one step, but for the waits, which release it.
pub mod Invariant
pub mod Contents
pub mod Resize
pub mod Waiting
pub mod Fifo
pub mod Abstract
mod Tests
use os_sp.Prelude.{
  ℕ, zero, suc, ◌+◌, ◌-◌, ◌%◌, ◌≡◌, Bool, true, false, not, ◌&&◌, ◌||◌, Option, none, some, List,
  [], ◌∷◌, ltb, leb, ◌==◌, if◌then◌else◌, length, get_elem?, set, replicate,
}
use os_sp.Message.{Message, Status, success, failure}

-- `fault` is an access outside the buffer, `blocked` a call that still waits.
pub data Outcome {ℓ} (A : Type ℓ) : Type ℓ where
  done : A → Outcome A
  blocked : Outcome A
  fault : Outcome A

infixl 5 ◌>>=◌
abbrev pub ◌>>=◌ {ℓ κ} : {A : Type ℓ} {B : Type κ} → Outcome A → (A → Outcome B) → Outcome B
done a >>= f = f a
blocked >>= f = blocked
fault >>= f = fault

-- `SharedQueue`, without its mutex and condition variables. `buffer` has the slots allocated; the
-- counters, of type `int`, have no bound here.
pub record SharedQueue : Type 0 where
  pub buffer : List Message
  pub head : ℕ
  pub tail : ℕ
  pub added_count : ℕ
  pub extracted_count : ℕ
  pub current_load : ℕ
  pub queue_size : ℕ

-- `Message empty = {0}`
abbrev pub empty_message : Message
empty_message = record { type = 0; hash = 0; size = 0; payload = replicate 260 0 }

-- `raw` is the result of `malloc`; without memory the program exits.
unfoldable pub queue_init : Option (List Message) → ℕ → Option SharedQueue
queue_init none size = none
queue_init (some raw) size = some (record {
  buffer = raw;
  head = 0;
  tail = 0;
  added_count = 0;
  extracted_count = 0;
  current_load = 0;
  queue_size = size;
})

unfoldable pub queue_destroy : SharedQueue → SharedQueue
queue_destroy q = record q { buffer = []; head = 0; tail = 0; current_load = 0; queue_size = 0 }

abbrev pub is_full : SharedQueue → Bool
is_full q = leb q.queue_size q.current_load

-- What a wait finds when it has the mutex again: how it ended, the flag, and the queue as the
-- other threads left it.
pub record Wake : Type 0 where
  pub timed_out : Bool
  pub running : Bool
  pub queue : SharedQueue

-- The write of `queue_push`, after its loop.
pub push_write : SharedQueue → Message → Outcome SharedQueue
push_write q m =
    if ltb q.tail (length q.buffer)
    then done (record q {
      buffer = set q.buffer q.tail m;
      tail = (q.tail + 1) % q.queue_size;
      added_count = q.added_count + 1;
      current_load = q.current_load + 1;
    })
    else fault

push_end : Bool → SharedQueue → Message → Outcome (Status × SharedQueue)
unfolding push_write
push_end running q m =
    if running then (push_write q m >>= λ q'. done (success, q')) else done (failure, q)

-- `running` is `keep_running` as the call finds it. It is `blocked` if `wakes` ends before it does.
unfoldable pub queue_push :
    List Wake → Bool → SharedQueue → Message → Outcome (Status × SharedQueue)
unfolding push_end
queue_push [] running q m = if is_full q && running then blocked else push_end running q m
queue_push (w ∷ ws) running q m =
    let rest = queue_push ws w.running w.queue m in
    let woken = if w.timed_out && not w.running then done (failure, w.queue) else rest in
    if is_full q && running then woken else push_end running q m

-- The read of `queue_pop`, after its loop.
pub pop_read : SharedQueue → Outcome (Message × SharedQueue)
pop_read q = elim (get_elem? q.buffer q.head) [
  | none ↦ fault
  | some m ↦ done (
    m,
    record q {
      head = (q.head + 1) % q.queue_size;
      extracted_count = q.extracted_count + 1;
      current_load = q.current_load - 1;
    },
  )
]

pop_end : Bool → SharedQueue → Outcome (Message × SharedQueue)
unfolding pop_read
pop_end running q =
    if not running && q.current_load == 0 then done (empty_message, q) else pop_read q

unfoldable pub queue_pop : List Wake → Bool → SharedQueue → Outcome (Message × SharedQueue)
unfolding pop_end
queue_pop [] running q = if q.current_load == 0 && running then blocked else pop_end running q
queue_pop (w ∷ ws) running q =
    let rest = queue_pop ws w.running w.queue in
    let woken = if w.timed_out && not w.running then done (empty_message, w.queue) else rest in
    if q.current_load == 0 && running then woken else pop_end running q

-- `for (i = i; i < i + n; i++) new_buffer[i] = buffer[(head + i) % queue_size]`
pub copy_messages : (n i : ℕ) → SharedQueue → List Message → Outcome (List Message)
copy_messages zero i q new_buffer = done new_buffer
copy_messages (suc n) i q new_buffer = elim (get_elem? q.buffer ((q.head + i) % q.queue_size)) [
  | none ↦ fault
  | some m ↦ copy_messages n (i + 1) q (set new_buffer i m)
]

-- `raw` is the result of `malloc`.
unfoldable pub queue_resize :
    SharedQueue → ℕ → Option (List Message) → Outcome (Status × SharedQueue)
unfolding copy_messages
queue_resize q new_size raw =
    if ltb new_size 1 || ltb 100 new_size
    then done (failure, q)
    else if ltb new_size q.current_load
    then done (failure, q)
    else elim raw [
      | none ↦ done (failure, q)
      | some new_buffer ↦ copy_messages q.current_load 0 q new_buffer >>= λ copied. done (
        success,
        record q { buffer = copied; head = 0; tail = q.current_load; queue_size = new_size },
      )
    ]
