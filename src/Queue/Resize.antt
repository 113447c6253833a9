-- ===== src/Queue/Resize.antt =====
-- `queue_resize` of LAB_5.2/src/queue.c: its error returns, what a success keeps, and the size
-- that it accepts and that leaves the tail outside the buffer.
use os_sp.Prelude.{
  size_laws, ℕ, zero, suc, ◌+◌, ◌%◌, ◌≤◌, ◌<◌, ◌≡◌, ◌⊎◌, refl, ◌∙◌, sym, ap, Option, none, some,
  true, List, [], arith, length, length-set, get_or, set, get_or-set_self, get_or-set_ne,
  get_elem?-eq-get_or, tabulate-ext, dec_lt,
}
use native.Mathlib.Nat.{mod-lt, mod-eq_of_lt}
use os_sp.Message.{Message, success, failure}
use os_sp.Queue.{
  done, fault, SharedQueue, empty_message, copy_messages, queue_resize, pop_read, queue_push,
}
use os_sp.Queue.Invariant.{IsValid, popped}
use os_sp.Queue.Contents.{slot, contents}

-- The copy loop, when every read is inside the buffer.
pub filled : (n i : ℕ) → SharedQueue → List Message → List Message
filled zero i q new_buffer = new_buffer
filled (suc n) i q new_buffer = filled n (i + 1) q (set new_buffer i (slot q i))

copy_messages-filled :
    (n i : ℕ) (q : SharedQueue) (new_buffer : List Message)
    → length q.buffer ≡ q.queue_size
    → 0 < q.queue_size
    → copy_messages n i q new_buffer ≡ done (filled n i q new_buffer)
unfolding copy_messages filled
copy_messages-filled zero i q new_buffer len pos = refl
copy_messages-filled (suc n) i q new_buffer len pos =
    rw
      (
        get_elem?-eq-get_or q.buffer ((q.head + i) % q.queue_size) empty_message
            (omega (arith, mod-lt (q.head + i) pos, len)),
        copy_messages,
      )
      (copy_messages-filled n (i + 1) q (set new_buffer i (slot q i)) len pos)

pub length-filled :
    (n i : ℕ) (q : SharedQueue) (new_buffer : List Message)
    → length (filled n i q new_buffer) ≡ length new_buffer
unfolding filled
length-filled zero i q new_buffer = refl
length-filled (suc n) i q new_buffer =
    length-filled n (i + 1) q (set new_buffer i (slot q i)) ∙ length-set new_buffer i (slot q i)

filled-below :
    (n i j : ℕ) (q : SharedQueue) (new_buffer : List Message)
    → j < i
    → get_or (filled n i q new_buffer) j empty_message ≡ get_or new_buffer j empty_message
unfolding filled
filled-below zero i j q new_buffer p = refl
filled-below (suc n) i j q new_buffer p =
    filled-below n (i + 1) j q (set new_buffer i (slot q i)) (omega arith)
    ∙ get_or-set_ne new_buffer i j (slot q i) empty_message (omega arith)

filled-slot :
    (n i j : ℕ) (q : SharedQueue) (new_buffer : List Message)
    → i ≤ j
    → j < i + n
    → j < length new_buffer
    → get_or (filled n i q new_buffer) j empty_message ≡ slot q j
unfolding filled
filled-slot zero i j q new_buffer p r s = absurd (omega arith)
filled-slot (suc n) i j q new_buffer p r s = elim (dec_lt i j) [
  | yes later ↦
      filled-slot n (i + 1) j q (set new_buffer i (slot q i)) (omega arith) (omega arith)
        (grind size_laws)
  | no first ↦
      let e : i ≡ j = omega arith in
      filled-below n (i + 1) j q (set new_buffer i (slot q i)) (omega arith)
      ∙ ap (λ k. get_or (set new_buffer k (slot q k)) j empty_message) e
      ∙ get_or-set_self new_buffer j (slot q j) empty_message s
]

-- The queue that a successful resize leaves.
abbrev pub resized : SharedQueue → ℕ → List Message → SharedQueue
resized q new_size raw = record q {
  buffer = filled q.current_load 0 q raw;
  head = 0;
  tail = q.current_load;
  queue_size = new_size;
}

pub queue_resize-resized :
    (q : SharedQueue) (new_size : ℕ) (raw : List Message)
    → length q.buffer ≡ q.queue_size
    → 0 < q.queue_size
    → 1 ≤ new_size
    → new_size ≤ 100
    → q.current_load ≤ new_size
    → queue_resize q new_size (some raw) ≡ done (success, resized q new_size raw)
unfolding queue_resize
queue_resize-resized q new_size raw len pos low high fits =
    ground (arith, copy_messages-filled q.current_load 0 q raw len pos)

pub resized-contents :
    (q : SharedQueue) (new_size : ℕ) (raw : List Message)
    → length raw ≡ new_size
    → q.current_load ≤ new_size
    → contents (resized q new_size raw) ≡ contents q
resized-contents q new_size raw len fits =
    tabulate-ext (slot (resized q new_size raw)) (slot q) 0 q.current_load (λ j p below.
      ap (λ i. get_or (filled q.current_load 0 q raw) i empty_message)
        (ap (λ i. i % new_size) (omega arith) ∙ mod-eq_of_lt (omega arith))
      ∙ filled-slot q.current_load 0 j q raw p below (omega arith))

-- A resize to a size that is too small, too large or below the load, or without memory, returns
-- the error and changes nothing.
pub queue_resize-failure :
    (q : SharedQueue) (new_size : ℕ) (raw : Option (List Message))
    → (new_size < 1) ⊎ (100 < new_size) ⊎ (new_size < q.current_load) ⊎ (raw ≡ none)
    → queue_resize q new_size raw ≡ done (failure, q)
unfolding queue_resize
queue_resize-failure q new_size raw h = ground arith

-- With memory for it, a resize of a valid queue to a size of at most 100 above its load succeeds.
-- The new queue is valid, has the new size, and holds the same messages under the same counters.
pub queue_resize-contents :
    (q : SharedQueue) (new_size : ℕ) (raw : List Message)
    → IsValid q
    → length raw ≡ new_size
    → new_size ≤ 100
    → q.current_load < new_size
    → (q' : SharedQueue) × (queue_resize q new_size (some raw) ≡ done (success, q'))
      × IsValid q'
      × (contents q' ≡ contents q)
      × (q'.queue_size ≡ new_size)
      × (q'.added_count ≡ q.added_count)
      × (q'.extracted_count ≡ q.extracted_count)
queue_resize-contents q new_size raw v len high fits = (
  resized q new_size raw,
  queue_resize-resized q new_size raw v.storage v.positive (omega arith) high (omega arith),
  record {
    storage = length-filled q.current_load 0 q raw ∙ len;
    positive = omega arith;
    head_in = omega arith;
    load_in = omega arith;
    tail_at = sym (mod-eq_of_lt (omega arith)) ∙ ap (λ i. i % new_size) (omega arith);
    counted = v.counted;
  },
  resized-contents q new_size raw len (omega arith),
  refl,
  refl,
  refl,
)

-- With memory for it, a resize of a valid queue to exactly its load, from 1 to 100, is accepted
-- and puts the tail at the buffer's end. After the next pop, which succeeds, a push while the
-- program runs writes outside the buffer.
pub queue_resize-tail_overflow :
    (q : SharedQueue) (raw : List Message) (m : Message)
    → IsValid q
    → 1 ≤ q.current_load
    → q.current_load ≤ 100
    → length raw ≡ q.current_load
    → (q' : SharedQueue) × (q'' : SharedQueue) × (x : Message) × (queue_resize q q.current_load
          (some raw)
        ≡ done (success, q'))
      × (q'.tail ≡ q'.queue_size)
      × (pop_read q' ≡ done (x, q''))
      × (queue_push [] true q'' m ≡ fault)
unfolding queue_push pop_read
queue_resize-tail_overflow q raw m v low high len = (
  q',
  popped q',
  get_or q'.buffer 0 empty_message,
  queue_resize-resized q q.current_load raw v.storage v.positive low high (omega arith),
  refl,
  rw (get_elem?-eq-get_or q'.buffer 0 empty_message (omega (arith, whole)), pop_read),
  outside,
)
  where
    q' : SharedQueue
    q' = resized q q.current_load raw

    whole : length q'.buffer ≡ q.current_load
    whole = length-filled q.current_load 0 q raw ∙ len

    outside : queue_push [] true (popped q') m ≡ fault
    outside = ground (arith, whole)
