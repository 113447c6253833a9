-- ===== src/Posix/Shrink.antt =====
-- LAB_5.1: `queue_resize` sets the semaphores anew without regard to the threads that have taken from
-- them.
use os_sp.Prelude.{
  ℕ, ◌%◌, ◌^◌, ◌<◌, ◌≤◌, ◌≡◌, ◌∙◌, refl, sym, ap, true, some, List, [], ◌∷◌, ltb, if-holds, get_or,
  arith, length, total,
}
use native.Mathlib.Nat.{mod-eq_of_lt}
use os_sp.Message.{Message, success}
use os_sp.Queue.{done, empty_message}
use os_sp.Queue.Contents.{contents}
use os_sp.Queue.Resize.{resized-contents, queue_resize-resized, length-filled, filled}
use os_sp.Semaphores.{consumer}
use os_sp.Posix.{
  SharedQueue, base, resize_locked, set_semaphores, Thread, thread, System, Place, stays, Resize,
  resizes,
}
use os_sp.Posix.Safety.{Safe}
use os_sp.Posix.Invariant.{reserved, unannounced, IsValid}

-- The queue after the part under the mutex.
abbrev pub resized : SharedQueue → ℕ → List Message → SharedQueue
resized q n raw = record q {
  buffer = filled (base q).current_load 0 (base q) raw;
  head = 0;
  tail = q.current_load;
  queue_size = n;
}

base-load_le : (q : SharedQueue) (n : ℕ) → q.current_load ≤ n → (base q).current_load ≤ n
base-load_le q n fits =
    if-holds (λ l. l ≤ n) (ltb q.current_load (2 ^ 31)) q.current_load 0 (λ _. fits)
      (λ _. omega arith)

resize_locked-resized :
    (q : SharedQueue) (n : ℕ) (raw : List Message)
    → IsValid q
    → 1 ≤ n
    → n ≤ 100
    → q.current_load ≤ n
    → resize_locked q n (some raw) ≡ done (success, resized q n raw)
unfolding resize_locked
resize_locked-resized q n raw v low high fits =
    rw
      (queue_resize-resized (base q) n raw v.storage (omega (arith, v.head_in)) low high
        (base-load_le q n fits))
      refl

resized-IsValid :
    (q : SharedQueue) (n : ℕ) (raw : List Message)
    → length raw ≡ n
    → n ≤ 100
    → q.current_load < n
    → IsValid (set_semaphores n (resized q n raw))
resized-IsValid q n raw len high fits = record {
  storage = length-filled (base q).current_load 0 (base q) raw ∙ len;
  in_bound = high;
  head_in = omega arith;
  load_in = omega arith;
  tail_at = sym (mod-eq_of_lt (omega arith)) ∙ ap (λ i. i % n) (omega arith);
}

-- Without a thread between its wait and its post, a resize to a size of at most 100 above the load,
-- with memory for it, can succeed with no step of a thread in it. The queue then has that size, the
-- same messages, and the balance as before.
pub Resize-quiet :
    (q : SharedQueue) (ts : List Thread) (n : ℕ) (raw : List Message)
    → Safe true q ts
    → total reserved ts ≡ 0
    → total unannounced ts ≡ 0
    → length raw ≡ n
    → n ≤ 100
    → q.current_load < n
    → (q' : SharedQueue) × Resize n
        (some raw)
        (record { running = true; queue = q; threads = ts })
        (record { running = true; queue = q'; threads = ts })
      × (q'.queue_size ≡ n)
      × Safe true q' ts
      × (contents (base q') ≡ contents (base q))
Resize-quiet q ts n raw b none_reserved none_hidden len high fits =
    let q1 = resized q n raw in
    (
      set_semaphores n q1,
      resizes true true q q1 q1 ts ts
          (resize_locked-resized q n raw b.valid (omega arith) high (omega arith))
          (stays (record { running = true; queue = q1; threads = ts })),
      refl,
      record {
        valid = resized-IsValid q n raw len high fits;
        room = omega (arith, none_reserved);
        filled = omega (arith, none_hidden);
      },
      resized-contents (base q) n raw len (base-load_le q n (omega arith)),
    )

-- Two consumers.
abbrev pair : Place → Message → Place → Message → List Thread
pair at m at' m' = thread consumer at m ∷ thread consumer at' m' ∷ []

abbrev two : SharedQueue → Place → Message → Place → Message → System
two q at m at' m' = record { running = true; queue = q; threads = pair at m at' m' }

abbrev oldest : SharedQueue → Message
oldest q = get_or q.buffer q.head empty_message
