-- ===== src/Queue/Fifo.antt =====
-- A bounded first-in-first-out list as the specification of `SharedQueue` (LAB_5.2/src/queue.c),
-- for calls made one after another while the program runs.
use os_sp.Prelude.{
  ℕ, ◌≤◌, ◌<◌, ◌≡◌, refl, ap, true, List, [], ◌∷◌, ◌++◌, arith, ltb, length, if◌then◌else◌,
  Bool-cases, inl, inr,
}
use os_sp.Message.{Message}
use os_sp.Queue.{Outcome, done, blocked, ◌>>=◌, SharedQueue, queue_push, queue_pop, pop_end}
use os_sp.Queue.Invariant.{IsValid, pushed, popped, pushed-IsValid, popped-IsValid}
use os_sp.Queue.Contents.{contents, length-contents, contents-pushed, pop_read-popped}
use os_sp.Queue.Waiting.{queue_push-at_once}

pub data Op : Type 0 where
  put : Message → Op
  get : Op

-- The messages that the calls return; `blocked` if one of them has to wait.
pub run : SharedQueue → List Op → Outcome (List Message)
run q [] = done []
run q (put m ∷ ops) = queue_push [] true q m >>= λ r. run r.1 ops
run q (get ∷ ops) = queue_pop [] true q >>= λ r. run r.1 ops >>= λ out. done (r.0 ∷ out)

module _ (cap : ℕ) where
  -- The specification: at most `cap` messages, oldest first.
  pub fifo : List Message → List Op → Outcome (List Message)
  fifo xs [] = done []
  fifo xs (put m ∷ ops) =
      let rest = fifo (xs ++ m ∷ []) ops in if ltb (length xs) cap then rest else blocked
  fifo [] (get ∷ ops) = blocked
  fifo (x ∷ xs) (get ∷ ops) = fifo xs ops >>= λ out. done (x ∷ out)

pub push_full :
    (q : SharedQueue) (m : Message)
    → q.queue_size ≤ q.current_load
    → queue_push [] true q m ≡ blocked
unfolding queue_push
push_full q m h = ground arith

pub pop_empty : (q : SharedQueue) → q.current_load ≡ 0 → queue_pop [] true q ≡ blocked
unfolding queue_pop
pop_empty q h = ground arith

pub pop_some :
    (q : SharedQueue)
    → IsValid q
    → 0 < q.current_load
    → (m : Message) × (queue_pop [] true q ≡ done (m, popped q))
      × (contents q ≡ m ∷ contents (popped q))
unfolding queue_pop pop_end
pop_some q v some_load =
    let (m, read, rest) = pop_read-popped q v some_load in (m, ground (arith, read), rest)

pub contents-nil : (q : SharedQueue) → q.current_load ≡ 0 → contents q ≡ []
contents-nil q e = rw e

-- From a valid queue, every sequence of pushes and pops returns what the bounded list of its
-- contents returns, call for call, and waits exactly where that does.
pub run-fifo :
    (ops : List Op) (q : SharedQueue) → IsValid q → run q ops ≡ fifo q.queue_size (contents q) ops
unfolding run fifo
run-fifo [] q v = refl
run-fifo (put m ∷ ops) q v = elim (Bool-cases (ltb q.current_load q.queue_size)) [
  | inl room ↦
      let lt : q.current_load < q.queue_size = ground arith in
      rw (length-contents q, room, (queue_push-at_once [] q m v).0 lt, ← contents-pushed q m v lt)
        (run-fifo ops (pushed q m) (pushed-IsValid q m v lt))
  | inr full ↦ rw (length-contents q, full, push_full q m (ground arith))
]
run-fifo (get ∷ ops) q v = elim (Bool-cases (ltb 0 q.current_load)) [
  | inl some_load ↦
      let lt : 0 < q.current_load = ground arith in
      let (m, read, rest) = pop_some q v lt in
      rw (read, rest)
        (ap (λ r. r >>= λ out. done (m ∷ out)) (run-fifo ops (popped q) (popped-IsValid q v lt)))
  | inr none_left ↦ rw (pop_empty q (ground arith), contents-nil q (ground arith))
]
