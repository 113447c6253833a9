-- ===== src/Queue/Contents.antt =====
-- The messages that a `SharedQueue` (LAB_5.2/src/queue.c) holds, oldest first, and what the write
-- of `queue_push` and the read of `queue_pop` do to them.
use os_sp.Prelude.{
  ℕ, suc, ◌+◌, ◌-◌, ◌%◌, ◌<◌, ◌≡◌, ◌≢◌, ◌∙◌, sym, ap, ap₂, List, [], ◌∷◌, ◌++◌, arith, dec_lt,
  length, get_or, set, get_or-set_self, get_or-set_ne, get_elem?-eq-get_or, tabulate, tabulate-ext,
  tabulate-shift, tabulate-snoc, length-tabulate,
}
use native.Mathlib.Nat.{mod-eq_of_lt, mod-add-mod, mod-eq-sub-mod}
use os_sp.Message.{Message}
use os_sp.Queue.{done, SharedQueue, empty_message, pop_read}
use os_sp.Queue.Invariant.{IsValid, pushed, popped}

-- The message in the slot that is `i` places after the head.
abbrev pub slot : SharedQueue → ℕ → Message
slot q i = get_or q.buffer ((q.head + i) % q.queue_size) empty_message

abbrev pub contents : SharedQueue → List Message
contents q = tabulate (slot q) 0 q.current_load

pub length-contents : (q : SharedQueue) → length (contents q) ≡ q.current_load
length-contents q = length-tabulate (slot q) 0 q.current_load

-- Two places at most a buffer's length apart are two slots.
mod_ne : (h i j s : ℕ) → h < s → i < j → j < s → (h + i) % s ≢ (h + j) % s
mod_ne h i j s hh hi hj e = elim (dec_lt (h + j) s) [
  | yes p ↦
      omega
        (arith, mod-eq_of_lt {n = h + i} {m = s} (omega arith), mod-eq_of_lt {n = h + j} {m = s} p)
  | no p ↦ elim (dec_lt (h + i) s) [
    | yes q ↦ omega (
      arith,
      mod-eq_of_lt q,
      mod-eq-sub-mod {n = h + j} {m = s} (omega arith),
      mod-eq_of_lt {n = h + j - s} {m = s} (omega arith),
    )
    | no q ↦ omega (
      arith,
      mod-eq-sub-mod {n = h + i} {m = s} (omega arith),
      mod-eq_of_lt {n = h + i - s} {m = s} (omega arith),
      mod-eq-sub-mod {n = h + j} {m = s} (omega arith),
      mod-eq_of_lt {n = h + j - s} {m = s} (omega arith),
    )
  ]
]

-- A push into a queue that is not full appends its message.
pub contents-pushed :
    (q : SharedQueue) (m : Message)
    → IsValid q
    → q.current_load < q.queue_size
    → contents (pushed q m) ≡ contents q ++ m ∷ []
contents-pushed q m v room =
    ap (tabulate (slot (pushed q m)) 0) {y = suc q.current_load} (omega arith)
    ∙ tabulate-snoc (slot (pushed q m)) 0 q.current_load
    ∙ ap₂ (λ xs x. xs ++ x ∷ []) old new
  where
    old : tabulate (slot (pushed q m)) 0 q.current_load ≡ contents q
    old = tabulate-ext (slot (pushed q m)) (slot q) 0 q.current_load (λ j p below.
        get_or-set_ne q.buffer q.tail ((q.head + j) % q.queue_size) m empty_message (λ e.
          mod_ne q.head j q.current_load q.queue_size v.head_in (omega arith) room
            (sym e ∙ v.tail_at)))

    new : slot (pushed q m) (0 + q.current_load) ≡ m
    new =
        ap (λ i. get_or (set q.buffer q.tail m) i empty_message)
          (ap (λ l. (q.head + l) % q.queue_size) (omega arith) ∙ sym v.tail_at)
        ∙ get_or-set_self q.buffer q.tail m empty_message
            (omega (arith, v.storage, v.tail_at, v.positive))

abbrev pub oldest : SharedQueue → Message
oldest q = get_or q.buffer q.head empty_message

pub contents-popped :
    (q : SharedQueue) → IsValid q → 0 < q.current_load → contents q ≡ oldest q ∷ contents (popped q)
contents-popped q v some_load =
    ap (tabulate (slot q) 0) pred_load
    ∙ ap₂ (λ x xs. x ∷ xs)
        (ap (λ i. get_or q.buffer i empty_message)
          (ap (λ i. i % q.queue_size) (omega arith) ∙ mod-eq_of_lt v.head_in))
        (tabulate-shift (slot q) (slot (popped q)) (0 + 1) 0 (q.current_load - 1) (λ k p.
          ap (λ i. get_or q.buffer i empty_message)
            (ap (λ i. i % q.queue_size) (omega arith)
              ∙ sym (mod-add-mod (q.head + 1) q.queue_size (0 + k)))))
  where
    pred_load : q.current_load ≡ suc (q.current_load - 1)
    pred_load = omega arith

-- A pop from a queue that is not empty returns its first message and leaves the rest.
pub pop_read-popped :
    (q : SharedQueue)
    → IsValid q
    → 0 < q.current_load
    → (m : Message) × (pop_read q ≡ done (m, popped q)) × (contents q ≡ m ∷ contents (popped q))
unfolding pop_read
pop_read-popped q v some_load = (
  oldest q,
  rw (
    get_elem?-eq-get_or q.buffer q.head empty_message (omega (arith, v.storage, v.head_in)),
    pop_read,
  ),
  contents-popped q v some_load,
)
