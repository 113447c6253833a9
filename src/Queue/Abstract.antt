-- ===== src/Queue/Abstract.antt =====
-- The abstract queue of LAB_5.2/src/queue.c: valid queues up to what a caller can see of them, the
-- messages in order and the size. Where the head stands and what the free slots hold is forgotten.
use os_sp.Prelude.{
  ℕ, ◌<◌, ◌≡◌, ◌∙◌, refl, sym, ap, ap₂, true, List, [], ◌∷◌, ◌++◌, arith, ltb, length, drop,
  if◌then◌else◌, dec_lt, ltb→lt, ltb→le, if-holds,
}
use mathlib.Core.Quot
use mathlib.Core.Quot.{Quot, Quot-set}
use os_sp.Message.{Message, success}
use os_sp.Queue.{done, SharedQueue, queue_push}
use os_sp.Queue.Invariant.{IsValid, pushed, popped, pushed-IsValid, popped-IsValid}
use os_sp.Queue.Contents.{contents, length-contents, contents-pushed}
use os_sp.Queue.Waiting.{queue_push-at_once}
use os_sp.Queue.Fifo.{pop_some, contents-nil}

pub record ValidQueue : Type 0 where
  pub queue : SharedQueue
  pub valid : IsValid queue

abbrev pub SameView : ValidQueue → ValidQueue → Type 0
SameView v w = (contents v.queue ≡ contents w.queue) × (v.queue.queue_size ≡ w.queue.queue_size)

abbrev pub AbstractQueue : Type 0
AbstractQueue = Quot SameView

abbrev pub view : ValidQueue → AbstractQueue
view v = Quot.mk v

pub message_lists : IsSet (List Message)
message_lists = hlevel

pub sizes : IsSet ℕ
sizes = hlevel

abbrev pub items : AbstractQueue → List Message
items = Quot.lift message_lists (λ v. contents v.queue) (λ v w h. h.0)

abbrev pub capacity : AbstractQueue → ℕ
capacity = Quot.lift sizes (λ v. v.queue.queue_size) (λ v w h. h.1)

mk_ext :
    (v : ValidQueue) (b : AbstractQueue)
    → contents v.queue ≡ items b
    → v.queue.queue_size ≡ capacity b
    → Quot.mk v ≡ b
mk_ext v =
    Quot.ind {β = λ b. contents v.queue ≡ items b → v.queue.queue_size ≡ capacity b → Quot.mk v ≡ b}
      (λ b. hlevel (Quot-set {r = SameView}))
      (λ w same_items same_size. Quot.sound (same_items, same_size))

-- Two abstract queues with the same messages and the same size are equal.
pub AbstractQueue-ext : (a b : AbstractQueue) → items a ≡ items b → capacity a ≡ capacity b → a ≡ b
AbstractQueue-ext a b =
    Quot.ind {β = λ a. items a ≡ items b → capacity a ≡ capacity b → a ≡ b}
      (λ a. hlevel (Quot-set {r = SameView})) (λ v. mk_ext v b) a

-- `queue_push` where it does not wait; where it would wait, nothing.
push_by :
    (m : Message) (v : ValidQueue) → Dec (v.queue.current_load < v.queue.queue_size) → ValidQueue
push_by m v (yes room) = record {
  queue = pushed v.queue m;
  valid = pushed-IsValid v.queue m v.valid room;
}
push_by m v (no full) = v

pop_by : (v : ValidQueue) → Dec (0 < v.queue.current_load) → ValidQueue
pop_by v (yes some_load) = record {
  queue = popped v.queue;
  valid = popped-IsValid v.queue v.valid some_load;
}
pop_by v (no none_there) = v

-- The same on lists.
abbrev pub push_list : Message → List Message → ℕ → List Message
push_list m xs size = if ltb (length xs) size then xs ++ m ∷ [] else xs

push_by-view :
    (m : Message) (v : ValidQueue) (d : Dec (v.queue.current_load < v.queue.queue_size))
    → (contents (push_by m v d).queue ≡ push_list m (contents v.queue) v.queue.queue_size)
      × ((push_by m v d).queue.queue_size ≡ v.queue.queue_size)
unfolding push_by
push_by-view m v (yes room) = (
  if-holds (λ xs. contents (pushed v.queue m) ≡ xs)
      (ltb (length (contents v.queue)) v.queue.queue_size) (contents v.queue ++ m ∷ [])
      (contents v.queue) (λ _. contents-pushed v.queue m v.valid room)
      (λ full. absurd (
        omega (
          arith,
          room,
          length-contents v.queue,
          ltb→le (length (contents v.queue)) v.queue.queue_size full,
        ))),
  refl,
)
push_by-view m v (no full) = (
  if-holds (λ xs. contents v.queue ≡ xs) (ltb (length (contents v.queue)) v.queue.queue_size)
      (contents v.queue ++ m ∷ []) (contents v.queue)
      (λ room. absurd (
        full (
          omega (
            arith,
            length-contents v.queue,
            ltb→lt (length (contents v.queue)) v.queue.queue_size room,
          ))))
      (λ _. refl),
  refl,
)

pop_by-view :
    (v : ValidQueue) (d : Dec (0 < v.queue.current_load))
    → (contents (pop_by v d).queue ≡ drop 1 (contents v.queue))
      × ((pop_by v d).queue.queue_size ≡ v.queue.queue_size)
unfolding pop_by
pop_by-view v (yes some_load) =
    let (m, _, taken) = pop_some v.queue v.valid some_load in (sym (ap (drop 1) taken), refl)
pop_by-view v (no none_there) =
    let nothing = contents-nil v.queue (omega (arith, none_there)) in
    (nothing ∙ sym (ap (drop 1) nothing), refl)

abbrev push_valid : Message → ValidQueue → ValidQueue
push_valid m v = push_by m v (dec_lt v.queue.current_load v.queue.queue_size)

abbrev pop_valid : ValidQueue → ValidQueue
pop_valid v = pop_by v (dec_lt 0 v.queue.current_load)

-- The calls on abstract queues.
pub enqueue : Message → AbstractQueue → AbstractQueue
enqueue m =
    Quot.lift Quot-set (λ v. Quot.mk (push_valid m v))
      (λ v w same.
        let (items_v, size_v) = push_by-view m v (dec_lt v.queue.current_load v.queue.queue_size) in
        let (items_w, size_w) = push_by-view m w (dec_lt w.queue.current_load w.queue.queue_size) in
        Quot.sound
          (items_v ∙ ap₂ (push_list m) same.0 same.1 ∙ sym items_w, size_v ∙ same.1 ∙ sym size_w))

pub dequeue : AbstractQueue → AbstractQueue
dequeue =
    Quot.lift Quot-set (λ v. Quot.mk (pop_valid v))
      (λ v w same.
        let (items_v, size_v) = pop_by-view v (dec_lt 0 v.queue.current_load) in
        let (items_w, size_w) = pop_by-view w (dec_lt 0 w.queue.current_load) in
        Quot.sound (items_v ∙ ap (drop 1) same.0 ∙ sym items_w, size_v ∙ same.1 ∙ sym size_w))

-- A push into an abstract queue with room appends the message, and a pop drops the oldest.
pub enqueue-items :
    (m : Message) (a : AbstractQueue)
    → (items (enqueue m a) ≡ push_list m (items a) (capacity a))
      × (items (dequeue a) ≡ drop 1 (items a))
unfolding enqueue dequeue
enqueue-items m =
    Quot.ind
      {β = λ a.
        (items (enqueue m a) ≡ push_list m (items a) (capacity a))
        × (items (dequeue a) ≡ drop 1 (items a))}
      (λ a. hlevel)
      (λ v. (
        (push_by-view m v (dec_lt v.queue.current_load v.queue.queue_size)).0,
        (pop_by-view v (dec_lt 0 v.queue.current_load)).0,
      ))

-- With the flag up and room in it, `queue_push` takes a valid queue to a representative of the
-- abstract queue with the message behind the others.
pub queue_push-enqueue :
    (m : Message) (v : ValidQueue)
    → v.queue.current_load < v.queue.queue_size
    → (w : ValidQueue) × (queue_push [] true v.queue m ≡ done (success, w.queue))
      × (view w ≡ enqueue m (view v))
unfolding enqueue push_by
queue_push-enqueue m v room =
    let w : ValidQueue = record {
      queue = pushed v.queue m;
      valid = pushed-IsValid v.queue m v.valid room;
    } in
    let (same_items, same_size) = push_by-view m v (yes room) in
    let (items_v, size_v) = push_by-view m v (dec_lt v.queue.current_load v.queue.queue_size) in
    (
      w,
      (queue_push-at_once [] v.queue m v.valid).0 room,
      Quot.sound (same_items ∙ sym items_v, same_size ∙ sym size_v),
    )
