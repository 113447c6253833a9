-- ===== src/Threads/Loops/Calls.antt =====
-- What the calls of LAB_5.2/src/producer.c and consumer.c to the queue leave.
use os_sp.Prelude.{◌<◌, ◌≡◌, refl, Bool, true, false, ◌⊎◌, inl, inr, [], ◌∷◌, arith, dec_lt}
use os_sp.Message.{Message, Status, success, failure}
use os_sp.Queue.{Outcome, done, blocked, fault, SharedQueue, empty_message, queue_push, queue_pop}
use os_sp.Queue.Invariant.{IsValid, pushed, popped, popped-IsValid}
use os_sp.Queue.Contents.{contents, pop_read-popped}
use os_sp.Queue.Waiting.{queue_push-at_once, pop_down_some, pop_down_empty}
use os_sp.Queue.Fifo.{push_full, pop_empty, pop_some}

-- What a call of `queue_push` leaves of a valid queue.
abbrev pub AfterPush : SharedQueue → Message → Outcome (Status × SharedQueue) → Type 0
AfterPush q m (done (success, q')) = (q' ≡ pushed q m) × (q.current_load < q.queue_size)
AfterPush q m (done (failure, q')) = q' ≡ q
AfterPush q m blocked = Unit
AfterPush q m fault = ⊥

pub queue_push-AfterPush :
    (running : Bool) (q : SharedQueue) (m : Message)
    → IsValid q
    → AfterPush q m (queue_push [] running q m)
queue_push-AfterPush false q m v = rw (queue_push-at_once [] q m v).1 refl
queue_push-AfterPush true q m v = elim (dec_lt q.current_load q.queue_size) [
  | yes room ↦ rw ((queue_push-at_once [] q m v).0 room) (refl, room)
  | no full ↦ rw (push_full q m (omega (arith, full))) tt
]

-- What a call of `queue_pop` leaves of a valid queue.
abbrev pub AfterPop : Bool → SharedQueue → Outcome (Message × SharedQueue) → Type 0
AfterPop running q (done (m, q')) =
    ((contents q ≡ m ∷ contents q') × IsValid q' × (q'.added_count ≡ q.added_count))
    ⊎ ((m ≡ empty_message) × (q' ≡ q) × (running ≡ false))
AfterPop running q blocked = Unit
AfterPop running q fault = ⊥

pub queue_pop-AfterPop :
    (running : Bool) (q : SharedQueue) → IsValid q → AfterPop running q (queue_pop [] running q)
queue_pop-AfterPop true q v = elim (dec_lt 0 q.current_load) [
  | yes some_load ↦
      let (m, read, rest) = pop_some q v some_load in
      rw read (inl (rest, popped-IsValid q v some_load, refl))
  | no none_left ↦ rw (pop_empty q (omega (arith, none_left))) tt
]
queue_pop-AfterPop false q v = elim (dec_lt 0 q.current_load) [
  | yes some_load ↦
      let (m, read, rest) = pop_read-popped q v some_load in
      rw (pop_down_some q m (popped q) some_load read)
        (inl (rest, popped-IsValid q v some_load, refl))
  | no none_left ↦ rw (pop_down_empty q (omega (arith, none_left))) (inr (refl, refl, refl))
]
