-- ===== src/Queue/Waiting.antt =====
-- The waits of `queue_push` and `queue_pop` (LAB_5.2/src/queue.c): with every observed queue valid,
-- what a call can return, and when it still waits.
use os_sp.Prelude.{
  ◌+◌, ◌<◌, ◌≡◌, refl, subst, leb, Bool, true, false, not, ◌&&◌, List, [], ◌∷◌, ◌++◌, arith, ◌==◌,
  Bool-cases, inl, inr, All,
}
use os_sp.Message.{Message, Status, success, failure}
use os_sp.Queue.{
  Outcome, done, blocked, SharedQueue, Wake, empty_message, is_full, pop_read, push_end, pop_end,
  queue_push, queue_pop,
}
use os_sp.Queue.Invariant.{IsValid, pushed, push_write-pushed, pushed-IsValid}
use os_sp.Queue.Contents.{contents, contents-pushed}

-- What a call comes to: the queue at its start, or the one that a wait observes, if the call has
-- waited at each queue before it. `waits` is the test of its loop.
pub data Comes (waits : Bool → SharedQueue → Bool)
    : Bool → SharedQueue → List Wake → Bool → SharedQueue → Type 0 where
  at_once : (f : Bool) (q : SharedQueue) (ws : List Wake) → Comes waits f q ws f q
  after_wait :
      (f g : Bool) (q p : SharedQueue) (w : Wake) (ws : List Wake)
      → waits f q ≡ true
      → Comes waits w.running w.queue ws g p
      → Comes waits f q (w ∷ ws) g p

-- The flag that a wait observed is down.
Comes-stop :
    (waits : Bool → SharedQueue → Bool) (f : Bool) (q : SharedQueue) (w : Wake) (ws : List Wake)
    → waits f q ≡ true
    → w.running ≡ false
    → Comes waits f q (w ∷ ws) false w.queue
Comes-stop waits f q w ws wait down =
    subst (λ g. Comes waits f q (w ∷ ws) g w.queue) down
      (after_wait f w.running q w.queue w ws wait (at_once w.running w.queue ws))

-- The tests of the two loops.
abbrev pub push_waits : Bool → SharedQueue → Bool
push_waits f q = leb q.queue_size q.current_load && f

abbrev pub pop_waits : Bool → SharedQueue → Bool
pop_waits f q = q.current_load == 0 && f

-- Every queue that the call observes makes it wait.
abbrev pub AllWait : (Bool → SharedQueue → Bool) → Bool → SharedQueue → List Wake → Type 0
AllWait waits f q ws = (waits f q ≡ true) × All (λ w. waits w.running w.queue ≡ true) ws

-- What a call of `queue_push` may end in: its message appended to the queue that it came to with
-- the flag up and with room; an error, with the queue that it came to with the flag down; or a wait
-- that goes on.
pub data Pushed (f : Bool) (q : SharedQueue) (ws : List Wake) (m : Message)
    : Outcome (Status × SharedQueue) → Type 0 where
  appended :
      (p q' : SharedQueue)
      → Comes push_waits f q ws true p
      → p.current_load < p.queue_size
      → IsValid q'
      → contents q' ≡ contents p ++ m ∷ []
      → q'.added_count ≡ p.added_count + 1
      → q'.extracted_count ≡ p.extracted_count
      → Pushed f q ws m (done (success, q'))
  stopped :
      (p : SharedQueue)
      → Comes push_waits f q ws false p
      → IsValid p
      → Pushed f q ws m (done (failure, p))
  waiting : AllWait push_waits f q ws → Pushed f q ws m blocked

Pushed-after_wait :
    (f : Bool) (q : SharedQueue) (w : Wake) (ws : List Wake) (m : Message)
    (o : Outcome (Status × SharedQueue))
    → push_waits f q ≡ true
    → Pushed w.running w.queue ws m o
    → Pushed f q (w ∷ ws) m o
Pushed-after_wait f q w ws m _ wait (appended p q' c room v rest added extracted) =
    appended p q' (after_wait f true q p w ws wait c) room v rest added extracted
Pushed-after_wait f q w ws m _ wait (stopped p c v) =
    stopped p (after_wait f false q p w ws wait c) v
Pushed-after_wait f q w ws m _ wait (waiting all) = waiting (wait, all)

push_end-Pushed :
    (running : Bool) (q : SharedQueue) (ws : List Wake) (m : Message)
    → IsValid q
    → push_waits running q ≡ false
    → Pushed running q ws m (push_end running q m)
unfolding push_end
push_end-Pushed false q ws m v e = stopped q (at_once false q ws) v
push_end-Pushed true q ws m v e =
    let room : q.current_load < q.queue_size = ground arith in
    rw (push_write-pushed q m v) (
      appended q (pushed q m) (at_once true q ws) room (pushed-IsValid q m v room)
        (contents-pushed q m v room) refl refl)

-- However the waits of `queue_push` go, if every queue that it observes is valid, then it writes
-- inside the buffer only. It waits exactly while the queue that it observes is full and the flag is
-- up. The first other queue it either leaves as it is and returns the error, the flag being down,
-- or it appends its message to it, the flag being up.
pub queue_push-Pushed :
    (wakes : List Wake) (running : Bool) (q : SharedQueue) (m : Message)
    → IsValid q
    → All (λ w. IsValid w.queue) wakes
    → Pushed running q wakes m (queue_push wakes running q m)
unfolding queue_push
queue_push-Pushed [] running q m v vs = elim (Bool-cases (is_full q && running)) [
  | inl wait ↦ rw wait (waiting (wait, tt))
  | inr go ↦ rw go (push_end-Pushed running q [] m v go)
]
queue_push-Pushed (w ∷ ws) running q m v vs = elim (Bool-cases (is_full q && running)) [
  | inl wait ↦ elim (Bool-cases (w.timed_out && not w.running)) [
    | inl stop ↦
        rw (wait, stop)
          (stopped w.queue (Comes-stop push_waits running q w ws wait (ground arith)) vs.0)
    | inr again ↦
        rw (wait, again)
          (Pushed-after_wait running q w ws m (queue_push ws w.running w.queue m) wait
            (queue_push-Pushed ws w.running w.queue m vs.0 vs.1))
  ]
  | inr go ↦ rw go (push_end-Pushed running q (w ∷ ws) m v go)
]

-- With the flag up and room in the queue, `queue_push` does not wait; with the flag down it
-- returns the error at once.
pub queue_push-at_once :
    (wakes : List Wake) (q : SharedQueue) (m : Message)
    → IsValid q
    → (q.current_load < q.queue_size → queue_push wakes true q m ≡ done (success, pushed q m))
      × (queue_push wakes false q m ≡ done (failure, q))
unfolding queue_push push_end
queue_push-at_once [] q m v = ((λ room. ground (arith, push_write-pushed q m v)), ground arith)
queue_push-at_once (w ∷ ws) q m v =
    ((λ room. ground (arith, push_write-pushed q m v)), ground arith)

-- One of the waits times out, with the flag down.
pub data TimesOut (waits : Bool → SharedQueue → Bool)
    : Bool → SharedQueue → List Wake → SharedQueue → Type 0 where
  now :
      (f : Bool) (q : SharedQueue) (w : Wake) (ws : List Wake)
      → waits f q ≡ true
      → w.timed_out ≡ true
      → w.running ≡ false
      → TimesOut waits f q (w ∷ ws) w.queue
  later :
      (f : Bool) (q p : SharedQueue) (w : Wake) (ws : List Wake)
      → waits f q ≡ true
      → TimesOut waits w.running w.queue ws p
      → TimesOut waits f q (w ∷ ws) p

-- What a call of `queue_pop` may end in: the oldest message of the queue that it came to; the empty
-- message, with the empty queue that it came to with the flag down, or with the queue after a wait
-- that timed out with the flag down; or a wait that goes on.
pub data Popped (f : Bool) (q : SharedQueue) (ws : List Wake)
    : Outcome (Message × SharedQueue) → Type 0 where
  taken :
      (g : Bool) (p q' : SharedQueue) (m : Message)
      → Comes pop_waits f q ws g p
      → contents p ≡ m ∷ contents q'
      → IsValid q'
      → q'.extracted_count ≡ p.extracted_count + 1
      → q'.added_count ≡ p.added_count
      → Popped f q ws (done (m, q'))
  stopped :
      (p : SharedQueue)
      → Comes pop_waits f q ws false p
      → p.current_load ≡ 0
      → IsValid p
      → Popped f q ws (done (empty_message, p))
  timed_out :
      (p : SharedQueue)
      → TimesOut pop_waits f q ws p
      → IsValid p
      → Popped f q ws (done (empty_message, p))
  waiting : AllWait pop_waits f q ws → Popped f q ws blocked

-- With the flag down `queue_pop` does not wait.
pub pop_down_some :
    (q : SharedQueue) (m : Message) (q' : SharedQueue)
    → 0 < q.current_load
    → pop_read q ≡ done (m, q')
    → queue_pop [] false q ≡ done (m, q')
unfolding queue_pop pop_end
pop_down_some q m q' some_load read = ground (arith, read)

pub pop_down_empty :
    (q : SharedQueue) → q.current_load ≡ 0 → queue_pop [] false q ≡ done (empty_message, q)
unfolding queue_pop pop_end
pop_down_empty q e = ground arith
