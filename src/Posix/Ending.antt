-- ===== src/Posix/Ending.antt =====
-- LAB_5.1: how the threads end when the flag is down.
use os_sp.Prelude.{
  ℕ, ◌+◌, ◌*◌, ◌<◌, ◌≤◌, ◌≡◌, ◌⊎◌, inl, inr, refl, ap, subst, false, List, [], ◌∷◌, ◌++◌, arith,
  All, length, total, total-middle, get_or,
}
use os_sp.Message.{Message, success, failure}
use os_sp.Queue.{empty_message}
use os_sp.Semaphores.{Role, producer, consumer}
use os_sp.Posix.{
  SharedQueue, looping, waiting, checking, moving, posting_empty, posting_full, finished, Place,
  Thread, thread, give_back, Act, leaves, gets_slot, gives_up, cancelled_asleep, cancelled_waiting,
  returns, pushes, pops, posts_empty, posts_full, System, acts, wakes_all, Reachable, continues,
}
use os_sp.Posix.Invariant.{pushed, popped}
use os_sp.Posix.Safety.{Succeeds, Reachable-Succeeds}

-- The steps that are left to a thread.
abbrev place_rank : Place → ℕ
place_rank looping = 1
place_rank waiting = 2
place_rank checking = 1
place_rank moving = 3
place_rank posting_empty = 2
place_rank posting_full = 2
place_rank finished = 0

abbrev rank : Thread → ℕ
rank t = place_rank t.place

place_rank_le : (at : Place) → place_rank at ≤ 3
place_rank_le looping = omega arith
place_rank_le waiting = omega arith
place_rank_le checking = omega arith
place_rank_le moving = omega arith
place_rank_le posting_empty = omega arith
place_rank_le posting_full = omega arith
place_rank_le finished = omega arith

Act-rank : (q q' : SharedQueue) (t t' : Thread) → Act false q t q' t' → rank t' < rank t
Act-rank q _ _ _ (leaves _ r m) = omega arith
Act-rank q _ _ _ (gets_slot _ _ r m p) = omega arith
Act-rank q _ _ _ (gives_up _ r m) = omega arith
Act-rank q _ _ _ (cancelled_asleep _ _ r m) = omega arith
Act-rank q _ _ _ (cancelled_waiting _ _ r m) = omega arith
Act-rank q _ _ _ (returns _ r m) = omega arith
Act-rank q _ _ _ (pushes _ _ q' m success e) = omega arith
Act-rank q _ _ _ (pushes _ _ q' m failure e) = omega arith
Act-rank q _ _ _ (pops _ _ q' m m' e) = omega arith
Act-rank q _ _ _ (posts_empty _ _ r m) = omega arith
Act-rank q _ _ _ (posts_full _ _ r m) = omega arith

-- A run with the flag down, in which threads act `n` times and the semaphores are posted.
pub data Winds : ℕ → System → System → Type 0 where
  rests : (s : System) → Winds 0 s s
  one_acts :
      (n : ℕ) (s : System) (before after : List Thread) (q q' : SharedQueue) (t t' : Thread)
      → Winds n s (record { running = false; queue = q; threads = before ++ t ∷ after })
      → Act false q t q' t'
      → Winds (n + 1) s (record { running = false; queue = q'; threads = before ++ t' ∷ after })
  posts :
      (n : ℕ) (s : System) (q : SharedQueue) (ts : List Thread) (r : Role)
      → Winds n s (record { running = false; queue = q; threads = ts })
      → Winds n s (record { running = false; queue = give_back r q; threads = ts })

Winds-rank : (n : ℕ) (s t : System) → Winds n s t → n + total rank t.threads ≤ total rank s.threads
Winds-rank _ s _ (rests _) = omega arith
Winds-rank _ s _ (one_acts n _ before after q q' t t' run a) = omega (
  arith,
  Winds-rank n s (record { running = false; queue = q; threads = before ++ t ∷ after }) run,
  Act-rank q q' t t' a,
  total-middle rank before after t,
  total-middle rank before after t',
)
Winds-rank n s _ (posts _ _ q ts r run) =
    Winds-rank n s (record { running = false; queue = q; threads = ts }) run

total-rank_le : (ts : List Thread) → total rank ts ≤ 3 * length ts
total-rank_le [] = omega arith
total-rank_le (t ∷ ts) = omega (arith, place_rank_le t.place, total-rank_le ts)

Winds-Reachable : (n : ℕ) (s t : System) → Winds n s t → Reachable s → Reachable t
Winds-Reachable _ s _ (rests _) reached = reached
Winds-Reachable _ s _ (one_acts n _ before after q q' t t' run a) reached =
    let earlier : System = record { running = false; queue = q; threads = before ++ t ∷ after } in
    continues earlier (record { running = false; queue = q'; threads = before ++ t' ∷ after })
      (Winds-Reachable n s earlier run reached) (acts before after false q q' t t' a)
Winds-Reachable n s _ (posts _ _ q ts r run) reached =
    let earlier : System = record { running = false; queue = q; threads = ts } in
    continues earlier (record { running = false; queue = give_back r q; threads = ts })
      (Winds-Reachable n s earlier run reached) (wakes_all q ts r)

abbrev pub CanAct : SharedQueue → Thread → Type 0
CanAct q t = (q' : SharedQueue) × (t' : Thread) × Act false q t q' t'

-- A thread that has not ended can act, if its push or pop succeeds.
can_act :
    (q : SharedQueue) (r : Role) (at : Place) (m : Message)
    → (at ≡ moving → Succeeds r m q)
    → (at ≡ finished) ⊎ CanAct q (thread r at m)
can_act q r looping m ok = inr (q, thread r finished m, leaves q r m)
can_act q r waiting m ok = inr (q, thread r finished m, gives_up q r m)
can_act q r checking m ok = inr (give_back r q, thread r finished m, returns q r m)
can_act q producer moving m ok =
    inr (
      pushed q m,
      thread producer posting_full m,
      pushes false q (pushed q m) m success (ok refl).1,
    )
can_act q consumer moving m ok =
    let head = get_or q.buffer q.head empty_message in
    inr (popped q, thread consumer posting_empty head, pops false q (popped q) m head (ok refl).1)
can_act q r posting_empty m ok =
    inr (record q { empty = q.empty + 1 }, thread r looping m, posts_empty false q r m)
can_act q r posting_full m ok =
    inr (record q { full = q.full + 1 }, thread r looping m, posts_full false q r m)
can_act q r finished m ok = inl refl

-- All threads have ended, or one can act.
pub data Progress (q : SharedQueue) : List Thread → Type 0 where
  all_ended : (ts : List Thread) → All (λ t. t.place ≡ finished) ts → Progress q ts
  one_can :
      (before after : List Thread) (t : Thread) → CanAct q t → Progress q (before ++ t ∷ after)

Progress-cons :
    (q : SharedQueue) (t : Thread) (ts : List Thread)
    → t.place ≡ finished
    → Progress q ts
    → Progress q (t ∷ ts)
Progress-cons q t _ e (all_ended ts all) = all_ended (t ∷ ts) (e, all)
Progress-cons q t _ e (one_can before after u can) = one_can (t ∷ before) after u can

search :
    (q : SharedQueue) (ts : List Thread)
    → ((before after : List Thread) (r : Role) (m : Message)
        → ts ≡ before ++ thread r moving m ∷ after
        → Succeeds r m q)
    → Progress q ts
search q [] ok = all_ended [] tt
search q (t ∷ ts) ok =
    elim (can_act q t.role t.place t.message
      (λ e. ok [] ts t.role t.message (ap (λ at. thread t.role at t.message ∷ ts) e))) [
        | inl e ↦
            Progress-cons q t ts e
              (search q ts (λ before after r m e. ok (t ∷ before) after r m (ap (λ us. t ∷ us) e)))
        | inr can ↦ one_can [] ts t can
      ]

-- From a reachable state with the flag down, and without a resize, the threads act at most three
-- times each, whatever the order of their steps and of the posts that wake them. At each moment
-- all of them have ended or one can act.
pub Winds-Progress :
    (n : ℕ) (s : System) (q : SharedQueue) (ts : List Thread)
    → Reachable s
    → Winds n s (record { running = false; queue = q; threads = ts })
    → (n ≤ 3 * length s.threads) × Progress q ts
Winds-Progress n s q ts reached run =
    let t : System = record { running = false; queue = q; threads = ts } in
    (
      omega (arith, Winds-rank n s t run, total-rank_le s.threads),
      search q ts (λ before after r m e. Reachable-Succeeds false q before after r m (
          subst (λ us. Reachable (record { running = false; queue = q; threads = us })) e
            (Winds-Reachable n s t run reached))),
    )
