-- ===== src/Posix/Steps.antt =====
-- LAB_5.1: the balance over one step of one thread, while the flag is up and after.
use os_sp.Prelude.{ℕ, ◌+◌, ◌<◌, ◌≡◌, ◌∙◌, refl, ◌-◌, get_or, sym, subst, true, false, arith}
use os_sp.Message.{Message, Status, success}
use os_sp.Queue.{Outcome, done, blocked, fault, empty_message}
use os_sp.Semaphores.{producer, consumer}
use os_sp.Posix.{
  SharedQueue, queue_push, queue_pop, moving, posting_empty, Thread, thread, after_push, Act,
  begins, leaves, gets_slot, times_out, gives_up, goes_on, returns, cancelled_asleep,
  cancelled_waiting, pushes, pops, posts_empty, posts_full,
}
use os_sp.Posix.Invariant.{
  reserved, unannounced, pushing, popping, posted-IsValid, Balanced, Within, pushed,
  queue_push-pushed, pushed-IsValid, popped, queue_pop-popped, popped-IsValid,
}

-- One thread set apart, with the sums over the others.
abbrev pub Held : SharedQueue → Thread → (x y : ℕ) → Type 0
Held q t x y = Balanced q (reserved t + x) (unannounced t + y)

abbrev pub Left : SharedQueue → Thread → (u v : ℕ) → Type 0
Left q t u v = Within q (pushing t + u) (popping t + v)

-- Steps that change the semaphores only.
keep_balance :
    (q : SharedQueue) (e f kept hidden kept' hidden' : ℕ)
    → e + kept' ≡ q.empty + kept
    → f + hidden' ≡ q.full + hidden
    → Balanced q kept hidden
    → Balanced (record q { empty = e; full = f }) kept' hidden'
keep_balance q e f kept hidden kept' hidden' same_room same_filled b = record {
  valid = posted-IsValid q e f b.valid;
  room = omega (arith, b.room);
  filled = omega (arith, b.filled);
}

pub posted :
    (q : SharedQueue) (e f u w : ℕ) → Within q u w → Within (record q { empty = e; full = f }) u w
posted q e f u w b = record {
  valid = posted-IsValid q e f b.valid;
  room = b.room;
  filled = b.filled;
}

-- The result of a call, when another is known.
OnDone {ℓ} : {A : Type ℓ} → (A → Type 0) → Outcome A → Type 0
OnDone P (done a) = P a
OnDone P blocked = Unit
OnDone P fault = Unit

same_result {ℓ} :
    {A : Type ℓ} (P : A → Type 0) (r : Outcome A) (x y : A) → r ≡ done x → r ≡ done y → P x → P y
unfolding OnDone
same_result P r x y e f h = subst (OnDone P) (sym e ∙ f) h

pushes-Held :
    (q q' : SharedQueue) (m : Message) (s : Status) (x y : ℕ)
    → queue_push q m ≡ done (s, q')
    → Held q (thread producer moving m) x y
    → Held q' (thread producer (after_push s) m) x y
pushes-Held q q' m s x y e b =
    let room : q.current_load < q.queue_size = omega (arith, b.room) in
    let (v, load) = pushed-IsValid q m b.valid room in
    same_result (λ r. Held r.1 (thread producer (after_push r.0) m) x y) (queue_push q m)
      (success, pushed q m) (s, q') (queue_push-pushed q m b.valid room) e
      record {
        valid = v;
        room = omega (arith, b.room, load);
        filled = omega (arith, b.filled, load);
      }

pushes-Left :
    (q q' : SharedQueue) (m : Message) (s : Status) (u w : ℕ)
    → queue_push q m ≡ done (s, q')
    → Left q (thread producer moving m) u w
    → Left q' (thread producer (after_push s) m) u w
pushes-Left q q' m s u w e b =
    let room : q.current_load < q.queue_size = omega (arith, b.room) in
    let (v, load) = pushed-IsValid q m b.valid room in
    same_result (λ r. Left r.1 (thread producer (after_push r.0) m) u w) (queue_push q m)
      (success, pushed q m) (s, q') (queue_push-pushed q m b.valid room) e
      record {
        valid = v;
        room = omega (arith, b.room, load);
        filled = omega (arith, b.filled, load);
      }

pops-Held :
    (q q' : SharedQueue) (m m' : Message) (x y : ℕ)
    → queue_pop q ≡ done (m', q')
    → Held q (thread consumer moving m) x y
    → Held q' (thread consumer posting_empty m') x y
pops-Held q q' m m' x y e b =
    let (v, load) = popped-IsValid q b.valid (omega (arith, b.filled)) in
    same_result (λ r. Held r.1 (thread consumer posting_empty r.0) x y) (queue_pop q)
      (get_or q.buffer q.head empty_message, popped q) (m', q') (queue_pop-popped q b.valid) e
      record {
        valid = v;
        room = omega (arith, b.room, b.filled, load);
        filled = omega (arith, b.filled, load);
      }

pops-Left :
    (q q' : SharedQueue) (m m' : Message) (u w : ℕ)
    → queue_pop q ≡ done (m', q')
    → Left q (thread consumer moving m) u w
    → Left q' (thread consumer posting_empty m') u w
pops-Left q q' m m' u w e b =
    let (v, load) = popped-IsValid q b.valid (omega (arith, b.filled)) in
    same_result (λ r. Left r.1 (thread consumer posting_empty r.0) u w) (queue_pop q)
      (get_or q.buffer q.head empty_message, popped q) (m', q') (queue_pop-popped q b.valid) e
      record {
        valid = v;
        room = omega (arith, b.room, b.filled, load);
        filled = omega (arith, b.filled, load);
      }

pub Act-Held :
    (q q' : SharedQueue) (t t' : Thread) (x y : ℕ)
    → Act true q t q' t'
    → Held q t x y
    → Held q' t' x y
Act-Held q _ _ _ x y (begins _ producer m m') b = b
Act-Held q _ _ _ x y (begins _ consumer m m') b = b
Act-Held q _ _ _ x y (gets_slot _ _ producer m p) b =
    keep_balance q (q.empty - 1) q.full (0 + x) (0 + y) (1 + x) (0 + y) (omega arith) refl b
Act-Held q _ _ _ x y (gets_slot _ _ consumer m p) b =
    keep_balance q q.empty (q.full - 1) (0 + x) (0 + y) (0 + x) (1 + y) refl (omega arith) b
Act-Held q _ _ _ x y (times_out _ producer m) b = b
Act-Held q _ _ _ x y (times_out _ consumer m) b = b
Act-Held q _ _ _ x y (cancelled_asleep _ _ producer m) b = b
Act-Held q _ _ _ x y (cancelled_asleep _ _ consumer m) b = b
Act-Held q _ _ _ x y (cancelled_waiting _ _ producer m) b = b
Act-Held q _ _ _ x y (cancelled_waiting _ _ consumer m) b = b
Act-Held q _ _ _ x y (goes_on _ producer m) b = b
Act-Held q _ _ _ x y (goes_on _ consumer m) b = b
Act-Held q _ _ _ x y (pushes _ _ q' m s e) b = pushes-Held q q' m s x y e b
Act-Held q _ _ _ x y (pops _ _ q' m m' e) b = pops-Held q q' m m' x y e b
Act-Held q _ _ _ x y (posts_empty _ _ producer m) b =
    keep_balance q (q.empty + 1) q.full (1 + x) (0 + y) (0 + x) (0 + y) (omega arith) refl b
Act-Held q _ _ _ x y (posts_empty _ _ consumer m) b =
    keep_balance q (q.empty + 1) q.full (1 + x) (0 + y) (0 + x) (0 + y) (omega arith) refl b
Act-Held q _ _ _ x y (posts_full _ _ producer m) b =
    keep_balance q q.empty (q.full + 1) (0 + x) (1 + y) (0 + x) (0 + y) refl (omega arith) b
Act-Held q _ _ _ x y (posts_full _ _ consumer m) b =
    keep_balance q q.empty (q.full + 1) (0 + x) (1 + y) (0 + x) (0 + y) refl (omega arith) b

pub Act-Left :
    (q q' : SharedQueue) (t t' : Thread) (u w : ℕ)
    → Act false q t q' t'
    → Left q t u w
    → Left q' t' u w
Act-Left q _ _ _ u w (leaves _ producer m) b = b
Act-Left q _ _ _ u w (leaves _ consumer m) b = b
Act-Left q _ _ _ u w (gets_slot _ _ producer m p) b =
    posted q (q.empty - 1) q.full (0 + u) (0 + w) b
Act-Left q _ _ _ u w (gets_slot _ _ consumer m p) b =
    posted q q.empty (q.full - 1) (0 + u) (0 + w) b
Act-Left q _ _ _ u w (gives_up _ producer m) b = b
Act-Left q _ _ _ u w (gives_up _ consumer m) b = b
Act-Left q _ _ _ u w (cancelled_asleep _ _ producer m) b = b
Act-Left q _ _ _ u w (cancelled_asleep _ _ consumer m) b = b
Act-Left q _ _ _ u w (cancelled_waiting _ _ producer m) b = b
Act-Left q _ _ _ u w (cancelled_waiting _ _ consumer m) b = b
Act-Left q _ _ _ u w (returns _ producer m) b = posted q (q.empty + 1) q.full (0 + u) (0 + w) b
Act-Left q _ _ _ u w (returns _ consumer m) b = posted q q.empty (q.full + 1) (0 + u) (0 + w) b
Act-Left q _ _ _ u w (pushes _ _ q' m s e) b = pushes-Left q q' m s u w e b
Act-Left q _ _ _ u w (pops _ _ q' m m' e) b = pops-Left q q' m m' u w e b
Act-Left q _ _ _ u w (posts_empty _ _ producer m) b =
    posted q (q.empty + 1) q.full (0 + u) (0 + w) b
Act-Left q _ _ _ u w (posts_empty _ _ consumer m) b =
    posted q (q.empty + 1) q.full (0 + u) (0 + w) b
Act-Left q _ _ _ u w (posts_full _ _ producer m) b = posted q q.empty (q.full + 1) (0 + u) (0 + w) b
Act-Left q _ _ _ u w (posts_full _ _ consumer m) b = posted q q.empty (q.full + 1) (0 + u) (0 + w) b
