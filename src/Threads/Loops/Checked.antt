-- ===== src/Threads/Loops/Checked.antt =====
-- What the consumers of LAB_5.2/src/consumer.c find when they check the messages of producer.c.
use os_sp.Prelude.{
  ℕ, ◌<◌, ◌≡◌, refl, sym, subst, Bool, false, inl, inr, some, List, [], ◌∷◌, arith, length, total,
  total-middle, total-append, All, All-append, All-middle, All-replace, All-weaken,
}
use os_sp.Message.{Message}
use os_sp.Queue.{SharedQueue, queue_init}
use os_sp.Queue.Invariant.{IsValid, queue_init-IsValid, queue_init-added}
use os_sp.Queue.Contents.{contents}
use os_sp.Queue.Fifo.{contents-nil}
use os_sp.Semaphores.{Role, producer, consumer}
use os_sp.Threads.Loops.{
  Place, looping, calling, returned, finished, loop, System, Reachable, begins, starts, stops, acts,
}
use os_sp.Threads.Loops.Kept.{Good, At, Fine, made, IsOk, Act-Kept}

record Sound (s : System) : Type 0 where
  valid : IsValid s.queue
  good : All Good (contents s.queue)
  fine : All (Fine s.running) s.loops
  matched : All IsOk s.reports
  counted : total made s.loops ≡ s.queue.added_count

-- The flag goes down.
stopped-Fine :
    (running : Bool) (r : Role) (at : Place) (m : Message) → At running r at m → At false r at m
stopped-Fine running producer looping m h = tt
stopped-Fine running producer (calling waited) m h = h
stopped-Fine running producer returned m h = tt
stopped-Fine running producer finished m h = tt
stopped-Fine running consumer looping m h = tt
stopped-Fine running consumer (calling waited) m h = tt
stopped-Fine running consumer returned m (inl h) = inl h
stopped-Fine running consumer returned m (inr h) = inr (h.0, refl)
stopped-Fine running consumer finished m h = tt

new-Fine :
    (running : Bool) (r : Role) (m : Message)
    → Fine running (loop r looping m 0) × (made (loop r looping m 0) ≡ 0)
new-Fine running producer m = (tt, refl)
new-Fine running consumer m = (tt, refl)

Reachable-Sound :
    (queue : SharedQueue) (s : System)
    → IsValid queue
    → queue.current_load ≡ 0
    → queue.added_count ≡ 0
    → Reachable queue s
    → Sound s
Reachable-Sound queue _ v nothing none_added begins = record {
  valid = v;
  good = subst (All Good) (sym (contents-nil queue nothing)) tt;
  fine = tt;
  matched = tt;
  counted = sym none_added;
}
Reachable-Sound queue _ v nothing none_added (starts s r m h) =
    let b = Reachable-Sound queue s v nothing none_added h in
    let t = loop r looping m 0 in
    record {
      valid = b.valid;
      good = b.good;
      fine = All-append (Fine s.running) s.loops (t ∷ []) b.fine ((new-Fine s.running r m).0, tt);
      matched = b.matched;
      counted =
          omega (arith, total-append made s.loops (t ∷ []), (new-Fine s.running r m).1, b.counted);
    }
Reachable-Sound queue _ v nothing none_added (stops s h) =
    let b = Reachable-Sound queue s v nothing none_added h in
    record {
      valid = b.valid;
      good = b.good;
      fine =
          All-weaken (Fine s.running) (Fine false) s.loops
            (λ t. stopped-Fine s.running t.role t.place t.message) b.fine;
      matched = b.matched;
      counted = b.counted;
    }
Reachable-Sound queue _ v nothing none_added
      (acts running q q' before after t t' reports more h a) =
    let b = Reachable-Sound queue _ v nothing none_added h in
    let k =
      Act-Kept running q q' t t' more b.valid b.good
        (All-middle (Fine running) before after t b.fine) a in
    record {
      valid = k.valid;
      good = k.good;
      fine = All-replace (Fine running) before after t t' b.fine k.fine;
      matched = All-append IsOk more reports k.matched b.matched;
      counted = omega (
        arith,
        total-middle made before after t,
        total-middle made before after t',
        b.counted,
        k.counted,
      );
    }

-- From a new queue, with any threads started at any time and their steps in any order, also while
-- the flag goes down: every check that a consumer makes finds the hash right, and the producers
-- have counted exactly the messages that were added.
pub Reachable-checked :
    (raw : List Message) (size : ℕ)
    → length raw ≡ size
    → 0 < size
    → (queue : SharedQueue) → queue_init (some raw) size ≡ some queue
    → (s : System) → Reachable queue s
    → All IsOk s.reports × (total made s.loops ≡ s.queue.added_count)
Reachable-checked raw size whole pos queue e s h =
    let (q, made_queue, v, nothing) = queue_init-IsValid raw size whole pos in
    let same : q ≡ queue = ground (arith, e, made_queue) in
    let b =
      Reachable-Sound queue s (subst IsValid same v) (subst (λ p. p.current_load ≡ 0) same nothing)
        (queue_init-added raw size queue e) h in
    (b.matched, b.counted)
