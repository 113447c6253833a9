-- ===== src/Posix/Shutdown.antt =====
-- LAB_5.1/src/parent.c and cleanup.c: the commands and the shutdown. The tables of threads, and what
-- is done to them, have the text of LAB_5.2, but for the counts of messages, which are left at 0.
use os_sp.Prelude.{
  ℕ, zero, suc, ◌+◌, ◌-◌, ◌*◌, ◌≡◌, ◌∙◌, ◌≤◌, refl, sym, subst, map, append-nil, append_assoc, ap₂,
  Bool, true, false, ◌&&◌, Option, none, some, List, [], ◌∷◌, ◌++◌, ltb, if◌then◌else◌, arith,
}
use os_sp.Prelude.Text.{codes, str_eq}
use os_sp.Message.{Message, Status, success, failure}
use os_sp.Queue.{Outcome, done, ◌>>=◌}
use os_sp.Threads.{Table, max_threads, kill_last, add_thread, cancel_from, join_from}
use os_sp.Threads.Stack.{IsValid}
use os_sp.Threads.Shutdown.{threads_of, cancelled_of, joined_of}
use os_sp.Posix.{SharedQueue, resize_locked, set_semaphores}

-- What is done to semaphores, threads and the queue.
pub data Event : Type 0 where
  posted_empty posted_full destroyed : Event
  cancelled : ℕ → Event
  joined : ℕ → Event

-- The flag, the tables and the queue, and what has been done so far, in order.
pub record Program : Type 0 where
  pub keep_running : Bool
  pub producers : Table
  pub consumers : Table
  pub queue : SharedQueue
  pub log : List Event

-- `n` rounds of the loop that posts both semaphores.
pub post_both : ℕ → Program → Program
post_both zero s = s
post_both (suc n) s =
    let q = s.queue in
    post_both n (record s {
      queue = record q { empty = q.empty + 1; full = q.full + 1 };
      log = s.log ++ posted_empty ∷ posted_full ∷ [];
    })

-- With the mutex and the semaphores destroyed, a later call on the queue is undefined.
pub queue_destroy : Program → Program
queue_destroy s = record s {
  queue = record s.queue { buffer = []; head = 0; tail = 0; current_load = 0; queue_size = 0 };
  log = s.log ++ destroyed ∷ [];
}

-- `signal_handler`, on `SIGINT` or `SIGTERM`.
pub signal_handler : Program → Program
unfolding post_both
signal_handler s = post_both (max_threads * 2) (record s { keep_running = false })

pub cancel_all_threads : Program → Program
cancel_all_threads s = record s {
  log =
      s.log
      ++ map cancelled (
          cancel_from s.producers.count 0 s.producers.slots
          ++ cancel_from s.consumers.count 0 s.consumers.slots);
}

pub join_all_threads : Program → Program
join_all_threads s =
    let (p, producers) = join_from s.producers.count 0 s.producers.slots in
    let (c, consumers) = join_from s.consumers.count 0 s.consumers.slots in
    record s {
      producers = record { slots = producers; count = 0 };
      consumers = record { slots = consumers; count = 0 };
      log = s.log ++ map joined (p ++ c);
    }

pub cleanup_all : Program → Program
unfolding post_both cancel_all_threads join_all_threads queue_destroy
cleanup_all s = queue_destroy (
    join_all_threads
      (cancel_all_threads (post_both (max_threads * 2) (record s { keep_running = false }))))

abbrev killed : Option ℕ → List Event
killed none = []
killed (some thread) = cancelled thread ∷ joined thread ∷ []

-- `queue_resize` with no step of a thread in it.
abbrev resized : Program → ℕ → Outcome (Status × SharedQueue) → Outcome (Program × Bool)
resized s n r = r >>= λ q. elim q.0 [
  | success ↦ done (record s { queue = set_semaphores n q.1 }, true)
  | failure ↦ done (record s { queue = q.1 }, true)
]

-- One command of `main`; the flag is false if the loop ends. `created` and `raw` are the results of
-- `pthread_create` and of `malloc` in `queue_resize`.
pub run_command :
    (created : Option ℕ) (raw : Option (List Message)) → List ℕ → Program → Outcome (Program × Bool)
run_command created raw cmd s =
    let (producers, p) = kill_last s.producers in
    let (consumers, c) = kill_last s.consumers in
    let size = s.queue.queue_size in
    if str_eq cmd (codes "p") && ltb s.producers.count max_threads
    then done (record s { producers = add_thread created s.producers }, true)
    else if str_eq cmd (codes "c") && ltb s.consumers.count max_threads
    then done (record s { consumers = add_thread created s.consumers }, true)
    else if str_eq cmd (codes "+")
    then resized s (size + 1) (resize_locked s.queue (size + 1) raw)
    else if str_eq cmd (codes "-")
    then (if ltb 1 size
        then resized s (size - 1) (resize_locked s.queue (size - 1) raw)
        else done (s, true))
    else if str_eq cmd (codes "kpl")
    then done (record s { producers = producers; log = s.log ++ killed p }, true)
    else if str_eq cmd (codes "kcl")
    then done (record s { consumers = consumers; log = s.log ++ killed c }, true)
    else if str_eq cmd (codes "q")
    then done (s, false)
    else done (s, true)

-- `n` posts of both semaphores.
abbrev pub posts : ℕ → List Event
posts zero = []
posts (suc n) = posted_empty ∷ posted_full ∷ posts n

post_both-posts :
    (n : ℕ) (s : Program)
    → ((post_both n s).log ≡ s.log ++ posts n)
      × ((post_both n s).queue.empty ≡ s.queue.empty + n)
      × ((post_both n s).queue.full ≡ s.queue.full + n)
      × ((post_both n s).keep_running ≡ s.keep_running)
      × ((post_both n s).producers ≡ s.producers)
      × ((post_both n s).consumers ≡ s.consumers)
unfolding post_both
post_both-posts zero s = (sym (append-nil s.log), omega arith, omega arith, refl, refl, refl)
post_both-posts (suc n) s =
    let q = s.queue in
    let pair = posted_empty ∷ posted_full ∷ [] in
    let (log, empty, full, flag, p, c) = post_both-posts n (record s {
      queue = record q { empty = q.empty + 1; full = q.full + 1 };
      log = s.log ++ pair;
    }) in
    (log ∙ append_assoc s.log pair (posts n), omega (arith, empty), omega (arith, full), flag, p, c)

abbrev pub all_threads : Program → List ℕ
all_threads s = threads_of s.producers ++ threads_of s.consumers

-- What is done after the posts.
abbrev pub ends : List ℕ → List Event
ends all = map cancelled all ++ (map joined all ++ destroyed ∷ [])

log-ends :
    (s : Program)
    → IsValid s.producers
    → IsValid s.consumers
    → (queue_destroy (join_all_threads (cancel_all_threads s))).log ≡ s.log ++ ends (all_threads s)
unfolding cancel_all_threads join_all_threads queue_destroy
log-ends s p c =
    let all = all_threads s in
    let c_all = ap₂ (λ x y. x ++ y) (cancelled_of s.producers p) (cancelled_of s.consumers c) in
    let j_all = ap₂ (λ x y. x ++ y) (joined_of s.producers p) (joined_of s.consumers c) in
    ap₂ (λ x y. ((s.log ++ map cancelled x) ++ map joined y) ++ destroyed ∷ []) c_all j_all
    ∙ append_assoc (s.log ++ map cancelled all) (map joined all) (destroyed ∷ [])
    ∙ append_assoc s.log (map cancelled all) (map joined all ++ destroyed ∷ [])

-- With valid tables, `cleanup_all` lowers the flag; it posts both semaphores twenty times, which is
-- at least as often as there are counted threads, then cancels every counted producer and consumer
-- once, then joins them in the same order, and destroys the queue last. Both tables are then empty.
pub cleanup_all-stops :
    (s : Program)
    → IsValid s.producers
    → IsValid s.consumers
    → let s' = cleanup_all s in
      (s'.keep_running ≡ false)
      × (s'.log ≡ s.log ++ (posts 20 ++ ends (all_threads s)))
      × (s.producers.count + s.consumers.count ≤ 20)
      × (s'.queue.empty ≡ s.queue.empty + 20)
      × (s'.queue.full ≡ s.queue.full + 20)
      × (s'.producers.count ≡ 0)
      × (s'.consumers.count ≡ 0)
unfolding cleanup_all cancel_all_threads join_all_threads queue_destroy
cleanup_all-stops s p c =
    let (log, empty, full, flag, same_p, same_c) =
      post_both-posts 20 (record s { keep_running = false }) in
    let t = post_both 20 (record s { keep_running = false }) in
    (
      flag,
      log-ends t (subst IsValid (sym same_p) p) (subst IsValid (sym same_c) c)
          ∙ ap₂ (λ l all. l ++ ends all) log
              (ap₂ (λ x y. threads_of x ++ threads_of y) same_p same_c)
          ∙ append_assoc s.log (posts 20) (ends (all_threads s)),
      omega (arith, p.count_in, c.count_in),
      empty,
      full,
      refl,
      refl,
    )
