-- ===== src/Threads/Shutdown.antt =====
-- The commands of LAB_5.2/src/parent.c on the thread tables, and the shutdown of cleanup.c.
use os_sp.Prelude.{
  ℕ, zero, suc, ◌+◌, ◌<◌, ◌≤◌, ◌≡◌, refl, ap, ap₂, Bool, true, false, Option, List, ◌∷◌, ◌++◌,
  arith, get_or, set, if◌then◌else◌, tabulate, get_or-set_ne, ◌&&◌, ltb,
}
use os_sp.Prelude.Text.{codes, str_eq}
use os_sp.Message.{Message, Status}
use os_sp.Queue.{SharedQueue, Outcome, done, blocked, fault, queue_destroy}
use os_sp.Threads.{
  ThreadInfo, max_threads, no_thread, Table, cancel_from, join_from, Program, cancel_all_threads,
  join_all_threads, cleanup_all, run_command, resized,
}
use os_sp.Threads.Stack.{IsValid, IsActive, All-live, add_thread-IsValid, kill_last-IsValid}

-- The identifier in a slot.
abbrev pub thread_at : Table → ℕ → ℕ
thread_at t i = (get_or t.slots i no_thread).thread

-- The counted threads, in the order of their slots.
abbrev pub threads_of : Table → List ℕ
threads_of t = tabulate (thread_at t) 0 t.count

cancel_from-tabulate :
    (n i : ℕ) (slots : List ThreadInfo)
    → ((j : ℕ) → i ≤ j → j < i + n → IsActive (get_or slots j no_thread))
    → cancel_from n i slots ≡ tabulate (λ j. (get_or slots j no_thread).thread) i n
unfolding cancel_from
cancel_from-tabulate zero i slots k = refl
cancel_from-tabulate (suc n) i slots k = rw (k i (omega arith) (omega arith)) (
    ap (◌∷◌ (get_or slots i no_thread).thread)
      (cancel_from-tabulate n (i + 1) slots (λ j p q. k j (omega arith) (omega arith))))

join_from-tabulate :
    (n i : ℕ) (f : ℕ → ℕ) (slots : List ThreadInfo)
    → ((j : ℕ)
        → i ≤ j
        → j < i + n
        → IsActive (get_or slots j no_thread) × ((get_or slots j no_thread).thread ≡ f j))
    → (join_from n i slots).0 ≡ tabulate f i n
unfolding join_from
join_from-tabulate zero i f slots k = refl
join_from-tabulate (suc n) i f slots k =
    let here = k i (omega arith) (omega arith) in
    let slots' = set slots i (record (get_or slots i no_thread) { active = false }) in
    let same : (j : ℕ) → i < j → get_or slots' j no_thread ≡ get_or slots j no_thread = λ j p.
      get_or-set_ne slots i j (record (get_or slots i no_thread) { active = false }) no_thread
        (omega arith) in
    let later =
      join_from-tabulate n (i + 1) f slots'
        (λ j p q. rw (same j (omega arith)) (k j (omega arith) (omega arith))) in
    rw here.0 (ap₂ (λ x xs. x ∷ xs) here.1 later)

-- What cleanup does to one table.
pub cancelled_of : (t : Table) → IsValid t → cancel_from t.count 0 t.slots ≡ threads_of t
cancelled_of t v = cancel_from-tabulate t.count 0 t.slots (λ j p q.
    All-live t.count j t.slots (omega arith) (omega (arith, v.count_in, v.storage)) v.all_active)

pub joined_of : (t : Table) → IsValid t → (join_from t.count 0 t.slots).0 ≡ threads_of t
joined_of t v = join_from-tabulate t.count 0 (thread_at t) t.slots (λ j p q. (
  All-live t.count j t.slots (omega arith) (omega (arith, v.count_in, v.storage)) v.all_active,
  refl,
))

-- With valid tables, `cleanup_all` lowers the flag, cancels every counted producer and consumer
-- once, joins them in the same order, empties both tables and destroys the queue.
pub cleanup_all_lem :
    (s : Program)
    → IsValid s.producers
    → IsValid s.consumers
    → let s' = cleanup_all s in
      let all = threads_of s.producers ++ threads_of s.consumers in
      (s'.keep_running ≡ false)
      × (s'.cancelled ≡ s.cancelled ++ all)
      × (s'.joined ≡ s.joined ++ all)
      × (s'.producers.count ≡ 0)
      × (s'.consumers.count ≡ 0)
      × (s'.queue ≡ queue_destroy s.queue)
unfolding cleanup_all cancel_all_threads join_all_threads
cleanup_all_lem s p c = (
  refl,
  ap (λ all. s.cancelled ++ all)
      (ap₂ (λ x y. x ++ y) (cancelled_of s.producers p) (cancelled_of s.consumers c)),
  ap (λ all. s.joined ++ all)
      (ap₂ (λ x y. x ++ y) (joined_of s.producers p) (joined_of s.consumers c)),
  refl,
  refl,
  refl,
)

-- A command that comes back leaves valid tables.
abbrev pub KeepsTables : Outcome (Program × Bool) → Type 0
KeepsTables (done (s, _)) = IsValid s.producers × IsValid s.consumers
KeepsTables blocked = Unit
KeepsTables fault = Unit

KeepsTables-if :
    (b : Bool) (x y : Outcome (Program × Bool))
    → (b ≡ true → KeepsTables x)
    → KeepsTables y
    → KeepsTables (if b then x else y)
KeepsTables-if true x y p q = p refl
KeepsTables-if false x y p q = q

KeepsTables-resized :
    (s : Program) (r : Outcome (Status × SharedQueue))
    → IsValid s.producers × IsValid s.consumers
    → KeepsTables (resized s r)
KeepsTables-resized s (done q) v = v
KeepsTables-resized s blocked v = tt
KeepsTables-resized s fault v = tt

room_for : (b : Bool) (n : ℕ) → (b && ltb n max_threads) ≡ true → n < max_threads
room_for b n e = ground arith

-- From valid tables, every command that comes back leaves both tables valid: at most ten threads
-- are counted, all of them active.
pub run_command-KeepsTables :
    (created : Option ℕ) (raw : Option (List Message)) (cmd : List ℕ) (s : Program)
    → IsValid s.producers
    → IsValid s.consumers
    → KeepsTables (run_command created raw cmd s)
unfolding run_command
run_command-KeepsTables created raw cmd s p c =
    KeepsTables-if (str_eq cmd (codes "p") && ltb s.producers.count max_threads) _ _
      (λ e. (
        add_thread-IsValid created s.producers p
            (room_for (str_eq cmd (codes "p")) s.producers.count e),
        c,
      ))
      (KeepsTables-if (str_eq cmd (codes "c") && ltb s.consumers.count max_threads) _ _
        (λ e. (
          p,
          add_thread-IsValid created s.consumers c
              (room_for (str_eq cmd (codes "c")) s.consumers.count e),
        ))
        (KeepsTables-if (str_eq cmd (codes "+")) _ _ (λ e. KeepsTables-resized s _ (p, c))
          (KeepsTables-if (str_eq cmd (codes "-")) _ _
            (λ e.
              KeepsTables-if (ltb 1 s.queue.queue_size) _ _ (λ e. KeepsTables-resized s _ (p, c))
                (p, c))
            (KeepsTables-if (str_eq cmd (codes "kpl")) _ _
              (λ e. (kill_last-IsValid s.producers p, c))
              (KeepsTables-if (str_eq cmd (codes "kcl")) _ _
                (λ e. (p, kill_last-IsValid s.consumers c))
                (KeepsTables-if (str_eq cmd (codes "q")) _ _ (λ e. (p, c)) (p, c)))))))
