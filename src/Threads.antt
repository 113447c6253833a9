-- ===== src/Threads.antt =====
-- LAB_5.2: the tables of producer and consumer threads (common.h), the commands of parent.c that
-- change them, and the shutdown of cleanup.c.
pub mod Loops
pub mod Stack
pub mod Shutdown
mod Tests
use os_sp.Prelude.{
  ℕ, zero, suc, ◌+◌, ◌-◌, Bool, true, false, ◌&&◌, Option, none, some, List, [], ◌∷◌, ◌++◌, ltb,
  leb, ◌==◌, if◌then◌else◌, length, get_or, set,
}
use os_sp.Prelude.Text.{codes, str_eq}
use os_sp.Message.{Message, Status}
use os_sp.Queue.{SharedQueue, Outcome, done, ◌>>=◌, queue_resize, queue_destroy}

-- `ThreadInfo`; `thread` is the identifier that `pthread_create` gives, and `messages` is
-- `produced_count` of a producer and `consumed_count` of a consumer, the other of which is not read.
pub record ThreadInfo : Type 0 where
  pub thread : ℕ
  pub id : ℕ
  pub active : Bool
  pub messages : ℕ

-- `MAX_THREADS`
abbrev pub max_threads : ℕ
max_threads = 10

abbrev pub no_thread : ThreadInfo
no_thread = record { thread = 0; id = 0; active = false; messages = 0 }

-- `producers` with `p_cnt`, or `consumers` with `c_cnt`.
pub record Table : Type 0 where
  pub slots : List ThreadInfo
  pub count : ℕ

-- `for (int i = n - 1; i >= 0; i--) if (slots[i].active) ...`
pub find_last : (n : ℕ) → List ThreadInfo → Option ℕ
find_last zero slots = none
find_last (suc n) slots =
    let earlier = find_last n slots in if (get_or slots n no_thread).active then some n else earlier

-- `for (int i = i; i < i + n; i++) slots[i] = slots[i + 1]`
pub shift_down : (n i : ℕ) → List ThreadInfo → List ThreadInfo
shift_down zero i slots = slots
shift_down (suc n) i slots = shift_down n (i + 1) (set slots i (get_or slots (i + 1) no_thread))

-- `kill_last_producer` and `kill_last_consumer`, which differ in their table only: the table, and
-- the thread that was cancelled and joined.
pub kill_last : Table → Table × Option ℕ
unfolding find_last shift_down
kill_last t =
    let killed = elim (find_last t.count t.slots) as (λ _. Table × Option ℕ) [
      | none ↦ (t, none)
      | some i ↦
          let victim = get_or t.slots i no_thread in
          let slots = set t.slots i (record victim { active = false }) in
          (
            record { slots = shift_down (t.count - 1 - i) i slots; count = t.count - 1 },
            some victim.thread,
          )
    ] in
    if t.count == 0 then (t, none) else killed

-- The body of the commands `p` and `c`; `created` is the thread that `pthread_create` started, if
-- it did: without one the slot is written and the count stays.
pub add_thread : (created : Option ℕ) → Table → Table
add_thread created t =
    let slot = get_or t.slots t.count no_thread in
    let fresh = record slot { id = t.count + 1; active = true; messages = 0 } in
    elim created [
      | none ↦ record t { slots = set t.slots t.count fresh }
      | some thread ↦ record {
        slots = set t.slots t.count (record fresh { thread = thread });
        count = t.count + 1;
      }
    ]

-- The loops of `cancel_all_threads`: the threads that are cancelled, from slot `i` on.
pub cancel_from : (n i : ℕ) → List ThreadInfo → List ℕ
cancel_from zero i slots = []
cancel_from (suc n) i slots =
    let later = cancel_from n (i + 1) slots in
    let slot = get_or slots i no_thread in if slot.active then slot.thread ∷ later else later

-- The loops of `join_all_threads`: the threads that are joined, with the slots after it. Every
-- `pthread_join` is taken to succeed.
pub join_from : (n i : ℕ) → List ThreadInfo → List ℕ × List ThreadInfo
join_from zero i slots = ([], slots)
join_from (suc n) i slots =
    let slot = get_or slots i no_thread in
    let skipped = join_from n (i + 1) slots in
    let (later, slots') = join_from n (i + 1) (set slots i (record slot { active = false })) in
    if slot.active then (slot.thread ∷ later, slots') else skipped

-- The program's state: the flag, the tables, the queue, and the threads cancelled and joined so
-- far, in order.
pub record Program : Type 0 where
  pub keep_running : Bool
  pub producers : Table
  pub consumers : Table
  pub queue : SharedQueue
  pub cancelled : List ℕ
  pub joined : List ℕ

pub cancel_all_threads : Program → Program
unfolding cancel_from
cancel_all_threads s = record s {
  cancelled =
      s.cancelled
      ++ (cancel_from s.producers.count 0 s.producers.slots
          ++ cancel_from s.consumers.count 0 s.consumers.slots);
}

pub join_all_threads : Program → Program
unfolding join_from
join_all_threads s =
    let (p, producers) = join_from s.producers.count 0 s.producers.slots in
    let (c, consumers) = join_from s.consumers.count 0 s.consumers.slots in
    record s {
      producers = record { slots = producers; count = 0 };
      consumers = record { slots = consumers; count = 0 };
      joined = s.joined ++ (p ++ c);
    }

pub cleanup_all : Program → Program
unfolding cancel_all_threads join_all_threads queue_destroy
cleanup_all s =
    let joined = join_all_threads (cancel_all_threads (record s { keep_running = false })) in
    record joined { queue = queue_destroy joined.queue }

abbrev pub killed : Option ℕ → List ℕ
killed none = []
killed (some thread) = thread ∷ []

abbrev pub resized : Program → Outcome (Status × SharedQueue) → Outcome (Program × Bool)
resized s r = r >>= λ q. done (record s { queue = q.1 }, true)

-- One command of `main`; the flag is false if the loop ends. `created` and `raw` are the results of
-- `pthread_create` and of `malloc` in `queue_resize`.
pub run_command :
    (created : Option ℕ) (raw : Option (List Message)) → List ℕ → Program → Outcome (Program × Bool)
unfolding kill_last add_thread queue_resize
run_command created raw cmd s =
    let (producers, p) = kill_last s.producers in
    let (consumers, c) = kill_last s.consumers in
    if str_eq cmd (codes "p") && ltb s.producers.count max_threads
    then done (record s { producers = add_thread created s.producers }, true)
    else if str_eq cmd (codes "c") && ltb s.consumers.count max_threads
    then done (record s { consumers = add_thread created s.consumers }, true)
    else if str_eq cmd (codes "+")
    then resized s (queue_resize s.queue (s.queue.queue_size + 1) raw)
    else if str_eq cmd (codes "-")
    then if ltb 1 s.queue.queue_size
      then resized s (queue_resize s.queue (s.queue.queue_size - 1) raw)
      else done (s, true)
    else if str_eq cmd (codes "kpl")
    then done (
      record s {
        producers = producers;
        cancelled = s.cancelled ++ killed p;
        joined = s.joined ++ killed p;
      },
      true,
    )
    else if str_eq cmd (codes "kcl")
    then done (
      record s {
        consumers = consumers;
        cancelled = s.cancelled ++ killed c;
        joined = s.joined ++ killed c;
      },
      true,
    )
    else if str_eq cmd (codes "q")
    then done (s, false)
    else done (s, true)
