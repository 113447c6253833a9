-- ===== src/Threads/Loops.antt =====
-- LAB_5.2/src/producer.c and consumer.c: the loops of the threads over the shared queue, as steps in
-- any order. The queue's mutex makes a call one step, but for its waits; a flag that is down stays
-- down.
pub mod Calls
pub mod Kept
pub mod Checked
use os_sp.Prelude.{ℕ, ◌+◌, ◌≡◌, Bool, true, false, not, ◌&&◌, List, [], ◌∷◌, ◌++◌, ◌==◌}
use os_sp.Message.{Message, success, failure, create_random_message, calculate_djb2}
use os_sp.Queue.{done, blocked, SharedQueue, empty_message, queue_push, queue_pop}
use os_sp.Semaphores.{Role, producer, consumer}

-- Where a thread is: at the test of the flag, in the call of the queue, with `true` if it has
-- waited there, after the call of `queue_pop`, or past the loop.
pub data Place : Type 0 where
  looping : Place
  calling : Bool → Place
  returned : Place
  finished : Place

-- The local variables: `msg`, and `produced` or `consumed`.
pub record Loop : Type 0 where
  pub role : Role
  pub place : Place
  pub message : Message
  pub count : ℕ

abbrev pub loop : Role → Place → Message → ℕ → Loop
loop r at m n = record { role = r; place = at; message = m; count = n }

-- `msg.size == 0 && msg.type == 0 && msg.hash == 0 && !keep_running`
abbrev pub stops_on : Message → Bool → Bool
stops_on m running = m.size == 0 && (m.type == 0 && (m.hash == 0 && not running))

-- What a thread does in one step, and what it prints of a check.
pub data Act (running : Bool) : SharedQueue → Loop → SharedQueue → Loop → List Bool → Type 0 where
  sees_down :
      (q : SharedQueue) (r : Role) (m : Message) (n : ℕ)
      → running ≡ false
      → Act running q (loop r looping m n) q (loop r finished m n) []
  generates :
      (q : SharedQueue) (rand : ℕ → ℕ) (raw m : Message) (n : ℕ)
      → running ≡ true
      → Act running q
          (loop producer looping m n)
          q
          (loop producer (calling false) (create_random_message rand raw) n)
          []
  calls :
      (q : SharedQueue) (m : Message) (n : ℕ)
      → running ≡ true
      → Act running q (loop consumer looping m n) q (loop consumer (calling false) m n) []
  push_waits :
      (q : SharedQueue) (waited : Bool) (m : Message) (n : ℕ)
      → queue_push [] running q m ≡ blocked
      → Act running q (loop producer (calling waited) m n) q (loop producer (calling true) m n) []
  pushes :
      (q q' : SharedQueue) (waited : Bool) (m : Message) (n : ℕ)
      → queue_push [] running q m ≡ done (success, q')
      → Act running q (loop producer (calling waited) m n) q' (loop producer looping m (n + 1)) []
  push_fails :
      (q q' : SharedQueue) (waited : Bool) (m : Message) (n : ℕ)
      → queue_push [] running q m ≡ done (failure, q')
      → Act running q (loop producer (calling waited) m n) q' (loop producer looping m n) []
  pop_waits :
      (q : SharedQueue) (waited : Bool) (m : Message) (n : ℕ)
      → queue_pop [] running q ≡ blocked
      → Act running q (loop consumer (calling waited) m n) q (loop consumer (calling true) m n) []
  pops :
      (q q' : SharedQueue) (waited : Bool) (m m' : Message) (n : ℕ)
      → queue_pop [] running q ≡ done (m', q')
      → Act running q (loop consumer (calling waited) m n) q' (loop consumer returned m' n) []
  -- The wait ends with `ETIMEDOUT` and the flag down; a push then fails like any other.
  pop_times_out :
      (q : SharedQueue) (m : Message) (n : ℕ)
      → running ≡ false
      → Act running q
          (loop consumer (calling true) m n)
          q
          (loop consumer returned empty_message n)
          []
  leaves :
      (q : SharedQueue) (m : Message) (n : ℕ)
      → stops_on m running ≡ true
      → Act running q (loop consumer returned m n) q (loop consumer finished m n) []
  checks :
      (q : SharedQueue) (m : Message) (n : ℕ)
      → stops_on m running ≡ false
      → Act running q
          (loop consumer returned m n)
          q
          (loop consumer looping m (n + 1))
          ((calculate_djb2 m == m.hash) ∷ [])

-- `reports` has the results that the consumers printed, `true` for "OK: Hash match".
pub record System : Type 0 where
  pub running : Bool
  pub queue : SharedQueue
  pub loops : List Loop
  pub reports : List Bool

pub data Reachable (queue : SharedQueue) : System → Type 0 where
  begins : Reachable queue (record { running = true; queue = queue; loops = []; reports = [] })
  -- A command of `main` creates a thread.
  starts :
      (s : System) (r : Role) (m : Message)
      → Reachable queue s
      → Reachable queue (record s { loops = s.loops ++ loop r looping m 0 ∷ [] })
  -- A signal, or the shutdown.
  stops : (s : System) → Reachable queue s → Reachable queue (record s { running = false })
  acts :
      (running : Bool) (q q' : SharedQueue) (before after : List Loop) (t t' : Loop)
      (reports more : List Bool)
      → Reachable queue
          (record { running = running; queue = q; loops = before ++ t ∷ after; reports = reports })
      → Act running q t q' t' more
      → Reachable queue (record {
        running = running;
        queue = q';
        loops = before ++ t' ∷ after;
        reports = more ++ reports;
      })
