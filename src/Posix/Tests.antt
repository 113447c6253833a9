-- ===== src/Posix/Tests.antt =====
-- A producer of LAB_5.1 on its way to a push, and resizes of its queue.
use os_sp.Prelude.{◌≡◌, refl, true, some, List, [], ◌∷◌, arith, replicate}
use os_sp.Message.{Message}
use os_sp.Queue.{empty_message}
use os_sp.Queue.Contents.{contents}
use os_sp.Semaphores.{producer}
use os_sp.Prelude.{◌+◌, ◌*◌, ◌≤◌, ◌++◌, false, length, set}
use os_sp.Threads.{ThreadInfo, Table, no_thread}
use os_sp.Threads.Stack
use os_sp.Posix.Ending.{rests, Progress, Winds-Progress}
use os_sp.Posix.Shutdown.{Program, posts, ends, all_threads, cleanup_all, cleanup_all-stops}
use os_sp.Posix.{
  SharedQueue, queue_init, stops, base, Place, looping, waiting, checking, moving, thread,
  take_slot, Act, begins, gets_slot, goes_on, System, acts, starts_thread, Reachable, starts,
  continues, Resize,
}
use os_sp.Posix.Invariant.{IsValid}
use os_sp.Posix.Safety.{Safe, Succeeds, Reachable-Succeeds}
use os_sp.Posix.Shrink.{Resize-quiet}

abbrev raw : List Message
raw = replicate 10 empty_message

abbrev fresh : SharedQueue
fresh = record {
  buffer = raw;
  head = 0;
  tail = 0;
  added_count = 0;
  extracted_count = 0;
  current_load = 0;
  queue_size = 10;
  empty = 10;
  full = 0;
}

abbrev state : SharedQueue → Place → System
state q at = record { running = true; queue = q; threads = thread producer at empty_message ∷ [] }

next :
    (q q' : SharedQueue) (at at' : Place)
    → Reachable (state q at)
    → Act true q (thread producer at empty_message) q' (thread producer at' empty_message)
    → Reachable (state q' at')
next q q' at at' r a =
    continues (state q at) (state q' at') r (
      acts [] [] true q q' (thread producer at empty_message) (thread producer at' empty_message) a)

abbrev taken : SharedQueue
taken = take_slot producer fresh

started : Reachable (state fresh looping)
unfolding queue_init
started =
    continues (record { running = true; queue = fresh; threads = [] }) (state fresh looping)
      (starts raw refl) (starts_thread true fresh [] producer empty_message)

moving_reached : Reachable (state taken moving)
moving_reached =
    next taken taken checking moving
      (next fresh taken waiting checking
        (next fresh fresh looping waiting started
          (begins fresh producer empty_message empty_message))
        (gets_slot true fresh producer empty_message (omega arith)))
      (goes_on taken producer empty_message)

Reachable-Succeeds_example : Succeeds producer empty_message taken
Reachable-Succeeds_example =
    Reachable-Succeeds true taken [] [] producer empty_message moving_reached

-- Three messages, around the end of the buffer.
abbrev three : SharedQueue
three = record fresh { head = 8; tail = 1; current_load = 3; empty = 7; full = 3 }

three-IsValid : IsValid three
three-IsValid = record {
  storage = refl;
  in_bound = omega arith;
  head_in = omega arith;
  load_in = omega arith;
  tail_at = refl;
}

Resize-quiet_example :
    (q' : SharedQueue) × Resize 5
      (some (replicate 5 empty_message))
      (record { running = true; queue = three; threads = [] })
      (record { running = true; queue = q'; threads = [] })
    × (q'.queue_size ≡ 5)
    × Safe true q' []
    × (contents (base q') ≡ contents (base three))
Resize-quiet_example =
    Resize-quiet three [] 5 (replicate 5 empty_message)
      (record { valid = three-IsValid; room = refl; filled = refl }) refl refl refl (omega arith)
      (omega arith)

-- One message, which `full` has given away.
abbrev given : SharedQueue
given = record fresh { tail = 1; current_load = 1; empty = 9 }

-- The flag is down, and the producer is about to push.
abbrev down : System
down = record {
  running = false;
  queue = taken;
  threads = thread producer moving empty_message ∷ [];
}

down_reached : Reachable down
down_reached =
    continues (state taken moving) down moving_reached
      (stops true taken (thread producer moving empty_message ∷ []))

Winds-Progress_example :
    (0 ≤ 3 * length down.threads) × Progress taken (thread producer moving empty_message ∷ [])
Winds-Progress_example =
    Winds-Progress 0 down taken (thread producer moving empty_message ∷ []) down_reached
      (rests down)

abbrev no_slots : List ThreadInfo
no_slots = replicate 10 no_thread

abbrev one_thread : Table
one_thread = record {
  slots = set no_slots 0 (record { thread = 5; id = 1; active = true; messages = 0 });
  count = 1;
}

one_thread-IsValid : Stack.IsValid one_thread
one_thread-IsValid = record { storage = refl; count_in = omega arith; all_active = (refl, tt) }

no_threads-IsValid : Stack.IsValid (record { slots = no_slots; count = 0 })
no_threads-IsValid = record { storage = refl; count_in = omega arith; all_active = tt }

abbrev program : Program
program = record {
  keep_running = true;
  producers = one_thread;
  consumers = record { slots = no_slots; count = 0 };
  queue = given;
  log = [];
}

cleanup_all-stops_example :
    let s' = cleanup_all program in
    (s'.keep_running ≡ false)
    × (s'.log ≡ program.log ++ (posts 20 ++ ends (all_threads program)))
    × (program.producers.count + program.consumers.count ≤ 20)
    × (s'.queue.empty ≡ program.queue.empty + 20)
    × (s'.queue.full ≡ program.queue.full + 20)
    × (s'.producers.count ≡ 0)
    × (s'.consumers.count ≡ 0)
cleanup_all-stops_example = cleanup_all-stops program one_thread-IsValid no_threads-IsValid
