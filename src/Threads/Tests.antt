-- ===== src/Threads/Tests.antt =====
-- The threads of LAB_5.2 on concrete inputs.
use os_sp.Prelude.{ℕ, ◌≡◌, refl, true, false, some, List, [], ◌∷◌, arith, All, total, ◌==◌}
use os_sp.Message.{Message, create_random_message, calculate_djb2}
use os_sp.Queue.{SharedQueue, empty_message, queue_init, queue_push, queue_pop}
use os_sp.Semaphores.{producer, consumer}
use os_sp.Threads.Loops.{
  looping, calling, returned, loop, generates, calls, pushes, pops, checks, stops_on, System,
  Reachable, begins, starts, acts,
}
use os_sp.Threads.Loops.Kept.{made, IsOk}
use os_sp.Threads.Loops.Checked.{Reachable-checked}

abbrev raw : List Message
raw = empty_message ∷ empty_message ∷ []

abbrev queue_with : List Message → ℕ → ℕ → ℕ → ℕ → ℕ → SharedQueue
queue_with buffer head tail added extracted load = record {
  buffer = buffer;
  head = head;
  tail = tail;
  added_count = added;
  extracted_count = extracted;
  current_load = load;
  queue_size = 2;
}

abbrev new_queue : SharedQueue
new_queue = queue_with raw 0 0 0 0 0

abbrev rand : ℕ → ℕ
rand i = i

abbrev made_message : Message
made_message = create_random_message rand empty_message

abbrev filled : SharedQueue
filled = queue_with (made_message ∷ empty_message ∷ []) 0 1 1 0 1

abbrev emptied : SharedQueue
emptied = queue_with (made_message ∷ empty_message ∷ []) 1 1 1 1 0

-- A producer makes a message, and a consumer checks it.
abbrev checked : System
checked = record {
  running = true;
  queue = emptied;
  loops = loop producer looping made_message 1 ∷ loop consumer looping made_message 1 ∷ [];
  reports = (calculate_djb2 made_message == made_message.hash) ∷ [];
}

keeps_on : (m : Message) → stops_on m true ≡ false
keeps_on m = ground arith

checked_run : Reachable new_queue checked
unfolding queue_push queue_pop
checked_run =
    acts true emptied emptied (loop producer looping made_message 1 ∷ []) []
      (loop consumer returned made_message 0) (loop consumer looping made_message 1) [] _
      (acts true filled emptied (loop producer looping made_message 1 ∷ []) []
        (loop consumer (calling false) empty_message 0) (loop consumer returned made_message 0) []
        []
        (acts true filled filled (loop producer looping made_message 1 ∷ []) []
          (loop consumer looping empty_message 0) (loop consumer (calling false) empty_message 0) []
          []
          (acts true new_queue filled [] (loop consumer looping empty_message 0 ∷ [])
            (loop producer (calling false) made_message 0) (loop producer looping made_message 1) []
            []
            (acts true new_queue new_queue [] (loop consumer looping empty_message 0 ∷ [])
              (loop producer looping empty_message 0) (loop producer (calling false) made_message 0)
              [] [] (starts _ consumer empty_message (starts _ producer empty_message begins))
              (generates new_queue rand empty_message empty_message 0 refl))
            (pushes new_queue filled false made_message 0 refl))
          (calls filled empty_message 0 refl))
        (pops filled emptied false empty_message made_message 0 refl))
      (checks emptied made_message 0 (keeps_on made_message))

new_queue_made : queue_init (some raw) 2 ≡ some new_queue
unfolding queue_init
new_queue_made = refl

Reachable-checked_example :
    All IsOk checked.reports × (total made checked.loops ≡ checked.queue.added_count)
Reachable-checked_example =
    Reachable-checked raw 2 refl (omega arith) new_queue new_queue_made checked checked_run
