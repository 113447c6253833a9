-- ===== src/Queue/Tests.antt =====
-- The queue of LAB_5.2/src/queue.c on concrete inputs.
use os_sp.Prelude.{ℕ, ◌≡◌, refl, true, false, some, List, [], ◌∷◌, arith}
use os_sp.Message.{Message, success}
use os_sp.Queue.{SharedQueue, done, fault, Wake, queue_push, queue_resize, pop_read}
use os_sp.Queue.Invariant.{IsValid}
use os_sp.Queue.Contents.{contents}
use os_sp.Queue.Waiting.{Pushed, queue_push-Pushed}
use os_sp.Queue.Fifo.{Op, put, get, run, fifo, run-fifo}
use os_sp.Queue.Abstract.{ValidQueue, view, AbstractQueue-ext}
use os_sp.Queue.Resize.{queue_resize-contents, queue_resize-tail_overflow}

abbrev message : ℕ → Message
message n = record { type = n; hash = 0; size = 0; payload = n ∷ [] }

-- Two messages in three slots, across the buffer's end.
abbrev wrapped : SharedQueue
wrapped = record {
  buffer = message 1 ∷ message 2 ∷ message 3 ∷ [];
  head = 2;
  tail = 1;
  added_count = 5;
  extracted_count = 3;
  current_load = 2;
  queue_size = 3;
}

wrapped-IsValid : IsValid wrapped
wrapped-IsValid = record {
  storage = refl;
  positive = omega arith;
  head_in = omega arith;
  load_in = omega arith;
  tail_at = refl;
  counted = refl;
}

abbrev full : SharedQueue
full = record {
  buffer = message 1 ∷ message 2 ∷ [];
  head = 1;
  tail = 1;
  added_count = 5;
  extracted_count = 3;
  current_load = 2;
  queue_size = 2;
}

full-IsValid : IsValid full
full-IsValid = record {
  storage = refl;
  positive = omega arith;
  head_in = omega arith;
  load_in = omega arith;
  tail_at = refl;
  counted = refl;
}

abbrev empty : SharedQueue
empty = record {
  buffer = message 1 ∷ message 2 ∷ [];
  head = 1;
  tail = 1;
  added_count = 3;
  extracted_count = 3;
  current_load = 0;
  queue_size = 2;
}

-- First a wait that runs out with the flag up, then one after which the queue has room.
abbrev wakes : List Wake
wakes =
    record { timed_out = true; running = true; queue = full }
    ∷ record { timed_out = false; running = true; queue = wrapped }
    ∷ []

abbrev ops : List Op
ops = put (message 4) ∷ get ∷ get ∷ put (message 5) ∷ get ∷ get ∷ []

run-fifo_example : run wrapped ops ≡ fifo 3 (contents wrapped) ops
run-fifo_example = run-fifo ops wrapped wrapped-IsValid

queue_push-Pushed_example :
    Pushed true full wakes (message 4) (queue_push wakes true full (message 4))
queue_push-Pushed_example =
    queue_push-Pushed wakes true full (message 4) full-IsValid (full-IsValid, (wrapped-IsValid, tt))

abbrev four_slots : List Message
four_slots = message 9 ∷ message 9 ∷ message 9 ∷ message 9 ∷ []

queue_resize-contents_example :
    (q' : SharedQueue) × (queue_resize wrapped 4 (some four_slots) ≡ done (success, q'))
    × IsValid q'
    × (contents q' ≡ contents wrapped)
    × (q'.queue_size ≡ 4)
    × (q'.added_count ≡ 5)
    × (q'.extracted_count ≡ 3)
queue_resize-contents_example =
    queue_resize-contents wrapped 4 four_slots wrapped-IsValid refl (omega arith) (omega arith)

queue_resize-tail_overflow_example :
    (q' : SharedQueue) × (q'' : SharedQueue) × (x : Message) × (queue_resize wrapped 2
        (some (message 9 ∷ message 9 ∷ []))
      ≡ done (success, q'))
    × (q'.tail ≡ q'.queue_size)
    × (pop_read q' ≡ done (x, q''))
    × (queue_push [] true q'' (message 4) ≡ fault)
queue_resize-tail_overflow_example =
    queue_resize-tail_overflow wrapped (message 9 ∷ message 9 ∷ []) (message 4) wrapped-IsValid
      (omega arith) (omega arith) refl

-- The messages of `wrapped` from the start of the buffer, with another message in the free slot.
abbrev straight : SharedQueue
straight = record {
  buffer = message 3 ∷ message 1 ∷ message 9 ∷ [];
  head = 0;
  tail = 2;
  added_count = 2;
  extracted_count = 0;
  current_load = 2;
  queue_size = 3;
}

straight-IsValid : IsValid straight
straight-IsValid = record {
  storage = refl;
  positive = omega arith;
  head_in = omega arith;
  load_in = omega arith;
  tail_at = refl;
  counted = refl;
}

abbrev two_ways : ValidQueue × ValidQueue
two_ways = (
  record { queue = wrapped; valid = wrapped-IsValid },
  record { queue = straight; valid = straight-IsValid },
)

same_view : view two_ways.0 ≡ view two_ways.1
same_view = AbstractQueue-ext (view two_ways.0) (view two_ways.1) refl refl
