-- ===== src/Threads/Loops/Kept.antt =====
-- What one step of the loops of LAB_5.2/src/producer.c and consumer.c keeps.
use os_sp.Prelude.{
  ℕ, ◌+◌, ◌≡◌, refl, sym, subst, Bool, true, false, ◌⊎◌, inl, inr, List, [], ◌∷◌, arith, ◌==◌,
  ==_refl, All, All-append,
}
use os_sp.Message.{Message, success, create_random_message, calculate_djb2}
use os_sp.Message.Generate.{create_random_message-hashed}
use os_sp.Queue.{done, SharedQueue, empty_message}
use os_sp.Queue.Invariant.{IsValid, pushed-IsValid}
use os_sp.Queue.Contents.{contents, contents-pushed}
use os_sp.Semaphores.{Role, producer, consumer}
use os_sp.Threads.Loops.Calls.{AfterPush, AfterPop, queue_push-AfterPush, queue_pop-AfterPop}
use os_sp.Threads.Loops.{
  Place, looping, calling, returned, finished, Loop, loop, stops_on, Act, sees_down, generates,
  calls, push_waits, pushes, push_fails, pop_waits, pops, pop_times_out, leaves, checks,
}

-- The hash of the message is that of its bytes.
abbrev pub Good : Message → Type 0
Good m = calculate_djb2 m ≡ m.hash

generated-Good : (rand : ℕ → ℕ) (raw : Message) → Good (create_random_message rand raw)
generated-Good = create_random_message-hashed

-- What holds of the message that a thread has.
abbrev pub At : Bool → Role → Place → Message → Type 0
At running producer looping m = Unit
At running producer (calling waited) m = Good m
At running producer returned m = Unit
At running producer finished m = Unit
At running consumer looping m = Unit
At running consumer (calling waited) m = Unit
At running consumer returned m = Good m ⊎ ((m ≡ empty_message) × (running ≡ false))
At running consumer finished m = Unit

abbrev pub Fine : Bool → Loop → Type 0
Fine running t = At running t.role t.place t.message

abbrev made_by : Role → ℕ → ℕ
made_by producer n = n
made_by consumer n = 0

-- What a producer has counted.
abbrev pub made : Loop → ℕ
made t = made_by t.role t.count

abbrev pub IsOk : Bool → Type 0
IsOk r = r ≡ true

-- What one step keeps.
pub record Kept (running : Bool) (q q' : SharedQueue) (t t' : Loop) (more : List Bool)
    : Type 0 where
  pub valid : IsValid q'
  pub good : All Good (contents q')
  pub fine : Fine running t'
  pub matched : All IsOk more
  pub counted : made t' + q.added_count ≡ made t + q'.added_count

still :
    (running : Bool) (q : SharedQueue) (t t' : Loop)
    → IsValid q
    → All Good (contents q)
    → Fine running t'
    → made t' ≡ made t
    → Kept running q q t t' []
still running q t t' v good fine same = record {
  valid = v;
  good = good;
  fine = fine;
  matched = tt;
  counted = omega (arith, same);
}

pushed-Kept :
    (running : Bool) (q q' : SharedQueue) (waited : Bool) (m : Message) (n : ℕ)
    → IsValid q
    → All Good (contents q)
    → Good m
    → AfterPush q m (done (success, q'))
    → Kept running q q' (loop producer (calling waited) m n) (loop producer looping m (n + 1)) []
pushed-Kept running q q' waited m n v good fine h =
    let room = h.1 in
    subst
      (λ p.
        Kept running q p (loop producer (calling waited) m n) (loop producer looping m (n + 1)) [])
      (sym h.0)
      (record {
        valid = pushed-IsValid q m v room;
        good =
            subst (All Good) (sym (contents-pushed q m v room))
              (All-append Good (contents q) (m ∷ []) good (fine, tt));
        fine = tt;
        matched = tt;
        counted = omega arith;
      })

popped-Kept :
    (running : Bool) (q q' : SharedQueue) (waited : Bool) (m m' : Message) (n : ℕ)
    → IsValid q
    → All Good (contents q)
    → AfterPop running q (done (m', q'))
    → Kept running q q' (loop consumer (calling waited) m n) (loop consumer returned m' n) []
popped-Kept running q q' waited m m' n v good (inl h) =
    let all = subst (All Good) h.0 good in
    record {
      valid = h.1;
      good = all.1;
      fine = inl all.0;
      matched = tt;
      counted = omega (arith, h.2);
    }
popped-Kept running q q' waited m m' n v good (inr h) =
    subst
      (λ p. Kept running q p (loop consumer (calling waited) m n) (loop consumer returned m' n) [])
      (sym h.1)
      (still running q (loop consumer (calling waited) m n) (loop consumer returned m' n) v good
        (inr (h.0, h.2)) refl)

-- A consumer that goes on to the check has a message of a producer.
checked-IsOk :
    (running : Bool) (m : Message)
    → At running consumer returned m
    → stops_on m running ≡ false
    → IsOk (calculate_djb2 m == m.hash)
checked-IsOk running m (inl good) e = rw good (==_refl m.hash)
checked-IsOk running m (inr h) e = absurd (
    ground (
      arith,
      subst (λ b. stops_on m b ≡ false) h.1 e,
      subst (λ x. stops_on x false ≡ false) h.0 (subst (λ b. stops_on m b ≡ false) h.1 e),
    ))

pub Act-Kept :
    (running : Bool) (q q' : SharedQueue) (t t' : Loop) (more : List Bool)
    → IsValid q
    → All Good (contents q)
    → Fine running t
    → Act running q t q' t' more
    → Kept running q q' t t' more
Act-Kept running _ _ _ _ _ v good fine (sees_down q producer m n e) =
    still running q _ _ v good tt refl
Act-Kept running _ _ _ _ _ v good fine (sees_down q consumer m n e) =
    still running q _ _ v good tt refl
Act-Kept running _ _ _ _ _ v good fine (generates q rand raw m n e) = record {
  valid = v;
  good = good;
  fine = generated-Good rand raw;
  matched = tt;
  counted = refl;
}
Act-Kept running _ _ _ _ _ v good fine (calls q m n e) = still running q _ _ v good tt refl
Act-Kept running _ _ _ _ _ v good fine (push_waits q waited m n e) =
    still running q _ _ v good fine refl
Act-Kept running _ _ _ _ _ v good fine (pushes q q' waited m n e) =
    pushed-Kept running q q' waited m n v good fine
      (subst (AfterPush q m) e (queue_push-AfterPush running q m v))
Act-Kept running _ _ _ _ _ v good fine (push_fails q q' waited m n e) =
    let same = subst (AfterPush q m) e (queue_push-AfterPush running q m v) in
    subst
      (λ p. Kept running q p (loop producer (calling waited) m n) (loop producer looping m n) [])
      (sym same) (still running q _ _ v good tt refl)
Act-Kept running _ _ _ _ _ v good fine (pop_waits q waited m n e) =
    still running q _ _ v good tt refl
Act-Kept running _ _ _ _ _ v good fine (pops q q' waited m m' n e) =
    popped-Kept running q q' waited m m' n v good
      (subst (AfterPop running q) e (queue_pop-AfterPop running q v))
Act-Kept running _ _ _ _ _ v good fine (pop_times_out q m n e) =
    still running q _ _ v good (inr (refl, e)) refl
Act-Kept running _ _ _ _ _ v good fine (leaves q m n e) = still running q _ _ v good tt refl
Act-Kept running _ _ _ _ _ v good fine (checks q m n e) = record {
  valid = v;
  good = good;
  fine = tt;
  matched = (checked-IsOk running m fine e, tt);
  counted = refl;
}
