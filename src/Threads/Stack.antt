-- ===== src/Threads/Stack.antt =====
-- The thread table of LAB_5.2 as a stack of threads: `add_thread` and `kill_last`.
use os_sp.Prelude.{
  ℕ, zero, suc, ◌+◌, ◌-◌, ◌<◌, ◌≤◌, ◌≡◌, refl, ◌∙◌, sym, ap, true, false, Option, none, some, List,
  [], ◌∷◌, ◌++◌, arith, length, get_or, set, take, All, All-append, subst, ◌⊎◌, ◌==◌, length-set,
  inl, inr,
}
use os_sp.Threads.{
  ThreadInfo, max_threads, no_thread, Table, find_last, shift_down, kill_last, add_thread,
}

-- The threads that the table counts.
abbrev pub live : Table → List ThreadInfo
live t = take t.count t.slots

abbrev pub IsActive : ThreadInfo → Type 0
IsActive t = t.active ≡ true

pub record IsValid (t : Table) : Type 0 where
  pub storage : length t.slots ≡ max_threads
  pub count_in : t.count ≤ max_threads
  pub all_active : All IsActive (live t)

take-set_self :
    (n : ℕ) (xs : List ThreadInfo) (x : ThreadInfo)
    → n < length xs
    → take (suc n) (set xs n x) ≡ take n xs ++ x ∷ []
take-set_self n [] x p = absurd (omega arith)
take-set_self zero (y ∷ xs) x p = refl
take-set_self (suc n) (y ∷ xs) x p = ap (◌∷◌ y) (take-set_self n xs x (omega arith))

take-set_beyond :
    (n m : ℕ) (xs : List ThreadInfo) (x : ThreadInfo) → n ≤ m → take n (set xs m x) ≡ take n xs
take-set_beyond zero m xs x p = refl
take-set_beyond (suc n) m [] x p = refl
take-set_beyond (suc n) zero (y ∷ xs) x p = absurd (omega arith)
take-set_beyond (suc n) (suc m) (y ∷ xs) x p = ap (◌∷◌ y) (take-set_beyond n m xs x (omega arith))

take-snoc :
    (n : ℕ) (xs : List ThreadInfo)
    → n < length xs
    → take (suc n) xs ≡ take n xs ++ get_or xs n no_thread ∷ []
take-snoc n [] p = absurd (omega arith)
take-snoc zero (y ∷ xs) p = refl
take-snoc (suc n) (y ∷ xs) p = ap (◌∷◌ y) (take-snoc n xs (omega arith))

pub All-live :
    (n i : ℕ) (xs : List ThreadInfo)
    → i < n
    → n ≤ length xs
    → All IsActive (take n xs)
    → IsActive (get_or xs i no_thread)
All-live zero i xs p q k = absurd (omega arith)
All-live (suc n) i [] p q k = absurd (omega arith)
All-live (suc n) zero (x ∷ xs) p q k = k.0
All-live (suc n) (suc i) (x ∷ xs) p q k = All-live n i xs (omega arith) (omega arith) k.1

All-take_less :
    (n : ℕ) (xs : List ThreadInfo) → All IsActive (take (suc n) xs) → All IsActive (take n xs)
All-take_less zero xs k = tt
All-take_less (suc n) [] k = tt
All-take_less (suc n) (x ∷ xs) k = (k.0, All-take_less n xs k.1)

abbrev fresh : Table → ThreadInfo
fresh t = record (get_or t.slots t.count no_thread) {
  id = t.count + 1;
  active = true;
  messages = 0;
}

added :
    (thread : ℕ) (t : Table)
    → IsValid t
    → t.count < max_threads
    → take (t.count + 1) (set t.slots t.count (record (fresh t) { thread = thread }))
      ≡ live t ++ record (fresh t) { thread = thread } ∷ []
added thread t v room =
    ap (λ n. take n (set t.slots t.count (record (fresh t) { thread = thread }))) {y = suc t.count}
      (omega arith)
    ∙ take-set_self t.count t.slots (record (fresh t) { thread = thread })
        (omega (arith, v.storage))

count_cases : (n : ℕ) → (n ≡ 0) ⊎ ((m : ℕ) × (n ≡ suc m))
count_cases zero = inl refl
count_cases (suc n) = inr (n, refl)

pub add_thread-IsValid :
    (created : Option ℕ) (t : Table)
    → IsValid t
    → t.count < max_threads
    → IsValid (add_thread created t)
unfolding add_thread
add_thread-IsValid none t v room = record {
  storage = length-set t.slots t.count (fresh t) ∙ v.storage;
  count_in = v.count_in;
  all_active = rw (take-set_beyond t.count t.count t.slots (fresh t) (omega arith)) v.all_active;
}
add_thread-IsValid (some thread) t v room = record {
  storage = length-set t.slots t.count (record (fresh t) { thread = thread }) ∙ v.storage;
  count_in = omega arith;
  all_active = subst (All IsActive) (sym (added thread t v room)) (
      All-append IsActive (live t) (record (fresh t) { thread = thread } ∷ []) v.all_active
        (refl, tt));
}

-- A thread that starts goes on top of the counted ones, active and with no messages; if it does not
-- start, the counted threads stay as they are.
pub add_thread-live :
    (thread : ℕ) (t : Table)
    → IsValid t
    → t.count < max_threads
    → (live (add_thread (some thread) t)
        ≡ live t ++ record { thread = thread; id = t.count + 1; active = true; messages = 0 } ∷ [])
      × (live (add_thread none t) ≡ live t)
unfolding add_thread
add_thread-live thread t v room =
    (added thread t v room, take-set_beyond t.count t.count t.slots (fresh t) (omega arith))

find_last-top :
    (n : ℕ) (slots : List ThreadInfo)
    → IsActive (get_or slots n no_thread)
    → find_last (suc n) slots ≡ some n
unfolding find_last
find_last-top n slots e = rw e refl

-- What `kill_last` leaves of a valid table that is not empty.
abbrev below_top : Table → ℕ → Table
below_top t n = record {
  slots = set t.slots n (record (get_or t.slots n no_thread) { active = false });
  count = n;
}

kill_last-below_top :
    (t : Table) (n : ℕ)
    → IsValid t
    → t.count ≡ suc n
    → kill_last t ≡ (below_top t n, some (get_or t.slots n no_thread).thread)
unfolding kill_last shift_down
kill_last-below_top t n v e =
    let top : IsActive (get_or t.slots n no_thread) =
      All-live t.count n t.slots (omega arith) (omega (arith, v.count_in, v.storage))
        v.all_active in
    let no_shift : t.count - 1 - n ≡ 0 = omega arith in
    let less : t.count - 1 ≡ n = omega arith in
    let some_left : (suc n == 0) ≡ false = ground arith in
    rw (e, some_left, find_last-top n t.slots top, no_shift, less) refl

-- From a valid table with threads, `kill_last` cancels and joins exactly the thread that was added
-- last among the counted ones, and leaves the others as they are, in a valid table.
pub kill_last-live :
    (t : Table) (n : ℕ)
    → IsValid t
    → t.count ≡ suc n
    → (victim : ThreadInfo) × (t' : Table) × (kill_last t ≡ (t', some victim.thread))
      × (live t ≡ live t' ++ victim ∷ [])
      × IsValid t'
kill_last-live t n v e = (
  get_or t.slots n no_thread,
  below_top t n,
  kill_last-below_top t n v e,
  ap (λ k. take k t.slots) e
      ∙ take-snoc n t.slots room
      ∙ ap (λ xs. xs ++ get_or t.slots n no_thread ∷ []) (sym kept),
  record {
    storage =
        length-set t.slots n (record (get_or t.slots n no_thread) { active = false }) ∙ v.storage;
    count_in = omega (arith, v.count_in);
    all_active =
        rw kept
          (All-take_less n t.slots (subst (λ k. All IsActive (take k t.slots)) e v.all_active));
  },
)
  where
    room : n < length t.slots
    room = omega (arith, v.count_in, v.storage)

    kept : live (below_top t n) ≡ take n t.slots
    kept =
        take-set_beyond n n t.slots (record (get_or t.slots n no_thread) { active = false })
          (omega arith)

kill_last-none : (t : Table) → t.count ≡ 0 → kill_last t ≡ (t, none)
unfolding kill_last
kill_last-none t e = ground arith

pub kill_last-IsValid : (t : Table) → IsValid t → IsValid (kill_last t).0
kill_last-IsValid t v = elim (count_cases t.count) [
  | inl e ↦ rw (kill_last-none t e) v
  | inr (n, e) ↦ let (_, t', k, _, v') = kill_last-live t n v e in rw k v'
]
