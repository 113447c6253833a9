-- ===== src/Environ/Growth.antt =====
-- LAB_2/src/parent.c: the array of variables, when it grows and when a variable is stored.
use os_sp.Prelude.{
  ℕ, suc, ◌+◌, ◌-◌, ◌*◌, ◌<◌, ◌≤◌, ◌≡◌, ◌∙◌, refl, sym, ap, ap₂, subst, Bool, true, false, List, [],
  ◌∷◌, ◌++◌, append-nil, append_assoc, arith, length, length-replicate, length-append, length-set,
  leb→lt, ltb→le, replicate-append, set, replicate, map, leb, ltb, if◌then◌else◌, if-holds,
}
use os_sp.Message.{Status, success, failure}
use os_sp.Queue.{Outcome, done, fault, ◌>>=◌}
use os_sp.Environ.{
  Cell, uninitialised, text, ChildEnv, new_env, Allocs, put, grow, store, after_grow,
}

-- The array holds these variables and has room for at least one more pointer.
pub record Holds (vs : List (List ℕ)) (e : ChildEnv) : Type 0 where
  pub count_is : e.count ≡ length vs
  pub spare : ℕ
  pub cells_are : e.cells ≡ map text vs ++ replicate (suc spare) uninitialised
  pub capacity_is : length e.cells ≡ e.capacity

-- What is left of it when the growth has failed.
pub record Ended (vs : List (List ℕ)) (e : ChildEnv) : Type 0 where
  pub count_is : e.count ≡ length vs
  pub spare : ℕ
  pub cells_are : e.cells ≡ map text vs ++ replicate (suc spare) uninitialised
  pub capacity_le : length e.cells ≤ e.capacity

pub new_env-Holds : Holds [] new_env
new_env-Holds = record { count_is = refl; spare = 9; cells_are = refl; capacity_is = refl }

-- One cell behind the variables is written.
pub set-behind :
    (vs : List (List ℕ)) (c d : Cell) (cells : List Cell)
    → set (map text vs ++ d ∷ cells) (length vs) c ≡ map text vs ++ c ∷ cells
set-behind [] c d cells = refl
set-behind (v ∷ vs) c d cells = ap (◌∷◌ (text v)) (set-behind vs c d cells)

length-behind :
    (vs : List (List ℕ)) (cells : List Cell)
    → length (map text vs ++ cells) ≡ length vs + length cells
length-behind [] cells = omega arith
length-behind (v ∷ vs) cells = omega (arith, length-behind vs cells)

-- `grow`, on its three branches.
pub data Grown (a : Allocs) (vs : List (List ℕ)) : Status × ChildEnv → Type 0 where
  has_room :
      (e : ChildEnv) (s : ℕ)
      → e.count ≡ length vs
      → e.cells ≡ map text vs ++ replicate (suc (suc s)) uninitialised
      → length e.cells ≡ e.capacity
      → Grown a vs (success, e)
  no_memory : (e : ChildEnv) → a.grows ≡ false → Ended vs e → Grown a vs (failure, e)

length-cells :
    (vs : List (List ℕ)) (e : ChildEnv) (h : Holds vs e) → e.capacity ≡ length vs + suc h.spare
length-cells vs e h =
    sym h.capacity_is
    ∙ ap length h.cells_are
    ∙ length-behind vs (replicate (suc h.spare) uninitialised)
    ∙ ap (λ k. length vs + suc k) (length-replicate h.spare uninitialised)

abbrev enlarged : ChildEnv → ChildEnv
enlarged e = record e {
  cells = e.cells ++ replicate (e.capacity * 2 - length e.cells) uninitialised;
  capacity = e.capacity * 2;
}

enlarged-Grown :
    (a : Allocs) (vs : List (List ℕ)) (e : ChildEnv) → Holds vs e → Grown a vs (success, enlarged e)
enlarged-Grown a vs e h =
    let size = length-cells vs e h in
    let more = e.capacity * 2 - length e.cells in
    has_room (enlarged e) (h.spare + more - 1) h.count_is
      (ap (λ cells. cells ++ replicate more uninitialised) h.cells_are
        ∙ append_assoc (map text vs) (replicate (suc h.spare) uninitialised)
            (replicate more uninitialised)
        ∙ ap (λ cells. map text vs ++ cells)
            (replicate-append (suc h.spare) more uninitialised
              ∙ ap (λ k. replicate k uninitialised) {x = suc h.spare + more}
                  {y = suc (suc (h.spare + more - 1))} (omega (arith, h.capacity_is))))
      (length-append e.cells (replicate more uninitialised)
        ∙ omega (arith, length-replicate more uninitialised, h.capacity_is))

pub grow-Grown :
    (a : Allocs) (vs : List (List ℕ)) (e : ChildEnv) → Holds vs e → Grown a vs (grow a e)
grow-Grown a vs e h =
    let size = length-cells vs e h in
    if-holds (Grown a vs) (leb (e.capacity - 1) e.count)
      (if a.grows then (success, enlarged e) else (failure, record e { capacity = e.capacity * 2 }))
      (success, e)
      (λ _.
        if-holds (Grown a vs) a.grows (success, enlarged e)
          (failure, record e { capacity = e.capacity * 2 }) (λ _. enlarged-Grown a vs e h)
          (λ none_left.
            no_memory (record e { capacity = e.capacity * 2 }) none_left
              record {
                count_is = h.count_is;
                spare = h.spare;
                cells_are = h.cells_are;
                capacity_le = omega (arith, h.capacity_is);
              }))
      (λ room.
        let some_left = leb→lt (e.capacity - 1) e.count room in
        has_room e (h.spare - 1) h.count_is
          (h.cells_are
            ∙ ap (λ k. map text vs ++ replicate k uninitialised) {x = suc h.spare}
                {y = suc (suc (h.spare - 1))} (omega (arith, size, h.count_is)))
          h.capacity_is)

-- What a stored variable adds.
abbrev pub added : Allocs → List ℕ → List (List ℕ)
added a v = if a.stores then v ∷ [] else []

-- The result of one round.
pub data Next (a : Allocs) (vs more : List (List ℕ)) : Outcome (Status × ChildEnv) → Type 0 where
  goes_on : (e : ChildEnv) → Holds (vs ++ more) e → Next a vs more (done (success, e))
  ends : (e : ChildEnv) → a.grows ≡ false → Ended vs e → Next a vs more (done (failure, e))

map-snoc :
    (vs : List (List ℕ)) (v : List ℕ) (cells : List Cell)
    → map text (vs ++ v ∷ []) ++ cells ≡ map text vs ++ text v ∷ cells
map-snoc [] v cells = refl
map-snoc (w ∷ vs) v cells = ap (◌∷◌ (text w)) (map-snoc vs v cells)

-- The write of one variable, with a cell to spare behind it.
stored-Holds :
    (vs : List (List ℕ)) (v : List ℕ) (e : ChildEnv) (s : ℕ)
    → e.count ≡ length vs
    → e.cells ≡ map text vs ++ replicate (suc (suc s)) uninitialised
    → length e.cells ≡ e.capacity
    → Holds (vs ++ v ∷ []) (record e { cells = set e.cells e.count (text v); count = e.count + 1 })
stored-Holds vs v e s count cells size = record {
  count_is = omega (arith, count, length-append vs (v ∷ []));
  spare = s;
  cells_are =
      ap₂ (λ cs n. set cs n (text v)) cells count
      ∙ set-behind vs (text v) uninitialised (replicate (suc s) uninitialised)
      ∙ sym (map-snoc vs v (replicate (suc s) uninitialised));
  capacity_is = length-set e.cells e.count (text v) ∙ size;
}

pub length-spare :
    (vs : List (List ℕ)) (e : ChildEnv) (s : ℕ)
    → e.cells ≡ map text vs ++ replicate s uninitialised
    → length e.cells ≡ length vs + s
length-spare vs e s cells =
    ap length cells
    ∙ length-behind vs (replicate s uninitialised)
    ∙ ap (λ k. length vs + k) (length-replicate s uninitialised)

-- `put` inside the array.
pub put-done :
    (e : ChildEnv) (i : ℕ) (c : Cell)
    → i < length e.cells
    → put e i c ≡ done (record e { cells = set e.cells i c })
put-done e i c inside =
    if-holds (λ r. r ≡ done (record e { cells = set e.cells i c })) (ltb i (length e.cells))
      (done (record e { cells = set e.cells i c })) fault (λ _. refl)
      (λ outside. absurd (omega (arith, ltb→le i (length e.cells) outside)))

store-Next :
    (grows stores : Bool) (vs : List (List ℕ)) (v : List ℕ) (e : ChildEnv) (s : ℕ)
    → e.count ≡ length vs
    → e.cells ≡ map text vs ++ replicate (suc (suc s)) uninitialised
    → length e.cells ≡ e.capacity
    → Next
        (record { grows = grows; stores = stores })
        vs
        (added (record { grows = grows; stores = stores }) v)
        (store (record { grows = grows; stores = stores }) v e >>= λ e'. done (success, e'))
store-Next grows true vs v e s count cells size =
    rw (put-done e e.count (text v) (omega (arith, count, length-spare vs e (suc (suc s)) cells))) (
      goes_on (record e { cells = set e.cells e.count (text v); count = e.count + 1 })
        (stored-Holds vs v e s count cells size))
store-Next grows false vs v e s count cells size = goes_on e (
    subst (λ ws. Holds ws e) (sym (append-nil vs))
      (record { count_is = count; spare = suc s; cells_are = cells; capacity_is = size }))

pub after_grow-Next :
    (a : Allocs) (vs : List (List ℕ)) (v : List ℕ) (r : Status × ChildEnv)
    → Grown a vs r
    → Next a vs (added a v) (after_grow a v r)
after_grow-Next a vs v _ (has_room e s count cells size) =
    store-Next a.grows a.stores vs v e s count cells size
after_grow-Next a vs v _ (no_memory e fails h) = ends e fails h
