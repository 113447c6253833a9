-- ===== src/Sort/Workers/Held.antt =====
-- What holds of the buffer, the map and the threads at any time in the local sort of
-- LAB_6/src/sort_index.c.
use os_sp.Prelude.{
  ℕ, ◌+◌, ◌<◌, ◌≤◌, ◌≡◌, ◌≢◌, ◌∙◌, refl, sym, ap, subst, Bool, true, false, List, ◌∷◌, ◌++◌, arith,
  length, get_or, get_or-set_self, get_or-set_ne, ◌==◌, bit, total, total-middle, total-none, All,
  All-around, ℕ_discrete,
}
use os_sp.Sort.{Index, BlockInfo, State, free, busy, finished, no_block}
use os_sp.Sort.Claim.{Taken}
use os_sp.Sort.Runs.{Run, join, Describes}
use os_sp.Sort.Workers.{Worker, claiming, sorting, marking, arrived, with_state}
use os_sp.Sort.Workers.Buffer.{partly_sorted}

abbrev pub state_at : List BlockInfo → ℕ → State
state_at bs i = (get_or bs i no_block).state

-- 1 for a thread that has claimed block `i`, and for a block that is claimed.
abbrev pub holds : ℕ → Worker → ℕ
holds i claiming = 0
holds i (sorting j) = bit (j == i)
holds i (marking j) = bit (j == i)
holds i arrived = 0

abbrev pub is_busy : State → ℕ
is_busy free = 0
is_busy busy = 1
is_busy finished = 0

-- What the buffer says of a block in a state.
abbrev pub Matches : State → Bool → Type 0
Matches free sorted = sorted ≡ false
Matches busy sorted = Unit
Matches finished sorted = sorted ≡ true

-- What the threads know of the blocks.
abbrev pub Knows : List BlockInfo → (ℕ → Bool) → Worker → Type 0
Knows bs sorted claiming = Unit
Knows bs sorted (sorting i) = (i < length bs) × (sorted i ≡ false)
Knows bs sorted (marking i) = (i < length bs) × (sorted i ≡ true)
Knows bs sorted arrived = All Taken bs

pub state_at-same :
    (s : State) (bs : List BlockInfo) (i : ℕ) → i < length bs → state_at (with_state s bs i) i ≡ s
state_at-same s bs i h =
    ap (λ b. b.state)
      (get_or-set_self bs i (record (get_or bs i no_block) { state = s }) no_block h)

pub state_at-other :
    (s : State) (bs : List BlockInfo) (i j : ℕ)
    → i ≢ j
    → state_at (with_state s bs i) j ≡ state_at bs j
state_at-other s bs i j n =
    ap (λ b. b.state)
      (get_or-set_ne bs i j (record (get_or bs i no_block) { state = s }) no_block n)

module _ (qsort : List Index → List Index)
    (same_length : (r : List Index) → length (qsort r) ≡ length r) where
  pub record Going (rs : List Run) (buf : List Index) (bs : List BlockInfo) (ws : List Worker)
      (sorted : ℕ → Bool) : Type 0 where
    pub in_buf : buf ≡ join (partly_sorted qsort same_length sorted 0 rs)
    pub in_map : Describes 0 bs rs
    pub held : (i : ℕ) → i < length bs → total (holds i) ws ≡ is_busy (state_at bs i)
    pub matching : (i : ℕ) → i < length bs → Matches (state_at bs i) (sorted i)
    pub known : All (Knows bs sorted) ws

  abbrev pub Other : ℕ → Worker → Type 0
  Other i u = holds i u ≡ 0

  -- A step of one thread that is about block `i`.
  pub moved :
      (rs : List Run) (buf buf' : List Index) (bs bs' : List BlockInfo) (before after : List Worker)
      (w w' : Worker) (sorted sorted' : ℕ → Bool) (i : ℕ)
      → Going rs buf bs (before ++ w ∷ after) sorted
      → buf' ≡ join (partly_sorted qsort same_length sorted' 0 rs)
      → Describes 0 bs' rs
      → length bs' ≡ length bs
      → ((j : ℕ) → j ≢ i → state_at bs' j ≡ state_at bs j)
      → ((j : ℕ) → j ≢ i → sorted' j ≡ sorted j)
      → ((j : ℕ) → j ≢ i → holds j w' ≡ holds j w)
      → total (holds i) before + total (holds i) after ≡ 0
      → holds i w' ≡ is_busy (state_at bs' i)
      → Matches (state_at bs' i) (sorted' i)
      → ((u : Worker) → Other i u → Knows bs sorted u → Knows bs' sorted' u)
      → Knows bs' sorted' w'
      → Going rs buf' bs' (before ++ w' ∷ after) sorted'
  moved rs buf buf' bs bs' before after w w' sorted sorted' i g in_buf in_map same_map states
        sorts_same holds_same alone here matches others new =
      record {
        in_buf = in_buf;
        in_map = in_map;
        held = held;
        matching = matching;
        known =
            All-around (Knows bs sorted) (Other i) (Knows bs' sorted') before after w w' others
              (total-none (holds i) before (omega (arith, alone)))
              (total-none (holds i) after (omega (arith, alone))) new g.known;
      }
    where
      held :
          (j : ℕ)
          → j < length bs'
          → total (holds j) (before ++ w' ∷ after) ≡ is_busy (state_at bs' j)
      held j h = elim (ℕ_discrete j i) [
        | yes e ↦
            subst (λ k. total (holds k) (before ++ w' ∷ after) ≡ is_busy (state_at bs' k)) (sym e)
              (omega (arith, total-middle (holds i) before after w', here, alone))
        | no n ↦ omega (
          arith,
          total-middle (holds j) before after w',
          total-middle (holds j) before after w,
          g.held j (omega (arith, h, same_map)),
          holds_same j n,
          ap is_busy (states j n),
        )
      ]

      matching : (j : ℕ) → j < length bs' → Matches (state_at bs' j) (sorted' j)
      matching j h = elim (ℕ_discrete j i) [
        | yes e ↦ subst (λ k. Matches (state_at bs' k) (sorted' k)) (sym e) matches
        | no n ↦
            subst (λ s. Matches s (sorted' j)) (sym (states j n))
              (subst (λ b. Matches (state_at bs j) b) (sym (sorts_same j n))
                (g.matching j (omega (arith, h, same_map))))
      ]

  -- The others hold nothing of the block that this thread holds.
  pub others_hold :
      (rs : List Run) (buf : List Index) (bs : List BlockInfo) (before after : List Worker)
      (w : Worker) (sorted : ℕ → Bool) (i : ℕ)
      → Going rs buf bs (before ++ w ∷ after) sorted
      → i < length bs
      → holds i w + (total (holds i) before + total (holds i) after) ≡ is_busy (state_at bs i)
  others_hold rs buf bs before after w sorted i g h =
      sym (total-middle (holds i) before after w) ∙ g.held i h

  is_busy_le : (s : State) → is_busy s ≤ 1
  is_busy_le free = omega arith
  is_busy_le busy = omega arith
  is_busy_le finished = omega arith

  pub bit_refl : (i : ℕ) → bit (i == i) ≡ 1
  bit_refl i = ground arith

  pub bit_other : (i j : ℕ) → j ≢ i → bit (i == j) ≡ 0
  bit_other i j n = ground (arith, n)

  busy_of : (s : State) → is_busy s ≡ 1 → s ≡ busy
  busy_of free e = absurd (omega (arith, e))
  busy_of busy e = refl
  busy_of finished e = absurd (omega (arith, e))

  pub bit_apart : (i j : ℕ) → bit (j == i) ≡ 0 → j ≢ i
  bit_apart i j apart e = absurd (omega (arith, sym apart ∙ ap (λ k. bit (k == i)) e ∙ bit_refl i))

  -- The only thread with the block.
  pub alone :
      (rs : List Run) (buf : List Index) (bs : List BlockInfo) (before after : List Worker)
      (w : Worker) (sorted : ℕ → Bool) (i : ℕ)
      → Going rs buf bs (before ++ w ∷ after) sorted
      → i < length bs
      → holds i w ≡ 1
      → (total (holds i) before + total (holds i) after ≡ 0) × (state_at bs i ≡ busy)
  alone rs buf bs before after w sorted i g h mine =
      let sum = others_hold rs buf bs before after w sorted i g h in
      (
        omega (arith, sum, mine, is_busy_le (state_at bs i)),
        busy_of (state_at bs i) (omega (arith, sum, mine, is_busy_le (state_at bs i))),
      )
