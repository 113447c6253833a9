-- ===== src/Sort/Blocks.antt =====
-- `init_block_map` of LAB_6/src/sort_index.c, and the parts of the buffer that the blocks cut.
use os_sp.Prelude.{
  ℕ, zero, suc, ◌+◌, ◌-◌, ◌*◌, ◌/◌, ◌%◌, ◌≤◌, ◌<◌, ◌≡◌, refl, ◌∙◌, sym, ap, subst, some, none, List,
  [], ◌∷◌, ◌++◌, arith, length, ltb, if◌then◌else◌, All, take, drop, take-append-drop, length-take,
  length-drop,
}
use native.Mathlib.Nat.{div-add-mod, div-eq_of_lt, mod-lt}
use os_sp.Sort.{Index, BlockInfo, cut_blocks, init_block_map}
use os_sp.Sort.Runs.{Run, join, Describes}

-- The pieces of a buffer that blocks of these sizes cut.
pub pieces : List BlockInfo → List Index → List Run
pieces [] buf = []
pieces (b ∷ bs) buf = take b.size buf ∷ pieces bs (drop b.size buf)

unfoldable pub total_size : List BlockInfo → ℕ
total_size [] = 0
total_size (b ∷ bs) = b.size + total_size bs

pub join-pieces :
    (bs : List BlockInfo) (buf : List Index)
    → total_size bs ≡ length buf
    → join (pieces bs buf) ≡ buf
unfolding pieces total_size
join-pieces [] [] e = refl
join-pieces [] (x ∷ buf) e = absurd (omega arith)
join-pieces (b ∷ bs) buf e =
    ap (λ r. take b.size buf ++ r)
      (join-pieces bs (drop b.size buf) (omega (arith, length-drop b.size buf)))
    ∙ take-append-drop b.size buf

-- What is left over goes to the first blocks, one record each.
total_size-cut_blocks :
    (n i base remainder o : ℕ)
    → remainder < i + n + 1
    → total_size (cut_blocks n i base remainder o) ≡ n * base + (remainder - i)
unfolding total_size cut_blocks
total_size-cut_blocks zero i base remainder o p = omega arith
total_size-cut_blocks (suc n) i base remainder o p = ground (
  arith,
  total_size-cut_blocks n (i + 1) base remainder (o + (base + 1)) (omega arith),
  total_size-cut_blocks n (i + 1) base remainder (o + (base + 0)) (omega arith),
)

length-cut_blocks : (n i base remainder o : ℕ) → length (cut_blocks n i base remainder o) ≡ n
unfolding cut_blocks
length-cut_blocks zero i base remainder o = refl
length-cut_blocks (suc n) i base remainder o =
    ap suc
      (length-cut_blocks n (i + 1) base remainder (o + (base + (if ltb i remainder then 1 else 0))))

-- Each block begins where the one before it ends.
abbrev pub Consecutive : ℕ → List BlockInfo → Type 0
Consecutive o [] = Unit
Consecutive o (b ∷ bs) = (b.offset ≡ o) × Consecutive (o + b.size) bs

cut_blocks-Consecutive :
    (n i base remainder o : ℕ) → Consecutive o (cut_blocks n i base remainder o)
unfolding cut_blocks
cut_blocks-Consecutive zero i base remainder o = tt
cut_blocks-Consecutive (suc n) i base remainder o = (
  refl,
  cut_blocks-Consecutive n (i + 1) base remainder (o + (base + (if ltb i remainder then 1 else 0))),
)

abbrev pub SizeWithin : ℕ → BlockInfo → Type 0
SizeWithin base b = (base ≤ b.size) × (b.size ≤ base + 1)

cut_blocks-SizeWithin :
    (n i base remainder o : ℕ) → All (SizeWithin base) (cut_blocks n i base remainder o)
unfolding cut_blocks
cut_blocks-SizeWithin zero i base remainder o = tt
cut_blocks-SizeWithin (suc n) i base remainder o = (
  ground arith,
  cut_blocks-SizeWithin n (i + 1) base remainder (o + (base + (if ltb i remainder then 1 else 0))),
)

-- A chunk of at least as many records as there are blocks, at least one, is cut into exactly that
-- many blocks, which lie one after another from the chunk's start, have sizes that differ by one
-- at most, and together hold all its records.
pub init_block_map-some :
    (chunk_records blocks : ℕ)
    → 0 < blocks
    → blocks ≤ chunk_records
    → (bs : List BlockInfo) × (init_block_map chunk_records blocks ≡ some bs)
      × (length bs ≡ blocks)
      × Consecutive 0 bs
      × (total_size bs ≡ chunk_records)
      × All (SizeWithin (chunk_records / blocks)) bs
unfolding init_block_map
init_block_map-some chunk_records blocks pos enough = (
  cut_blocks blocks 0 base remainder 0,
  ground arith,
  length-cut_blocks blocks 0 base remainder 0,
  cut_blocks-Consecutive blocks 0 base remainder 0,
  total_size-cut_blocks blocks 0 base remainder 0 (omega (arith, mod-lt chunk_records pos))
      ∙ omega (arith, div-add-mod chunk_records blocks),
  cut_blocks-SizeWithin blocks 0 base remainder 0,
)
  where
    base : ℕ
    base = chunk_records / blocks

    remainder : ℕ
    remainder = chunk_records % blocks

-- A chunk that is not empty and has fewer records than there are blocks ends the program.
pub init_block_map-none :
    (chunk_records blocks : ℕ)
    → 0 < chunk_records
    → chunk_records < blocks
    → init_block_map chunk_records blocks ≡ none
unfolding init_block_map
init_block_map-none chunk_records blocks pos few = ground (arith, div-eq_of_lt few)

pub pieces-Describes :
    (o : ℕ) (bs : List BlockInfo) (buf : List Index)
    → Consecutive o bs
    → total_size bs ≡ length buf
    → Describes o bs (pieces bs buf)
unfolding pieces total_size
pieces-Describes o [] buf c e = tt
pieces-Describes o (b ∷ bs) buf c e =
    let whole : length (take b.size buf) ≡ b.size = omega (arith, length-take b.size buf) in
    (
      c.0,
      sym whole,
      pieces-Describes (o + length (take b.size buf)) bs (drop b.size buf)
          (subst (λ n. Consecutive (o + n) bs) (sym whole) c.1)
          (omega (arith, length-drop b.size buf)),
    )
