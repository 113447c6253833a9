-- ===== src/Sort/Chunks/Split.antt =====
-- The chunk loop of `main` in LAB_6/src/sort_index.c.
use os_sp.Prelude.{
  ℕ, zero, suc, ◌+◌, ◌-◌, ◌*◌, ◌/◌, ◌≤◌, ◌<◌, ◌≡◌, refl, some, List, [], ◌∷◌, arith, length, ltb,
  All, Bool-cases, inl, inr,
}
use native.Mathlib.Nat.{div-add-mod, mod-lt}
use os_sp.Sort.OnFile.{ChunkInfo, split_chunks}

-- The chunks from record `o` on lie one after another, and end at `records`.
abbrev pub Covers : ℕ → ℕ → List ChunkInfo → Type 0
Covers o records [] = o ≡ records
Covers o records (c ∷ cs) = (c.file_offset ≡ o) × Covers (o + c.records) records cs

-- The size of `calloc` for the array of chunks.
abbrev pub max_chunks : ℕ → ℕ → ℕ
max_chunks records records_per_chunk = (records + records_per_chunk - 1) / records_per_chunk

-- With as many rounds as the array of chunks has places, the loop takes every record into exactly
-- one chunk, in order. No chunk is empty or larger than the buffer, and the array is not overrun.
pub split_chunks-Covers :
    (n o records per : ℕ)
    → 0 < per
    → o ≤ records
    → records ≤ o + n * per
    → (cs : List ChunkInfo) × (split_chunks n o records per ≡ some cs)
      × Covers o records cs
      × All (λ c. (0 < c.records) × (c.records ≤ per)) cs
      × (length cs ≤ n)
unfolding split_chunks
split_chunks-Covers zero o records per pos p q = ([], ground arith, omega arith, tt, omega arith)
split_chunks-Covers (suc n) o records per pos p q = elim (Bool-cases (ltb o records)) [
  | inr stop ↦ ([], rw stop, ground arith, tt, omega arith)
  | inl go ↦
      let lt : o < records = ground arith in
      elim (Bool-cases (ltb per (records - o))) [
        | inl more ↦
            let (cs, e, covers, sizes, few) =
              split_chunks-Covers n (o + per) records per pos (ground arith) (grind arith) in
            (
              record { file_offset = o; records = per } ∷ cs,
              ground (arith, e),
              (refl, covers),
              ((pos, omega arith), sizes),
              omega arith,
            )
        | inr rest ↦
            let (cs, e, covers, sizes, few) =
              split_chunks-Covers n (o + (records - o)) records per pos (omega arith)
                (grind arith) in
            (
              record { file_offset = o; records = records - o } ∷ cs,
              ground (arith, e),
              (refl, covers),
              ((omega arith, ground arith), sizes),
              omega arith,
            )
      ]
]

-- The array's size is enough rounds.
max_chunks-enough : (records per : ℕ) → 0 < per → records ≤ max_chunks records per * per
max_chunks-enough records per pos =
    grind (arith, div-add-mod (records + per - 1) per, mod-lt (records + per - 1) pos)

-- With room for at least one record in the buffer, the chunks of `main` fit the array that it
-- allocates and cover the file's records in order; none is empty or larger than the buffer.
pub split_chunks-fits :
    (records per : ℕ)
    → 0 < per
    → (cs : List ChunkInfo) × (split_chunks (max_chunks records per) 0 records per ≡ some cs)
      × Covers 0 records cs
      × All (λ c. (0 < c.records) × (c.records ≤ per)) cs
      × (length cs ≤ max_chunks records per)
split_chunks-fits records per pos =
    split_chunks-Covers (max_chunks records per) 0 records per pos (omega arith)
      (omega (arith, max_chunks-enough records per pos))
