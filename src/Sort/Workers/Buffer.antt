-- ===== src/Sort/Workers/Buffer.antt =====
-- The buffer while some of its blocks are sorted.
use os_sp.Prelude.{
  splice, take, drop, ℕ, zero, suc, ◌+◌, ◌<◌, ◌≤◌, ◌≡◌, ◌≢◌, ◌∙◌, refl, sym, ap, ap₂, subst, Bool,
  true, false, List, [], ◌∷◌, ◌++◌, append_assoc, arith, length, length-append, get_or, ◌==◌,
  if◌then◌else◌, map,
}
use os_sp.Sort.{Index, BlockInfo, State, no_block}
use os_sp.Sort.Runs.{Run, join, Describes, take-drop-middle, splice-middle}
use os_sp.Sort.Workers.{sort_block, with_state}

-- One more block is sorted.
abbrev pub also : (ℕ → Bool) → ℕ → ℕ → Bool
also sorted i j = if j == i then true else sorted j

module _ (qsort : List Index → List Index)
    (same_length : (r : List Index) → length (qsort r) ≡ length r) where
  abbrev pub partly : Bool → Run → Run
  partly true r = qsort r
  partly false r = r

  -- The runs from number `k` on, those that are sorted and those that are not.
  abbrev pub partly_sorted : (ℕ → Bool) → ℕ → List Run → List Run
  partly_sorted sorted k [] = []
  partly_sorted sorted k (r ∷ rs) = partly (sorted k) r ∷ partly_sorted sorted (k + 1) rs

  length-partly : (b : Bool) (r : Run) → length (partly b r) ≡ length r
  length-partly true r = same_length r
  length-partly false r = refl

  pub also_self : (sorted : ℕ → Bool) (i : ℕ) → also sorted i i ≡ true
  also_self sorted i = ground arith

  pub also_other : (sorted : ℕ → Bool) (i j : ℕ) → j ≢ i → also sorted i j ≡ sorted j
  also_other sorted i j n = ground (arith, n)

  partly_sorted-also :
      (sorted : ℕ → Bool) (i k : ℕ) (rs : List Run)
      → i < k
      → partly_sorted (also sorted i) k rs ≡ partly_sorted sorted k rs
  partly_sorted-also sorted i k [] h = refl
  partly_sorted-also sorted i k (r ∷ rs) h =
      ap₂ (λ x xs. x ∷ xs) (ap (λ b. partly b r) (also_other sorted i k (λ e. omega (arith, e, h))))
        (partly_sorted-also sorted i (k + 1) rs (omega (arith, h)))

  sort_block-first :
      (pre : List Index) (r : Run) (rest : List Index) (b : BlockInfo)
      → b.offset ≡ length pre
      → b.size ≡ length r
      → sort_block qsort b (pre ++ (r ++ rest)) ≡ pre ++ (qsort r ++ rest)
  sort_block-first pre r rest b at size =
      ap₂ (λ o n. splice (pre ++ (r ++ rest)) o (qsort (take n (drop o (pre ++ (r ++ rest)))))) at
        size
      ∙ ap (λ x. splice (pre ++ (r ++ rest)) (length pre) (qsort x)) (take-drop-middle pre r rest)
      ∙ splice-middle pre r (qsort r) rest (same_length r)

  -- The sort of block `i` of the map, number `n` of all.
  sort_block-number :
      (pre : List Index) (bs : List BlockInfo) (rs : List Run) (sorted : ℕ → Bool) (k i n : ℕ)
      → n ≡ k + i
      → Describes (length pre) bs rs
      → i < length bs
      → sorted n ≡ false
      → sort_block qsort (get_or bs i no_block) (pre ++ join (partly_sorted sorted k rs))
        ≡ pre ++ join (partly_sorted (also sorted n) k rs)
  sort_block-number pre [] rs sorted k i n at d h e = absurd (omega (arith, h))
  sort_block-number pre (b ∷ bs) [] sorted k i n at d h e = absurd d
  sort_block-number pre (b ∷ bs) (r ∷ rs) sorted k zero n at d h e =
      let here : k ≡ n = omega (arith, at) in
      let rest = join (partly_sorted sorted (k + 1) rs) in
      ap (λ x. sort_block qsort b (pre ++ (partly x r ++ rest))) (ap sorted here ∙ e)
      ∙ sort_block-first pre r rest b d.0 d.1
      ∙ ap (λ xs. pre ++ (qsort r ++ join xs))
          (sym (partly_sorted-also sorted n (k + 1) rs (omega (arith, here))))
      ∙ ap (λ x. pre ++ (partly x r ++ join (partly_sorted (also sorted n) (k + 1) rs)))
          (sym (ap (also sorted n) here ∙ also_self sorted n))
  sort_block-number pre (b ∷ bs) (r ∷ rs) sorted k (suc i) n at d h e =
      let first = partly (sorted k) r in
      let whole = length-partly (sorted k) r in
      ap (sort_block qsort (get_or bs i no_block))
        (sym (append_assoc pre first (join (partly_sorted sorted (k + 1) rs))))
      ∙ sort_block-number (pre ++ first) bs rs sorted (k + 1) i n (omega (arith, at))
          (subst (λ o. Describes o bs rs) (omega (arith, whole, length-append pre first)) d.2)
          (omega (arith, h)) e
      ∙ append_assoc pre first (join (partly_sorted (also sorted n) (k + 1) rs))
      ∙ ap (λ x. pre ++ (partly x r ++ join (partly_sorted (also sorted n) (k + 1) rs)))
          (sym (also_other sorted n k (λ same. omega (arith, same, at))))

  pub sort_block-also :
      (bs : List BlockInfo) (rs : List Run) (sorted : ℕ → Bool) (i : ℕ)
      → Describes 0 bs rs
      → i < length bs
      → sorted i ≡ false
      → sort_block qsort (get_or bs i no_block) (join (partly_sorted sorted 0 rs))
        ≡ join (partly_sorted (also sorted i) 0 rs)
  sort_block-also bs rs sorted i d h e = sort_block-number [] bs rs sorted 0 i i (omega arith) d h e

  pub partly_sorted_none :
      (sorted : ℕ → Bool) (k : ℕ) (rs : List Run)
      → ((i : ℕ) → sorted i ≡ false)
      → partly_sorted sorted k rs ≡ rs
  partly_sorted_none sorted k [] none_sorted = refl
  partly_sorted_none sorted k (r ∷ rs) none_sorted =
      ap₂ (λ b xs. partly b r ∷ xs) (none_sorted k)
        (partly_sorted_none sorted (k + 1) rs none_sorted)

  -- When all blocks of the map are sorted.
  pub partly_sorted_all :
      (sorted : ℕ → Bool) (k : ℕ) (rs : List Run)
      → ((i : ℕ) → k ≤ i → i < k + length rs → sorted i ≡ true)
      → partly_sorted sorted k rs ≡ map qsort rs
  partly_sorted_all sorted k [] all_sorted = refl
  partly_sorted_all sorted k (r ∷ rs) all_sorted =
      ap₂ (λ b xs. partly b r ∷ xs) (all_sorted k (omega arith) (omega arith))
        (partly_sorted_all sorted (k + 1) rs
          (λ i low high. all_sorted i (omega (arith, low)) (omega (arith, high))))

pub Describes-with_state :
    (o : ℕ) (bs : List BlockInfo) (rs : List Run) (s : State) (i : ℕ)
    → Describes o bs rs
    → Describes o (with_state s bs i) rs
Describes-with_state o [] rs s i d = d
Describes-with_state o (b ∷ bs) [] s i d = absurd d
Describes-with_state o (b ∷ bs) (r ∷ rs) s zero d = (d.0, d.1, d.2)
Describes-with_state o (b ∷ bs) (r ∷ rs) s (suc i) d =
    (d.0, d.1, Describes-with_state (o + length r) bs rs s i d.2)
