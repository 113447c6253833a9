-- ===== src/Prelude/Tabulate.antt =====
-- The values of a function at consecutive numbers, as a list: what a counted loop reads.
use Prim.Native.Nat.{ℕ, zero, suc, ◌+◌, ◌<◌, ◌≤◌}
use mathlib.Core.Path.{◌≡◌, refl, ap, ap₂, ◌∙◌}
use mathlib.Core.List.{List, [], ◌∷◌, ◌++◌}
use native.Mathlib.Omega.{arith}
use os_sp.Prelude.Lists.{length}

module _ {ℓ} {A : Type ℓ} where
  -- `f i`, `f (i + 1)`, up to `n` values
  abbrev pub tabulate : (ℕ → A) → ℕ → ℕ → List A
  tabulate f i zero = []
  tabulate f i (suc n) = f i ∷ tabulate f (i + 1) n

  pub length-tabulate : (f : ℕ → A) (i n : ℕ) → length (tabulate f i n) ≡ n
  length-tabulate f i zero = refl
  length-tabulate f i (suc n) = ap suc (length-tabulate f (i + 1) n)

  pub tabulate-ext :
      (f g : ℕ → A) (i n : ℕ)
      → ((j : ℕ) → i ≤ j → j < i + n → f j ≡ g j)
      → tabulate f i n ≡ tabulate g i n
  tabulate-ext f g i zero h = refl
  tabulate-ext f g i (suc n) h =
      ap₂ ◌∷◌ (h i (omega arith) (omega arith))
        (tabulate-ext f g (i + 1) n (λ j p q. h j (omega arith) (omega arith)))

  pub tabulate-shift :
      (f g : ℕ → A) (i j n : ℕ)
      → ((k : ℕ) → k < n → f (i + k) ≡ g (j + k))
      → tabulate f i n ≡ tabulate g j n
  tabulate-shift f g i j zero h = refl
  tabulate-shift f g i j (suc n) h = ap₂ ◌∷◌ first (tabulate-shift f g (i + 1) (j + 1) n next)
    where
      first : f i ≡ g j
      first =
          let e : i ≡ i + 0 = omega arith in
          let e' : j ≡ j + 0 = omega arith in ap f e ∙ h 0 (omega arith) ∙ ap g (omega arith)

      next : (k : ℕ) → k < n → f (i + 1 + k) ≡ g (j + 1 + k)
      next k p = ap f (omega arith) ∙ h (k + 1) (omega arith) ∙ ap g (omega arith)

  pub tabulate-snoc :
      (f : ℕ → A) (i n : ℕ) → tabulate f i (suc n) ≡ tabulate f i n ++ f (i + n) ∷ []
  tabulate-snoc f i zero = ap (λ k. f k ∷ []) (omega arith)
  tabulate-snoc f i (suc n) =
      ap (◌∷◌ (f i))
        (tabulate-snoc f (i + 1) n ∙ ap (λ k. tabulate f (i + 1) n ++ f k ∷ []) (omega arith))
