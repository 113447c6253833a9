-- ===== src/Sort/Numerals.antt =====
-- What `parse_size` and `parse_int` of LAB_6/src/sort_index.c make of decimal numbers.
use os_sp.Prelude.{
  ℕ, zero, suc, dec_lt, subst, ◌≤◌, ◌+◌, ◌-◌, ◌*◌, ◌%◌, ◌^◌, ◌<◌, ◌≡◌, ◌∙◌, refl, sym, ap, Bool,
  true, false, Option, none, some, List, [], ◌∷◌, ◌++◌, arith, ltb, leb, ◌==◌, if-holds, map, All,
  append-nil,
}
use os_sp.Prelude.Int.{ℤ, pos, negsuc}
use os_sp.Sort.Cli.{validate_cli}
use os_sp.Sort.Args.{
  is_space, is_digit, read_digits, convert_digits, convert, at_end, sized, inted, whole_size,
  whole_int, Conversion, parse_size, parse_int,
}

-- A numeral: its digits, and the number that they stand for behind `n`.
abbrev pub digits : List ℕ → List ℕ
digits ds = map (λ d. 48 + d) ds

abbrev pub number : ℕ → List ℕ → ℕ
number n [] = n
number n (d ∷ ds) = number (n * 10 + d) ds

-- What comes behind a numeral is not a digit.
abbrev pub Stops : List ℕ → Type 0
Stops [] = Unit
Stops (c ∷ s) = is_digit c ≡ false

digit_lem : (d : ℕ) → d < 10 → is_digit (48 + d) ≡ true
digit_lem d h = ground arith

read_digits-Stops : (n : ℕ) (end : List ℕ) → Stops end → read_digits n end ≡ (n, end)
read_digits-Stops n [] h = refl
read_digits-Stops n (c ∷ s) h = rw h refl

read_digits-number :
    (n : ℕ) (ds end : List ℕ)
    → All (λ d. d < 10) ds
    → Stops end
    → read_digits n (digits ds ++ end) ≡ (number n ds, end)
read_digits-number n [] end all h = read_digits-Stops n end h
read_digits-number n (d ∷ ds) end all h = rw (digit_lem d all.0) (
    ap (λ k. read_digits (n * 10 + k) (digits ds ++ end)) {y = d} (omega arith)
    ∙ read_digits-number (n * 10 + d) ds end all.1 h)

convert_digits-number :
    (minus : Bool) (d : ℕ) (ds end : List ℕ)
    → All (λ d. d < 10) (d ∷ ds)
    → Stops end
    → convert_digits minus (digits (d ∷ ds) ++ end)
      ≡ some (record { minus = minus; magnitude = number 0 (d ∷ ds); end = end })
convert_digits-number minus d ds end all h =
    if-holds (λ r. r ≡ some (record { minus = minus; magnitude = number 0 (d ∷ ds); end = end }))
      (is_digit (48 + d))
      (some (record {
        minus = minus;
        magnitude = (read_digits 0 (digits (d ∷ ds) ++ end)).0;
        end = (read_digits 0 (digits (d ∷ ds) ++ end)).1;
      }))
      none
      (λ _.
        ap (λ r. some (record { minus = minus; magnitude = r.0; end = r.1 }))
          (read_digits-number 0 (d ∷ ds) end all h))
      (λ other. absurd (ground (arith, other, digit_lem d all.0)))

-- A sign, if any, and digits.
abbrev pub numeral : Bool → List ℕ → List ℕ
numeral true ds = 45 ∷ digits ds
numeral false ds = digits ds

convert-numeral :
    (minus : Bool) (d : ℕ) (ds end : List ℕ)
    → All (λ d. d < 10) (d ∷ ds)
    → Stops end
    → convert (numeral minus (d ∷ ds) ++ end)
      ≡ some (record { minus = minus; magnitude = number 0 (d ∷ ds); end = end })
convert-numeral true d ds end all h = convert_digits-number true d ds end all h
convert-numeral false d ds end all h =
    rw (space, minus_sign, plus_sign) (convert_digits-number false d ds end all h)
  where
    space : is_space (48 + d) ≡ false
    space = ground (arith, all.0)

    minus_sign : (48 + d == 45) ≡ false
    minus_sign = ground (arith, all.0)

    plus_sign : (48 + d == 43) ≡ false
    plus_sign = ground (arith, all.0)

-- What a numeral stands for as a `uint64_t`, which takes the complement of a negative number, and as
-- an `int`; nothing out of range.
pub data SizeOf : (minus : Bool) → ℕ → Option ℕ → Type 0 where
  plain_size : (n : ℕ) → n < 2 ^ 64 → SizeOf false n (some n)
  zero_size : SizeOf true 0 (some 0)
  complement : (n : ℕ) → 0 < n → n < 2 ^ 64 → SizeOf true n (some (2 ^ 64 - n))
  large_size : (minus : Bool) (n : ℕ) → 2 ^ 64 ≤ n → SizeOf minus n none

pub data IntOf : (minus : Bool) → ℕ → Option ℤ → Type 0 where
  plain_int : (n : ℕ) → n < 2 ^ 31 → IntOf false n (some (pos n))
  minus_zero : IntOf true 0 (some (pos 0))
  negative : (n : ℕ) → n < 2 ^ 31 → IntOf true (suc n) (some (negsuc n))
  large_int : (n : ℕ) → 2 ^ 31 ≤ n → IntOf false n none
  low_int : (n : ℕ) → 2 ^ 31 < n → IntOf true n none

-- What is read from a numeral with `end` behind it: its value if that is empty, and nothing else.
pub data Reads {A : Type 0} (Value : Option A → Type 0) : (end : List ℕ) → Option A → Type 0 where
  whole : (o : Option A) → Value o → Reads Value [] o
  trailing : (c : ℕ) (s : List ℕ) → Reads Value (c ∷ s) none

at_end-Reads :
    {A : Type 0} (Value : Option A → Type 0) (end : List ℕ) (o : Option A)
    → Value o
    → Reads Value end (at_end end o)
at_end-Reads Value [] o v = whole o v
at_end-Reads Value (c ∷ s) o v = trailing c s

abbrev converted : Bool → ℕ → List ℕ → Conversion
converted minus n end = record { minus = minus; magnitude = n; end = end }

whole_size-SizeOf :
    (minus : Bool) (n : ℕ) (end : List ℕ) → SizeOf minus n (whole_size (converted minus n end))
whole_size-SizeOf minus n end = elim (dec_lt n (2 ^ 64)) [
  | yes h ↦ in_range minus n end h
  | no h ↦
      let beyond : 2 ^ 64 ≤ n = omega (arith, h) in
      let test : ltb n (2 ^ 64) ≡ false = ground (arith, beyond) in
      rw test (large_size minus n beyond)
]
  where
    in_range :
        (minus : Bool) (n : ℕ) (end : List ℕ)
        → n < 2 ^ 64
        → SizeOf minus n (whole_size (converted minus n end))
    in_range false n end h =
        let test : ltb n (2 ^ 64) ≡ true = ground (arith, h) in rw test (plain_size n h)
    in_range true zero end h = zero_size
    in_range true (suc n) end h =
        let test : ltb (suc n) (2 ^ 64) ≡ true = ground (arith, h) in
        let small : (2 ^ 64 - suc n) % 2 ^ 64 ≡ 2 ^ 64 - suc n = omega (arith, h) in
        rw (test, small) (complement (suc n) (omega arith) h)

whole_int-IntOf :
    (minus : Bool) (n : ℕ) (end : List ℕ) → IntOf minus n (whole_int (converted minus n end))
whole_int-IntOf false n end = elim (dec_lt n (2 ^ 31)) [
  | yes h ↦ let test : ltb n (2 ^ 31) ≡ true = ground (arith, h) in rw test (plain_int n h)
  | no h ↦
      let beyond : 2 ^ 31 ≤ n = omega (arith, h) in
      let test : ltb n (2 ^ 31) ≡ false = ground (arith, beyond) in rw test (large_int n beyond)
]
whole_int-IntOf true zero end = minus_zero
whole_int-IntOf true (suc n) end = elim (dec_lt n (2 ^ 31)) [
  | yes h ↦ let test : leb (suc n) (2 ^ 31) ≡ true = ground (arith, h) in rw test (negative n h)
  | no h ↦
      let beyond : 2 ^ 31 < suc n = omega (arith, h) in
      let test : leb (suc n) (2 ^ 31) ≡ false = ground (arith, beyond) in
      rw test (low_int (suc n) beyond)
]

-- For a number in decimal digits, with or without a minus sign, `parse_size` and `parse_int` give
-- the number if it is in range and nothing stands behind it, and fail otherwise, also for every text
-- behind it that does not start with a digit. A negative size is in range down to `1 - 2 ^ 64`:
-- `parse_size` gives its complement to `2 ^ 64`.
pub parse_size-numeral :
    (minus : Bool) (d : ℕ) (ds end : List ℕ)
    → All (λ d. d < 10) (d ∷ ds)
    → Stops end
    → Reads (SizeOf minus (number 0 (d ∷ ds))) end (parse_size (numeral minus (d ∷ ds) ++ end))
      × Reads (IntOf minus (number 0 (d ∷ ds))) end (parse_int (numeral minus (d ∷ ds) ++ end))
unfolding parse_size parse_int
parse_size-numeral minus d ds end all h =
    let n = number 0 (d ∷ ds) in
    let read = convert-numeral minus d ds end all h in
    (
      subst (λ c. Reads (SizeOf minus n) end (sized c)) (sym read)
          (at_end-Reads (SizeOf minus n) end (whole_size (converted minus n end))
            (whole_size-SizeOf minus n end)),
      subst (λ c. Reads (IntOf minus n) end (inted c)) (sym read)
          (at_end-Reads (IntOf minus n) end (whole_int (converted minus n end))
            (whole_int-IntOf minus n end)),
    )

-- The tests of `validate_cli` on such a size.
some_pages_left :
    (n k : ℕ)
    → n ≡ 4096 * k
    → 0 < k
    → k < 2 ^ 52
    → (((2 ^ 64 - n) % 2 ^ 64 == 0) ≡ false) × (((2 ^ 64 - n) % 2 ^ 64 % 4096 == 0) ≡ true)
some_pages_left n k e some_pages in_range =
    (ground (arith, left, some_pages, in_range), ground (arith, left, some_pages, in_range))
  where
    left : (2 ^ 64 - n) % 2 ^ 64 ≡ 4096 * (2 ^ 52 - k)
    left = omega (arith, e, some_pages, in_range)

parse_size_minus :
    (d : ℕ) (ds : List ℕ)
    → All (λ d. d < 10) (d ∷ ds)
    → number 0 (d ∷ ds) < 2 ^ 64
    → parse_size (numeral true (d ∷ ds)) ≡ some ((2 ^ 64 - number 0 (d ∷ ds)) % 2 ^ 64)
unfolding parse_size
parse_size_minus d ds all h =
    let test : ltb (number 0 (d ∷ ds)) (2 ^ 64) ≡ true = ground (arith, h) in
    ap (λ s. sized (convert s)) (sym (append-nil (numeral true (d ∷ ds))))
    ∙ ap sized (convert-numeral true d ds [] all tt)
    ∙ rw test refl

-- A size below zero that is a whole number of pages of 4096 bytes, down to `-2 ^ 64`: `parse_size`
-- takes it, and `validate_cli` accepts it exactly with the blocks and threads that it accepts with
-- one page.
pub validate_cli-minus :
    (d : ℕ) (ds : List ℕ) (k : ℕ) (blocks threads : ℤ)
    → All (λ d. d < 10) (d ∷ ds)
    → number 0 (d ∷ ds) ≡ 4096 * k
    → 0 < k
    → k < 2 ^ 52
    → (m : ℕ) × (parse_size (numeral true (d ∷ ds)) ≡ some m)
      × (validate_cli (pos 4096) (record { memsize = m; blocks = blocks; threads = threads })
          ≡ validate_cli (pos 4096) (record { memsize = 4096; blocks = blocks; threads = threads }))
unfolding validate_cli
validate_cli-minus d ds k blocks threads all e some_pages in_range =
    let n = number 0 (d ∷ ds) in
    (
      (2 ^ 64 - n) % 2 ^ 64,
      parse_size_minus d ds all (omega (arith, e, in_range)),
      rw
          (
            (some_pages_left n k e some_pages in_range).0,
            (some_pages_left n k e some_pages in_range).1,
          )
          refl,
    )
