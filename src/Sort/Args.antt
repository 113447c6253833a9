-- ===== src/Sort/Args.antt =====
-- The reading of the command line of LAB_6/src/sort_index.c: `parse_size`, `parse_int` and
-- `parse_cli`, with the C library's conversions of decimal numbers.
use os_sp.Prelude.{
  ℕ, zero, suc, ◌+◌, ◌-◌, ◌*◌, ◌%◌, ◌^◌, Bool, true, false, ◌&&◌, ◌||◌, Option, none, some, List,
  [], ◌∷◌, ltb, leb, ◌==◌, if◌then◌else◌,
}
use os_sp.Prelude.Int.{ℤ, pos, negsuc}
use os_sp.Sort.Cli.{CliArgs}

-- `isspace` in the C locale, and the digits.
abbrev pub is_space : ℕ → Bool
is_space c = c == 32 || (leb 9 c && leb c 13)

abbrev pub is_digit : ℕ → Bool
is_digit c = leb 48 c && leb c 57

abbrev pub skip_spaces : List ℕ → List ℕ
skip_spaces [] = []
skip_spaces (c ∷ s) = let rest = skip_spaces s in if is_space c then rest else c ∷ s

-- The digits at the start of a string: the number that is read, with `n` before it, and the rest.
abbrev pub read_digits : ℕ → List ℕ → ℕ × List ℕ
read_digits n [] = (n, [])
read_digits n (c ∷ s) =
    let rest = read_digits (n * 10 + (c - 48)) s in if is_digit c then rest else (n, c ∷ s)

-- What `strtoull` and `strtol` read in base 10: if the number has a minus sign, its magnitude, and
-- the string at `end`. Nothing if there is no digit, where `end` is the start.
pub record Conversion : Type 0 where
  pub minus : Bool
  pub magnitude : ℕ
  pub end : List ℕ

abbrev pub convert_digits : Bool → List ℕ → Option Conversion
convert_digits minus [] = none
convert_digits minus (c ∷ s) =
    if is_digit c
    then some (record {
      minus = minus;
      magnitude = (read_digits 0 (c ∷ s)).0;
      end = (read_digits 0 (c ∷ s)).1;
    })
    else none

abbrev pub convert_signed : List ℕ → Option Conversion
convert_signed [] = none
convert_signed (c ∷ s) =
    if c == 45
    then convert_digits true s
    else if c == 43
    then convert_digits false s
    else convert_digits false (c ∷ s)

abbrev pub convert : List ℕ → Option Conversion
convert s = convert_signed (skip_spaces s)

-- `strtoull`, where it is used to the end of the string: a number with a minus sign is negated in
-- 64 bits, and one out of range sets `errno`.
abbrev pub whole_size : Conversion → Option ℕ
whole_size c =
    if ltb c.magnitude (2 ^ 64)
    then some (if c.minus then (2 ^ 64 - c.magnitude) % 2 ^ 64 else c.magnitude)
    else none

abbrev pub at_end {ℓ} : {A : Type ℓ} → List ℕ → Option A → Option A
at_end [] o = o
at_end (c ∷ s) o = none

abbrev pub sized : Option Conversion → Option ℕ
sized none = none
sized (some c) = at_end c.end (whole_size c)

unfoldable pub parse_size : List ℕ → Option ℕ
parse_size s = sized (convert s)

abbrev pub minus_int : ℕ → ℤ
minus_int zero = pos 0
minus_int (suc n) = negsuc n

-- `strtol` with the test for the range of an `int`, within that of a `long`.
abbrev pub whole_int : Conversion → Option ℤ
whole_int c =
    if c.minus
    then (if leb c.magnitude (2 ^ 31) then some (minus_int c.magnitude) else none)
    else (if ltb c.magnitude (2 ^ 31) then some (pos c.magnitude) else none)

abbrev pub inted : Option Conversion → Option ℤ
inted none = none
inted (some c) = at_end c.end (whole_int c)

unfoldable pub parse_int : List ℕ → Option ℤ
parse_int s = inted (convert s)

-- `parse_cli`, with the file name apart.
abbrev cli_args : Option ℕ → Option ℤ → Option ℤ → List ℕ → Option (CliArgs × List ℕ)
cli_args (some m) (some b) (some t) filename =
    some (record { memsize = m; blocks = b; threads = t }, filename)
cli_args none b t filename = none
cli_args (some m) none t filename = none
cli_args (some m) (some b) none filename = none

unfoldable pub parse_cli : List (List ℕ) → Option (CliArgs × List ℕ)
unfolding parse_size parse_int
parse_cli (prog ∷ memsize ∷ blocks ∷ threads ∷ filename ∷ []) =
    cli_args (parse_size memsize) (parse_int blocks) (parse_int threads) filename
parse_cli _ = none
