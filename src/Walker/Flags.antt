-- ===== src/Walker/Flags.antt =====
-- `parse_options` and the argument loop of `main` in LAB_1/dirwalk/src/dirwalker.c.
use os_sp.Prelude.{
  List, if◌then◌else◌, ◌==◌, Option, none, some, ℕ, ◌≡◌, refl, ◌∙◌, sym, subst, ap, Bool, true,
  false, ◌||◌, ◌&&◌, Bool-cases, inl, inr, [], ◌∷◌, arith,
}
use os_sp.Walker.{Text, Options}

-- The `switch` of `parse_options`; `none` is the return of -1.
abbrev pub set_option : ℕ → Options → Option Options
set_option c opts =
    if c == b'l'
    then some (record opts { only_links = true })
    else if c == b'd'
    then some (record opts { only_dirs = true })
    else if c == b'f'
    then some (record opts { only_files = true })
    else if c == b's'
    then some (record opts { sort_output = true })
    else if c == b'c'
    then some (record opts { show_stats = true })
    else none

pub parse_options : Text → Options → Option Options
parse_options [] opts = some opts
parse_options (c ∷ s) opts = elim (set_option c opts) [
  | none ↦ none
  | some opts' ↦ parse_options s opts'
]

-- The argument loop of `main`; `none` is the exit with the usage.
pub parse_args : List Text → Options → (dir : Option Text) → Option (Options × Option Text)
unfolding parse_options
parse_args [] opts dir = some (opts, dir)
parse_args (arg ∷ args) opts dir =
    let as_dir = parse_args args opts (some arg) in
    elim arg [
      | [] ↦ as_dir
      | c ∷ [] ↦ as_dir
      | c ∷ d ∷ flags ↦
          let as_options =
            elim (parse_options (d ∷ flags) opts) as (λ _. Option (Options × Option Text)) [
              | none ↦ none
              | some opts' ↦ parse_args args opts' dir
            ] in
          if c == b'-' then as_options else as_dir
    ]

abbrev pub contains : ℕ → Text → Bool
contains c [] = false
contains c (d ∷ s) = (d == c) || contains c s

abbrev pub all_known : Text → Bool
all_known [] = true
all_known (c ∷ s) =
    (c == b'l' || (c == b'd' || (c == b'f' || (c == b's' || c == b'c')))) && all_known s

-- The options with the flags that occur in the text.
abbrev pub with_flags : Text → Options → Options
with_flags s opts = record {
  only_links = opts.only_links || contains b'l' s;
  only_dirs = opts.only_dirs || contains b'd' s;
  only_files = opts.only_files || contains b'f' s;
  sort_output = opts.sort_output || contains b's' s;
  show_stats = opts.show_stats || contains b'c' s;
}

or_false : (b : Bool) → (b || false) ≡ b
or_false true = refl
or_false false = refl

or_true : (b : Bool) → true ≡ (b || true)
or_true true = refl
or_true false = refl

abbrev Parsed : Text → Options → Type 0
Parsed s opts = parse_options s opts ≡ (if all_known s then some (with_flags s opts) else none)

-- The letter sets its flag for the rest of the text.
Parsed-cons :
    (c : ℕ) (s : Text) (opts opts' : Options)
    → Parsed s opts'
    → with_flags s opts' ≡ with_flags (c ∷ s) opts
    → set_option c opts ≡ some opts'
    → all_known (c ∷ s) ≡ all_known s
    → Parsed (c ∷ s) opts
unfolding parse_options
Parsed-cons c s opts opts' rest same set known =
    ap (λ r. elim r as (λ _. Option Options) [ none ↦ none | some o ↦ parse_options s o ]) set
    ∙ rest
    ∙ ap (λ o. if all_known s then some o else none) same
    ∙ ap (λ b. if b then some (with_flags (c ∷ s) opts) else none) (sym known)

Parsed-unknown :
    (c : ℕ) (s : Text) (opts : Options)
    → set_option c opts ≡ none
    → all_known (c ∷ s) ≡ false
    → Parsed (c ∷ s) opts
unfolding parse_options
Parsed-unknown c s opts set known =
    ap (λ r. elim r as (λ _. Option Options) [ none ↦ none | some o ↦ parse_options s o ]) set
    ∙ ap (λ b. if b then some (with_flags (c ∷ s) opts) else none) (sym known)

eq_of_test : (c d : ℕ) → (c == d) ≡ true → c ≡ d
eq_of_test c d e = ground arith

-- `parse_options` fails exactly if a letter is no flag, -h included; else it sets the flags that
-- occur, in whatever order and however often, and keeps those that were set.
pub parse_options_lem :
    (s : Text) (opts : Options)
    → parse_options s opts ≡ (if all_known s then some (with_flags s opts) else none)
unfolding parse_options
parse_options_lem [] opts = ap some (λ i. record {
  only_links = sym (or_false opts.only_links) i;
  only_dirs = sym (or_false opts.only_dirs) i;
  only_files = sym (or_false opts.only_files) i;
  sort_output = sym (or_false opts.sort_output) i;
  show_stats = sym (or_false opts.show_stats) i;
})
parse_options_lem (c ∷ s) opts = elim (Bool-cases (c == b'l')) [
  | inl e ↦
      let opts' : Options = record opts { only_links = true } in
      let same : with_flags s opts' ≡ with_flags (b'l' ∷ s) opts =
        λ i. record (with_flags s opts') { only_links = or_true opts.only_links i } in
      subst (λ c. Parsed (c ∷ s) opts) (sym (eq_of_test c b'l' e))
        (Parsed-cons b'l' s opts opts' (parse_options_lem s opts') same refl refl)
  | inr not_l ↦ elim (Bool-cases (c == b'd')) [
    | inl e ↦
        let opts' : Options = record opts { only_dirs = true } in
        let same : with_flags s opts' ≡ with_flags (b'd' ∷ s) opts =
          λ i. record (with_flags s opts') { only_dirs = or_true opts.only_dirs i } in
        subst (λ c. Parsed (c ∷ s) opts) (sym (eq_of_test c b'd' e))
          (Parsed-cons b'd' s opts opts' (parse_options_lem s opts') same refl refl)
    | inr not_d ↦ elim (Bool-cases (c == b'f')) [
      | inl e ↦
          let opts' : Options = record opts { only_files = true } in
          let same : with_flags s opts' ≡ with_flags (b'f' ∷ s) opts =
            λ i. record (with_flags s opts') { only_files = or_true opts.only_files i } in
          subst (λ c. Parsed (c ∷ s) opts) (sym (eq_of_test c b'f' e))
            (Parsed-cons b'f' s opts opts' (parse_options_lem s opts') same refl refl)
      | inr not_f ↦ elim (Bool-cases (c == b's')) [
        | inl e ↦
            let opts' : Options = record opts { sort_output = true } in
            let same : with_flags s opts' ≡ with_flags (b's' ∷ s) opts =
              λ i. record (with_flags s opts') { sort_output = or_true opts.sort_output i } in
            subst (λ c. Parsed (c ∷ s) opts) (sym (eq_of_test c b's' e))
              (Parsed-cons b's' s opts opts' (parse_options_lem s opts') same refl refl)
        | inr not_s ↦ elim (Bool-cases (c == b'c')) [
          | inl e ↦
              let opts' : Options = record opts { show_stats = true } in
              let same : with_flags s opts' ≡ with_flags (b'c' ∷ s) opts =
                λ i. record (with_flags s opts') { show_stats = or_true opts.show_stats i } in
              subst (λ c. Parsed (c ∷ s) opts) (sym (eq_of_test c b'c' e))
                (Parsed-cons b'c' s opts opts' (parse_options_lem s opts') same refl refl)
          | inr not_c ↦
              Parsed-unknown c s opts (rw (not_l, not_d, not_f, not_s, not_c) refl)
                (rw (not_l, not_d, not_f, not_s, not_c) refl)
        ]
      ]
    ]
  ]
]
