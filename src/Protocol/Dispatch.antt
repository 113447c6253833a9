-- ===== src/Protocol/Dispatch.antt =====
-- `dispatch_command` of LAB_8/src/protocol.c: which lines end the session, and what a command's
-- answer may do to the buffer of `send_line`.
use os_sp.Prelude.{
  ℕ, suc, ◌≤◌, ◌≡◌, ◌↔◌, refl, ap, ap₂, true, false, Option, some, none, List, [], ◌∷◌, arith,
  length, Bool-cases, inl, inr,
}
use os_sp.Prelude.Text.{codes, str_eq, str_eq→eq}
use os_sp.Protocol.{
  ServerInfo, to_upper, skip_spaces, split_space, skip_arg, parse_line, is_empty, run_command,
  dispatch_command,
}

pub to_upper_idem : (s : List ℕ) → to_upper (to_upper s) ≡ to_upper s
unfolding to_upper
to_upper_idem [] = refl
to_upper_idem (c ∷ s) = ap₂ ◌∷◌ (ground arith) (to_upper_idem s)

pub length-to_upper : (s : List ℕ) → length (to_upper s) ≡ length s
unfolding to_upper
length-to_upper [] = refl
length-to_upper (c ∷ s) = ap suc (length-to_upper s)

pub length-skip_spaces : (s : List ℕ) → length (skip_spaces s) ≤ length s
unfolding skip_spaces
length-skip_spaces [] = omega arith
length-skip_spaces (c ∷ s) = ground (arith, length-skip_spaces s)

abbrev pub arg_length : Option (List ℕ) → ℕ
arg_length none = 0
arg_length (some s) = length s

pub length-split_space :
    (s : List ℕ) → (length (split_space s).0 ≤ length s) × (arg_length (split_space s).1 ≤ length s)
unfolding split_space
length-split_space [] = (omega arith, omega arith)
length-split_space (c ∷ s) = ground (arith, length-split_space s)

pub length-skip_arg : (a : Option (List ℕ)) → arg_length (skip_arg a) ≤ arg_length a
length-skip_arg none = omega arith
length-skip_arg (some s) = length-skip_spaces s

quit_test :
    (info : ServerInfo) (cmd : List ℕ) (arg : Option (List ℕ))
    → (run_command info cmd arg).1 ≡ false
    → str_eq cmd (codes "QUIT") ≡ true
unfolding run_command
quit_test info cmd arg h = elim (Bool-cases (str_eq cmd (codes "ECHO"))) [
  | inl e ↦ cc (rw e at h)
  | inr e ↦ elim (Bool-cases (str_eq cmd (codes "INFO"))) [
    | inl f ↦ cc (rw (e, f) at h)
    | inr f ↦ elim (Bool-cases (str_eq cmd (codes "HELP"))) [
      | inl g ↦ cc (rw (e, f, g) at h)
      | inr g ↦ elim (Bool-cases (str_eq cmd (codes "QUIT"))) [
        | inl q ↦ q
        | inr q ↦ cc (rw (e, f, g, q) at h)
      ]
    ]
  ]
]

run_command-quit :
    (info : ServerInfo) (cmd : List ℕ) (arg : Option (List ℕ))
    → ((run_command info cmd arg).1 ≡ false) ↔ (cmd ≡ codes "QUIT")
unfolding run_command str_eq
run_command-quit info cmd arg =
    ((λ h. str_eq→eq cmd (codes "QUIT") (quit_test info cmd arg h)), (λ e. rw e))

parse_line-empty : (line : List ℕ) → is_empty (skip_spaces line) ≡ true → (parse_line line).0 ≡ []
unfolding split_space
parse_line-empty line e = ground (arith)

-- `dispatch_command` returns 0 exactly if the first word of the line, in upper case, is QUIT.
pub dispatch_command-quit :
    (info : ServerInfo) (line : List ℕ)
    → ((dispatch_command info line).1 ≡ false) ↔ (to_upper (parse_line line).0 ≡ codes "QUIT")
unfolding dispatch_command
dispatch_command-quit info line = elim (Bool-cases (is_empty (skip_spaces line))) [
  | inl e ↦ rw (e, parse_line-empty line e) ((λ h. cc), (λ h. cc))
  | inr e ↦
      rw e (run_command-quit info (to_upper (parse_line line).0) (skip_arg (parse_line line).1))
]
