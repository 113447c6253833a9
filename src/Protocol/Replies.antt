-- ===== src/Protocol/Replies.antt =====
-- The replies of `dispatch_command` in LAB_8/src/protocol.c against the 512 bytes of `send_line`.
use os_sp.Prelude.{
  ℕ, ◌≤◌, ◌<◌, ◌≡◌, ◌≢◌, refl, sym, subst, true, false, Option, some, none, List, [], ◌∷◌, ◌++◌,
  arith, length, All, Bool-cases, inl, inr, take-all, length-append, length-take,
}
use os_sp.Prelude.Text.{codes, str_eq}
use os_sp.Protocol.{
  ServerInfo, Sent, snprintf, to_upper, skip_spaces, split_space, skip_arg, parse_line, is_empty,
  run_command, dispatch_command, send_line, send_ok, send_err, send_end, cmd_echo, cmd_info,
  cmd_help,
}
use os_sp.Protocol.Lines.{send_line-fits, send_line-beyond}
use os_sp.Protocol.Dispatch.{
  arg_length, length-to_upper, length-skip_spaces, length-split_space, length-skip_arg,
}

-- The reply is one whole line, and `send_line` stays inside its buffer.
abbrev pub Fits : Sent → Type 0
Fits s = (s.beyond ≡ 0) × ((text : List ℕ) × (s.wire ≡ text ++ b'\r' ∷ b'\n' ∷ []))

send_line-Fits : (msg : List ℕ) → length msg ≤ 509 → Fits (send_line msg)
send_line-Fits msg p = rw (send_line-fits msg p) (refl, (msg, refl))

snprintf-Fits : (msg : List ℕ) → length msg ≤ 509 → Fits (send_line (snprintf msg))
snprintf-Fits msg p = rw (take-all 511 msg (omega arith)) (send_line-Fits msg p)

send_ok-Fits : (msg : List ℕ) → length msg ≤ 505 → Fits (send_ok msg)
unfolding send_ok
send_ok-Fits msg p = snprintf-Fits (codes "+OK " ++ msg) (omega arith)

send_err-Fits : (msg : List ℕ) → length msg ≤ 504 → Fits (send_err msg)
unfolding send_err
send_err-Fits msg p = snprintf-Fits (codes "-ERR " ++ msg) (omega arith)

cmd_echo-Fits : (arg : Option (List ℕ)) → arg_length arg ≤ 505 → All Fits (cmd_echo arg)
unfolding cmd_echo
cmd_echo-Fits none p = (send_err-Fits (codes "ECHO requires an argument") (omega arith), tt)
cmd_echo-Fits (some []) p = (send_err-Fits (codes "ECHO requires an argument") (omega arith), tt)
cmd_echo-Fits (some (c ∷ arg)) p = (send_ok-Fits (c ∷ arg) p, tt)

-- The system's texts are short.
pub record IsShort (info : ServerInfo) : Type 0 where
  pub started : length info.started ≤ 63
  pub uptime : length info.uptime ≤ 20
  pub pid : length info.pid ≤ 11

cmd_info-Fits : (info : ServerInfo) → IsShort info → All Fits (cmd_info info)
unfolding cmd_info send_end
cmd_info-Fits info v = (
  send_line-Fits (codes "+OK Server information:") (omega arith),
  (
    snprintf-Fits (codes "  Server    : Lab8 TCP Server") (omega arith),
    (
      snprintf-Fits (codes "  Port      : 54321") (omega arith),
      (
        snprintf-Fits (codes "  Started   : " ++ info.started) (omega (arith, v.started)),
        (
          snprintf-Fits (codes "  Uptime    : " ++ (info.uptime ++ codes " sec"))
              (omega (arith, v.uptime, length-append info.uptime (codes " sec"))),
          (
            snprintf-Fits (codes "  PID       : " ++ info.pid) (omega (arith, v.pid)),
            (send_line-Fits (codes ".") (omega arith), tt),
          ),
        ),
      ),
    ),
  ),
)

cmd_help-Fits : All Fits cmd_help
unfolding cmd_help send_end
cmd_help-Fits = (
  send_line-Fits (codes "+OK Available commands:") (omega arith),
  (
    send_line-Fits (codes "  ECHO <text>  - echo text back") (omega arith),
    (
      send_line-Fits (codes "  INFO         - server information") (omega arith),
      (
        send_line-Fits (codes "  HELP         - this help") (omega arith),
        (
          send_line-Fits (codes "  QUIT         - close connection") (omega arith),
          (send_line-Fits (codes ".") (omega arith), tt),
        ),
      ),
    ),
  ),
)

run_command-Fits :
    (info : ServerInfo) (cmd : List ℕ) (arg : Option (List ℕ))
    → IsShort info
    → length cmd ≤ 487
    → arg_length arg ≤ 505
    → All Fits (run_command info cmd arg).0
unfolding run_command
run_command-Fits info cmd arg v p q = elim (Bool-cases (str_eq cmd (codes "ECHO"))) [
  | inl e ↦ rw e (cmd_echo-Fits arg q)
  | inr e ↦ elim (Bool-cases (str_eq cmd (codes "INFO"))) [
    | inl f ↦ rw (e, f) (cmd_info-Fits info v)
    | inr f ↦ elim (Bool-cases (str_eq cmd (codes "HELP"))) [
      | inl g ↦ rw (e, f, g) cmd_help-Fits
      | inr g ↦ elim (Bool-cases (str_eq cmd (codes "QUIT"))) [
        | inl h ↦ rw (e, f, g, h) (send_ok-Fits (codes "Goodbye!") (omega arith), tt)
        | inr h ↦ rw (e, f, g, h) (unknown, tt)
      ]
    ]
  ]
]
  where
    unknown : Fits (send_err (snprintf (codes "Unknown command: " ++ cmd)))
    unknown =
        subst (λ t. Fits (send_err t))
          (sym (take-all 511 (codes "Unknown command: " ++ cmd) (omega arith)))
          (send_err-Fits (codes "Unknown command: " ++ cmd) (omega arith))

-- If the texts of the system are short, then to every line of at most 487 bytes `dispatch_command`
-- answers with whole lines, each sent from inside the buffer.
pub dispatch_command-Fits :
    (info : ServerInfo) (line : List ℕ)
    → IsShort info
    → length line ≤ 487
    → All Fits (dispatch_command info line).0
unfolding dispatch_command
dispatch_command-Fits info line v p = elim (Bool-cases (is_empty (skip_spaces line))) [
  | inl e ↦ rw e tt
  | inr e ↦
      let (word, arg) = parse_line line in
      let sizes = length-split_space (skip_spaces line) in
      let skipped = length-skip_spaces line in
      rw e (
        run_command-Fits info (to_upper word) (skip_arg arg) v
          (omega (arith, length-to_upper word, sizes.0, skipped))
          (omega (arith, length-skip_arg arg, sizes.1, skipped)))
]

long_word : (a b c d : ℕ) (cmd : List ℕ) → 4 < length cmd → str_eq cmd (a ∷ b ∷ c ∷ d ∷ []) ≡ false
unfolding str_eq
long_word a b c d [] p = absurd (omega arith)
long_word a b c d (u ∷ []) p = absurd (omega arith)
long_word a b c d (u ∷ v ∷ []) p = absurd (omega arith)
long_word a b c d (u ∷ v ∷ w ∷ []) p = absurd (omega arith)
long_word a b c d (u ∷ v ∷ w ∷ x ∷ []) p = absurd (omega arith)
long_word a b c d (u ∷ v ∷ w ∷ x ∷ y ∷ cmd) p = ground arith

abbrev pub NoSpaces : List ℕ → Type 0
NoSpaces line = All (λ c. c ≢ b' ') line

skip_spaces-NoSpaces : (s : List ℕ) → NoSpaces s → skip_spaces s ≡ s
unfolding skip_spaces
skip_spaces-NoSpaces [] k = refl
skip_spaces-NoSpaces (c ∷ s) k = ground (arith, k.0)

split_space-NoSpaces : (s : List ℕ) → NoSpaces s → split_space s ≡ (s, none)
unfolding split_space
split_space-NoSpaces [] k = refl
split_space-NoSpaces (c ∷ s) k = ground (arith, k.0, split_space-NoSpaces s k.1)

-- To a line that is one word of at least 489 bytes, without spaces, `dispatch_command` answers
-- with one error, for which `send_line` sends one byte from behind its buffer.
pub dispatch_command-overread :
    (info : ServerInfo) (line : List ℕ)
    → NoSpaces line
    → 489 ≤ length line
    → (e : Sent) × (dispatch_command info line ≡ (e ∷ [], true)) × (e.beyond ≡ 1)
unfolding dispatch_command run_command
dispatch_command-overread info [] k p = absurd (omega arith)
dispatch_command-overread info (c ∷ s) k p = (
  send_err (snprintf (codes "Unknown command: " ++ word)),
  rw (
    skip_spaces-NoSpaces (c ∷ s) k,
    split_space-NoSpaces (c ∷ s) k,
    long_word b'E' b'C' b'H' b'O' word long,
    long_word b'I' b'N' b'F' b'O' word long,
    long_word b'H' b'E' b'L' b'P' word long,
    long_word b'Q' b'U' b'I' b'T' word long,
  ),
  unfold send_err in behind,
)
  where
    word : List ℕ
    word = to_upper (c ∷ s)

    long : 4 < length word
    long = omega (arith, length-to_upper (c ∷ s))

    text : List ℕ
    text = snprintf (codes "Unknown command: " ++ word)

    behind : (send_line (snprintf (codes "-ERR " ++ text))).beyond ≡ 1
    behind = omega (
      arith,
      send_line-beyond (snprintf (codes "-ERR " ++ text)),
      length-take 511 (codes "-ERR " ++ text),
      length-take 511 (codes "Unknown command: " ++ word),
      length-to_upper (c ∷ s),
    )
