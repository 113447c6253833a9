-- ===== src/Protocol/Client.antt =====
-- The reader of LAB_8/src/client.c against the replies of protocol.c: when the two stay in step.
use os_sp.Prelude.{
  ℕ, ◌-◌, zero, suc, ◌<◌, ◌≡◌, refl, ◌∙◌, ap, true, false, Option, some, List, [], ◌∷◌, ◌++◌, map,
  arith, length, All, Bool, none, ◌||◌, ◌==◌, if◌then◌else◌,
}
use os_sp.Prelude.Text.{codes, str_eq}
use os_sp.Protocol.{
  Read, Sent, ServerInfo, buf_size, dispatch_command, read_line, snprintf, split_space, to_upper,
}
use os_sp.Protocol.Lines.{bytes, IsKept, read_line-bytes}

-- `is_multiline_command` of the client.
pub is_multiline_command : List ℕ → Bool
unfolding split_space to_upper
is_multiline_command input =
    let cmd = to_upper (split_space (snprintf input)).0 in
    str_eq cmd (codes "HELP") || str_eq cmd (codes "INFO")

-- The lines that the client prints, and the input left.
abbrev pub Received : Type 0
Received = List (List ℕ) × List Read

abbrev pub print_before : List ℕ → Option Received → Option Received
print_before line none = none
print_before line (some (lines, s)) = some (line ∷ lines, s)

-- The body of the loop of `receive_response`, for what `read_line` returned.
pub receive_next :
    (next : List Read → Option Received) → Option (List ℕ) × List Read → Option Received
receive_next next (none, s) = some ([], s)
receive_next next (some [], s) = some ([], s)
receive_next next (some (c ∷ text), s) =
    if str_eq (c ∷ text) (codes ".")
    then some ([], s)
    else if c == b' '
    then print_before (c ∷ text) (next s)
    else some ((c ∷ text) ∷ [], s)

pub receive_more : (fuel : ℕ) → List Read → Option Received
unfolding read_line receive_next
receive_more zero s = none
receive_more (suc fuel) s = receive_next (receive_more fuel) (read_line (buf_size - 1) s)

abbrev pub receive_first :
    (more : List Read → Option Received) → Bool → Option (List ℕ) × List Read → Option Received
receive_first more multiline (none, s) = none
receive_first more multiline (some [], s) = none
receive_first more multiline (some (c ∷ text), s) =
    if multiline then print_before (c ∷ text) (more s) else some ((c ∷ text) ∷ [], s)

-- `none` is the exit when the connection is gone, or that the fuel ran out.
pub receive_response : (fuel : ℕ) → Bool → List Read → Option Received
unfolding receive_more
receive_response fuel multiline s =
    receive_first (receive_more fuel) multiline (read_line (buf_size - 1) s)

-- The reads that a reply causes at the client.
abbrev pub deliver : List Sent → List Read → List Read
deliver [] s = s
deliver (e ∷ es) s = bytes e.wire (deliver es s)

-- The whole line that a text makes on the wire.
abbrev pub whole : List ℕ → Sent
whole text = record { wire = text ++ b'\r' ∷ b'\n' ∷ []; beyond = 0 }

-- A line that `read_line` can take: short, without line ends, and not empty.
abbrev pub IsLine : List ℕ → Type 0
IsLine [] = ⊥
IsLine (c ∷ text) = (length (c ∷ text) < 511) × All IsKept (c ∷ text)

-- To a command with a one-line reply the client reads that line and nothing more.
pub receive_response-single :
    (fuel : ℕ) (text : List ℕ) (s : List Read)
    → IsLine text
    → receive_response fuel false (deliver (whole text ∷ []) s) ≡ some (text ∷ [], s)
unfolding receive_response
receive_response-single fuel [] s k = absurd k
receive_response-single fuel (c ∷ text) s k = rw (read_line-bytes 511 (c ∷ text) s k.0 k.1)

-- A middle line of a reply starts with a space.
abbrev pub IsMiddle : List ℕ → Type 0
IsMiddle [] = ⊥
IsMiddle (c ∷ text) = (c ≡ b' ') × IsLine (c ∷ text)

receive_next-middle :
    (next : List Read → Option Received) (c : ℕ) (text : List ℕ) (s s' : List Read)
    (lines : List (List ℕ))
    → c ≡ b' '
    → next s ≡ some (lines, s')
    → receive_next next (some (c ∷ text), s) ≡ some ((c ∷ text) ∷ lines, s')
unfolding receive_next str_eq
receive_next-middle next c text s s' lines e q = ground arith

receive_more-middles :
    (fuel : ℕ) (texts : List (List ℕ)) (s : List Read)
    → All IsMiddle texts
    → length texts < fuel
    → receive_more fuel (deliver (map whole texts ++ whole (codes ".") ∷ []) s) ≡ some (texts, s)
unfolding receive_more
receive_more-middles zero texts s k p = absurd (omega arith)
receive_more-middles (suc fuel) [] s k p = unfold read_line receive_next str_eq in refl
receive_more-middles (suc fuel) ([] ∷ texts) s k p = absurd k.0
receive_more-middles (suc fuel) ((c ∷ text) ∷ texts) s k p =
    let rest = deliver (map whole texts ++ whole (codes ".") ∷ []) s in
    ap (receive_next (receive_more fuel)) (read_line-bytes 511 (c ∷ text) rest k.0.1.0 k.0.1.1)
    ∙ receive_next-middle (receive_more fuel) c text rest s texts k.0.0
        (receive_more-middles fuel texts s k.1 (omega arith))

-- If a reply is a first line, middle lines that start with a space and the line ".", all but the
-- last of 1 to 510 bytes without line ends, and there is fuel above the number of middle lines,
-- then for a command with a reply of many lines the client reads exactly that reply.
pub receive_response-multiline :
    (fuel : ℕ) (first : List ℕ) (texts : List (List ℕ)) (s : List Read)
    → IsLine first
    → All IsMiddle texts
    → length texts < fuel
    → receive_response fuel true
        (deliver (whole first ∷ (map whole texts ++ whole (codes ".") ∷ [])) s)
      ≡ some (first ∷ texts, s)
unfolding receive_response
receive_response-multiline fuel [] texts s f k p = absurd f
receive_response-multiline fuel (c ∷ first) texts s f k p =
    let rest = deliver (map whole texts ++ whole (codes ".") ∷ []) s in
    rw (read_line-bytes 511 (c ∷ first) rest f.0 f.1, receive_more-middles fuel texts s k p)

-- The client takes a line that starts with a space for a command with a one-line reply, while the
-- server skips the space and answers as to the command behind it.
pub is_multiline_command-space :
    (info : ServerInfo) (line : List ℕ)
    → (is_multiline_command (b' ' ∷ line) ≡ false)
      × (dispatch_command info (b' ' ∷ line) ≡ dispatch_command info line)
unfolding is_multiline_command dispatch_command str_eq
is_multiline_command-space info line = (refl, refl)

abbrev help_middles : List (List ℕ)
help_middles =
    codes "  ECHO <text>  - echo text back"
    ∷ codes "  INFO         - server information"
    ∷ codes "  HELP         - this help"
    ∷ codes "  QUIT         - close connection"
    ∷ []

-- The reply to HELP behind a space: the client reads its first line only, and finds the other
-- lines before the next reply.
pub help-out_of_step :
    (fuel : ℕ) (info : ServerInfo) (s : List Read)
    → receive_response fuel
        (is_multiline_command (codes " HELP"))
        (deliver (dispatch_command info (codes " HELP")).0 s)
      ≡ some (
        codes "+OK Available commands:" ∷ [],
        deliver (map whole help_middles ++ whole (codes ".") ∷ []) s,
      )
unfolding is_multiline_command dispatch_command receive_response str_eq read_line
help-out_of_step fuel info s = refl
