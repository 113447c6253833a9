-- ===== src/Protocol.antt =====
-- The line protocol of LAB_8/src/protocol.c and the session loop of server.c. A text is the list of
-- its bytes before the terminating zero.
pub mod Lines
pub mod Dispatch
pub mod Replies
pub mod Session
pub mod Client
mod Tests
use os_sp.Prelude.{
  ℕ, zero, suc, ◌+◌, ◌-◌, Bool, true, false, ◌&&◌, ◌||◌, Option, none, some, List, [], ◌∷◌, ◌++◌,
  map, ltb, leb, ◌==◌, if◌then◌else◌, length, take,
}
use os_sp.Prelude.Text.{codes, str_eq}

abbrev pub buf_size : ℕ
buf_size = 512

-- What one `read` of a byte returns.
pub data Read : Type 0 where
  byte : ℕ → Read
  end_of_file : Read
  read_error : Read

abbrev pub add_byte : ℕ → Option (List ℕ) × List Read → Option (List ℕ) × List Read
add_byte c (none, s) = (none, s)
add_byte c (some line, s) = (some (c ∷ line), s)

-- `room` is `maxlen - 1 - i`. The result is `none` for -1, and the input that is left; past the
-- end of the input every read finds the end of the file.
pub read_line : (room : ℕ) → List Read → Option (List ℕ) × List Read
read_line zero s = (some [], s)
read_line (suc room) [] = (some [], [])
read_line (suc room) (read_error ∷ s) = (none, s)
read_line (suc room) (end_of_file ∷ s) = (some [], s)
read_line (suc room) (byte c ∷ s) =
    let skipped = read_line (suc room) s in
    let kept = add_byte c (read_line room s) in
    if c == b'\n' then (some [], s) else if c == b'\r' then skipped else kept

-- What `send_line` gives to `write`: the bytes from its buffer, and how many bytes from behind it.
pub record Sent : Type 0 where
  pub wire : List ℕ
  pub beyond : ℕ

-- `snprintf (buf, sizeof (buf), ...)`: the text that the buffer then holds.
abbrev pub snprintf : List ℕ → List ℕ
snprintf text = take (buf_size - 1) text

-- `snprintf` returns the length of the whole text, and so many bytes are sent. Every `write` is
-- taken to succeed; what it leaves is written by the next round.
pub send_line : List ℕ → Sent
send_line msg =
    let text = msg ++ b'\r' ∷ b'\n' ∷ [] in
    let image = snprintf text ++ 0 ∷ [] in
    record { wire = take (length text) image; beyond = length text - buf_size }

pub send_ok : List ℕ → Sent
unfolding send_line
send_ok msg = send_line (snprintf (codes "+OK " ++ msg))

pub send_err : List ℕ → Sent
unfolding send_line
send_err msg = send_line (snprintf (codes "-ERR " ++ msg))

pub send_end : Sent
unfolding send_line
send_end = send_line (codes ".")

abbrev pub upper : ℕ → ℕ
upper c = if leb b'a' c && leb c b'z' then c - 32 else c

pub to_upper : List ℕ → List ℕ
to_upper [] = []
to_upper (c ∷ s) = upper c ∷ to_upper s

-- What `cmd_info` asks of the system, printed.
pub record ServerInfo : Type 0 where
  pub started : List ℕ
  pub uptime : List ℕ
  pub pid : List ℕ

pub cmd_echo : Option (List ℕ) → List Sent
unfolding send_err send_ok
cmd_echo none = send_err (codes "ECHO requires an argument") ∷ []
cmd_echo (some []) = send_err (codes "ECHO requires an argument") ∷ []
cmd_echo (some (c ∷ arg)) = send_ok (c ∷ arg) ∷ []

pub cmd_info : ServerInfo → List Sent
unfolding send_line send_end
cmd_info info =
    send_line (codes "+OK Server information:")
    ∷ send_line (snprintf (codes "  Server    : Lab8 TCP Server"))
    ∷ send_line (snprintf (codes "  Port      : 54321"))
    ∷ send_line (snprintf (codes "  Started   : " ++ info.started))
    ∷ send_line (snprintf (codes "  Uptime    : " ++ (info.uptime ++ codes " sec")))
    ∷ send_line (snprintf (codes "  PID       : " ++ info.pid))
    ∷ send_end
    ∷ []

pub cmd_help : List Sent
unfolding send_line send_end
cmd_help =
    send_line (codes "+OK Available commands:")
    ∷ send_line (codes "  ECHO <text>  - echo text back")
    ∷ send_line (codes "  INFO         - server information")
    ∷ send_line (codes "  HELP         - this help")
    ∷ send_line (codes "  QUIT         - close connection")
    ∷ send_end
    ∷ []

-- `while (*s == ' ') s++`
pub skip_spaces : List ℕ → List ℕ
skip_spaces [] = []
skip_spaces (c ∷ s) = let rest = skip_spaces s in if c == b' ' then rest else c ∷ s

-- `strchr (s, ' ')`: the text before the first space, and the text after it if there is one.
pub split_space : List ℕ → List ℕ × Option (List ℕ)
split_space [] = ([], none)
split_space (c ∷ s) =
    let (word, arg) = split_space s in if c == b' ' then ([], some s) else (c ∷ word, arg)

abbrev pub skip_arg : Option (List ℕ) → Option (List ℕ)
skip_arg none = none
skip_arg (some s) = some (skip_spaces s)

-- The chain of comparisons, for a command in upper case. The flag is the result: true for 1.
pub run_command : ServerInfo → List ℕ → Option (List ℕ) → List Sent × Bool
unfolding cmd_echo cmd_info cmd_help send_ok send_err
run_command info cmd arg =
    if str_eq cmd (codes "ECHO")
    then (cmd_echo arg, true)
    else if str_eq cmd (codes "INFO")
    then (cmd_info info, true)
    else if str_eq cmd (codes "HELP")
    then (cmd_help, true)
    else if str_eq cmd (codes "QUIT")
    then (send_ok (codes "Goodbye!") ∷ [], false)
    else (send_err (snprintf (codes "Unknown command: " ++ cmd)) ∷ [], true)

abbrev pub parse_line : List ℕ → List ℕ × Option (List ℕ)
parse_line line = split_space (skip_spaces line)

abbrev pub is_empty : List ℕ → Bool
is_empty [] = true
is_empty (c ∷ s) = false

pub dispatch_command : ServerInfo → List ℕ → List Sent × Bool
unfolding run_command skip_spaces split_space to_upper
dispatch_command info line =
    let (cmd, arg) = parse_line line in
    if is_empty (skip_spaces line)
    then ([], true)
    else run_command info (to_upper cmd) (skip_arg arg)

-- The buffer as a C string ends at its first zero byte.
pub c_string : List ℕ → List ℕ
c_string [] = []
c_string (c ∷ s) = if c == 0 then [] else c ∷ c_string s

-- How a session ends, with what was sent and the input that is left.
pub record Ended : Type 0 where
  pub sent : List Sent
  pub left : List Read

abbrev pub send_before : List Sent → Option Ended → Option Ended
send_before out none = none
send_before out (some r) = some (record r { sent = out ++ r.sent })

-- The body of the loop of `handle_client`, for what `read_line` returned; `next` is the next round.
pub answer :
    (next : List Read → Option Ended) → ServerInfo → Option (List ℕ) × List Read → Option Ended
unfolding dispatch_command c_string
answer next info (none, s) = some (record { sent = []; left = s })
answer next info (some [], s) = some (record { sent = []; left = s })
answer next info (some (c ∷ text), s) =
    let (out, goes_on) = dispatch_command info (c_string (c ∷ text)) in
    if goes_on then send_before out (next s) else some (record { sent = out; left = s })

-- The loop; `none` means that the fuel ran out.
pub serve : (fuel : ℕ) → ServerInfo → List Read → Option Ended
unfolding read_line answer
serve zero info s = none
serve (suc fuel) info s = answer (serve fuel info) info (read_line (buf_size - 1) s)

-- `greeting` is the text for a new client.
pub handle_client : (fuel : ℕ) → ServerInfo → (greeting : List ℕ) → List Read → Option Ended
unfolding serve send_ok
handle_client fuel info greeting s = send_before (send_ok greeting ∷ []) (serve fuel info s)
