-- ===== src/Protocol/Tests.antt =====
-- The protocol of LAB_8 on concrete inputs.
use os_sp.Prelude.{
  ℕ, zero, suc, ◌+◌, ◌<◌, ◌≡◌, refl, ap, ◌∙◌, true, some, List, [], ◌∷◌, ◌++◌, arith, length, map,
  replicate, All,
}
use os_sp.Prelude.Text.{codes}
use os_sp.Protocol.{Sent, ServerInfo, dispatch_command, c_string, Ended, handle_client}
use os_sp.Protocol.Lines.{IsKept, bytes}
use os_sp.Protocol.Replies.{
  Fits, IsShort, NoSpaces, dispatch_command-Fits, dispatch_command-overread,
}
use os_sp.Protocol.Session.{handle_client_total}
use os_sp.Protocol.Client.{receive_response, deliver, whole, receive_response-multiline}

abbrev info : ServerInfo
info = record { started = codes "now"; uptime = codes "1"; pid = codes "7" }

info-IsShort : IsShort info
info-IsShort = record { started = omega arith; uptime = omega arith; pid = omega arith }

abbrev hello : List ℕ
hello = codes "ECHO a"

above_returns : (c : ℕ) → 13 < c → IsKept c
above_returns c p = ((λ e. omega arith), (λ e. omega arith))

hello-IsKept : All IsKept hello
hello-IsKept = (
  above_returns b'E' (omega arith),
  (
    above_returns b'C' (omega arith),
    (
      above_returns b'H' (omega arith),
      (
        above_returns b'O' (omega arith),
        (above_returns b' ' (omega arith), (above_returns b'a' (omega arith), tt)),
      ),
    ),
  ),
)

letters-IsKept : (n : ℕ) → All IsKept (replicate n b'A')
letters-IsKept zero = tt
letters-IsKept (suc n) = (((λ e. omega arith), (λ e. omega arith)), letters-IsKept n)

letters-NoSpaces : (n : ℕ) → NoSpaces (replicate n b'A')
letters-NoSpaces zero = tt
letters-NoSpaces (suc n) = ((λ e. omega arith), letters-NoSpaces n)

dispatch_command-Fits_example : All Fits (dispatch_command info hello).0
dispatch_command-Fits_example = dispatch_command-Fits info hello info-IsShort (omega arith)

dispatch_command-overread_example :
    (e : Sent) × (dispatch_command info (replicate 490 b'A') ≡ (e ∷ [], true)) × (e.beyond ≡ 1)
dispatch_command-overread_example =
    dispatch_command-overread info (replicate 490 b'A') (letters-NoSpaces 490) (omega arith)

handle_client_total_example :
    (r : Ended) × (handle_client (length (bytes hello []) + 1) info (codes "hello") (bytes hello [])
      ≡ some r)
handle_client_total_example = handle_client_total info (codes "hello") (bytes hello [])

c_string-letters : (n : ℕ) → c_string (replicate n b'A') ≡ replicate n b'A'
unfolding c_string
c_string-letters zero = refl
c_string-letters (suc n) = ap (◌∷◌ b'A') (c_string-letters n)

letters-goes_on : (dispatch_command info (c_string (b'A' ∷ replicate 510 b'A'))).1 ≡ true
letters-goes_on =
    let (e, reply, _) =
      dispatch_command-overread info (replicate 511 b'A') (letters-NoSpaces 511) (omega arith) in
    ap (λ line. (dispatch_command info line).1) (c_string-letters 511) ∙ ap (λ r. r.1) reply

abbrev middle : List ℕ
middle = codes " x"

receive_response-multiline_example :
    receive_response 2 true
      (deliver (whole hello ∷ (map whole (middle ∷ []) ++ whole (codes ".") ∷ [])) [])
    ≡ some (hello ∷ middle ∷ [], [])
receive_response-multiline_example =
    receive_response-multiline 2 hello (middle ∷ []) [] (omega arith, hello-IsKept)
      (
        (
          refl,
          (omega arith, (above_returns b' ' (omega arith), (above_returns b'x' (omega arith), tt))),
        ),
        tt,
      )
      (omega arith)
