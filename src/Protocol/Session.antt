-- ===== src/Protocol/Session.antt =====
-- `handle_client` of LAB_8/src/server.c: how a session ends.
use os_sp.Prelude.{
  ℕ, zero, suc, ◌+◌, ◌<◌, ◌≡◌, refl, ◌∙◌, ap, append-nil, true, Option, some, List, [], ◌∷◌, ◌++◌,
  arith, length, All, Bool-cases, inl, inr,
}
use os_sp.Protocol.{
  Read, read_line, Sent, ServerInfo, dispatch_command, c_string, Ended, send_before, answer, serve,
  handle_client, send_ok,
}
use os_sp.Protocol.Lines.{LineOf, got, lost, read_line-LineOf, read_line-full, bytes, IsKept}

send_before_total :
    (out : List Sent) (o : Option Ended)
    → (r : Ended) × (o ≡ some r)
    → (r : Ended) × (send_before out o ≡ some r)
send_before_total out o (r, e) = (record r { sent = out ++ r.sent }, rw e)

answer_total :
    (next : List Read → Option Ended) (info : ServerInfo) (n : ℕ) (r : Option (List ℕ) × List Read)
    → LineOf 511 n r
    → ((s : List Read) → length s < n → (e : Ended) × (next s ≡ some e))
    → (e : Ended) × (answer next info r ≡ some e)
unfolding answer
answer_total next info n _ (lost left p) ih = (record { sent = []; left = left }, refl)
answer_total next info n _ (got [] left b k p) ih = (record { sent = []; left = left }, refl)
answer_total next info n _ (got (c ∷ text) left b k p) ih =
    let d = dispatch_command info (c_string (c ∷ text)) in
    elim (Bool-cases d.1) [
      | inl e ↦ rw e (send_before_total d.0 (next left) (ih left (omega arith)))
      | inr e ↦ (record { sent = d.0; left = left }, rw e)
    ]

serve_total :
    (fuel : ℕ) (info : ServerInfo) (s : List Read)
    → length s < fuel
    → (r : Ended) × (serve fuel info s ≡ some r)
unfolding serve
serve_total zero info s p = absurd (omega arith)
serve_total (suc fuel) info s p =
    answer_total (serve fuel info) info (length s) (read_line 511 s) (read_line-LineOf 511 s)
      (λ s' q. serve_total fuel info s' (omega arith))

-- Whatever a client sends, the session ends: as many rounds as it sends bytes, and one, are
-- enough.
pub handle_client_total :
    (info : ServerInfo) (greeting : List ℕ) (s : List Read)
    → (r : Ended) × (handle_client (length s + 1) info greeting s ≡ some r)
unfolding handle_client
handle_client_total info greeting s =
    send_before_total (send_ok greeting ∷ []) (serve (length s + 1) info s)
      (serve_total (length s + 1) info s (omega arith))

-- A line without text ends the session as the end of the connection does: nothing more is sent,
-- and the commands behind it are not read.
pub serve-blank_line :
    (fuel : ℕ) (info : ServerInfo) (s : List Read)
    → serve (suc fuel) info (bytes (b'\r' ∷ b'\n' ∷ []) s) ≡ some (record { sent = []; left = s })
unfolding serve answer read_line
serve-blank_line fuel info s = refl

-- A line of exactly 511 bytes that does not quit is answered, and then the session is over: the
-- line's own end is read as a line without text.
pub serve-full_line :
    (fuel : ℕ) (info : ServerInfo) (c : ℕ) (text : List ℕ) (s : List Read)
    → length (c ∷ text) ≡ 511
    → All IsKept (c ∷ text)
    → (dispatch_command info (c_string (c ∷ text))).1 ≡ true
    → serve (suc (suc fuel)) info (bytes (c ∷ text) (bytes (b'\r' ∷ b'\n' ∷ []) s))
      ≡ some (record { sent = (dispatch_command info (c_string (c ∷ text))).0; left = s })
unfolding serve answer
serve-full_line fuel info c text s n k goes =
    rw (read_line-full 511 (c ∷ text) (bytes (b'\r' ∷ b'\n' ∷ []) s) n k, goes)
      (ap (send_before out) (serve-blank_line fuel info s)
        ∙ ap (λ sent. some (record { sent = sent; left = s })) (append-nil out))
  where
    out : List Sent
    out = (dispatch_command info (c_string (c ∷ text))).0
