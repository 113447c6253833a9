-- ===== src/Protocol/Lines.antt =====
-- `read_line` and `send_line` of LAB_8/src/protocol.c: bounds, what a line is, and where the
-- buffer of `send_line` is too small.
use os_sp.Prelude.{
  size_laws, ℕ, zero, suc, ◌+◌, ◌-◌, ◌≤◌, ◌<◌, ◌≡◌, ◌≢◌, refl, Option, some, none, List, [], ◌∷◌,
  ◌++◌, arith, length, ◌==◌, All, Bool-cases, inl, inr, take, subst, All-append, take-all,
  length-append, append_assoc, take-append,
}
use os_sp.Protocol.{Read, byte, end_of_file, read_error, add_byte, read_line, snprintf, send_line}

-- A byte that a line keeps.
abbrev pub IsKept : ℕ → Type 0
IsKept c = (c ≢ b'\n') × (c ≢ b'\r')

-- What `read_line` may return from `available` bytes of input.
pub data LineOf (room available : ℕ) : Option (List ℕ) × List Read → Type 0 where
  got :
      (line : List ℕ) (left : List Read)
      → length line ≤ room
      → All IsKept line
      → length line + length left ≤ available
      → LineOf room available (some line, left)
  lost : (left : List Read) → length left ≤ available → LineOf room available (none, left)

LineOf-more :
    (room n m : ℕ) (r : Option (List ℕ) × List Read) → n ≤ m → LineOf room n r → LineOf room m r
LineOf-more room n m _ p (got line left b k c) = got line left b k (omega arith)
LineOf-more room n m _ p (lost left c) = lost left (omega arith)

LineOf-add_byte :
    (room n c : ℕ) (r : Option (List ℕ) × List Read)
    → IsKept c
    → LineOf room n r
    → LineOf (suc room) (suc n) (add_byte c r)
LineOf-add_byte room n c _ k (got line left b ks e) =
    got (c ∷ line) left (omega arith) (k, ks) (omega arith)
LineOf-add_byte room n c _ k (lost left e) = lost left (omega arith)

-- `read_line` returns at most as many bytes as the buffer has room for, none of them a line feed or
-- a carriage return, and takes at least as many reads as it returns bytes.
pub read_line-LineOf : (room : ℕ) (s : List Read) → LineOf room (length s) (read_line room s)
unfolding read_line
read_line-LineOf zero s = got [] s (omega arith) tt (omega arith)
read_line-LineOf (suc room) [] = got [] [] (omega arith) tt (omega arith)
read_line-LineOf (suc room) (read_error ∷ s) = lost s (omega arith)
read_line-LineOf (suc room) (end_of_file ∷ s) = got [] s (omega arith) tt (omega arith)
read_line-LineOf (suc room) (byte c ∷ s) = elim (Bool-cases (c == b'\n')) [
  | inl e ↦ rw e (got [] s (omega arith) tt (omega arith))
  | inr e ↦ elim (Bool-cases (c == b'\r')) [
    | inl f ↦
        rw (e, f)
          (LineOf-more (suc room) (length s) (suc (length s)) (read_line (suc room) s) (omega arith)
            (read_line-LineOf (suc room) s))
    | inr f ↦
        rw (e, f)
          (LineOf-add_byte room (length s) c (read_line room s) (ground arith, ground arith)
            (read_line-LineOf room s))
  ]
]

-- The reads that deliver these bytes.
abbrev pub bytes : List ℕ → List Read → List Read
bytes [] s = s
bytes (c ∷ cs) s = byte c ∷ bytes cs s

-- A text that is shorter than the room and has no line ends, when it comes in with the end of a
-- line, is read as that text, and no more is consumed.
pub read_line-bytes :
    (room : ℕ) (line : List ℕ) (s : List Read)
    → length line < room
    → All IsKept line
    → read_line room (bytes (line ++ b'\r' ∷ b'\n' ∷ []) s) ≡ (some line, s)
unfolding read_line
read_line-bytes zero line s p k = absurd (omega arith)
read_line-bytes (suc room) [] s p k = refl
read_line-bytes (suc room) (c ∷ line) s p k = ground (arith, k.0, read_line-bytes room line s)

-- A line that fills the buffer is read without its end, which is left for the next call.
pub read_line-full :
    (room : ℕ) (line : List ℕ) (s : List Read)
    → length line ≡ room
    → All IsKept line
    → read_line room (bytes line s) ≡ (some line, s)
unfolding read_line
read_line-full zero [] s p k = refl
read_line-full zero (c ∷ line) s p k = absurd (omega arith)
read_line-full (suc room) [] s p k = absurd (omega arith)
read_line-full (suc room) (c ∷ line) s p k = ground (arith, k.0, read_line-full room line s)

whole_text :
    (text : List ℕ) → length text ≤ 511 → take (length text) (snprintf text ++ 0 ∷ []) ≡ text
whole_text text p = rw (take-all 511 text p) (take-append text (0 ∷ []))

-- A message of at most 509 bytes is sent whole with its line end, from inside the buffer.
pub send_line-fits :
    (msg : List ℕ)
    → length msg ≤ 509
    → send_line msg ≡ record { wire = msg ++ b'\r' ∷ b'\n' ∷ []; beyond = 0 }
unfolding send_line
send_line-fits msg p =
    let n = length-append msg (b'\r' ∷ b'\n' ∷ []) in
    let inside : length (msg ++ b'\r' ∷ b'\n' ∷ []) - 512 ≡ 0 = omega (arith, n) in
    let wire = whole_text (msg ++ b'\r' ∷ b'\n' ∷ []) (omega (arith, n)) in
    λ i. record { wire = wire i; beyond = inside i }

All-take :
    (n : ℕ) (xs ys : List ℕ)
    → n ≤ length xs
    → All (λ c. c ≢ b'\n') xs
    → All (λ c. c ≢ b'\n') (take n (xs ++ ys))
All-take zero xs ys p k = tt
All-take (suc n) [] ys p k = absurd (omega arith)
All-take (suc n) (x ∷ xs) ys p k = (k.0, All-take n xs ys (omega arith) k.1)

All-take_all : (n : ℕ) (xs : List ℕ) → All (λ c. c ≢ b'\n') xs → All (λ c. c ≢ b'\n') (take n xs)
All-take_all zero xs k = tt
All-take_all (suc n) [] k = tt
All-take_all (suc n) (x ∷ xs) k = (k.0, All-take_all n xs k.1)

no_feed : (xs : List ℕ) → All IsKept xs → All (λ c. c ≢ b'\n') (xs ++ b'\r' ∷ [])
no_feed [] k = (omega arith, tt)
no_feed (x ∷ xs) k = (k.0.0, no_feed xs k.1)

pub send_line-beyond : (msg : List ℕ) → (send_line msg).beyond ≡ length msg - 510
unfolding send_line
send_line-beyond msg = omega (arith, length-append msg (b'\r' ∷ b'\n' ∷ []))

-- A longer message is sent without its line feed. From 511 bytes on, `send_line` sends bytes from
-- behind its buffer too, one for each byte above 510.
pub send_line-overflow :
    (msg : List ℕ)
    → 510 ≤ length msg
    → All IsKept msg
    → All (λ c. c ≢ b'\n') (send_line msg).wire × ((send_line msg).beyond ≡ length msg - 510)
unfolding send_line
send_line-overflow msg p k = (
  All-take_all (length (msg ++ b'\r' ∷ b'\n' ∷ [])) (snprintf (msg ++ b'\r' ∷ b'\n' ∷ []) ++ 0 ∷ [])
      (All-append (λ c. c ≢ b'\n') (snprintf (msg ++ b'\r' ∷ b'\n' ∷ [])) (0 ∷ []) cut
        (omega arith, tt)),
  omega (arith, length-append msg (b'\r' ∷ b'\n' ∷ [])),
)
  where
    cut : All (λ c. c ≢ b'\n') (snprintf (msg ++ b'\r' ∷ b'\n' ∷ []))
    cut =
        subst (λ text. All (λ c. c ≢ b'\n') (snprintf text))
          (append_assoc msg (b'\r' ∷ []) (b'\n' ∷ []))
          (All-take 511 (msg ++ b'\r' ∷ []) (b'\n' ∷ []) (grind size_laws) (no_feed msg k))
