-- ===== src/Message/Hash.antt =====
-- The loop of `message_calc_hash` (LAB_5.1/src/message.c) against the DJB2 polynomial.
use os_sp.Prelude.{
  ℕ, zero, suc, ◌+◌, ◌*◌, ◌%◌, ◌^◌, ◌<◌, ◌≤◌, ◌≡◌, refl, sym, ◌∙◌, ap, List, [], ◌∷◌, arith, length,
  get_or, take, drop,
}
use os_sp.Message.{
  Message, IsValid, hash_step, hash_header, hash_loop, message_calc_hash, calculate_djb2,
}

-- DJB2 over unbounded numbers: `h * 33 + b` for each byte.
unfoldable pub djb2 : ℕ → List ℕ → ℕ
djb2 h [] = h
djb2 h (b ∷ bs) = djb2 (h * 33 + b) bs

-- The bytes that the hash covers.
abbrev pub hashed_bytes : Message → List ℕ
hashed_bytes m = m.type ∷ 0 ∷ 0 ∷ m.size ∷ take (m.size + 1) m.payload

drop-cons : (xs : List ℕ) (i : ℕ) → i < length xs → drop i xs ≡ get_or xs i 0 ∷ drop (i + 1) xs
drop-cons [] i h = elim h [ ]
drop-cons (x ∷ xs) zero h = refl
drop-cons (x ∷ xs) (suc i) h =
    let e : suc i + 1 ≡ suc (i + 1) = omega arith in
    drop-cons xs i (omega arith) ∙ ap (λ j. get_or xs i 0 ∷ drop j (x ∷ xs)) (sym e)

djb2-cong :
    (bs : List ℕ) (h k : ℕ) → h % 2 ^ 16 ≡ k % 2 ^ 16 → djb2 h bs % 2 ^ 16 ≡ djb2 k bs % 2 ^ 16
unfolding djb2
djb2-cong [] h k e = e
djb2-cong (b ∷ bs) h k e = djb2-cong bs (h * 33 + b) (k * 33 + b) (omega arith)

hash_loop-djb2 :
    (n i : ℕ) (bytes : List ℕ) (h : ℕ)
    → i + n ≤ length bytes
    → hash_loop n i bytes h % 2 ^ 16 ≡ djb2 h (take n (drop i bytes)) % 2 ^ 16
unfolding hash_loop djb2
hash_loop-djb2 zero i bytes h p = refl
hash_loop-djb2 (suc n) i bytes h p = rw (drop-cons bytes i (omega arith)) (
    hash_loop-djb2 n (i + 1) bytes (hash_step h (get_or bytes i 0)) (omega arith)
    ∙ djb2-cong (take n (drop (i + 1) bytes)) (hash_step h (get_or bytes i 0))
        (h * 33 + get_or bytes i 0) (omega arith))

-- For a valid message, the 64-bit loop and its 16-bit result are the DJB2 polynomial of the
-- covered bytes modulo 2 ^ 16.
pub message_calc_hash-djb2 :
    (m : Message) → IsValid m → message_calc_hash m ≡ djb2 5381 (hashed_bytes m) % 2 ^ 16
unfolding message_calc_hash djb2
message_calc_hash-djb2 m v =
    hash_loop-djb2 (m.size + 1) 0 m.payload (hash_header m) (omega arith)
    ∙ djb2-cong (take (m.size + 1) m.payload) (hash_header m)
        ((((5381 * 33 + m.type) * 33 + 0) * 33 + 0) * 33 + m.size) (omega arith)

pub calculate_djb2-message_calc_hash : (m : Message) → calculate_djb2 m ≡ message_calc_hash m
unfolding calculate_djb2 message_calc_hash
calculate_djb2-message_calc_hash m = refl
