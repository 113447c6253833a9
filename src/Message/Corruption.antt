-- ===== src/Message/Corruption.antt =====
-- What the check of LAB_5.1/src/message.c says of a message in which a byte has changed.
use os_sp.Prelude.{
  ℕ, zero, suc, ◌+◌, ◌*◌, ◌%◌, ◌^◌, ◌<◌, ◌≤◌, ◌≡◌, ◌≢◌, refl, ◌∙◌, sym, ap, List, [], ◌∷◌, arith,
  length, get_or, set, take, All, length-set, length-take,
}
use os_sp.Message.{Message, IsValid, success, failure, message_calc_hash, message_check_hash}
use os_sp.Message.Hash.{djb2, message_calc_hash-djb2}

djb2-injective :
    (bs : List ℕ) (h k : ℕ) → djb2 h bs % 2 ^ 16 ≡ djb2 k bs % 2 ^ 16 → h % 2 ^ 16 ≡ k % 2 ^ 16
unfolding djb2
djb2-injective [] h k e = e
djb2-injective (b ∷ bs) h k e = let p = djb2-injective bs (h * 33 + b) (k * 33 + b) e in omega arith

djb2-set_ne :
    (bs : List ℕ) (j b h : ℕ)
    → j < length bs
    → All (λ x. x < 256) bs
    → b < 256
    → b ≢ get_or bs j 0
    → djb2 h (set bs j b) % 2 ^ 16 ≢ djb2 h bs % 2 ^ 16
unfolding djb2
djb2-set_ne [] j b h p v small ne e = elim p [ ]
djb2-set_ne (x ∷ bs) zero b h p v small ne e =
    let q = djb2-injective bs (h * 33 + b) (h * 33 + x) e in ne (omega (arith, v.0))
djb2-set_ne (x ∷ bs) (suc j) b h p v small ne e =
    djb2-set_ne bs j b (h * 33 + x) (omega arith) v.1 small ne e

take-set : (n j b : ℕ) (bs : List ℕ) → j < n → take n (set bs j b) ≡ set (take n bs) j b
take-set zero j b bs p = elim p [ ]
take-set (suc n) j b [] p = refl
take-set (suc n) zero b (x ∷ bs) p = refl
take-set (suc n) (suc j) b (x ∷ bs) p = ap (◌∷◌ x) (take-set n j b bs (omega arith))

get_or-take : (n j : ℕ) (bs : List ℕ) → j < n → get_or (take n bs) j 0 ≡ get_or bs j 0
get_or-take zero j bs p = elim p [ ]
get_or-take (suc n) j [] p = refl
get_or-take (suc n) zero (x ∷ bs) p = refl
get_or-take (suc n) (suc j) (x ∷ bs) p = get_or-take n j bs (omega arith)

All-take : (n : ℕ) (bs : List ℕ) → All (λ x. x < 256) bs → All (λ x. x < 256) (take n bs)
All-take zero bs v = tt
All-take (suc n) [] v = tt
All-take (suc n) (x ∷ bs) v = (v.0, All-take n bs v.1)

pub All-set :
    (bs : List ℕ) (j b : ℕ) → b < 256 → All (λ x. x < 256) bs → All (λ x. x < 256) (set bs j b)
All-set [] j b p v = tt
All-set (x ∷ bs) zero b p v = (p, v.1)
All-set (x ∷ bs) (suc j) b p v = (v.0, All-set bs j b p v.1)

-- The message with byte `j` of its data replaced by `b`.
abbrev pub corrupt : Message → ℕ → ℕ → Message
corrupt m j b = record m { payload = set m.payload j b }

pub corrupt-IsValid : (m : Message) (j b : ℕ) → b < 256 → IsValid m → IsValid (corrupt m j b)
corrupt-IsValid m j b p v = record {
  type_byte = v.type_byte;
  size_byte = v.size_byte;
  full_array = length-set m.payload j b ∙ v.full_array;
  bytes = All-set m.payload j b p v.bytes;
}

corrupt-hash_ne :
    (m : Message) (j b : ℕ)
    → IsValid m
    → j ≤ m.size
    → b < 256
    → b ≢ get_or m.payload j 0
    → message_calc_hash (corrupt m j b) ≢ message_calc_hash m
unfolding djb2
corrupt-hash_ne m j b v inside small ne e =
    djb2-set_ne (take (m.size + 1) m.payload) j b
      ((((5381 * 33 + m.type) * 33 + 0) * 33 + 0) * 33 + m.size)
      (omega (arith, length-take (m.size + 1) m.payload, v.full_array, v.size_byte))
      (All-take (m.size + 1) m.payload v.bytes) small
      (λ q. ne (q ∙ get_or-take (m.size + 1) j m.payload (omega arith)))
      (rw (← take-set (m.size + 1) j b m.payload (omega arith)) (
        sym (message_calc_hash-djb2 (corrupt m j b) (corrupt-IsValid m j b small v))
        ∙ e
        ∙ message_calc_hash-djb2 m v))

message_check_hash-success :
    (m : Message) → message_check_hash m ≡ success → m.hash ≡ message_calc_hash m
unfolding message_check_hash message_calc_hash
message_check_hash-success m h = ground arith

message_check_hash-failure :
    (m : Message) → m.hash ≢ message_calc_hash m → message_check_hash m ≡ failure
unfolding message_check_hash message_calc_hash
message_check_hash-failure m h = ground arith

-- If a valid message passes the check, then after a change of any one byte of its data that the
-- size covers the check fails.
pub message_check_hash-corrupt :
    (m : Message) (j b : ℕ)
    → IsValid m
    → message_check_hash m ≡ success
    → j ≤ m.size
    → b < 256
    → b ≢ get_or m.payload j 0
    → message_check_hash (corrupt m j b) ≡ failure
message_check_hash-corrupt m j b v passed inside small ne =
    message_check_hash-failure (corrupt m j b)
      (λ e. corrupt-hash_ne m j b v inside small ne (sym e ∙ message_check_hash-success m passed))
