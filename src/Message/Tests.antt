-- ===== src/Message/Tests.antt =====
-- The messages of LAB_5.1/src/message.c on concrete inputs.
use os_sp.Prelude.{ℕ, zero, suc, ◌%◌, ◌^◌, ◌<◌, ◌≡◌, refl, arith, replicate, All}
use os_sp.Message.{Message, IsValid, success, failure, message_calc_hash, message_check_hash}
use os_sp.Message.Hash.{djb2, hashed_bytes, message_calc_hash-djb2}
use os_sp.Message.Corruption.{corrupt, message_check_hash-corrupt}

zeros-bytes : (n : ℕ) → All (λ b. b < 256) (replicate n 0)
zeros-bytes zero = tt
zeros-bytes (suc n) = (omega arith, zeros-bytes n)

abbrev blank : Message
blank = record { type = 0; hash = 0; size = 0; payload = replicate 260 0 }

-- A generator that gives 7 each time.
abbrev sevens : ℕ → ℕ
sevens k = 7

-- Five bytes, with the hash that belongs to them.
abbrev letter : Message
letter = record { type = 1; hash = 0; size = 4; payload = replicate 260 0 }

abbrev signed : Message
signed = record letter { hash = message_calc_hash letter }

letter-IsValid : IsValid letter
letter-IsValid = record {
  type_byte = omega arith;
  size_byte = omega arith;
  full_array = refl;
  bytes = zeros-bytes 260;
}

signed-IsValid : IsValid signed
signed-IsValid = record {
  type_byte = omega arith;
  size_byte = omega arith;
  full_array = refl;
  bytes = zeros-bytes 260;
}

signed-check : message_check_hash signed ≡ success
unfolding message_check_hash message_calc_hash
signed-check = refl

message_check_hash-corrupt_example : message_check_hash (corrupt signed 3 9) ≡ failure
message_check_hash-corrupt_example =
    message_check_hash-corrupt signed 3 9 signed-IsValid signed-check (omega arith) (omega arith)
      (λ e. omega arith)

message_calc_hash-djb2_example : message_calc_hash letter ≡ djb2 5381 (hashed_bytes letter) % 2 ^ 16
message_calc_hash-djb2_example = message_calc_hash-djb2 letter letter-IsValid
