-- ===== src/Message.antt =====
-- The messages of the producer/consumer programs: LAB_5.1/src/message.c (the same text as
-- LAB_5.2/src/message.c) and the DJB2 functions of LAB_4/src/ipc_utils.c.
pub mod Hash
pub mod Corruption
pub mod Generate
mod Tests
use os_sp.Prelude.{
  ℕ, zero, suc, ◌+◌, ◌*◌, ◌%◌, ◌/◌, ◌^◌, ◌<◌, ◌≡◌, List, Bool, true, false, ==_refl, ltb, ◌==◌,
  if◌then◌else◌, length, get_or, set, All,
}

-- A C function's `int` result: `0` or `-1`.
pub data Status : Type 0 where
  success failure : Status

-- `Message`; the array `data[260]` is `payload`.
pub record Message : Type 0 where
  pub type : ℕ
  pub hash : ℕ
  pub size : ℕ
  pub payload : List ℕ

abbrev pub payload_size : ℕ
payload_size = 260

-- The fields hold bytes, and the array has its declared length.
pub record IsValid (m : Message) : Type 0 where
  pub type_byte : m.type < 256
  pub size_byte : m.size < 256
  pub full_array : length m.payload ≡ payload_size
  pub bytes : All (λ b. b < 256) m.payload

-- `hash = ((hash << 5) + hash) + b` on a 64-bit `unsigned long`
abbrev pub hash_step : ℕ → ℕ → ℕ
hash_step h b = ((h * 2 ^ 5 % 2 ^ 64 + h) % 2 ^ 64 + b) % 2 ^ 64

-- The four header steps, with zeros in place of the two bytes of the hash field.
abbrev pub hash_header : Message → ℕ
hash_header m = hash_step (hash_step (hash_step (hash_step 5381 m.type) 0) 0) m.size

-- `for (i = i; i < i + n; i++) hash = step hash data[i]`
pub hash_loop : (n i : ℕ) → List ℕ → ℕ → ℕ
hash_loop zero i bytes h = h
hash_loop (suc n) i bytes h = hash_loop n (i + 1) bytes (hash_step h (get_or bytes i 0))

pub message_calc_hash : Message → ℕ
unfolding hash_loop
message_calc_hash m = hash_loop (m.size + 1) 0 m.payload (hash_header m) % 2 ^ 16

-- LAB_4's function, which the queue files of LAB_5.1 and LAB_5.2 repeat.
pub calculate_djb2 : Message → ℕ
unfolding hash_loop
calculate_djb2 m =
    let start = hash_step (hash_step (hash_step (hash_step 5381 m.type) 0) 0) m.size in
    hash_loop (m.size + 1) 0 m.payload start % 2 ^ 16

-- The hash is computed on a copy whose hash field is cleared.
pub message_check_hash : Message → Status
unfolding message_calc_hash
message_check_hash m =
    let tmp = record m { hash = 0 } in if message_calc_hash tmp == m.hash then success else failure

-- `rand()` is the sequence of its results; `k` calls were made before.
module _ (rand : ℕ → ℕ) where
  -- `for (i = i; i < i + n; i++) data[i] = i < real_len ? rand() % 256 : 0`
  pub fill : (n i k real_len : ℕ) → List ℕ → List ℕ
  fill zero i k real_len bytes = bytes
  fill (suc n) i k real_len bytes =
      let drawn = fill n (i + 1) (k + 1) real_len (set bytes i (rand k % 256)) in
      let padded = fill n (i + 1) k real_len (set bytes i 0) in
      if ltb i real_len then drawn else padded

  pub message_generate : Message → Message
  unfolding fill message_calc_hash
  message_generate m =
      let size = rand 1 % 256 in
      let real_len = size + 1 in
      let aligned_len = (size + 4) / 4 * 4 in
      let filled = record m {
        type = rand 0 % 256;
        size = size;
        hash = 0;
        payload = fill aligned_len 0 2 real_len m.payload;
      } in
      record filled { hash = message_calc_hash filled }

  -- LAB_4's generator leaves the old hash in place until the new one is known.
  pub create_random_message : Message → Message
  unfolding fill calculate_djb2
  create_random_message m =
      let size = rand 1 % 256 in
      let real_len = size + 1 in
      let aligned_len = (size + 4) / 4 * 4 in
      let filled = record m {
        type = rand 0 % 256;
        size = size;
        payload = fill aligned_len 0 2 real_len m.payload;
      } in
      record filled { hash = calculate_djb2 filled }
