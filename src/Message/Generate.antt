-- ===== src/Message/Generate.antt =====
-- The generators of LAB_5.1/src/message.c and LAB_4/src/ipc_utils.c: what they leave in the
-- message.
use os_sp.Prelude.{
  ℕ, zero, suc, ◌+◌, ◌*◌, ◌/◌, ◌%◌, ◌<◌, ◌≤◌, ◌≡◌, refl, ◌∙◌, List, arith, length, get_or, set, All,
  length-set, get_or-set_self, get_or-set_ne, Bool-cases, ltb, ==_refl, inl, inr,
}
use os_sp.Message.{
  Message, IsValid, payload_size, success, message_calc_hash, message_check_hash, calculate_djb2,
  fill, message_generate, create_random_message,
}
use os_sp.Message.Corruption.{All-set}

module _ (rand : ℕ → ℕ) where
  length-fill :
      (n i k real_len : ℕ) (bytes : List ℕ) → length (fill rand n i k real_len bytes) ≡ length bytes
  unfolding fill
  length-fill zero i k real_len bytes = refl
  length-fill (suc n) i k real_len bytes = ground (
    arith,
    length-fill n (i + 1) (k + 1) real_len (set bytes i (rand k % 256)),
    length-fill n (i + 1) k real_len (set bytes i 0),
    length-set bytes i (rand k % 256),
    length-set bytes i 0,
  )

  fill-bytes :
      (n i k real_len : ℕ) (bytes : List ℕ)
      → All (λ x. x < 256) bytes
      → All (λ x. x < 256) (fill rand n i k real_len bytes)
  unfolding fill
  fill-bytes zero i k real_len bytes v = v
  fill-bytes (suc n) i k real_len bytes v = elim (Bool-cases (ltb i real_len)) [
    | inl e ↦ rw e (
        fill-bytes n (i + 1) (k + 1) real_len (set bytes i (rand k % 256))
          (All-set bytes i (rand k % 256) (omega arith) v))
    | inr e ↦
        rw e (fill-bytes n (i + 1) k real_len (set bytes i 0) (All-set bytes i 0 (omega arith) v))
  ]

  fill-below :
      (n i k real_len j : ℕ) (bytes : List ℕ)
      → j < i
      → get_or (fill rand n i k real_len bytes) j 0 ≡ get_or bytes j 0
  unfolding fill
  fill-below zero i k real_len j bytes p = refl
  fill-below (suc n) i k real_len j bytes p = ground (
    arith,
    fill-below n (i + 1) (k + 1) real_len j (set bytes i (rand k % 256)) (omega arith),
    fill-below n (i + 1) k real_len j (set bytes i 0) (omega arith),
    get_or-set_ne bytes i j (rand k % 256) 0,
    get_or-set_ne bytes i j 0 0,
  )

  -- Past the real length the rounds write zeros.
  fill-padding :
      (n i k real_len j : ℕ) (bytes : List ℕ)
      → i ≤ j
      → j < i + n
      → real_len ≤ j
      → i + n ≤ length bytes
      → get_or (fill rand n i k real_len bytes) j 0 ≡ 0
  unfolding fill
  fill-padding zero i k real_len j bytes p q r s = absurd (omega arith)
  fill-padding (suc n) i k real_len j bytes p q r s = ground (
    arith,
    fill-padding n (i + 1) (k + 1) real_len j (set bytes i (rand k % 256)),
    fill-padding n (i + 1) k real_len j (set bytes i 0),
    length-set bytes i (rand k % 256),
    length-set bytes i 0,
    fill-below n (i + 1) k real_len j (set bytes i 0),
    get_or-set_self bytes i 0 0,
  )

  -- In an array of the declared length that holds bytes, `message_generate` leaves a valid message
  -- that the check accepts, and writes inside the array only.
  pub message_generate_lem :
      (m : Message)
      → length m.payload ≡ payload_size
      → All (λ b. b < 256) m.payload
      → let g = message_generate rand m in
        IsValid g × (message_check_hash g ≡ success) × ((g.size + 4) / 4 * 4 ≤ payload_size)
  unfolding message_generate message_check_hash message_calc_hash
  message_generate_lem m full small = (
    record {
      type_byte = omega arith;
      size_byte = omega arith;
      full_array = length-fill ((size + 4) / 4 * 4) 0 2 (size + 1) m.payload ∙ full;
      bytes = fill-bytes ((size + 4) / 4 * 4) 0 2 (size + 1) m.payload small;
    },
    rw ==_refl,
    omega arith,
  )
    where
      size : ℕ
      size = rand 1 % 256

  -- From the real length up to the next multiple of four the data is zeros.
  pub message_generate-padding :
      (m : Message) (j : ℕ)
      → length m.payload ≡ payload_size
      → (message_generate rand m).size < j
      → j < ((message_generate rand m).size + 4) / 4 * 4
      → get_or (message_generate rand m).payload j 0 ≡ 0
  unfolding message_generate
  message_generate-padding m j full p q =
      fill-padding ((size + 4) / 4 * 4) 0 2 (size + 1) j m.payload (omega arith) (omega arith)
        (omega arith) (omega arith)
    where
      size : ℕ
      size = rand 1 % 256

  -- LAB_4's generator and the generator of `message.c` make the same message.
  pub create_random_message-message_generate :
      (m : Message) → create_random_message rand m ≡ message_generate rand m
  unfolding create_random_message message_generate calculate_djb2 message_calc_hash
  create_random_message-message_generate m = refl

  -- The hash field is the hash of the rest.
  pub create_random_message-hashed :
      (m : Message)
      → calculate_djb2 (create_random_message rand m) ≡ (create_random_message rand m).hash
  unfolding create_random_message calculate_djb2
  create_random_message-hashed m = refl
