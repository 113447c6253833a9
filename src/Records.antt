-- ===== src/Records.antt =====
-- LAB_7: the file of student records (record.h, file_ops.c, commands.c, main.c), edited by several
-- processes under locks on single records. The file is the list of its records; what other
-- processes do to it between two steps is an input.
pub mod Put
pub mod Add
pub mod Show
mod Tests
use os_sp.Prelude.{
  ℕ, zero, suc, ◌+◌, ◌-◌, ◌*◌, ◌%◌, ◌≡◌, refl, Bool, true, false, ◌&&◌, ◌||◌, not, Option, some,
  none, List, [], ◌∷◌, ◌++◌, arith, ltb, leb, ◌==◌, if◌then◌else◌, length, get_elem?, set, take,
  replicate,
}
use os_sp.Prelude.Int.{ℤ, pos, negsuc}
use os_sp.Prelude.Text.{codes, str_eq, str_eq→eq, str_eq_refl}

-- `struct record_s`; the two arrays have 80 bytes.
pub record Record : Type 0 where
  pub name : List ℕ
  pub address : List ℕ
  pub semester : ℕ

abbrev pub File : Type 0
File = List Record

-- `memset (&rec, 0, sizeof (rec))`, and what a gap in the file reads as.
abbrev pub zero_record : Record
zero_record = record { name = replicate 80 0; address = replicate 80 0; semester = 0 }

-- `memcmp (a, b, sizeof (*a)) == 0`: the struct has no padding.
pub same_record : Record → Record → Bool
unfolding str_eq
same_record a b = str_eq a.name b.name && (str_eq a.address b.address && a.semester == b.semester)

-- `none` is -1, for a read past the end.
pub read_record : File → ℕ → Option Record
read_record f n = get_elem? f n

-- A write past the end leaves a gap of zeros.
pub write_record : File → ℕ → Record → File
write_record [] zero r = r ∷ []
write_record [] (suc n) r = zero_record ∷ write_record [] n r
write_record (x ∷ f) zero r = r ∷ f
write_record (x ∷ f) (suc n) r = x ∷ write_record f n r

pub record_count : File → ℕ
record_count f = length f

abbrev pub is_space : ℕ → Bool
is_space c = c == b' ' || (leb 9 c && leb c 13)

-- The digits at the start of a text, read on top of `n`.
pub digits : ℕ → List ℕ → ℕ
digits n [] = n
digits n (c ∷ s) =
    let more = digits (n * 10 + (c - b'0')) s in if leb b'0' c && leb c b'9' then more else n

-- `(uint8_t) atoi (s)`, for numbers that an `int` holds.
pub atoi_byte : List ℕ → ℕ
unfolding digits
atoi_byte [] = 0
atoi_byte (c ∷ s) =
    let after_space = atoi_byte s in
    if is_space c
    then after_space
    else if c == b'-'
    then (256 - digits 0 s % 256) % 256
    else if c == b'+'
    then digits 0 s % 256
    else digits 0 (c ∷ s) % 256

-- `strncpy (field, buf, 79); field[79] = 0`
pub copy_field : List ℕ → List ℕ
copy_field text = take 79 (text ++ replicate 79 0) ++ 0 ∷ []

-- The three lines that the user types.
pub record Edits : Type 0 where
  pub name_line : List ℕ
  pub address_line : List ℕ
  pub semester_line : List ℕ

abbrev pub edit_text : List ℕ → List ℕ → List ℕ
edit_text [] old = old
edit_text (c ∷ text) old = copy_field (c ∷ text)

abbrev pub edit_semester : List ℕ → ℕ → ℕ
edit_semester [] old = old
edit_semester (c ∷ text) old = atoi_byte (c ∷ text)

-- `REC_WRK` after the dialogue: an empty line leaves its field.
pub modify : Edits → Record → Record
unfolding copy_field atoi_byte
modify e r = record {
  name = edit_text e.name_line r.name;
  address = edit_text e.address_line r.address;
  semester = edit_semester e.semester_line r.semester;
}

-- What one round of `Again` meets: if the exclusive lock is given, the file as it then is, whether
-- the write succeeds, and the answer to the question.
pub record Turn : Type 0 where
  pub locked : Bool
  pub file : File
  pub writes : Bool
  pub confirmed : Bool

pub data Result : Type 0 where
  bad_number : Result
  lock_failed : Result
  read_failed : Result
  write_failed : Result
  unchanged : Result
  cancelled : Result
  saved : File → Result
  waiting : Result

-- The loop from `Again`; `seen` is `REC`, `work` is `REC_WRK`.
pub put_again : (rec_no : ℕ) (work seen : Record) → List Turn → Result
unfolding same_record read_record write_record
put_again rec_no work seen [] = if same_record work seen then unchanged else waiting
put_again rec_no work seen (t ∷ ts) = elim (read_record t.file rec_no) [
  | none ↦
      if same_record work seen then unchanged else if t.locked then read_failed else lock_failed
  | some found ↦
      let again = put_again rec_no work found ts in
      let conflict = if t.confirmed then again else cancelled in
      let write = if t.writes then saved (write_record t.file rec_no work) else write_failed in
      let held = if same_record found seen then write else conflict in
      if same_record work seen then unchanged else if t.locked then held else lock_failed
]

-- `counted` and `first` are the file at `record_count` and under the shared lock.
pub cmd_put : (counted first : File) (shared_lock : Bool) → ℤ → Edits → List Turn → Result
unfolding put_again modify record_count
cmd_put counted first shared_lock (negsuc n) edits turns = bad_number
cmd_put counted first shared_lock (pos rec_no) edits turns =
    let dialogue = elim (read_record first rec_no) as (λ _. Result) [
      | none ↦ read_failed
      | some r ↦ put_again rec_no (modify edits r) r turns
    ] in
    if leb (record_count counted) rec_no
    then bad_number
    else if shared_lock
    then dialogue
    else lock_failed

-- `cmd_get`: the record shown.
pub data Shown : Type 0 where
  out_of_range : Shown
  not_locked : Shown
  not_read : Shown
  shown : Record → Shown

pub cmd_get : (counted found : File) (locked : Bool) → ℤ → Shown
unfolding read_record record_count
cmd_get counted found locked (negsuc n) = out_of_range
cmd_get counted found locked (pos rec_no) =
    let got = elim (read_record found rec_no) as (λ _. Shown) [
      | none ↦ not_read
      | some r ↦ shown r
    ] in
    if leb (record_count counted) rec_no then out_of_range else if locked then got else not_locked

-- The loop of `cmd_list`: `at i` says if record `i` is locked, and the file under the lock.
pub list_from : (n i : ℕ) → (ℕ → Bool × File) → List (ℕ × Record)
unfolding read_record
list_from zero i at = []
list_from (suc n) i at =
    let rest = list_from n (i + 1) at in
    let with_record = elim (read_record (at i).1 i) as (λ _. List (ℕ × Record)) [
      | none ↦ rest
      | some r ↦ (i, r) ∷ rest
    ] in
    if (at i).0 then with_record else rest

pub cmd_list : (counted : File) → (ℕ → Bool × File) → List (ℕ × Record)
unfolding list_from record_count
cmd_list counted at = list_from (record_count counted) 0 at

-- The record that `cmd_add` reads from the user; `fgets` leaves at most 79 bytes of a line.
pub new_record : Edits → Record
unfolding copy_field atoi_byte
new_record e = record {
  name = copy_field e.name_line;
  address = copy_field e.address_line;
  semester = atoi_byte e.semester_line;
}

-- `found` is the file when the lock on the record after the last one is given.
pub cmd_add : (counted found : File) (locked writes : Bool) → Edits → Result
unfolding new_record record_count write_record
cmd_add counted found locked writes edits =
    let write =
      if writes
      then saved (write_record found (record_count counted) (new_record edits))
      else write_failed in
    if locked then write else lock_failed

pub data Command : Type 0 where
  list : Command
  get : ℤ → Command
  put : ℤ → Command
  add : Command
  quit : Command
  unknown : Command

abbrev lower : ℕ → ℕ
lower c = if leb b'A' c && leb c b'Z' then c + 32 else c

-- `!strcasecmp (a, b)`
pub same_word : List ℕ → List ℕ → Bool
same_word [] [] = true
same_word (a ∷ xs) (b ∷ ys) = lower a == lower b && same_word xs ys
same_word _ _ = false

-- The commands of `main`, for the word and the number that `sscanf` found.
pub select_command : List ℕ → Option ℤ → Command
unfolding same_word
select_command cmd none =
    if same_word cmd (codes "LST")
    then list
    else if same_word cmd (codes "ADD")
    then add
    else if same_word cmd (codes "QUIT")
    then quit
    else unknown
select_command cmd (some n) =
    if same_word cmd (codes "LST")
    then list
    else if same_word cmd (codes "GET")
    then get n
    else if same_word cmd (codes "PUT")
    then put n
    else if same_word cmd (codes "ADD")
    then add
    else if same_word cmd (codes "QUIT")
    then quit
    else unknown
