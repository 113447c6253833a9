-- ===== src/Records/Put.antt =====
-- `cmd_put` of LAB_7/src/commands.c: which record a save replaces, and what the user has seen.
use os_sp.Prelude.{
  ℕ, zero, suc, ◌<◌, ◌≡◌, ◌⊎◌, inl, inr, refl, ◌∙◌, sym, subst, ap, true, false, Bool, Option-cases,
  some, List, [], ◌∷◌, arith, length, get_elem?, set, Bool-cases, if◌then◌else◌,
}
use os_sp.Prelude.Int.{ℤ, pos, negsuc}
use os_sp.Prelude.Text.{str_eq→eq, str_eq_refl}
use os_sp.Records.{
  Record, File, same_record, read_record, write_record, record_count, Edits, modify, Turn, saved,
  unchanged, put_again, cmd_put,
}

same_record→eq : (a b : Record) → same_record a b ≡ true → a ≡ b
unfolding same_record
same_record→eq a b h =
    let name = str_eq→eq a.name b.name (ground arith) in
    let address = str_eq→eq a.address b.address (ground arith) in
    let semester : a.semester ≡ b.semester = ground arith in
    λ i. record { name = name i; address = address i; semester = semester i }

same_record_refl : (a : Record) → same_record a a ≡ true
unfolding same_record
same_record_refl a = ground (arith, str_eq_refl a.name, str_eq_refl a.address)

pub write_record-set :
    (f : File) (n : ℕ) (r : Record) → n < length f → write_record f n r ≡ set f n r
unfolding write_record
write_record-set [] n r p = elim p [ ]
write_record-set (x ∷ f) zero r p = refl
write_record-set (x ∷ f) (suc n) r p = ap (◌∷◌ x) (write_record-set f n r (omega arith))

pub get_elem?-lt : (f : File) (n : ℕ) (r : Record) → get_elem? f n ≡ some r → n < length f
get_elem?-lt [] n r e = cc
get_elem?-lt (x ∷ f) zero r e = omega arith
get_elem?-lt (x ∷ f) (suc n) r e = omega (arith, get_elem?-lt f n r e)

read_back : (f : File) (n : ℕ) (r : Record) → n < length f → get_elem? (set f n r) n ≡ some r
read_back [] n r p = elim p [ ]
read_back (x ∷ f) zero r p = refl
read_back (x ∷ f) (suc n) r p = read_back f n r (omega arith)

-- The save happens in the round `u` of the dialogue, in which the user has last seen the record `r`:
-- at the start, or as one that the round before showed as changed and the user confirmed.
abbrev pub SavesIn : ℕ → Record → List Turn → Turn → Record → Type 0
SavesIn n seen [] u r = ⊥
SavesIn n seen (t ∷ ts) u r =
    ((u ≡ t) × (r ≡ seen))
    ⊎ ((found : Record) × (get_elem? t.file n ≡ some found)
        × (same_record found seen ≡ false)
        × (t.confirmed ≡ true)
        × SavesIn n found ts u r)

-- How a save comes about: in a round whose lock was given the record in the file is the one that the
-- user has last seen, and the new file is the file of that round but for that record.
pub record Replaces (n : ℕ) (work seen : Record) (ts : List Turn) (after : File) : Type 0 where
  pub round : Turn
  pub replaced : Record
  pub in_round : SavesIn n seen ts round replaced
  pub locked : round.locked ≡ true
  pub held : get_elem? round.file n ≡ some replaced
  pub only : after ≡ set round.file n work
  pub differs : same_record work replaced ≡ false

put_again-Replaces :
    (n : ℕ) (work seen : Record) (ts : List Turn) (after : File)
    → put_again n work seen ts ≡ saved after
    → Replaces n work seen ts after
unfolding put_again read_record
put_again-Replaces n work seen [] after e = absurd (ground arith)
put_again-Replaces n work seen (t ∷ ts) after e = elim (Option-cases (get_elem? t.file n)) [
  | inl gone ↦ absurd (ground arith)
  | inr (found, g) ↦ elim (Bool-cases (same_record found seen)) [
    | inl same ↦
        let written : after ≡ write_record t.file n work = ground arith in
        let as_seen = same_record→eq found seen same in
        record {
          round = t;
          replaced = found;
          in_round = inl (refl, as_seen);
          locked = ground arith;
          held = g;
          only = written ∙ write_record-set t.file n work (get_elem?-lt t.file n found g);
          differs = subst (λ r. same_record work r ≡ false) (sym as_seen) (ground arith);
        }
    | inr changed ↦
        let again : put_again n work found ts ≡ saved after = ground arith in
        let yes_answer : t.confirmed ≡ true = ground arith in
        let r = put_again-Replaces n work found ts after again in
        record {
          round = r.round;
          replaced = r.replaced;
          in_round = inr (found, g, changed, yes_answer, r.in_round);
          locked = r.locked;
          held = r.held;
          only = r.only;
          differs = r.differs;
        }
  ]
]

-- If `cmd_put` saves, then the number is in range, and it saves in a round in which the lock is given
-- and the file has the record that the user has last seen: the one from the start of the dialogue,
-- or the one that the round before showed as changed by another process and the user confirmed. The
-- new file is the file of that round with that record, and no other, replaced.
pub cmd_put-Replaces :
    (counted first after : File) (shared_lock : Bool) (rec_no : ℤ) (edits : Edits)
    (turns : List Turn)
    → cmd_put counted first shared_lock rec_no edits turns ≡ saved after
    → (n : ℕ) × (seen : Record) × (rec_no ≡ pos n)
      × (n < length counted)
      × (get_elem? first n ≡ some seen)
      × Replaces n (modify edits seen) seen turns after
unfolding cmd_put record_count read_record
cmd_put-Replaces counted first after shared_lock (negsuc n) edits turns e = absurd (ground arith)
cmd_put-Replaces counted first after shared_lock (pos n) edits turns e =
    elim (Option-cases (get_elem? first n)) [
      | inl gone ↦ absurd (ground arith)
      | inr (seen, g) ↦
          let saves : put_again n (modify edits seen) seen turns ≡ saved after = ground arith in
          (
            n,
            seen,
            refl,
            ground arith,
            g,
            put_again-Replaces n (modify edits seen) seen turns after saves,
          )
    ]

-- If no other process touches the file and the locks and the write succeed, then `cmd_put` saves the
-- changed record in the first round, or writes nothing when there is no change; in both cases
-- reading that number back from the file gives the record that the user left.
pub cmd_put-alone :
    (f : File) (n : ℕ) (r : Record) (edits : Edits) (t : Turn) (ts : List Turn)
    → get_elem? f n ≡ some r
    → t.file ≡ f
    → t.locked ≡ true
    → t.writes ≡ true
    → let work = modify edits r in
      (cmd_put f f true (pos n) edits (t ∷ ts)
        ≡ (if same_record work r then unchanged else saved (set f n work)))
      × (read_record (set f n work) n ≡ some work)
unfolding cmd_put record_count read_record put_again
cmd_put-alone f n r edits t ts g ef el ew =
    let lt = get_elem?-lt f n r g in
    let work = modify edits r in
    (ground (arith, lt, same_record_refl r, write_record-set f n work lt), read_back f n work lt)
