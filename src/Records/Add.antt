-- ===== src/Records/Add.antt =====
-- `cmd_add` of LAB_7/src/commands.c, alone and beside other processes.
use os_sp.Prelude.{◌≡◌, refl, ap, true, [], ◌∷◌, ◌++◌, length}
use os_sp.Records.{Record, File, write_record, record_count, Edits, new_record, saved, cmd_add}

write_record-append : (f : File) (r : Record) → write_record f (length f) r ≡ f ++ r ∷ []
unfolding write_record
write_record-append [] r = refl
write_record-append (x ∷ f) r = ap (◌∷◌ x) (write_record-append f r)

write_record-over :
    (f g : File) (other r : Record) → write_record (f ++ other ∷ g) (length f) r ≡ f ++ r ∷ g
unfolding write_record
write_record-over [] g other r = refl
write_record-over (x ∷ f) g other r = ap (◌∷◌ x) (write_record-over f g other r)

-- If the file does not grow between the count and the lock, and lock and write succeed, the new
-- record is appended.
pub cmd_add-append :
    (f : File) (edits : Edits) → cmd_add f f true true edits ≡ saved (f ++ new_record edits ∷ [])
unfolding cmd_add record_count
cmd_add-append f edits = ap saved (write_record-append f (new_record edits))

-- If other processes append records between the count and the lock, and the lock and the write
-- succeed, then the first of those records is overwritten: the file holds the new record in its
-- place, and is no longer than before.
pub cmd_add-lost :
    (f g : File) (other : Record) (edits : Edits)
    → cmd_add f (f ++ other ∷ g) true true edits ≡ saved (f ++ new_record edits ∷ g)
unfolding cmd_add record_count
cmd_add-lost f g other edits = ap saved (write_record-over f g other (new_record edits))
