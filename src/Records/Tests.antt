-- ===== src/Records/Tests.antt =====
-- The record commands of LAB_7/src/commands.c on concrete inputs.
use os_sp.Prelude.{ℕ, ◌<◌, ◌≡◌, refl, true, false, some, [], ◌∷◌, ◌++◌, length, get_elem?}
use os_sp.Prelude.Int.{pos}
use os_sp.Prelude.Text.{codes}
use os_sp.Records.{
  Record, File, Edits, Turn, modify, same_record, read_record, write_record, record_count,
  put_again, saved, cmd_put, new_record, cmd_add,
}
use os_sp.Records.Put.{Replaces, cmd_put-Replaces}
use os_sp.Records.Add.{cmd_add-lost}

-- Short fields stand for the arrays.
abbrev student : ℕ → Record
student n = record { name = n ∷ []; address = []; semester = n }

abbrev two_records : File
two_records = student 1 ∷ student 2 ∷ []

-- The semester becomes 3, the rest stays.
abbrev third : Edits
third = record { name_line = []; address_line = []; semester_line = codes "3" }

abbrev quiet : Turn
quiet = record { locked = true; file = two_records; writes = true; confirmed = false }

-- Another process has changed record 1, and the user goes on.
abbrev changed : Turn
changed = record {
  locked = true;
  file = student 1 ∷ student 7 ∷ [];
  writes = true;
  confirmed = true;
}

abbrev edited : Record
edited = record { name = 2 ∷ []; address = []; semester = 3 }

edited-saved :
    cmd_put two_records two_records true (pos 1) third (changed ∷ changed ∷ [])
    ≡ saved (student 1 ∷ edited ∷ [])
unfolding cmd_put put_again modify same_record read_record write_record record_count
edited-saved = refl

cmd_put-Replaces_example :
    (n : ℕ) × (seen : Record) × (pos 1 ≡ pos n)
    × (n < length two_records)
    × (get_elem? two_records n ≡ some seen)
    × Replaces n (modify third seen) seen (changed ∷ changed ∷ []) (student 1 ∷ edited ∷ [])
cmd_put-Replaces_example =
    cmd_put-Replaces two_records two_records (student 1 ∷ edited ∷ []) true (pos 1) third
      (changed ∷ changed ∷ []) edited-saved

cmd_add-lost_example :
    cmd_add two_records (two_records ++ student 9 ∷ []) true true third
    ≡ saved (two_records ++ new_record third ∷ [])
cmd_add-lost_example = cmd_add-lost two_records [] (student 9) third
