-- ===== src/Records/Show.antt =====
-- `cmd_list` and `cmd_get` of LAB_7/src/commands.c.
use os_sp.Prelude.{
  size_laws, ℕ, zero, suc, ◌+◌, ◌≡◌, refl, ◌∙◌, sym, ap, true, some, List, [], ◌∷◌, ◌++◌, arith,
  length, get_elem?, append_assoc,
}
use os_sp.Prelude.Int.{ℤ, pos, negsuc}
use os_sp.Records.{
  Record, File, read_record, record_count, Shown, out_of_range, shown, cmd_get, list_from, cmd_list,
}

-- The records with their numbers, from `i` on.
abbrev pub numbered : ℕ → File → List (ℕ × Record)
numbered i [] = []
numbered i (r ∷ f) = (i, r) ∷ numbered (i + 1) f

get_elem?-append : (f g : File) (r : Record) → get_elem? (f ++ r ∷ g) (length f) ≡ some r
get_elem?-append [] g r = refl
get_elem?-append (x ∷ f) g r = get_elem?-append f g r

list_from-numbered :
    (before f : File) (i : ℕ)
    → i ≡ length before
    → list_from (length f) i (λ _. (true, before ++ f)) ≡ numbered i f
unfolding list_from
list_from-numbered before [] i e = refl
list_from-numbered before (r ∷ f) i e =
    let here : get_elem? (before ++ r ∷ f) i ≡ some r =
      ap (get_elem? (before ++ r ∷ f)) e ∙ get_elem?-append before f r in
    let rest : list_from (length f) (i + 1) (λ _. (true, before ++ r ∷ f)) ≡ numbered (i + 1) f =
      ap (λ g. list_from (length f) (i + 1) (λ _. (true, g))) (sym (append_assoc before (r ∷ []) f))
      ∙ list_from-numbered (before ++ r ∷ []) f (i + 1) (grind size_laws) in
    rw (here, read_record) (ap (◌∷◌ (i, r)) rest)

-- While no other process touches the file and every lock is given, `cmd_list` shows every record
-- once, in order, with its number.
pub cmd_list-numbered : (f : File) → cmd_list f (λ _. (true, f)) ≡ numbered 0 f
unfolding cmd_list record_count
cmd_list-numbered f = list_from-numbered [] f 0 refl

-- The record of a number, if there is one.
abbrev pub numbered_record : File → ℤ → Shown
numbered_record f (negsuc n) = out_of_range
numbered_record [] (pos n) = out_of_range
numbered_record (r ∷ f) (pos zero) = shown r
numbered_record (r ∷ f) (pos (suc n)) = numbered_record f (pos n)

cmd_get-skip :
    (r : Record) (f : File) (n : ℕ)
    → cmd_get f f true (pos n) ≡ cmd_get (r ∷ f) (r ∷ f) true (pos (suc n))
unfolding cmd_get record_count read_record
cmd_get-skip r f n = ground arith

-- While no other process touches the file and the lock is given, `cmd_get` shows exactly the record
-- of that number, and an error for every number out of range, negative ones included.
pub cmd_get_lem : (f : File) (rec_no : ℤ) → cmd_get f f true rec_no ≡ numbered_record f rec_no
unfolding cmd_get record_count read_record
cmd_get_lem f (negsuc n) = refl
cmd_get_lem [] (pos n) = ground arith
cmd_get_lem (r ∷ f) (pos zero) = ground arith
cmd_get_lem (r ∷ f) (pos (suc n)) = sym (cmd_get-skip r f n) ∙ cmd_get_lem f (pos n)
