-- ===== src/Children/Tests.antt =====
-- Runs of the processes of LAB_3, and the properties at them.
use os_sp.Prelude.{
  ℕ, ◌≡◌, ◌≢◌, ◌≤◌, ◌⊎◌, refl, true, false, Option, none, some, [], ◌∷◌, inl, inr, arith, All,
}
use os_sp.Children.{
  breaks_off, max_cycles, Child, new_child, testing, collected, asking, clearing, waiting,
  before_pause, reporting, finished, Parent, checking, selecting, resetting, reaping, Family, Runs,
  stays, goes, start, child_acts, parent_acts, ParentStep, grants_none, creates, handles_usr1,
  grants, ChildStep, begins_cycle, completes, asks, clears, handles_usr2, goes_on, reports, all,
}
use os_sp.Children.Permission.{Runs-permitted}
use os_sp.Children.Lost.{asks-lost}
use os_sp.Children.Hung.{handles_term-hung}
use os_sp.Children.Ending.{rests, steps, CanStep, Asleep, Own-ends}

abbrev one : Parent → Child → Family
one p c = record { parent = p; children = c ∷ [] }

parent_goes :
    (p p' : Parent) (c c' : Child)
    → Runs start (one p c)
    → ParentStep p (c ∷ []) p' (c' ∷ [])
    → Runs start (one p' c')
parent_goes p p' c c' run step =
    goes start (one p c) (one p' c') run (parent_acts p p' (c ∷ []) (c' ∷ []) step)

child_goes :
    (p : Parent) (c c' : Child) (q : Option ℕ)
    → Runs start (one p c)
    → ChildStep p.usr1 c q c'
    → Runs start (one (record p { usr1 = q }) c')
child_goes p c c' q run step =
    goes start (one p c) (one (record p { usr1 = q }) c') run (child_acts p [] [] c c' q step)

abbrev idle : Parent
idle = record {
  place = checking;
  child_pids = 7 ∷ [];
  ready_to_print_pid = 0;
  got_sigint = false;
  usr1 = none;
}

abbrev begun : Child
begun = record (new_child 7) { place = collected }

abbrev ready : Child
ready = record begun { place = asking; cycles_completed = 1 }

abbrev has_asked : Child
has_asked = record ready { place = clearing }

abbrev waits : Child
waits = record has_asked { place = waiting }

abbrev is_granted : Child
is_granted = record waits { usr2 = true; granted = 1 }

abbrev has_leave : Child
has_leave = record is_granted { usr2 = false; can_print = true }

abbrev has_printed : Child
has_printed = record has_leave { place = testing; printed = 1 }

created : Runs start (one idle (new_child 7))
created =
    let selects : Parent = record start.parent { place = selecting } in
    let alone : Family = record { parent = selects; children = [] } in
    goes start alone (one idle (new_child 7))
      (goes start start alone (stays start)
        (parent_acts start.parent selects [] [] (grants_none start.parent [] refl refl refl)))
      (parent_acts selects idle [] (new_child 7 ∷ [])
        (creates selects [] 7 refl (omega arith) (omega arith, tt)))

asked : Runs start (one (record idle { usr1 = some 7 }) waits)
asked =
    child_goes (record idle { usr1 = some 7 }) has_asked waits (some 7)
      (child_goes idle ready has_asked (some 7)
        (child_goes idle begun ready none
          (child_goes idle (new_child 7) begun none created
            (begins_cycle none (new_child 7) refl refl (omega arith)))
          (completes none begun refl refl))
        (asks none ready refl))
      (clears (some 7) has_asked refl)

granted : Runs start (one (record idle { ready_to_print_pid = 7; place = resetting }) is_granted)
granted =
    parent_goes (record idle { ready_to_print_pid = 7 })
      (record idle { ready_to_print_pid = 7; place = resetting }) waits is_granted
      (parent_goes (record idle { usr1 = some 7 }) (record idle { ready_to_print_pid = 7 }) waits
        waits asked
        (handles_usr1 (record idle { usr1 = some 7 }) (waits ∷ []) 7 checking refl (inl refl)))
      (grants (record idle { ready_to_print_pid = 7 }) (waits ∷ []) refl refl
        (λ e. omega (arith, e)))

printed : Runs start (one (record idle { ready_to_print_pid = 7; place = resetting }) has_printed)
printed =
    let p : Parent = record idle { ready_to_print_pid = 7; place = resetting } in
    child_goes p (record has_leave { place = reporting }) has_printed none
      (child_goes p has_leave (record has_leave { place = reporting }) none
        (child_goes p is_granted has_leave none granted
          (handles_usr2 none is_granted (λ e. ground (arith, e)) refl))
        (goes_on none has_leave refl (inl refl)))
      (reports none (record has_leave { place = reporting }) refl refl)

Runs-permitted_example :
    All
      (λ c.
        (c.printed ≤ c.granted)
        × (c.printed ≤ c.cycles_completed)
        × (c.cycles_completed ≤ max_cycles))
      (has_printed ∷ [])
Runs-permitted_example =
    Runs-permitted (one (record idle { ready_to_print_pid = 7; place = resetting }) has_printed)
      printed

-- Child 9 asks while the request of child 7 is pending.
abbrev second : Child
second = record ready { pid = 9 }

asks-lost_example :
    All (λ d. (d.pid ≡ 9) → d.printed ≡ 0) (record second { place = clearing } ∷ has_asked ∷ [])
asks-lost_example =
    asks-lost (record idle { child_pids = 9 ∷ 7 ∷ []; usr1 = some 7 }) [] (has_asked ∷ []) second 7
      (record {
        parent = record idle { child_pids = 9 ∷ 7 ∷ []; usr1 = some 7 };
        children = record second { place = clearing } ∷ has_asked ∷ [];
      })
      refl refl (omega arith) tt ((λ e. omega (arith, e)), tt) refl (λ e. omega (arith, e))
      (λ e. omega (arith, e))
      (stays (record {
        parent = record idle { child_pids = 9 ∷ 7 ∷ []; usr1 = some 7 };
        children = record second { place = clearing } ∷ has_asked ∷ [];
      }))

-- The parent has deleted child 7 and waits for it.
abbrev deletes_7 : Parent
deletes_7 = record idle { child_pids = []; place = reaping all 7 }

abbrev told : Child
told = record waits { place = before_pause; terminate_child = true }

handles_term-hung_example :
    (¬ All (λ d. d.pid ≢ 7) (told ∷ []))
    × All (λ d. (d.pid ≡ 7) → (d.terminate_child ≡ true) × (d.place ≢ finished)) (told ∷ [])
handles_term-hung_example =
    handles_term-hung deletes_7 [] [] (record waits { place = before_pause; term = true })
      (one deletes_7 told) refl refl refl (omega arith) tt tt tt (λ e. ground (arith, e))
      (λ e. omega (arith, e)) (stays (one deletes_7 told))

abbrev ending : Child
ending = record waits { terminate_child = true }

abbrev ended : Child
ended = record ending { place = finished }

Own-ends_example : (2 ≤ 6) × ((ended.place ≡ finished) ⊎ (CanStep ended ⊎ Asleep ended))
Own-ends_example = Own-ends 2 ending ended refl (
    steps 1 none none ending (record ending { place = reporting }) ended
      (steps 0 none none ending ending (record ending { place = reporting }) (rests ending)
        (goes_on none ending refl (inr refl)))
      (breaks_off none (record ending { place = reporting }) (inr refl) refl))
