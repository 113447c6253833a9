-- ===== src/Children/Lost.antt =====
-- LAB_3: requests that are lost, since a `SIGUSR1` that is pending at the parent is not queued again.
use os_sp.Prelude.{
  ℕ, ◌<◌, ◌≡◌, ◌≢◌, ◌==◌, refl, sym, ◌∙◌, subst, Bool, true, false, Option, none, some, List, ◌∷◌,
  ◌++◌, inl, inr, if-holds, arith, All, All-middle, All-weaken,
}
use os_sp.Children.{
  ChildPlace, testing, collected, asking, clearing, waiting, before_pause, pausing, reporting,
  finished, Child, begins_cycle, leaves_loop, completes, breaks_off, asks, ask_fails, clears,
  must_wait, pauses, goes_on, reports, handles_usr2, handles_term, get_term, ask, Parent, Family,
  Runs, wake,
}
use os_sp.Children.Apart.{only, OwnSteps, Runs-Apart}

-- Where a child is that will not be given leave: it clears `can_print`, waits without leave, or
-- has been told to end.
abbrev LostAt : ChildPlace → Bool → Bool → Type 0
LostAt testing given ended = ⊥
LostAt collected given ended = ⊥
LostAt asking given ended = ⊥
LostAt clearing given ended = Unit
LostAt waiting given ended = given ≡ false
LostAt before_pause given ended = given ≡ false
LostAt pausing given ended = given ≡ false
LostAt reporting given ended = ended ≡ true
LostAt finished given ended = Unit

record Lost (n : ℕ) (c : Child) : Type 0 where
  printed : c.printed ≡ n
  no_leave : c.usr2 ≡ false
  at : LostAt c.place c.can_print c.terminate_child

LostAt-ended :
    (at : ChildPlace) (given ended : Bool) → LostAt at given ended → LostAt (wake at) given true
LostAt-ended testing given ended h = h
LostAt-ended collected given ended h = h
LostAt-ended asking given ended h = h
LostAt-ended clearing given ended h = tt
LostAt-ended waiting given ended h = h
LostAt-ended before_pause given ended h = h
LostAt-ended pausing given ended h = h
LostAt-ended reporting given ended h = refl
LostAt-ended finished given ended h = tt

here :
    (n : ℕ) (c : Child) (at : ChildPlace)
    → c.place ≡ at
    → Lost n c
    → LostAt at c.can_print c.terminate_child
here n c at e l = subst (λ at. LostAt at c.can_print c.terminate_child) e l.at

gone :
    (n : ℕ) (c : Child) (at : ChildPlace)
    → LostAt at c.can_print c.terminate_child
    → Lost n c
    → Lost n (record c { place = at })
gone n c at h l = record { printed = l.printed; no_leave = l.no_leave; at = h }

Lost-OwnSteps : (n b : ℕ) → OwnSteps b (Lost n) (λ pids. Unit)
Lost-OwnSteps n b q _ c _ (begins_cycle _ _ at go more) l = absurd (here n c testing at l)
Lost-OwnSteps n b q _ c _ (leaves_loop _ _ at e) l = (gone n c finished tt l, refl)
Lost-OwnSteps n b q _ c _ (completes _ _ at go) l = absurd (here n c collected at l)
Lost-OwnSteps n b q _ c _ (breaks_off _ _ at e) l = (gone n c finished tt l, refl)
Lost-OwnSteps n b q _ c _ (asks _ _ at) l = absurd (here n c asking at l)
Lost-OwnSteps n b q _ c _ (ask_fails _ _ at) l = (gone n c finished tt l, refl)
Lost-OwnSteps n b q _ c _ (clears _ _ at) l =
    (record { printed = l.printed; no_leave = l.no_leave; at = refl }, refl)
Lost-OwnSteps n b q _ c _ (must_wait _ _ at none_given go) l =
    (gone n c before_pause none_given l, refl)
Lost-OwnSteps n b q _ c _ (pauses _ _ at) l =
    (gone n c pausing (here n c before_pause at l) l, refl)
Lost-OwnSteps n b q _ c _ (goes_on _ _ at (inl given)) l =
    absurd (ground (arith, given, here n c waiting at l))
Lost-OwnSteps n b q _ c _ (goes_on _ _ at (inr ended)) l = (gone n c reporting ended l, refl)
Lost-OwnSteps n b q _ c _ (reports _ _ at go) l =
    absurd (ground (arith, go, here n c reporting at l))
Lost-OwnSteps n b q _ c _ (handles_usr2 _ _ at e) l = absurd (ground (arith, e, l.no_leave))
Lost-OwnSteps n b q _ c _ (handles_term _ _ at e) l = (
  record {
    printed = l.printed;
    no_leave = l.no_leave;
    at = LostAt-ended c.place c.can_print c.terminate_child l.at;
  },
  refl,
)

told_to_end : (n pid : ℕ) (c : Child) → Lost n c → Lost n (get_term pid c)
told_to_end n pid c l =
    if-holds (Lost n) (c.pid == pid) (record c { term = true }) c
      (λ _. record { printed = l.printed; no_leave = l.no_leave; at = l.at }) (λ _. l)

asked : (pid b : ℕ) (q : Option ℕ) → q ≡ some pid → ask q b ≡ some pid
asked pid b none e = absurd (ground (arith, e))
asked pid b (some q) e = e

-- If a child asks for leave while the request of another child is pending at the parent, and neither
-- an earlier request of it nor a `SIGUSR2` for it is on its way, then in no later state has it
-- printed another report. It is the only child with its number, which is not 0.
pub asks-lost :
    (p : Parent) (before after : List Child) (c : Child) (other : ℕ) (s : Family)
    → c.place ≡ asking
    → c.usr2 ≡ false
    → 0 < c.pid
    → All (λ d. d.pid ≢ c.pid) before
    → All (λ d. d.pid ≢ c.pid) after
    → p.usr1 ≡ some other
    → other ≢ c.pid
    → p.ready_to_print_pid ≢ c.pid
    → Runs
        (record {
          parent = record p { usr1 = ask p.usr1 c.pid };
          children = before ++ record c { place = clearing } ∷ after;
        })
        s
    → All (λ d. (d.pid ≡ c.pid) → d.printed ≡ c.printed) s.children
asks-lost p before after c other s at quiet pos left right pending n ready run =
    let c' = record c { place = clearing } in
    let later =
      Runs-Apart c.pid (Lost c.printed) (λ pids. Unit)
        (record { parent = record p { usr1 = ask p.usr1 c.pid }; children = before ++ c' ∷ after })
        s pos (Lost-OwnSteps c.printed c.pid)
        (λ pid rest _. (tt, λ d _ l. told_to_end c.printed pid d l)) (λ pid pids _ _. tt) run
        record {
          is_child = λ h. All-middle (λ d. d.pid ≢ c.pid) before after c' h refl;
          holds =
              only (Lost c.printed) before after c' left right
                (record { printed = refl; no_leave = quiet; at = tt });
          not_asking = λ e. n (ground (arith, sym (asked other c.pid p.usr1 pending) ∙ e));
          not_ready = ready;
          listed = tt;
        } in
    All-weaken (λ d. (d.pid ≡ c.pid) → Lost c.printed d)
      (λ d. (d.pid ≡ c.pid) → d.printed ≡ c.printed) s.children (λ d l e. (l e).printed) later.holds
