-- ===== src/Children/Hung.antt =====
-- LAB_3/src/child.c: a signal that is handled between the test of the flags and `pause`.
use os_sp.Prelude.{
  ℕ, ◌<◌, ◌≡◌, ◌≢◌, ◌==◌, refl, sym, ◌∙◌, subst, true, false, some, List, ◌∷◌, ◌++◌, inl, inr,
  if-holds, arith, All, All-middle, All-weaken, ==_iff,
}
use os_sp.Children.{
  ChildPlace, testing, collected, asking, clearing, waiting, before_pause, pausing, reporting,
  finished, wake, Child, begins_cycle, leaves_loop, completes, breaks_off, asks, ask_fails, clears,
  must_wait, pauses, goes_on, reports, handles_usr2, handles_term, get_term, Parent, Family, Runs,
}
use os_sp.Children.Apart.{only, OwnSteps, Runs-Apart}

abbrev IsPausing : ChildPlace → Type 0
IsPausing testing = ⊥
IsPausing collected = ⊥
IsPausing asking = ⊥
IsPausing clearing = ⊥
IsPausing waiting = ⊥
IsPausing before_pause = Unit
IsPausing pausing = Unit
IsPausing reporting = ⊥
IsPausing finished = ⊥

-- The child has been told to end, and pauses or is about to, with no signal pending for it.
record Hung (c : Child) : Type 0 where
  told : c.terminate_child ≡ true
  no_leave : c.usr2 ≡ false
  no_end : c.term ≡ false
  at : IsPausing c.place

abbrev Unlisted : ℕ → List ℕ → Type 0
Unlisted b pids = All (λ pid. pid ≢ b) pids

elsewhere : (c : Child) (at : ChildPlace) → c.place ≡ at → Hung c → IsPausing at
elsewhere c at e h = subst IsPausing e h.at

Hung-OwnSteps : (b : ℕ) → OwnSteps b Hung (Unlisted b)
Hung-OwnSteps b q _ c _ (begins_cycle _ _ at go more) h = absurd (elsewhere c testing at h)
Hung-OwnSteps b q _ c _ (leaves_loop _ _ at e) h = absurd (elsewhere c testing at h)
Hung-OwnSteps b q _ c _ (completes _ _ at go) h = absurd (elsewhere c collected at h)
Hung-OwnSteps b q _ c _ (breaks_off _ _ (inl at) e) h = absurd (elsewhere c collected at h)
Hung-OwnSteps b q _ c _ (breaks_off _ _ (inr at) e) h = absurd (elsewhere c reporting at h)
Hung-OwnSteps b q _ c _ (asks _ _ at) h = absurd (elsewhere c asking at h)
Hung-OwnSteps b q _ c _ (ask_fails _ _ at) h = absurd (elsewhere c asking at h)
Hung-OwnSteps b q _ c _ (clears _ _ at) h = absurd (elsewhere c clearing at h)
Hung-OwnSteps b q _ c _ (must_wait _ _ at none_given go) h = absurd (elsewhere c waiting at h)
Hung-OwnSteps b q _ c _ (pauses _ _ at) h =
    (record { told = h.told; no_leave = h.no_leave; no_end = h.no_end; at = tt }, refl)
Hung-OwnSteps b q _ c _ (goes_on _ _ at why) h = absurd (elsewhere c waiting at h)
Hung-OwnSteps b q _ c _ (reports _ _ at go) h = absurd (elsewhere c reporting at h)
Hung-OwnSteps b q _ c _ (handles_usr2 _ _ at e) h = absurd (ground (arith, e, h.no_leave))
Hung-OwnSteps b q _ c _ (handles_term _ _ at e) h = absurd (ground (arith, e, h.no_end))

told_another : (b pid : ℕ) (c : Child) → pid ≢ b → c.pid ≡ b → Hung c → Hung (get_term pid c)
told_another b pid c n e h =
    if-holds Hung (c.pid == pid) (record c { term = true }) c
      (λ same. absurd (n (sym ((==_iff c.pid pid).0 same) ∙ e))) (λ _. h)

-- If a child handles its `SIGTERM` between the test of its flags and `pause`, when the parent has
-- taken it off the list and no request of it and no `SIGUSR2` for it is on its way, then in every
-- later state it is there, told to end, and has not ended. It is the only child with its number,
-- which is not 0.
pub handles_term-hung :
    (p : Parent) (before after : List Child) (c : Child) (s : Family)
    → c.place ≡ before_pause
    → c.term ≡ true
    → c.usr2 ≡ false
    → 0 < c.pid
    → All (λ d. d.pid ≢ c.pid) before
    → All (λ d. d.pid ≢ c.pid) after
    → All (λ pid. pid ≢ c.pid) p.child_pids
    → p.usr1 ≢ some c.pid
    → p.ready_to_print_pid ≢ c.pid
    → Runs
        (record {
          parent = p;
          children =
              before
              ++ record c { place = wake c.place; term = false; terminate_child = true } ∷ after;
        })
        s
    → (¬ All (λ d. d.pid ≢ c.pid) s.children)
      × All (λ d. (d.pid ≡ c.pid) → (d.terminate_child ≡ true) × (d.place ≢ finished)) s.children
handles_term-hung p before after c s at pending quiet pos left right gone asked ready run =
    let c' = record c { place = wake c.place; term = false; terminate_child = true } in
    let later =
      Runs-Apart c.pid Hung (Unlisted c.pid)
        (record { parent = p; children = before ++ c' ∷ after }) s pos (Hung-OwnSteps c.pid)
        (λ pid rest listed. (listed.1, λ d e h. told_another c.pid pid d listed.0 e h))
        (λ pid pids n listed. (n, listed)) run
        record {
          is_child = λ h. All-middle (λ d. d.pid ≢ c.pid) before after c' h refl;
          holds = only Hung before after c' left right (record {
            told = refl;
            no_leave = quiet;
            no_end = refl;
            at = subst (λ at. IsPausing (wake at)) (sym at) tt;
          });
          not_asking = asked;
          not_ready = ready;
          listed = gone;
        } in
    (
      later.is_child,
      All-weaken (λ d. (d.pid ≡ c.pid) → Hung d)
          (λ d. (d.pid ≡ c.pid) → (d.terminate_child ≡ true) × (d.place ≢ finished)) s.children
          (λ d l e. ((l e).told, λ end. elsewhere d finished end (l e))) later.holds,
    )
