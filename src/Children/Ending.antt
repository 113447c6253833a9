-- ===== src/Children/Ending.antt =====
-- LAB_3/src/child.c: how a child that has been told to end comes to its end.
use os_sp.Prelude.{
  ℕ, ◌+◌, ◌<◌, ◌≤◌, ◌≡◌, ◌≢◌, ◌⊎◌, refl, ap, true, false, Option, inl, inr, arith, bit, bit_le,
  Bool-cases,
}
use os_sp.Children.{
  ChildPlace, testing, collected, asking, clearing, waiting, before_pause, pausing, reporting,
  finished, wake, ask, Child, ChildStep, begins_cycle, leaves_loop, completes, breaks_off, asks,
  ask_fails, clears, must_wait, pauses, goes_on, reports, handles_usr2, handles_term,
}
use os_sp.Children.Wake.{wake_keeps}

-- Steps of one child, with any requests pending at the parent in between.
pub data Own : ℕ → Child → Child → Type 0 where
  rests : (c : Child) → Own 0 c c
  steps :
      (n : ℕ) (q q' : Option ℕ) (c d e : Child) → Own n c d → ChildStep q d q' e → Own (n + 1) c e

-- The steps that are left, apart from those of the handlers.
abbrev place_rank : ChildPlace → ℕ
place_rank testing = 1
place_rank collected = 1
place_rank asking = 4
place_rank clearing = 3
place_rank waiting = 2
place_rank before_pause = 4
place_rank pausing = 3
place_rank reporting = 1
place_rank finished = 0

abbrev rank : Child → ℕ
rank c = place_rank c.place + (bit c.usr2 + bit c.term)

place_rank_le : (at : ChildPlace) → place_rank at ≤ 4
place_rank_le testing = omega arith
place_rank_le collected = omega arith
place_rank_le asking = omega arith
place_rank_le clearing = omega arith
place_rank_le waiting = omega arith
place_rank_le before_pause = omega arith
place_rank_le pausing = omega arith
place_rank_le reporting = omega arith
place_rank_le finished = omega arith

place_rank-wake : (at : ChildPlace) → place_rank (wake at) ≤ place_rank at
place_rank-wake at =
    wake_keeps (λ to. place_rank to ≤ place_rank at) at (omega arith) (λ h. omega (arith, h))

-- What one step of the child does.
ChildStep-rank :
    (q q' : Option ℕ) (c c' : Child)
    → ChildStep q c q' c'
    → c.terminate_child ≡ true
    → (c'.terminate_child ≡ true) × (rank c' < rank c)
ChildStep-rank q _ c _ (begins_cycle _ _ at go more) t = absurd (ground (arith, go, t))
ChildStep-rank q _ c _ (leaves_loop _ _ at e) t = (t, omega (arith, ap place_rank at))
ChildStep-rank q _ c _ (completes _ _ at go) t = absurd (ground (arith, go, t))
ChildStep-rank q _ c _ (breaks_off _ _ (inl at) e) t = (t, omega (arith, ap place_rank at))
ChildStep-rank q _ c _ (breaks_off _ _ (inr at) e) t = (t, omega (arith, ap place_rank at))
ChildStep-rank q _ c _ (asks _ _ at) t = (t, omega (arith, ap place_rank at))
ChildStep-rank q _ c _ (ask_fails _ _ at) t = (t, omega (arith, ap place_rank at))
ChildStep-rank q _ c _ (clears _ _ at) t = (t, omega (arith, ap place_rank at))
ChildStep-rank q _ c _ (must_wait _ _ at none_given go) t = absurd (ground (arith, go, t))
ChildStep-rank q _ c _ (pauses _ _ at) t = (t, omega (arith, ap place_rank at))
ChildStep-rank q _ c _ (goes_on _ _ at why) t = (t, omega (arith, ap place_rank at))
ChildStep-rank q _ c _ (reports _ _ at go) t = absurd (ground (arith, go, t))
ChildStep-rank q _ c _ (handles_usr2 _ _ at e) t =
    (t, omega (arith, ap bit e, place_rank-wake c.place))
ChildStep-rank q _ c _ (handles_term _ _ at e) t =
    (refl, omega (arith, ap bit e, place_rank-wake c.place))

abbrev pub CanStep : Child → Type 0
CanStep c = (q : Option ℕ) → (q' : Option ℕ) × (c' : Child) × ChildStep q c q' c'

-- The child sleeps in `pause`, and no signal is pending for it.
pub record Asleep (c : Child) : Type 0 where
  pub at : c.place ≡ pausing
  pub no_leave : c.usr2 ≡ false
  pub no_end : c.term ≡ false

asleep_or : (c : Child) → c.place ≡ pausing → CanStep c ⊎ Asleep c
asleep_or c at =
    let wakeful : c.place ≢ finished = λ end. omega (arith, ap place_rank at, ap place_rank end) in
    elim (Bool-cases c.usr2) [
      | inl e ↦ inl (λ q. (
        q,
        record c { place = wake c.place; usr2 = false; can_print = true },
        handles_usr2 q c wakeful e,
      ))
      | inr quiet ↦ elim (Bool-cases c.term) [
        | inl e ↦ inl (λ q. (
          q,
          record c { place = wake c.place; term = false; terminate_child = true },
          handles_term q c wakeful e,
        ))
        | inr none ↦ inr (record { at = at; no_leave = quiet; no_end = none })
      ]
    ]

-- By the place of a child that has been told to end.
told :
    (c : Child) (at : ChildPlace)
    → c.place ≡ at
    → c.terminate_child ≡ true
    → (c.place ≡ finished) ⊎ (CanStep c ⊎ Asleep c)
told c testing at t =
    inr (inl (λ q. (q, record c { place = finished }, leaves_loop q c at (inl t))))
told c collected at t =
    inr (inl (λ q. (q, record c { place = finished }, breaks_off q c (inl at) t)))
told c asking at t = inr (inl (λ q. (ask q c.pid, record c { place = clearing }, asks q c at)))
told c clearing at t =
    inr (inl (λ q. (q, record c { place = waiting; can_print = false }, clears q c at)))
told c waiting at t = inr (inl (λ q. (q, record c { place = reporting }, goes_on q c at (inr t))))
told c before_pause at t = inr (inl (λ q. (q, record c { place = pausing }, pauses q c at)))
told c pausing at t = inr (asleep_or c at)
told c reporting at t =
    inr (inl (λ q. (q, record c { place = finished }, breaks_off q c (inr at) t)))
told c finished at t = inl at

Own-rank :
    (n : ℕ) (c d : Child)
    → Own n c d
    → c.terminate_child ≡ true
    → (d.terminate_child ≡ true) × (n + rank d ≤ rank c)
Own-rank _ c _ (rests _) t = (t, omega arith)
Own-rank _ c e (steps n q q' _ d _ run step) t =
    let (told_d, left) = Own-rank n c d run t in
    let (told_e, less) = ChildStep-rank q q' d e step told_d in (told_e, omega (arith, left, less))

-- A child that has been told to end takes at most 6 more steps of its own, those of the handlers of
-- the signals that are pending for it included, while no other signal is sent to it. After each of
-- them it has ended, or it can take a step, or it sleeps in `pause` with no signal pending for it.
pub Own-ends :
    (n : ℕ) (c d : Child)
    → c.terminate_child ≡ true
    → Own n c d
    → (n ≤ 6) × ((d.place ≡ finished) ⊎ (CanStep d ⊎ Asleep d))
Own-ends n c d t run =
    let (told_d, left) = Own-rank n c d run t in
    (
      omega (arith, left, place_rank_le c.place, bit_le c.usr2, bit_le c.term),
      told d d.place refl told_d,
    )
