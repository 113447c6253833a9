-- ===== src/Children/Wake.antt =====
-- LAB_3/src/child.c: the end of `pause`, by the place of the child.
use os_sp.Prelude.{◌≡◌, ◌⊎◌, inl, inr, refl}
use os_sp.Children.{
  ChildPlace, testing, collected, asking, clearing, waiting, before_pause, pausing, reporting,
  finished, wake,
}

pub wake_cases : (at : ChildPlace) → (wake at ≡ at) ⊎ ((at ≡ pausing) × (wake at ≡ waiting))
wake_cases testing = inl refl
wake_cases collected = inl refl
wake_cases asking = inl refl
wake_cases clearing = inl refl
wake_cases waiting = inl refl
wake_cases before_pause = inl refl
wake_cases pausing = inr (refl, refl)
wake_cases reporting = inl refl
wake_cases finished = inl refl

-- What holds of a place, and of `waiting` when it is `pausing`, holds when a handler has run.
pub wake_keeps {ℓ} :
    (P : ChildPlace → Type ℓ) (at : ChildPlace) → P at → (P pausing → P waiting) → P (wake at)
wake_keeps P testing h step = h
wake_keeps P collected h step = h
wake_keeps P asking h step = h
wake_keeps P clearing h step = h
wake_keeps P waiting h step = h
wake_keeps P before_pause h step = h
wake_keeps P pausing h step = step h
wake_keeps P reporting h step = h
wake_keeps P finished h step = h
