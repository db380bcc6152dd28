-- ===== src/SafeWindow/Cover.antt =====
-- domain/safe_window.py: proofs on the windows and the steps that they hold.
use ocean_data_engine_fronte.Prelude.{
  ℕ, ◌≤◌, ◌≡◌, refl, sym, subst, List, [], ◌∷◌, ◌⊎◌, inl, inr, Bool, true, false, not, ◌||◌, Option,
  some, arith, Bool-cases, All,
}
use ocean_data_engine_fronte.Prelude.Float.{Float, IsIeee}
use ocean_data_engine_fronte.Prelude.Ieee.{fmax-ge}
use ocean_data_engine_fronte.Qc.Checks.{DateTime, as_utc}
use ocean_data_engine_fronte.Risk.Thresholds.{RiskThresholds}
use ocean_data_engine_fronte.SafeWindow.Windows.{
  TimeWindow, step_end, step_window, steps_of, joins, join, merge_from, merge_steps,
  compute_safe_windows,
}
use ocean_data_engine_fronte.SafeWindow.Steps.{
  Increasing, step_end-ge, step_end-le-next, step_score-not_nan, fmax-ge-right, fmax-not_nan,
}
use ocean_data_engine_fronte.SafeWindow.Merged.{
  same_class-equal, merge_from-joined, merge_from-apart, guard-some,
}

abbrev StartsFrom : ℕ → List DateTime → Type 0
StartsFrom t [] = Unit
StartsFrom t (at ∷ times) = t ≤ as_utc at

shown_left : (x p s : Bool) → (not x || p) ≡ true → (not x || (p || s)) ≡ true
shown_left x p s h = ground arith

shown_right : (p s : Bool) → (not s || (p || s)) ≡ true
shown_right p s = ground arith

module _ {W : Type 0} ⦃f : Float W⦄ where
  -- The window holds the step's interval, has its class and no lower score, and shows its warning.
  abbrev pub Covers : TimeWindow W → TimeWindow W → Type 0
  Covers w s =
      (w.start ≤ s.start)
      × (s.end ≤ w.end)
      × (w.classification ≡ s.classification)
      × (f.le s.risk_score w.risk_score ≡ true)
      × ((not s.warning_active || w.warning_active) ≡ true)

  abbrev pub IsCoveredBy : List (TimeWindow W) → TimeWindow W → Type 0
  IsCoveredBy [] s = ⊥
  IsCoveredBy (w ∷ windows) s = Covers w s ⊎ IsCoveredBy windows s

  abbrev pub IsProper : TimeWindow W → Type 0
  IsProper s = (s.start ≤ s.end) × (f.isnan s.risk_score ≡ false)

  -- Each step starts no earlier than the one before it ends.
  abbrev pub Follow : ℕ → List (TimeWindow W) → Type 0
  Follow t [] = Unit
  Follow t (s ∷ steps) = (t ≤ s.start) × Follow s.end steps

module _ {W : Type 0} ⦃f : Float W⦄ (law : IsIeee W) where
  join-IsProper :
      (p s : TimeWindow W) → IsProper p → IsProper s → p.end ≤ s.start → IsProper (join p s)
  join-IsProper p s hp hs h = (omega (arith, hp.0, hs.0, h), fmax-not_nan law _ _ hp.1 hs.1)

  Covers-join_left :
      (p s x : TimeWindow W)
      → IsProper p
      → IsProper s
      → p.end ≤ s.start
      → Covers p x
      → Covers (join p s) x
  Covers-join_left p s x hp hs h c = (
    c.0,
    omega (arith, c.1, h, hs.0),
    c.2,
    law.le_trans _ _ _ c.3 (fmax-ge law _ _ hp.1),
    shown_left x.warning_active p.warning_active s.warning_active c.4,
  )

  Covers-join_right :
      (p s : TimeWindow W)
      → joins p s ≡ true
      → IsProper p
      → IsProper s
      → p.end ≤ s.start
      → Covers (join p s) s
  Covers-join_right p s j hp hs h = (
    omega (arith, hp.0, h),
    omega arith,
    same_class-equal _ _ (ground arith),
    fmax-ge-right law _ _ hp.1 hs.1,
    shown_right p.warning_active s.warning_active,
  )

  Covers-self : (s : TimeWindow W) → IsProper s → Covers s s
  Covers-self s hs = (omega arith, omega arith, refl, law.le_refl _ hs.1, ground arith)

  later_covered :
      (p : TimeWindow W) (windows steps : List (TimeWindow W))
      → All (IsCoveredBy windows) steps
      → All (IsCoveredBy (p ∷ windows)) steps
  later_covered p windows [] h = tt
  later_covered p windows (s ∷ steps) h = (inr h.0, later_covered p windows steps h.1)

  merge_from-Covers :
      (p : TimeWindow W) (steps : List (TimeWindow W)) (x : TimeWindow W)
      → IsProper p
      → All IsProper steps
      → Follow p.end steps
      → Covers p x
      → IsCoveredBy (merge_from p steps) x
  unfolding merge_from
  merge_from-Covers p [] x hp hs ho c = inl c
  merge_from-Covers p (s ∷ steps) x hp hs ho c = elim (Bool-cases (joins p s)) [
    | inl e ↦ rw (merge_from-joined p s steps e) (
        merge_from-Covers (join p s) steps x (join-IsProper p s hp hs.0 ho.0) hs.1 ho.1
          (Covers-join_left p s x hp hs.0 ho.0 c))
    | inr e ↦ rw (merge_from-apart p s steps e) (inl c)
  ]

  merge_from-Covers-All :
      (p : TimeWindow W) (steps : List (TimeWindow W))
      → IsProper p
      → All IsProper steps
      → Follow p.end steps
      → All (IsCoveredBy (merge_from p steps)) steps
  unfolding merge_from
  merge_from-Covers-All p [] hp hs ho = tt
  merge_from-Covers-All p (s ∷ steps) hp hs ho = elim (Bool-cases (joins p s)) [
    | inl e ↦
        let q = join-IsProper p s hp hs.0 ho.0 in
        subst (λ windows. All (IsCoveredBy windows) (s ∷ steps))
          (sym (merge_from-joined p s steps e))
          (
            merge_from-Covers (join p s) steps s q hs.1 ho.1 (Covers-join_right p s e hp hs.0 ho.0),
            merge_from-Covers-All (join p s) steps q hs.1 ho.1,
          )
    | inr e ↦
        subst (λ windows. All (IsCoveredBy windows) (s ∷ steps))
          (sym (merge_from-apart p s steps e))
          (
            inr (merge_from-Covers s steps s hs.0 hs.1 ho.1 (Covers-self s hs.0)),
            later_covered p (merge_from s steps) steps
                (merge_from-Covers-All s steps hs.0 hs.1 ho.1),
          )
  ]

  merge_steps-covers :
      (steps : List (TimeWindow W))
      → All IsProper steps
      → Follow 0 steps
      → All (IsCoveredBy (merge_steps steps)) steps
  unfolding merge_steps
  merge_steps-covers [] hs ho = tt
  merge_steps-covers (s ∷ steps) hs ho = (
    merge_from-Covers s steps s hs.0 hs.1 ho.1 (Covers-self s hs.0),
    merge_from-Covers-All s steps hs.0 hs.1 ho.1,
  )

  module _ (t : RiskThresholds W) (warnings_active : List (DateTime × DateTime))
      (interval : ℕ) where
    step-IsProper :
        (wave wind : Option W) (start : ℕ) (later : List DateTime)
        → IsProper (step_window t warnings_active wave wind start (step_end interval start later))
    unfolding step_window
    step-IsProper wave wind start later =
        (step_end-ge interval start later, step_score-not_nan law t wave wind _ _ _)

    steps-IsProper :
        (times : List DateTime) (waves winds : List (Option W))
        → All IsProper (steps_of t warnings_active interval times waves winds)
    unfolding steps_of
    steps-IsProper (at ∷ times) (wave ∷ waves) (wind ∷ winds) =
        (step-IsProper wave wind (as_utc at) times, steps-IsProper times waves winds)
    steps-IsProper [] waves winds = tt
    steps-IsProper (at ∷ times) [] winds = tt
    steps-IsProper (at ∷ times) (wave ∷ waves) [] = tt

    steps-Follow :
        (times : List DateTime) (waves winds : List (Option W)) (from : ℕ)
        → Increasing times
        → StartsFrom from times
        → Follow from (steps_of t warnings_active interval times waves winds)
    unfolding steps_of step_window
    steps-Follow (at ∷ []) (wave ∷ waves) (wind ∷ winds) from up h = (h, tt)
    steps-Follow (at ∷ b ∷ times) (wave ∷ waves) (wind ∷ winds) from up h = (
      h,
      steps-Follow (b ∷ times) waves winds _ up.1
          (step_end-le-next interval (as_utc at) b times up.0),
    )
    steps-Follow [] waves winds from up h = tt
    steps-Follow (at ∷ times) [] winds from up h = tt
    steps-Follow (at ∷ times) (wave ∷ waves) [] from up h = tt

    StartsFrom-zero : (times : List DateTime) → StartsFrom 0 times
    StartsFrom-zero [] = tt
    StartsFrom-zero (at ∷ times) = omega arith

    -- When the times increase, each step of the forecast lies within one of the returned windows, which
    -- has the class of the step, no lower score, and the step's warning if it has one. The numbers meet the laws of IEEE 754.
    pub compute_safe_windows-covers :
        (times : List DateTime) (waves winds : List (Option W)) (windows : List (TimeWindow W))
        → Increasing times
        → compute_safe_windows t warnings_active interval times waves winds ≡ some windows
        → All (IsCoveredBy windows) (steps_of t warnings_active interval times waves winds)
    unfolding compute_safe_windows
    compute_safe_windows-covers times waves winds windows up h =
        let steps = steps_of t warnings_active interval times waves winds in
        subst (λ ws. All (IsCoveredBy ws) steps) (guard-some _ _ _ h)
          (merge_steps-covers steps (steps-IsProper times waves winds)
            (steps-Follow times waves winds 0 up (StartsFrom-zero times)))
