-- ===== src/SafeWindow/Warned.antt =====
-- domain/safe_window.py: proofs on what a warning does to the windows.
use ocean_data_engine_fronte.Prelude.{
  ℕ, ◌≤◌, ◌≡◌, sym, ap, ◌∙◌, subst, List, [], ◌∷◌, ◌⊎◌, inl, inr, Bool, true, not, ◌&&◌, ◌||◌,
  Option, some, arith, leb, In, All,
}
use ocean_data_engine_fronte.Prelude.Float.{Float, IsIeee}
use ocean_data_engine_fronte.Qc.Checks.{DateTime, as_utc}
use ocean_data_engine_fronte.Risk.Thresholds.{RiskThresholds}
use ocean_data_engine_fronte.SafeWindow.Windows.{
  high_risk, TimeWindow, warning_overlaps, step_end, step_window, steps_of, compute_safe_windows,
}
use ocean_data_engine_fronte.SafeWindow.Steps.{Increasing, warned-step}
use ocean_data_engine_fronte.SafeWindow.Merged.{IsSound, compute_safe_windows-IsSound}
use ocean_data_engine_fronte.SafeWindow.Cover.{IsCoveredBy, compute_safe_windows-covers}

overlap_found :
    (start end : ℕ) (w : DateTime × DateTime) (ws : List (DateTime × DateTime))
    → In w ws
    → start ≤ as_utc w.1
    → as_utc w.0 ≤ end
    → warning_overlaps start end ws ≡ true
unfolding warning_overlaps
overlap_found start end w [] i h k = absurd i
overlap_found start end w (v ∷ ws) (inl e) h k =
    let hit : (leb start (as_utc w.1) && leb (as_utc w.0) end) ≡ true = ground arith in
    ap (λ b. b || warning_overlaps start end ws)
      (subst (λ x. (leb start (as_utc x.1) && leb (as_utc x.0) end) ≡ true) e hit)
overlap_found start end w (v ∷ ws) (inr j) h k =
    let later = overlap_found start end w ws j h k in
    either (leb start (as_utc v.1) && leb (as_utc v.0) end) _ later
  where
    either : (a b : Bool) → b ≡ true → (a || b) ≡ true
    either a b e = ground arith

shown : (x w : Bool) → x ≡ true → (not x || w) ≡ true → w ≡ true
shown x w h k = ground arith

All-In : {A : Type 0} (P : A → Type 0) (x : A) (xs : List A) → All P xs → In x xs → P x
All-In P x [] h i = absurd i
All-In P x (y ∷ ys) h (inl e) = subst P (sym e) h.0
All-In P x (y ∷ ys) h (inr i) = All-In P x ys h.1 i

module _ {W : Type 0} ⦃f : Float W⦄ where
  -- One of the windows holds the step's interval, is HIGH_RISK and shows a warning.
  abbrev pub IsAlarmed : List (TimeWindow W) → TimeWindow W → Type 0
  IsAlarmed [] s = ⊥
  IsAlarmed (w ∷ windows) s =
      ((w.start ≤ s.start)
        × (s.end ≤ w.end)
        × (w.classification ≡ high_risk)
        × (w.warning_active ≡ true))
      ⊎ IsAlarmed windows s

  covered-IsAlarmed :
      (windows : List (TimeWindow W)) (s : TimeWindow W)
      → s.classification ≡ high_risk
      → s.warning_active ≡ true
      → IsCoveredBy windows s
      → IsAlarmed windows s
  covered-IsAlarmed [] s c a h = h
  covered-IsAlarmed (w ∷ windows) s c a (inl h) =
      inl (h.0, h.1, h.2 ∙ c, shown s.warning_active w.warning_active a h.4)
  covered-IsAlarmed (w ∷ windows) s c a (inr h) = inr (covered-IsAlarmed windows s c a h)

module _ {W : Type 0} ⦃f : Float W⦄ (law : IsIeee W) (t : RiskThresholds W)
    (warnings_active : List (DateTime × DateTime)) (interval : ℕ) where
  -- a step is alarmed by the warnings that overlap it
  abbrev IsWarned : TimeWindow W → Type 0
  IsWarned s =
      warning_overlaps s.start s.end warnings_active ≡ true
      → (s.classification ≡ high_risk) × (s.warning_active ≡ true)

  steps-IsWarned :
      (times : List DateTime) (waves winds : List (Option W))
      → All IsWarned (steps_of t warnings_active interval times waves winds)
  unfolding steps_of step_window
  steps-IsWarned (at ∷ times) (wave ∷ waves) (wind ∷ winds) = (
    λ h. (
      warned-step law t warnings_active wave wind (as_utc at) (step_end interval (as_utc at) times)
          h,
      h,
    ),
    steps-IsWarned times waves winds,
  )
  steps-IsWarned [] waves winds = tt
  steps-IsWarned (at ∷ times) [] winds = tt
  steps-IsWarned (at ∷ times) (wave ∷ waves) [] = tt

  -- When the times increase and a warning is active somewhere between the start and the end of a step, both included, one of
  -- the returned windows holds the step, is HIGH_RISK and shows a warning, however calm the forecast is; and every
  -- returned window is classified by its own score, and is HIGH_RISK if it shows a warning. The numbers meet
  -- the laws of IEEE 754.
  pub compute_safe_windows-IsAlarmed :
      (times : List DateTime) (waves winds : List (Option W)) (windows : List (TimeWindow W))
      (s : TimeWindow W) (w : DateTime × DateTime)
      → Increasing times
      → compute_safe_windows t warnings_active interval times waves winds ≡ some windows
      → In s (steps_of t warnings_active interval times waves winds)
      → In w warnings_active
      → s.start ≤ as_utc w.1
      → as_utc w.0 ≤ s.end
      → IsAlarmed windows s × All IsSound windows
  compute_safe_windows-IsAlarmed times waves winds windows s w up h i j before after =
      let steps = steps_of t warnings_active interval times waves winds in
      let warned =
        All-In IsWarned s steps (steps-IsWarned times waves winds) i
          (overlap_found s.start s.end w warnings_active j before after) in
      let covered =
        compute_safe_windows-covers law t warnings_active interval times waves winds windows up h in
      (
        covered-IsAlarmed windows s warned.0 warned.1
            (All-In (IsCoveredBy windows) s steps covered i),
        compute_safe_windows-IsSound law t warnings_active interval times waves winds windows h,
      )
