-- ===== src/SafeWindow/Merged.antt =====
-- domain/safe_window.py: proofs on the classification of the merged windows.
use ocean_data_engine_fronte.Prelude.{
  ℕ, ◌≡◌, refl, ◌∙◌, subst, List, [], ◌∷◌, inl, inr, Bool, true, false, Option, none, some, arith,
  if◌then◌else◌, Bool-cases, All,
}
use ocean_data_engine_fronte.Prelude.Float.{Float, IsIeee, fmax}
use ocean_data_engine_fronte.Qc.Checks.{DateTime}
use ocean_data_engine_fronte.Risk.Thresholds.{RiskThresholds}
use ocean_data_engine_fronte.SafeWindow.Windows.{
  WindowClass, high_risk, TimeWindow, same_class, classify_score, step_window, steps_of, joins,
  join, merge_from, merge_steps, compute_safe_windows,
}
use ocean_data_engine_fronte.SafeWindow.Steps.{warned-step}

pub same_class-equal : (a b : WindowClass) → same_class a b ≡ true → a ≡ b
same_class-equal a b h = ground arith

pub guard-some : {A : Type 0} (b : Bool) (x y : A) → (if b then some x else none) ≡ some y → x ≡ y
guard-some true x y h = cc
guard-some false x y h = ground arith

module _ {W : Type 0} ⦃f : Float W⦄ where
  -- The classification is that of the score, and a warning makes it HIGH_RISK.
  abbrev pub IsSound : TimeWindow W → Type 0
  IsSound w =
      (w.classification ≡ classify_score w.risk_score)
      × (w.warning_active ≡ true → w.classification ≡ high_risk)

  classify-fmax :
      (a b : W) (c : WindowClass)
      → c ≡ classify_score a
      → c ≡ classify_score b
      → c ≡ classify_score (fmax a b)
  classify-fmax a b c h k = elim (Bool-cases (f.lt a b)) [ inl e ↦ rw e k | inr e ↦ rw e h ]

  join-IsSound :
      (p s : TimeWindow W) → joins p s ≡ true → IsSound p → IsSound s → IsSound (join p s)
  join-IsSound p s j hp hs =
      let c : p.classification ≡ s.classification = same_class-equal _ _ (ground arith) in
      (
        classify-fmax p.risk_score s.risk_score p.classification hp.0 (c ∙ hs.0),
        λ active. elim (Bool-cases p.warning_active) [
          | inl e ↦ hp.1 e
          | inr e ↦ c ∙ hs.1 (ground arith)
        ],
      )

  pub merge_from-joined :
      (p s : TimeWindow W) (steps : List (TimeWindow W))
      → joins p s ≡ true
      → merge_from p (s ∷ steps) ≡ merge_from (join p s) steps
  unfolding merge_from
  merge_from-joined p s steps h = rw (merge_from, h) refl

  pub merge_from-apart :
      (p s : TimeWindow W) (steps : List (TimeWindow W))
      → joins p s ≡ false
      → merge_from p (s ∷ steps) ≡ p ∷ merge_from s steps
  unfolding merge_from
  merge_from-apart p s steps h = rw (merge_from, h) refl

  merge_from-IsSound :
      (p : TimeWindow W) (steps : List (TimeWindow W))
      → IsSound p
      → All IsSound steps
      → All IsSound (merge_from p steps)
  unfolding merge_from
  merge_from-IsSound p [] hp hs = (hp, tt)
  merge_from-IsSound p (s ∷ steps) hp hs = elim (Bool-cases (joins p s)) [
    | inl e ↦
        rw (merge_from-joined p s steps e)
          (merge_from-IsSound (join p s) steps (join-IsSound p s e hp hs.0) hs.1)
    | inr e ↦ rw (merge_from-apart p s steps e) (hp, merge_from-IsSound s steps hs.0 hs.1)
  ]

  merge_steps-IsSound :
      (steps : List (TimeWindow W)) → All IsSound steps → All IsSound (merge_steps steps)
  unfolding merge_steps
  merge_steps-IsSound [] h = tt
  merge_steps-IsSound (s ∷ steps) h = merge_from-IsSound s steps h.0 h.1

module _ {W : Type 0} ⦃f : Float W⦄ (law : IsIeee W) where
  step-IsSound :
      (t : RiskThresholds W) (warnings_active : List (DateTime × DateTime)) (wave wind : Option W)
      (start end : ℕ)
      → IsSound (step_window t warnings_active wave wind start end)
  unfolding step_window
  step-IsSound t warnings_active wave wind start end =
      (refl, λ active. warned-step law t warnings_active wave wind start end active)

  steps-IsSound :
      (t : RiskThresholds W) (warnings_active : List (DateTime × DateTime)) (interval : ℕ)
      (times : List DateTime) (waves winds : List (Option W))
      → All IsSound (steps_of t warnings_active interval times waves winds)
  unfolding steps_of
  steps-IsSound t warnings_active interval (at ∷ times) (wave ∷ waves) (wind ∷ winds) = (
    step-IsSound t warnings_active wave wind _ _,
    steps-IsSound t warnings_active interval times waves winds,
  )
  steps-IsSound t warnings_active interval [] waves winds = tt
  steps-IsSound t warnings_active interval (at ∷ times) [] winds = tt
  steps-IsSound t warnings_active interval (at ∷ times) (wave ∷ waves) [] = tt

  -- Each window that is returned is classified by its own score, and is HIGH_RISK when a warning
  -- overlaps one of the steps it was merged from. The numbers meet the laws of IEEE 754.
  pub compute_safe_windows-IsSound :
      (t : RiskThresholds W) (warnings_active : List (DateTime × DateTime)) (interval : ℕ)
      (times : List DateTime) (waves winds : List (Option W)) (windows : List (TimeWindow W))
      → compute_safe_windows t warnings_active interval times waves winds ≡ some windows
      → All IsSound windows
  unfolding compute_safe_windows
  compute_safe_windows-IsSound t warnings_active interval times waves winds windows h =
      let sound =
        merge_steps-IsSound _ (steps-IsSound t warnings_active interval times waves winds) in
      subst (All IsSound) (guard-some _ _ _ h) sound
