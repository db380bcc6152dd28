-- ===== src/SafetyGate/Reasons.antt =====
-- The reason codes of a decision.
use ocean_data_engine_fronte.Prelude.{
  ℕ, ◌≡◌, ◌≤◌, suc, refl, sym, subst, ◌⊎◌, inl, inr, ◌∙◌, List, [], ◌∷◌, ◌++◌, Bool, true, false,
  ◌||◌, arith, any, any-append, if◌then◌else◌, Bool-cases, ◌==◌,
}
use mathlib.Core.Bool.{false≢true}
use ocean_data_engine_fronte.Prelude.Float.{Float}
use ocean_data_engine_fronte.Risk.Thresholds.{RiskThresholds}
use ocean_data_engine_fronte.Risk.Assess.{valid}
use ocean_data_engine_fronte.SafetyGate.Gate.{
  not_cleared, Reason, wind_unavailable, sea_state_unknown, zone_status_unknown, code_of, ZoneHit,
  GateInputs, is_unresolved, is_blocking, has_reason, is_some, has_height, derived, note_zone,
  scan_zones, missing_of, evidence_reasons, zone_scan, insufficient, hazard_reasons, decide_status,
  unique, evaluate_safety_gate,
}

abbrev has_code : ℕ → List Reason → Bool
has_code n rs = any (λ x. code_of x == n) rs

==_sound : (a b : ℕ) → (a == b) ≡ true → a ≡ b
==_sound a b h = ground arith

-- A reason with the code of one that was not seen was not seen either.
other_code :
    (n : ℕ) (x : Reason) (seen : List Reason)
    → has_code n seen ≡ true
    → has_reason x seen ≡ false
    → (code_of x == n) ≡ false
other_code n x seen h e = elim (Bool-cases (code_of x == n)) [
  | inl q ↦
      absurd (false≢true (sym e ∙ subst (λ k. has_code k seen ≡ true) (sym (==_sound _ _ q)) h))
  | inr q ↦ q
]

unique_skips :
    (n : ℕ) (seen rs : List Reason) → has_code n seen ≡ true → has_code n (unique seen rs) ≡ false
unfolding unique
unique_skips n seen [] h = refl
unique_skips n seen (x ∷ rs) h = elim (Bool-cases (has_reason x seen)) [
  | inl e ↦ rw e (unique_skips n seen rs h)
  | inr e ↦
      rw (e, other_code n x seen h e)
        (unique_skips n (x ∷ seen) rs (rw (other_code n x seen h e) h))
]

unique_keeps :
    (n : ℕ) (seen rs : List Reason)
    → has_code n seen ≡ false
    → has_code n (unique seen rs) ≡ has_code n rs
unfolding unique
unique_keeps n seen [] h = refl
unique_keeps n seen (x ∷ rs) h = elim (Bool-cases (code_of x == n)) [
  | inl q ↦
      let fresh : has_reason x seen ≡ false =
        subst (λ k. has_code k seen ≡ false) (sym (==_sound _ _ q)) h in
      rw (fresh, q) refl
  | inr q ↦ elim (Bool-cases (has_reason x seen)) [
    | inl e ↦ rw (e, q) (unique_keeps n seen rs h)
    | inr e ↦ rw (e, q) (unique_keeps n (x ∷ seen) rs (rw q h))
  ]
]

abbrev pub count_reason : Reason → List Reason → ℕ
count_reason r [] = 0
count_reason r (x ∷ rs) =
    let rest = count_reason r rs in if code_of x == code_of r then suc rest else rest

count_absent : (r : Reason) (rs : List Reason) → has_reason r rs ≡ false → count_reason r rs ≡ 0
count_absent r [] h = refl
count_absent r (x ∷ rs) h = ground (arith, count_absent r rs)

count-unique : (r : Reason) (seen rs : List Reason) → count_reason r (unique seen rs) ≤ 1
unfolding unique
count-unique r seen [] = omega arith
count-unique r seen (x ∷ rs) = elim (Bool-cases (has_reason x seen)) [
  | inl e ↦ rw e (count-unique r seen rs)
  | inr e ↦ rw e (
      ground (
        arith,
        count-unique r (x ∷ seen) rs,
        unique_skips (code_of r) (x ∷ seen) rs,
        count_absent r (unique (x ∷ seen) rs),
      ))
]

module _ {W : Type 0} ⦃f : Float W⦄ where
  -- A decision lists each reason once at most, and exactly the reasons that the steps recorded.
  pub reasons_unique :
      (i : GateInputs W) (t : RiskThresholds W) (r : Reason)
      → let d = evaluate_safety_gate i t in
        (count_reason r d.reasons ≤ 1)
        × (has_reason r d.reasons ≡ has_reason r ((zone_scan i).0 ++ hazard_reasons i t))
  unfolding evaluate_safety_gate
  reasons_unique i t r = (
    count-unique r [] ((zone_scan i).0 ++ hazard_reasons i t),
    unique_keeps (code_of r) [] ((zone_scan i).0 ++ hazard_reasons i t) refl,
  )

note_zone_keeps :
    (n : ℕ) (u : Bool) (rs : List Reason)
    → has_code n rs ≡ true
    → has_code n (note_zone u rs) ≡ true
note_zone_keeps n u rs h =
    ground (arith, any-append (λ x. code_of x == n) rs (zone_status_unknown ∷ []))

scan_zones_keeps :
    (n : ℕ) (rs : List Reason) (b : Bool) (zs : List ZoneHit)
    → has_code n rs ≡ true
    → has_code n (scan_zones rs b zs).0 ≡ true
unfolding scan_zones
scan_zones_keeps n rs b [] h = h
scan_zones_keeps n rs b (z ∷ zs) h =
    scan_zones_keeps n (note_zone (is_unresolved z) rs) (b || is_blocking z) zs
      (note_zone_keeps n (is_unresolved z) rs h)

or_true : (a b : Bool) → a ≡ true → (a || b) ≡ true
or_true a b e = rw e refl

module _ {W : Type 0} ⦃f : Float W⦄ (i : GateInputs W) (t : RiskThresholds W) where
  -- what the evidence step recorded is in the decision
  recorded :
      (r : Reason)
      → has_reason r (evidence_reasons i) ≡ true
      → has_reason r (evaluate_safety_gate i t).reasons ≡ true
  unfolding evaluate_safety_gate zone_scan
  recorded r h =
      unique_keeps (code_of r) [] ((zone_scan i).0 ++ hazard_reasons i t) refl
      ∙ any-append (λ x. code_of x == code_of r) (zone_scan i).0 (hazard_reasons i t)
      ∙ or_true _ _ (
          scan_zones_keeps (code_of r) (evidence_reasons i) false i.restricted_zone_intersections h)

  recorded_wind :
      valid i.wind_speed ≡ false → has_reason wind_unavailable (evidence_reasons i) ≡ true
  unfolding evidence_reasons
  recorded_wind h = ground arith

  recorded_sea :
      has_height i ≡ false
      → is_some (derived i) ≡ false
      → has_reason sea_state_unknown (evidence_reasons i) ≡ true
  unfolding evidence_reasons
  recorded_sea h k = ground arith

  abbrev pub NoSeaState : Type 0
  NoSeaState = (has_height i ≡ false) × (is_some (derived i) ≡ false)

  lacking : (valid i.wind_speed ≡ false) ⊎ NoSeaState → insufficient i ≡ true
  unfolding insufficient missing_of
  lacking h = ground arith

  -- Without a wind reading, or with no wave, swell or recognised categorical sea state, the answer is
  -- NOT_CLEARED for insufficient data whatever the other inputs say, and the reasons name the wind and
  -- the sea state where they are missing.
  pub missing_evidence :
      (valid i.wind_speed ≡ false) ⊎ NoSeaState
      → let d = evaluate_safety_gate i t in
        (d.safety_status ≡ not_cleared)
        × (d.insufficient_data ≡ true)
        × (valid i.wind_speed ≡ false → has_reason wind_unavailable d.reasons ≡ true)
        × (NoSeaState → has_reason sea_state_unknown d.reasons ≡ true)
  unfolding evaluate_safety_gate decide_status
  missing_evidence h = (
    rw (lacking h) refl,
    lacking h,
    λ w. recorded wind_unavailable (recorded_wind w),
    λ s. recorded sea_state_unknown (recorded_sea s.0 s.1),
  )
