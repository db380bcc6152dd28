-- ===== src/SafetyGate/Clearance.antt =====
-- When the gate clears a trip.
use ocean_data_engine_fronte.Prelude.{
  ◌≡◌, ◌↔◌, refl, ap, ◌∙◌, List, [], ◌∷◌, Bool, true, false, not, ◌&&◌, ◌||◌, some, arith, any,
  any-append, is_empty, ◌==◌,
}
use ocean_data_engine_fronte.Prelude.Float.{Float}
use ocean_data_engine_fronte.Risk.Thresholds.{RiskLevel, RiskThresholds}
use ocean_data_engine_fronte.Risk.Assess.{valid, assess_marine_risk}
use ocean_data_engine_fronte.SafetyGate.Gate.{
  cleared, Reason, zone_status_unknown, code_of, ZoneHit, GateInputs, has_reason, is_unresolved,
  is_blocking, note_zone, scan_zones, is_some, has_height, derived, missing_of, evidence_reasons,
  zone_scan, insufficient, risk_inputs, gate_risk, level_blocks, level_cautions, risk_blocks,
  risk_cautions, hazardous, decide_status, evaluate_safety_gate,
}

||_assoc : (a b c : Bool) → ((a || b) || c) ≡ (a || (b || c))
||_assoc true b c = refl
||_assoc false b c = refl

scan_zones_blocking :
    (rs : List Reason) (b : Bool) (zs : List ZoneHit)
    → (scan_zones rs b zs).1 ≡ (b || any is_blocking zs)
unfolding scan_zones
scan_zones_blocking rs b [] = ground arith
scan_zones_blocking rs b (z ∷ zs) =
    scan_zones_blocking (note_zone (is_unresolved z) rs) (b || is_blocking z) zs
    ∙ ||_assoc b (is_blocking z) (any is_blocking zs)

zone_reason_added :
    (rs : List Reason) (u : Bool)
    → has_reason zone_status_unknown (note_zone u rs) ≡ (has_reason zone_status_unknown rs || u)
zone_reason_added rs u =
    ground (arith, any-append (λ x. code_of x == 7) rs (zone_status_unknown ∷ []))

scan_zones_unknown :
    (rs : List Reason) (b : Bool) (zs : List ZoneHit)
    → has_reason zone_status_unknown (scan_zones rs b zs).0
      ≡ (has_reason zone_status_unknown rs || any is_unresolved zs)
unfolding scan_zones
scan_zones_unknown rs b [] = ground arith
scan_zones_unknown rs b (z ∷ zs) =
    scan_zones_unknown (note_zone (is_unresolved z) rs) (b || is_blocking z) zs
    ∙ ap (λ x. x || any is_unresolved zs) (zone_reason_added rs (is_unresolved z))
    ∙ ||_assoc (has_reason zone_status_unknown rs) (is_unresolved z) (any is_unresolved zs)

level_low : (l : RiskLevel) → level_blocks l ≡ false → level_cautions l ≡ false → l ≡ RiskLevel.low
level_low RiskLevel.low b c = refl
level_low _ b c = cc

module _ {W : Type 0} ⦃f : Float W⦄ where
  evidence_not_zone :
      (i : GateInputs W) → has_reason zone_status_unknown (evidence_reasons i) ≡ false
  unfolding evidence_reasons
  evidence_not_zone i = ground arith

  pub zone_scan-blocking :
      (i : GateInputs W) → (zone_scan i).1 ≡ any is_blocking i.restricted_zone_intersections
  unfolding zone_scan
  zone_scan-blocking i =
      scan_zones_blocking (evidence_reasons i) false i.restricted_zone_intersections

  pub zone_scan-unknown :
      (i : GateInputs W)
      → has_reason zone_status_unknown (zone_scan i).0
        ≡ any is_unresolved i.restricted_zone_intersections
  unfolding zone_scan
  zone_scan-unknown i =
      scan_zones_unknown (evidence_reasons i) false i.restricted_zone_intersections
      ∙ ap (λ x. x || any is_unresolved i.restricted_zone_intersections) (evidence_not_zone i)

  -- What a clearance rests on: measured sea state and wind, tide data where they are required, a
  -- complete route, no warning, no zone that is unresolved or blocks, and a low computed risk.
  pub record IsClear (i : GateInputs W) (t : RiskThresholds W) : Type 0 where
    pub sea : has_height i ≡ true
    pub wind : valid i.wind_speed ≡ true
    pub tide : (i.require_tide && not (valid i.tide_level)) ≡ false
    pub route : i.route_risk_complete ≡ true
    pub no_warning : is_empty i.active_warnings ≡ true
    pub resolved : any is_unresolved i.restricted_zone_intersections ≡ false
    pub open_water : any is_blocking i.restricted_zone_intersections ≡ false
    pub low_risk : (assess_marine_risk (risk_inputs i) t).risk_level ≡ RiskLevel.low

  gate_risk-some :
      (i : GateInputs W) (t : RiskThresholds W)
      → has_height i ≡ true
      → valid i.wind_speed ≡ true
      → gate_risk i t ≡ some (assess_marine_risk (risk_inputs i) t)
  unfolding gate_risk
  gate_risk-some i t sea wind = rw (sea, wind) refl

  cleared-IsClear :
      (i : GateInputs W) (t : RiskThresholds W)
      → insufficient i ≡ false
      → hazardous i t ≡ false
      → risk_cautions (gate_risk i t) ≡ false
      → is_some (derived i) ≡ false
      → IsClear i t
  unfolding insufficient hazardous missing_of
  cleared-IsClear i t lacking hazard caution term =
      let sea : has_height i ≡ true = ground arith in
      let wind : valid i.wind_speed ≡ true = ground arith in
      let e : gate_risk i t ≡ some (assess_marine_risk (risk_inputs i) t) =
        gate_risk-some i t sea wind in
      let calm : risk_blocks (gate_risk i t) ≡ false = ground arith in
      record {
        sea = sea;
        wind = wind;
        tide = ground arith;
        route = ground arith;
        no_warning = ground arith;
        resolved = ground (arith, zone_scan-unknown i);
        open_water = ground (arith, zone_scan-blocking i);
        low_risk = level_low _ (rw e at calm) (rw e at caution);
      }

  IsClear-derived : (i : GateInputs W) → has_height i ≡ true → is_some (derived i) ≡ false
  unfolding derived
  IsClear-derived i sea = rw sea refl

  IsClear-insufficient :
      (i : GateInputs W) (t : RiskThresholds W) → IsClear i t → insufficient i ≡ false
  unfolding insufficient missing_of
  IsClear-insufficient i t c =
      rw (zone_scan-unknown i, c.resolved, c.sea, c.wind, c.tide, c.route) refl

  IsClear-hazardous :
      (i : GateInputs W) (t : RiskThresholds W) → IsClear i t → hazardous i t ≡ false
  unfolding hazardous
  IsClear-hazardous i t c =
      rw
        (
          c.no_warning,
          zone_scan-blocking i,
          c.open_water,
          gate_risk-some i t c.sea c.wind,
          c.low_risk,
        )
        refl

  IsClear-risk_cautions :
      (i : GateInputs W) (t : RiskThresholds W)
      → IsClear i t
      → risk_cautions (gate_risk i t) ≡ false
  IsClear-risk_cautions i t c = rw (gate_risk-some i t c.sea c.wind, c.low_risk) refl

  -- The gate answers CLEARED exactly where everything that a clearance rests on is there: no missing
  -- reading, unknown zone, categorical term or hazard ever ends in a clearance, and nothing else
  -- withholds one. A reading is missing when it is not given or is NaN; an infinite one counts as a reading.
  pub cleared_iff :
      (i : GateInputs W) (t : RiskThresholds W)
      → ((evaluate_safety_gate i t).safety_status ≡ cleared) ↔ IsClear i t
  unfolding evaluate_safety_gate decide_status
  cleared_iff i t = (
    λ h. cleared-IsClear i t (ground arith) (ground arith) (ground arith) (ground arith),
    λ c.
        rw
          (
            IsClear-insufficient i t c,
            IsClear-hazardous i t c,
            IsClear-risk_cautions i t c,
            IsClear-derived i c.sea,
          )
          refl,
  )
