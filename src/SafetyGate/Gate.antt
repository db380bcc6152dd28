-- ===== src/SafetyGate/Gate.antt =====
-- domain/safety_gate.py `evaluate_safety_gate`, step by step in its order.
use ocean_data_engine_fronte.Prelude.{
  ℕ, List, [], ◌∷◌, ◌++◌, Bool, true, false, not, ◌&&◌, ◌||◌, Option, none, some, any, is_empty,
  ◌==◌, if◌then◌else◌,
}
use ocean_data_engine_fronte.Prelude.Json.{JsonFields}
use ocean_data_engine_fronte.Prelude.Text.{Text, codes, text_eq, strip, lower}
use ocean_data_engine_fronte.Prelude.Float.{Float}
use ocean_data_engine_fronte.Risk.Thresholds.{RiskLevel, RiskThresholds}
use ocean_data_engine_fronte.Risk.Assess.{
  ActiveWarning, RiskInputs, RiskAssessment, valid, or_text, assess_marine_risk,
}
use ocean_data_engine_fronte.SeaState.Parse.{
  SeaStateBand, parse_sea_state_category, conservative_height_m,
}

pub data SafetyStatus : Type 0 where
  cleared cleared_with_caution not_cleared : SafetyStatus

pub data Reason : Type 0 where
  wave_unavailable wind_unavailable tide_unavailable sea_state_unknown : Reason
  sea_state_from_category sea_state_category_unrecognised : Reason
  route_risk_incomplete zone_status_unknown : Reason
  high_env_risk active_hazard restricted_zone_entry : Reason

pub data MissingInput : Type 0 where
  sea_state wind tide : MissingInput

-- the texts of `notes`
pub data GateNote (W : Type 0) : Type 0 where
  from_category : SeaStateBand W → GateNote W
  withheld_missing withheld_hazard marginal capped assessed_low : GateNote W

-- one dictionary of `restricted_zone_intersections`; `none` for a key that is missing or null
pub record ZoneHit : Type 0 where
  pub status : Option Text
  pub zone_type : Option Text
  pub type_ : Option Text

pub record GateInputs (W : Type 0) : Type 0 where
  pub wave_height : Option W
  pub wind_speed : Option W
  pub tide_level : Option W
  pub swell_height : Option W
  pub wave_period : Option W
  pub wind_gust : Option W
  pub sea_state_category : Option Text
  pub rainfall : Option W
  pub pressure_trend : Option W
  pub active_warnings : List ActiveWarning
  pub cyclone_distance_km : Option W
  pub restricted_zone_intersections : List ZoneHit
  pub route_risk_complete : Bool
  pub require_tide : Bool
  pub valid_from : Option ℕ
  pub valid_until : Option ℕ
  pub sources : List JsonFields

pub record SafetyDecision (W : Type 0) : Type 0 where
  pub safety_status : SafetyStatus
  pub insufficient_data : Bool
  pub reasons : List Reason
  pub missing_inputs : List MissingInput
  pub risk : Option (RiskAssessment W)
  pub notes : List (GateNote W)
  pub sea_state_band : Option (SeaStateBand W)

-- numbers that tell the reason codes apart
abbrev pub code_of : Reason → ℕ
code_of wave_unavailable = 0
code_of wind_unavailable = 1
code_of tide_unavailable = 2
code_of sea_state_unknown = 3
code_of sea_state_from_category = 4
code_of sea_state_category_unrecognised = 5
code_of route_risk_incomplete = 6
code_of zone_status_unknown = 7
code_of high_env_risk = 8
code_of active_hazard = 9
code_of restricted_zone_entry = 10

-- `reason in reasons`
abbrev pub has_reason : Reason → List Reason → Bool
has_reason r rs = any (λ x. code_of x == code_of r) rs

-- `str(z.get("status") or "").strip().lower()`
unfoldable pub zone_status : ZoneHit → Text
unfolding strip lower
zone_status z = lower (strip (or_text z.status []))

unfoldable pub zone_kind : ZoneHit → Text
unfolding strip lower
zone_kind z = lower (strip (or_text z.zone_type (or_text z.type_ [])))

unfoldable pub is_unresolved : ZoneHit → Bool
is_unresolved z =
    let s = zone_status z in text_eq s [] || text_eq s (codes "unknown") || text_eq s (codes "none")

unfoldable pub is_blocking : ZoneHit → Bool
is_blocking z =
    let k = zone_kind z in
    text_eq (zone_status z) (codes "active")
    && (text_eq k (codes "restricted")
        || text_eq k (codes "prohibited")
        || text_eq k (codes "border")
        || text_eq k (codes "eez"))

abbrev pub note_zone : Bool → List Reason → List Reason
note_zone unresolved reasons =
    if unresolved && not (has_reason zone_status_unknown reasons)
    then reasons ++ zone_status_unknown ∷ []
    else reasons

-- the loop over the zones: the reasons and `blocking_zone`
unfoldable pub scan_zones : List Reason → Bool → List ZoneHit → List Reason × Bool
scan_zones reasons blocking [] = (reasons, blocking)
scan_zones reasons blocking (z ∷ zs) =
    scan_zones (note_zone (is_unresolved z) reasons) (blocking || is_blocking z) zs

-- The reasons in order, each where it stands first; `seen` are the earlier ones.
unfoldable pub unique : List Reason → List Reason → List Reason
unique seen [] = []
unique seen (r ∷ rs) =
    let fresh = r ∷ unique (r ∷ seen) rs in
    let known = unique seen rs in if has_reason r seen then known else fresh

abbrev pub is_some : {A : Type 0} → Option A → Bool
is_some none = false
is_some (some a) = true

-- step 1
abbrev sea_reasons : Bool → Bool → List Reason
sea_reasons height from_term =
    if not (height || from_term)
    then wave_unavailable ∷ sea_state_unknown ∷ []
    else if from_term
    then sea_state_from_category ∷ []
    else []

abbrev one_if : {A : Type 0} → Bool → A → List A
one_if b x = if b then x ∷ [] else []

abbrev pub level_blocks : RiskLevel → Bool
level_blocks RiskLevel.high = true
level_blocks RiskLevel.extreme = true
level_blocks _ = false

abbrev pub level_cautions : RiskLevel → Bool
level_cautions RiskLevel.moderate = true
level_cautions _ = false

module _ {W : Type 0} ⦃f : Float W⦄ where
  -- wave or swell
  abbrev pub has_height : GateInputs W → Bool
  has_height i = valid i.wave_height || valid i.swell_height

  -- step 0: the categorical term, consulted only where there is no height
  unfoldable pub derived : GateInputs W → Option (SeaStateBand W)
  derived i = if has_height i then none else parse_sea_state_category i.sea_state_category

  abbrev category_reasons : GateInputs W → List Reason
  category_reasons i =
      if not (has_height i) && is_some i.sea_state_category && not (is_some (derived i))
      then sea_state_category_unrecognised ∷ []
      else []

  unfoldable pub missing_of : GateInputs W → List MissingInput
  missing_of i =
      one_if (not (has_height i || is_some (derived i))) sea_state
      ++ (one_if (not (valid i.wind_speed)) wind
          ++ one_if (i.require_tide && not (valid i.tide_level)) tide)

  unfoldable pub evidence_reasons : GateInputs W → List Reason
  evidence_reasons i =
      category_reasons i
      ++ (sea_reasons (has_height i) (is_some (derived i))
          ++ (one_if (not (valid i.wind_speed)) wind_unavailable
              ++ (one_if (i.require_tide && not (valid i.tide_level)) tide_unavailable
                  ++ one_if (not i.route_risk_complete) route_risk_incomplete)))

  unfoldable pub zone_scan : GateInputs W → List Reason × Bool
  zone_scan i = scan_zones (evidence_reasons i) false i.restricted_zone_intersections

  unfoldable pub insufficient : GateInputs W → Bool
  insufficient i =
      not (is_empty (missing_of i))
      || not i.route_risk_complete
      || has_reason zone_status_unknown (zone_scan i).0

  -- step 2: the height that is measured, or else the conservative one of the term
  abbrev height_for_risk : GateInputs W → Option W
  height_for_risk i =
      if valid i.wave_height
      then i.wave_height
      else elim (derived i) [ none ↦ none | some b ↦ some (conservative_height_m b) ]

  abbrev pub risk_inputs : GateInputs W → RiskInputs W
  risk_inputs i = record {
    wave_height = height_for_risk i;
    wave_period = i.wave_period;
    swell_height = i.swell_height;
    wind_speed = i.wind_speed;
    wind_gust = i.wind_gust;
    rainfall = i.rainfall;
    pressure = none;
    pressure_trend = i.pressure_trend;
    active_warnings = i.active_warnings;
    cyclone_distance_km = i.cyclone_distance_km;
    valid_from = i.valid_from;
    valid_until = i.valid_until;
    sources = i.sources;
  }

  unfoldable pub gate_risk : GateInputs W → RiskThresholds W → Option (RiskAssessment W)
  gate_risk i t =
      if (has_height i || is_some (derived i)) && valid i.wind_speed
      then some (assess_marine_risk (risk_inputs i) t)
      else none

  abbrev pub risk_blocks : Option (RiskAssessment W) → Bool
  risk_blocks none = false
  risk_blocks (some r) = level_blocks r.risk_level

  abbrev pub risk_cautions : Option (RiskAssessment W) → Bool
  risk_cautions none = false
  risk_cautions (some r) = level_cautions r.risk_level

  -- step 3
  unfoldable pub hazard_reasons : GateInputs W → RiskThresholds W → List Reason
  hazard_reasons i t =
      one_if (not (is_empty i.active_warnings)) active_hazard
      ++ (one_if (zone_scan i).1 restricted_zone_entry
          ++ one_if (risk_blocks (gate_risk i t)) high_env_risk)

  -- step 4
  unfoldable pub decide_status : Bool → Bool → Bool → Bool → SafetyStatus × GateNote W
  decide_status lacking hazard caution from_term =
      if lacking
      then (not_cleared, withheld_missing)
      else if hazard
      then (not_cleared, withheld_hazard)
      else if caution
      then (cleared_with_caution, marginal)
      else if from_term
      then (cleared_with_caution, capped)
      else (cleared, assessed_low)

  unfoldable pub hazardous : GateInputs W → RiskThresholds W → Bool
  hazardous i t = not (is_empty i.active_warnings) || (zone_scan i).1 || risk_blocks (gate_risk i t)

  abbrev category_note : Option (SeaStateBand W) → List (GateNote W)
  category_note none = []
  category_note (some b) = from_category b ∷ []

  unfoldable pub evaluate_safety_gate : GateInputs W → RiskThresholds W → SafetyDecision W
  evaluate_safety_gate i t =
      let risk = gate_risk i t in
      let verdict =
        decide_status (insufficient i) (hazardous i t) (risk_cautions risk) (is_some (derived i)) in
      record {
        safety_status = verdict.0;
        insufficient_data = insufficient i;
        reasons = unique [] ((zone_scan i).0 ++ hazard_reasons i t);
        missing_inputs = missing_of i;
        risk = risk;
        notes = category_note (derived i) ++ verdict.1 ∷ [];
        sea_state_band = derived i;
      }
