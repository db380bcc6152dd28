-- ===== src/Qc/Disposition.antt =====
-- What the disposition of a record depends on.
use ocean_data_engine_fronte.Prelude.{
  ℕ, ◌≡◌, refl, ap, ◌∙◌, inl, inr, String, str_eq, List, [], ◌∷◌, ◌++◌, Bool, true, false, not,
  ◌&&◌, ◌||◌, Option, none, some, arith, is_empty, leb, if◌then◌else◌, Bool-cases,
}
use ocean_data_engine_fronte.Prelude.Float.{Float}
use ocean_data_engine_fronte.Qc.Checks.{
  accepted, rejected, quarantined, QcCheck, DateTime, as_utc, is_hard, status_of, physical_range_of,
  within, is_missing, is_outlier, spatial_ok, temporal_ok, spatial_checks, temporal_checks,
  value_checks, Loaded, load_failed, loaded, no_geometry, geometry_check, window_checks,
  observation_checks, qc_observation, qc_geometry_record, hard_failed_of,
}

abbrev pub time_holds : ℕ → Option DateTime → Bool
time_holds now none = true
time_holds now (some at) = temporal_ok now at

and_assoc : (a b c : Bool) → (a && (b && c)) ≡ ((a && b) && c)
and_assoc true b c = refl
and_assoc false b c = refl

or_false : (a : Bool) → (a || false) ≡ a
or_false true = refl
or_false false = refl

-- no structural check of the list failed
abbrev no_hard : List QcCheck → Bool
no_hard checks = is_empty (hard_failed_of checks)

status_of_lem :
    (cs : List QcCheck) (missing outlier : Bool)
    → status_of cs missing outlier
      ≡ (if no_hard cs then (if outlier || missing then quarantined else accepted) else rejected)
unfolding status_of
status_of_lem cs missing outlier = elim (Bool-cases (no_hard cs)) [
  | inl e ↦ rw e refl
  | inr e ↦ rw e refl
]

no_hard-cons :
    (c : QcCheck) (cs : List QcCheck)
    → no_hard (c ∷ cs) ≡ ((c.passed || not (is_hard c.name)) && no_hard cs)
no_hard-cons c cs = ground arith

no_hard-append : (xs ys : List QcCheck) → no_hard (xs ++ ys) ≡ (no_hard xs && no_hard ys)
no_hard-append [] ys = refl
no_hard-append (c ∷ xs) ys =
    rw (no_hard-cons c (xs ++ ys), no_hard-cons c xs, no_hard-append xs ys)
      (and_assoc (c.passed || not (is_hard c.name)) (no_hard xs) (no_hard ys))

no_hard-temporal_checks :
    (now : ℕ) (observed_at : Option DateTime)
    → no_hard (temporal_checks now observed_at) ≡ time_holds now observed_at
no_hard-temporal_checks now none = refl
no_hard-temporal_checks now (some at) = ground arith

swapped :
    (b : Bool)
    → (if not b || false then quarantined else accepted) ≡ (if b then accepted else quarantined)
swapped true = refl
swapped false = refl

module _ {W : Type 0} ⦃f : Float W⦄ where
  -- The metadata hold: a parameter's name, coordinates that are both missing or both in range, and
  -- an instant that is not in the future.
  abbrev coordinates_hold : Option W → Option W → Bool
  coordinates_hold latitude longitude =
      (is_missing latitude && is_missing longitude) || spatial_ok latitude longitude

  abbrev pub metadata_hold : String → Option W → Option W → Option DateTime → ℕ → Bool
  metadata_hold parameter latitude longitude observed_at now =
      not (str_eq parameter "")
      && (coordinates_hold latitude longitude && time_holds now observed_at)

  -- Where there is a value, it lies within the range of its parameter; where there is none, no.
  abbrev pub value_holds : String → Option W → Bool
  value_holds parameter none = false
  value_holds parameter (some v) = within (physical_range_of parameter) v

  no_hard-value_checks :
      (parameter : String) (value : Option W) → no_hard (value_checks parameter value) ≡ true
  no_hard-value_checks parameter none = refl
  no_hard-value_checks parameter (some v) = ground arith

  no_hard-spatial_checks :
      (latitude longitude : Option W)
      → no_hard (spatial_checks latitude longitude) ≡ coordinates_hold latitude longitude
  no_hard-spatial_checks latitude longitude =
      elim (Bool-cases (is_missing latitude && is_missing longitude)) [
        | inl e ↦ rw e refl
        | inr e ↦ rw e (ground arith)
      ]

  no_hard-observation :
      (parameter : String) (value latitude longitude : Option W) (observed_at : Option DateTime)
      (now : ℕ)
      → no_hard (observation_checks parameter value latitude longitude observed_at now)
        ≡ metadata_hold parameter latitude longitude observed_at now
  no_hard-observation parameter value latitude longitude observed_at now = rw no_hard-cons (
      rw no_hard-append (
        rw no_hard-append (
          rw (no_hard-value_checks, no_hard-spatial_checks, no_hard-temporal_checks, or_false)
            refl)))

  -- A scalar record is rejected exactly where its metadata do not hold, quarantined where they hold
  -- and the value is missing or out of its range, and accepted otherwise.
  pub qc_observation_status :
      (parameter : String) (value latitude longitude : Option W) (observed_at : Option DateTime)
      (now : ℕ) (interpolated : Bool)
      → (qc_observation parameter value latitude longitude observed_at now interpolated).status ≡ (
          if metadata_hold parameter latitude longitude observed_at now
          then (if value_holds parameter value then accepted else quarantined)
          else rejected)
  unfolding qc_observation
  qc_observation_status parameter none latitude longitude observed_at now interpolated =
      status_of_lem (observation_checks parameter none latitude longitude observed_at now) true
        false
      ∙ rw (no_hard-observation parameter none latitude longitude observed_at now) refl
  qc_observation_status parameter (some v) latitude longitude observed_at now interpolated =
      status_of_lem (observation_checks parameter (some v) latitude longitude observed_at now) false
        (is_outlier parameter (some v))
      ∙ rw (no_hard-observation parameter (some v) latitude longitude observed_at now) (
          ap
            (λ x.
              if metadata_hold parameter latitude longitude observed_at now then x else rejected)
            (swapped (within (physical_range_of parameter) v)))

abbrev pub geometry_holds : Option Loaded → Bool
geometry_holds none = true
geometry_holds (some load_failed) = false
geometry_holds (some (loaded v e)) = v || not e

abbrev pub window_holds : Option DateTime → Option DateTime → Bool
window_holds (some from) (some until) = leb (as_utc from) (as_utc until)
window_holds _ _ = true

no_hard-geometry :
    (g : Option Loaded) (from until : Option DateTime)
    → no_hard (geometry_check g ∷ window_checks from until)
      ≡ (geometry_holds g && window_holds from until)
no_hard-geometry g from until = ground arith

-- A record with a geometry is rejected exactly where its geometry cannot be loaded or is both invalid
-- and empty, or its validity ends before it begins; quarantined where it only has no geometry;
-- and accepted otherwise.
pub qc_geometry_status :
    (W : Type 0) ⦃f : Float W⦄ (g : Option Loaded) (from until : Option DateTime)
    → (qc_geometry_record {W = W} g from until).status ≡ (
        if geometry_holds g && window_holds from until
        then (if no_geometry g then quarantined else accepted)
        else rejected)
unfolding qc_geometry_record
qc_geometry_status W g from until =
    status_of_lem (geometry_check g ∷ window_checks from until) (no_geometry g) false
    ∙ rw no_hard-geometry refl
