-- ===== src/Route/Earth.antt =====
-- domain/geo.py `haversine_km` and `bearing_deg`, domain/crs.py `validate_wgs84_bounds` and `ensure_wgs84_point`,
-- domain/units.py, and `_interpolate_great_circle` of services/routing.py. The functions of `math` and the remainder of floats
-- are fields of `Trig`.
use ocean_data_engine_fronte.Prelude.{
  ℕ, String, str_eq, Bool, true, false, not, ◌&&◌, ◌||◌, Option, none, some, if◌then◌else◌,
}
use ocean_data_engine_fronte.Prelude.Float.{Float, zero_}

pub record Trig (W : Type 0) : Type 0 where
  pub radians : W → W
  pub degrees : W → W
  pub sin : W → W
  pub cos : W → W
  pub asin : W → W
  pub atan2 : W → W → W
  pub sqrt : W → W
  -- x % y and math.ceil(x)
  pub remainder : W → W → W
  pub ceil : W → ℕ

module _ {W : Type 0} ⦃f : Float W⦄ where
  -- x == 0
  abbrev pub is_zero : W → Bool
  is_zero x = f.le x zero_ && f.le zero_ x

  abbrev pub between : W → W → Bool
  between limit x = f.le (f.neg limit) x && f.le x limit

  -- domain/units.py: a missing value stays missing and NaN stays NaN
  abbrev pub converted : (W → W) → Option W → Option W
  converted g none = none
  converted g (some x) = if f.isnan x then some x else some (g x)

  abbrev kelvin_offset : W
  kelvin_offset = f.lit 27315 100

  abbrev knots_to_ms_factor : W
  knots_to_ms_factor = f.lit 514444 1_000_000

  abbrev pa_per_hpa : W
  pa_per_hpa = f.lit 100 1

  unfoldable pub kelvin_to_celsius : Option W → Option W
  kelvin_to_celsius k = converted (λ x. f.sub x kelvin_offset) k

  unfoldable pub celsius_to_kelvin : Option W → Option W
  celsius_to_kelvin c = converted (λ x. f.add x kelvin_offset) c

  unfoldable pub knots_to_ms : Option W → Option W
  knots_to_ms knots = converted (λ x. f.mul x knots_to_ms_factor) knots

  unfoldable pub ms_to_knots : Option W → Option W
  ms_to_knots ms = converted (λ x. f.div x knots_to_ms_factor) ms

  unfoldable pub pascal_to_hpa : Option W → Option W
  pascal_to_hpa pa = converted (λ x. f.div x pa_per_hpa) pa

  unfoldable pub hpa_to_pascal : Option W → Option W
  hpa_to_pascal hpa = converted (λ x. f.mul x pa_per_hpa) hpa

  module _ (trig : Trig W) where
    abbrev square : W → W
    square x = f.mul x x

    abbrev half : W → W
    half x = f.div x (f.lit 2 1)

    abbrev wrap : W → W
    wrap lon = f.sub (trig.remainder (f.add lon (f.lit 180 1)) (f.lit 360 1)) (f.lit 180 1)

    unfoldable pub normalize_longitude : Option W → Option W
    normalize_longitude lon = converted wrap lon

    abbrev is_missing : Option W → Bool
    is_missing none = true
    is_missing (some x) = f.isnan x

    abbrev magnitude : Option W → Option W → Option W
    magnitude (some u) (some v) = some (trig.sqrt (f.add (f.mul u u) (f.mul v v)))
    magnitude _ _ = none

    unfoldable pub speed_from_uv : Option W → Option W → Option W
    speed_from_uv u v = if is_missing u || is_missing v then none else magnitude u v

    abbrev turn : W → W
    turn x = trig.remainder x (f.lit 360 1)

    abbrev heading_of : Bool → Option W → Option W → Option W
    heading_of meteorological (some u) (some v) =
        let heading = turn (f.add (trig.degrees (trig.atan2 u v)) (f.lit 360 1)) in
        some (if meteorological then turn (f.add heading (f.lit 180 1)) else heading)
    heading_of meteorological _ _ = none

    -- the outer `none` is the ValueError of an unknown convention
    unfoldable pub direction_from_uv : Option W → Option W → String → Option (Option W)
    direction_from_uv u v convention =
        if not (str_eq convention "oceanographic" || str_eq convention "meteorological")
        then none
        else if is_missing u || is_missing v
        then some none
        else some (heading_of (str_eq convention "meteorological") u v)

    abbrev within_wgs84 : Option W → Option W → Bool
    within_wgs84 (some lat) (some lon) =
        f.isfinite lat && f.isfinite lon && (between (f.lit 90 1) lat && between (f.lit 180 1) lon)
    within_wgs84 _ _ = false

    unfoldable pub validate_wgs84_bounds : Option W → Option W → Bool
    validate_wgs84_bounds lat lon =
        if is_missing lat || is_missing lon then false else within_wgs84 lat lon

    -- `none` for a ValueError
    unfoldable pub ensure_wgs84_point : W → W → Option (W × W)
    ensure_wgs84_point lat lon =
        if f.isnan lat || f.isnan lon
        then none
        else if between (f.lit 90 1) lat
        then some (lat, wrap lon)
        else none

    unfoldable pub haversine_km : W → W → W → W → W
    haversine_km lat1 lon1 lat2 lon2 =
        let rlat1 = trig.radians lat1 in
        let rlat2 = trig.radians lat2 in
        let dlat = trig.radians (f.sub lat2 lat1) in
        let dlon = trig.radians (f.sub lon2 lon1) in
        let a =
          f.add (square (trig.sin (half dlat)))
            (f.mul (f.mul (trig.cos rlat1) (trig.cos rlat2)) (square (trig.sin (half dlon)))) in
        f.mul (f.mul (f.lit 2 1) (f.lit 63710088 10000)) (trig.asin (trig.sqrt a))

    unfoldable pub bearing_deg : W → W → W → W → W
    bearing_deg lat1 lon1 lat2 lon2 =
        let rlat1 = trig.radians lat1 in
        let rlat2 = trig.radians lat2 in
        let dlon = trig.radians (f.sub lon2 lon1) in
        let x = f.mul (trig.sin dlon) (trig.cos rlat2) in
        let y =
          f.sub (f.mul (trig.cos rlat1) (trig.sin rlat2))
            (f.mul (f.mul (trig.sin rlat1) (trig.cos rlat2)) (trig.cos dlon)) in
        turn (f.add (trig.degrees (trig.atan2 x y)) (f.lit 360 1))

    unfoldable pub interpolate_great_circle : W → W → W → W → W → W × W
    interpolate_great_circle lat1 lon1 lat2 lon2 fraction =
        let phi1 = trig.radians lat1 in
        let lam1 = trig.radians lon1 in
        let phi2 = trig.radians lat2 in
        let lam2 = trig.radians lon2 in
        let d = f.mul (f.lit 2 1) (
          trig.asin (
            trig.sqrt (
              f.add (square (trig.sin (half (f.sub phi2 phi1)))) (
                f.mul (f.mul (trig.cos phi1) (trig.cos phi2))
                  (square (trig.sin (half (f.sub lam2 lam1)))))))) in
        let a = f.div (trig.sin (f.mul (f.sub (f.lit 1 1) fraction) d)) (trig.sin d) in
        let b = f.div (trig.sin (f.mul fraction d)) (trig.sin d) in
        let x =
          f.add (f.mul (f.mul a (trig.cos phi1)) (trig.cos lam1))
            (f.mul (f.mul b (trig.cos phi2)) (trig.cos lam2)) in
        let y =
          f.add (f.mul (f.mul a (trig.cos phi1)) (trig.sin lam1))
            (f.mul (f.mul b (trig.cos phi2)) (trig.sin lam2)) in
        let z = f.add (f.mul a (trig.sin phi1)) (f.mul b (trig.sin phi2)) in
        let phi = trig.atan2 z (trig.sqrt (f.add (f.mul x x) (f.mul y y))) in
        if is_zero d then (lat1, lon1) else (trig.degrees phi, trig.degrees (trig.atan2 y x))
