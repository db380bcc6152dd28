-- ===== src/Units/Labels.antt =====
-- domain/unit_labels.py: the synonyms of units, `canonical_unit`, `extract_unit_from_long_name` and `require_unit`; and
-- domain/normalize.py. `none` stands for an UnknownUnitError. Upper and lower case are those of ASCII letters.
use ocean_data_engine_fronte.Prelude.{
  ℕ, ◌-◌, map, String, List, [], ◌∷◌, Bool, true, false, ◌&&◌, ◌||◌, Option, none, some, any, leb,
  ◌==◌, if◌then◌else◌,
}
use mathlib.Core.List.{reverse}
use ocean_data_engine_fronte.Prelude.Text.{
  Text, codes, text_eq, strip, lower, lstrip, is_space, size,
}
use ocean_data_engine_fronte.Prelude.Float.{Float}
use ocean_data_engine_fronte.Route.Earth.{Trig, kelvin_to_celsius, knots_to_ms, pascal_to_hpa}

-- `_SYNONYMS`, with no synonym of two units
abbrev pub synonyms : List (String × List String)
synonyms =
    ("m", "m" ∷ "meter" ∷ "meters" ∷ "metre" ∷ "metres" ∷ "m." ∷ "[m]" ∷ [])
    ∷ ("s", "s" ∷ "sec" ∷ "secs" ∷ "second" ∷ "seconds" ∷ "[s]" ∷ [])
    ∷ (
      "m/s",
      "m/s" ∷ "m s-1" ∷ "m s^-1" ∷ "m.s-1" ∷ "ms-1" ∷ "meter/second" ∷ "meters/second"
          ∷ "metre/second" ∷ "metres/second" ∷ "[m/s]" ∷ [],
    )
    ∷ ("deg", "deg" ∷ "degree" ∷ "degrees" ∷ "deg." ∷ "degs" ∷ "[deg]" ∷ [])
    ∷ ("degrees_north", "degrees_north" ∷ "degree_north" ∷ [])
    ∷ ("degrees_east", "degrees_east" ∷ "degree_east" ∷ [])
    ∷ ("hz", "hz" ∷ "hertz" ∷ "s-1" ∷ "[hz]" ∷ [])
    ∷ ("rad", "rad" ∷ "radian" ∷ "radians" ∷ "[rad]" ∷ [])
    ∷ ("hpa", "hpa" ∷ "hectopascal" ∷ "hectopascals" ∷ "mbar" ∷ "millibar" ∷ "millibars" ∷ [])
    ∷ (
      "degc",
      "degc" ∷ "deg_c" ∷ "deg c" ∷ "degree_celsius" ∷ "degrees_celsius" ∷ "celsius" ∷ "c" ∷ "°c"
          ∷ [],
    )
    ∷ ("mm", "mm" ∷ "millimeter" ∷ "millimeters" ∷ "millimetre" ∷ "millimetres" ∷ [])
    ∷ ("1", "1" ∷ "-" ∷ "none" ∷ "dimensionless" ∷ "unitless" ∷ "" ∷ [])
    ∷ []

abbrev pub among : Text → List String → Bool
among key names = any (λ n. text_eq (codes n) key) names

-- `_LOOKUP`
unfoldable pub find_unit : Text → List (String × List String) → Option Text
find_unit key [] = none
find_unit key ((canon, names) ∷ rows) =
    let rest = find_unit key rows in if among key names then some (codes canon) else rest

unfoldable pub canonical_unit : Option Text → Option Text
unfolding find_unit
canonical_unit none = none
canonical_unit (some label) = find_unit (lower (strip label)) synonyms

abbrev is_paren : ℕ → Bool
is_paren c = c == b'(' || c == b')'

-- from the text of the group read backwards, up to the bracket that opens it
abbrev group_from : Text → Text → Option Text
group_from group [] = none
group_from group (c ∷ text) =
    let inside = group_from (c ∷ group) text in
    if c == b'(' then some group else if is_paren c then none else inside

-- a group of 1 to 20 code points
abbrev fitting : Option Text → Option Text
fitting none = none
fitting (some group) = if leb 1 (size group) && leb (size group) 20 then some group else none

abbrev closed_group : Text → Option Text
closed_group [] = none
closed_group (c ∷ text) = if c == b')' then fitting (group_from [] text) else none

-- the search for r"\(([^()]{1,20})\)\s*$"
unfoldable pub trailing_group : Text → Option Text
trailing_group text = closed_group (lstrip is_space (reverse text))

abbrev unit_of_group : Option Text → Option Text
unit_of_group none = none
unit_of_group (some group) = canonical_unit (some group)

abbrev is_blank : Text → Bool
is_blank [] = true
is_blank (c ∷ text) = false

unfoldable pub extract_unit_from_long_name : Option Text → Option Text
unfolding canonical_unit trailing_group
extract_unit_from_long_name none = none
extract_unit_from_long_name (some long_name) =
    if is_blank long_name then none else unit_of_group (trailing_group long_name)

-- the UnknownUnitError, the UnitContractError with what the label resolved to, or the unit
pub data Required : Type 0 where
  unknown_unit : Required
  contract_violated : Text → Required
  required : Text → Required

abbrev pub meets_contract : Text → Option Text → Required
meets_contract want none = unknown_unit
meets_contract want (some resolved) =
    if text_eq resolved want then required resolved else contract_violated resolved

unfoldable pub require_unit : Option Text → Text → Required
require_unit label expected = meets_contract (lower (strip expected)) (canonical_unit label)

-- str.upper(), on the letters of ASCII
abbrev upper_code : ℕ → ℕ
upper_code c = if leb b'a' c && leb c b'z' then c - 32 else c

abbrev pub upper : Text → Text
upper text = map upper_code text

module _ {W : Type 0} ⦃f : Float W⦄ where
  abbrev of_some : W → Option W → W
  of_some x none = x
  of_some x (some y) = y

  unfoldable pub normalize_sst : W → Text → W × String
  normalize_sst value unit = (
    if among (upper unit) ("K" ∷ "KELVIN" ∷ [])
        then of_some value (kelvin_to_celsius (some value))
        else value,
    "degC",
  )

  unfoldable pub normalize_wind : W → Text → W × String
  normalize_wind value unit = (
    if among (lower unit) ("knots" ∷ "knot" ∷ "kn" ∷ "kt" ∷ "kts" ∷ [])
        then of_some value (knots_to_ms (some value))
        else value,
    "m/s",
  )

  unfoldable pub normalize_pressure : W → Text → W × String
  normalize_pressure value unit = (
    if among (upper unit) ("PA" ∷ "PASCAL" ∷ "PASCALS" ∷ [])
        then of_some value (pascal_to_hpa (some value))
        else value,
    "hPa",
  )

  unfoldable pub normalize_wave_direction : Trig W → W → Option Text → W × Text
  normalize_wave_direction trig value none = (value, codes "UNKNOWN")
  normalize_wave_direction trig value (some convention) =
      if text_eq (upper convention) (codes "UNKNOWN")
      then (value, codes "UNKNOWN")
      else (trig.remainder value (f.lit 360 1), convention)
