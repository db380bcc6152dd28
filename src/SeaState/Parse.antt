-- ===== src/SeaState/Parse.antt =====
-- domain/sea_state.py. The texts are lists of code points.
use ocean_data_engine_fronte.Prelude.{
  ℕ, String, List, [], ◌∷◌, Bool, ◌||◌, not, Option, none, some, map, keep, is_empty, ltb, ◌==◌,
  any, if◌then◌else◌,
}
use ocean_data_engine_fronte.Prelude.Text.{
  Text, codes, text_eq, strip, rstrip, lower, split, join, has_text, split_sep,
}
use ocean_data_engine_fronte.Prelude.Float.{Float}

-- _WMO_3700, by the code; a table of ten rows
abbrev pub wmo_label : ℕ → String
wmo_label c =
    if c == 0
    then "calm_glassy"
    else if c == 1
    then "calm_rippled"
    else if c == 2
    then "smooth"
    else if c == 3
    then "slight"
    else if c == 4
    then "moderate"
    else if c == 5
    then "rough"
    else if c == 6
    then "very_rough"
    else if c == 7
    then "high"
    else if c == 8
    then "very_high"
    else "phenomenal"

-- the bounds in hundredths of a metre
abbrev pub wmo_lower : ℕ → ℕ
wmo_lower c =
    if c == 0
    then 0
    else if c == 1
    then 0
    else if c == 2
    then 10
    else if c == 3
    then 50
    else if c == 4
    then 125
    else if c == 5
    then 250
    else if c == 6
    then 400
    else if c == 7
    then 600
    else if c == 8
    then 900
    else 1400

abbrev pub wmo_upper : ℕ → ℕ
wmo_upper c =
    if c == 0
    then 0
    else if c == 1
    then 10
    else if c == 2
    then 50
    else if c == 3
    then 125
    else if c == 4
    then 250
    else if c == 5
    then 400
    else if c == 6
    then 600
    else if c == 7
    then 900
    else 1400

abbrev term_table : List (String × ℕ)
term_table =
    ("calm", 0)
    ∷ ("calm glassy", 0)
    ∷ ("glassy", 0)
    ∷ ("calm rippled", 1)
    ∷ ("rippled", 1)
    ∷ ("smooth", 2)
    ∷ ("smooth wavelets", 2)
    ∷ ("wavelets", 2)
    ∷ ("slight", 3)
    ∷ ("moderate", 4)
    ∷ ("rough", 5)
    ∷ ("very rough", 6)
    ∷ ("high", 7)
    ∷ ("very high", 8)
    ∷ ("phenomenal", 9)
    ∷ []

abbrev look_up : Text → List (String × ℕ) → Option ℕ
look_up term [] = none
look_up term ((name, c) ∷ rows) =
    let rest = look_up term rows in if text_eq term (codes name) then some c else rest

-- _TERM_TO_CODE.get(term)
unfoldable pub term_to_code : Text → Option ℕ
term_to_code term = look_up term term_table

abbrev span_separators : List Text
span_separators = codes " becoming " ∷ codes " to " ∷ codes " or " ∷ codes "/" ∷ codes "-" ∷ []

-- the punctuation of `rstrip(".;,:")`
abbrev is_trailing : ℕ → Bool
is_trailing c = c == b'.' || c == b';' || c == b',' || c == b':'

unfoldable pub collapse : Text → Text
unfolding strip split join
collapse term = strip (join (split term))

unfoldable pub normalise : Text → Text
unfolding collapse lower
normalise term = strip (rstrip is_trailing (lower (collapse term)))

abbrev filled : List Text → List Text
filled parts = keep (λ p. not (is_empty p)) (map strip parts)

abbrev split_first : List Text → Text → List Text
split_first [] normalised = normalised ∷ []
split_first (sep ∷ seps) normalised =
    let rest = split_first seps normalised in
    if has_text normalised sep then filled (split_sep sep normalised) else rest

unfoldable pub split_span : Text → List Text
unfolding strip split_sep
split_span normalised = split_first span_separators normalised

-- The loop over the parts: the first unknown part refuses the whole term.
unfoldable pub codes_of : List Text → Option (List ℕ)
codes_of [] = some []
codes_of (p ∷ ps) = elim (term_to_code p) [
  | none ↦ none
  | some c ↦ elim (codes_of ps) [ none ↦ none | some cs ↦ some (c ∷ cs) ]
]

-- tuple(sorted(set(codes)))
unfoldable pub insert_code : ℕ → List ℕ → List ℕ
insert_code c [] = c ∷ []
insert_code c (d ∷ ds) =
    if ltb c d then c ∷ d ∷ ds else if c == d then d ∷ ds else d ∷ insert_code c ds

unfoldable pub sorted_set : List ℕ → List ℕ
unfolding insert_code
sorted_set [] = []
sorted_set (c ∷ cs) = insert_code c (sorted_set cs)

pub record SeaStateBand (W : Type 0) : Type 0 where
  pub category : Text
  pub normalised : Text
  pub band_codes : List ℕ
  pub labels : List String
  pub min_height_m : W
  pub max_height_m : W
  pub open_ended : Bool

module _ {W : Type 0} ⦃f : Float W⦄ where
  abbrev pub lower_bound : ℕ → W
  lower_bound c = f.lit (wmo_lower c) 100

  abbrev pub upper_bound : ℕ → W
  upper_bound c = f.lit (wmo_upper c) 100

  -- min(…) and max(…) of values that follow a first one
  unfoldable pub min_of : W → List ℕ → W
  min_of m [] = m
  min_of m (c ∷ cs) = min_of (if f.lt (lower_bound c) m then lower_bound c else m) cs

  unfoldable pub max_of : W → List ℕ → W
  max_of m [] = m
  max_of m (c ∷ cs) = max_of (if f.lt m (upper_bound c) then upper_bound c else m) cs

  abbrev pub conservative_height_m : SeaStateBand W → W
  conservative_height_m b = b.max_height_m

  -- no code at all, from a term of separators alone, is refused too
  unfoldable pub band_of : Text → Text → List ℕ → Option (SeaStateBand W)
  unfolding min_of max_of
  band_of category normalised [] = none
  band_of category normalised (c ∷ cs) = some (record {
    category = category;
    normalised = normalised;
    band_codes = c ∷ cs;
    labels = map wmo_label (c ∷ cs);
    min_height_m = min_of (lower_bound c) cs;
    max_height_m = max_of (upper_bound c) cs;
    open_ended = any (λ d. d == 9) (c ∷ cs);
  })

  abbrev pub parse_parts : Text → Text → Option (SeaStateBand W)
  parse_parts category normalised = elim (codes_of (split_span normalised)) [
    | none ↦ none
    | some cs ↦ band_of category normalised (sorted_set cs)
  ]

  abbrev pub parse_category : Text → Option (SeaStateBand W)
  parse_category category =
      let normalised = normalise category in
      if is_empty category
      then none
      else if is_empty normalised
      then none
      else parse_parts category normalised

  unfoldable pub parse_sea_state_category : Option Text → Option (SeaStateBand W)
  unfolding collapse normalise split_span codes_of sorted_set band_of term_to_code
  parse_sea_state_category none = none
  parse_sea_state_category (some term) = parse_category (collapse term)
