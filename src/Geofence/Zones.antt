-- ===== src/Geofence/Zones.antt =====
-- services/geofence.py, over the table of marine zones that the ingestion fills. The predicates of shapely are fields
-- of `Shapely`, and `none` where they raise.
use ocean_data_engine_fronte.Prelude.{
  ℕ, String, List, [], ◌∷◌, map, Bool, true, false, not, ◌&&◌, Option, none, some, ltb, ◌==◌,
  length, keep, any, if◌then◌else◌,
}
use ocean_data_engine_fronte.Prelude.Float.{Float}
use ocean_data_engine_fronte.Prelude.Text.{codes, text_eq, strip, lower}
use ocean_data_engine_fronte.Qc.Checks.{DateTime, as_utc}
use ocean_data_engine_fronte.Ingestion.Parsed.{ParsedMarineZone}
use ocean_data_engine_fronte.Ingestion.Tables.{Upserted}

pub record Shapely (W G : Type 0) : Type 0 where
  -- point_in_geometry(lat, lon, g) and nearest_geometry_distance_km(lat, lon, g)
  pub contains : W → W → G → Option Bool
  pub distance : W → W → G → Option W
  -- whether load_geometry(g) succeeds, and whether two loaded geometries intersect
  pub loads : G → Bool
  pub intersects : G → G → Bool

-- a row of the table of marine zones
abbrev pub Zone : Type 0 → Type 0
Zone G = Upserted (ParsedMarineZone G)

pub record ZoneSummary (W G : Type 0) : Type 0 where
  pub zone : Zone G
  pub distance_km : Option W
  pub inside : Option Bool

-- the sentinel of one element, or the zones found
pub data Answer (W G : Type 0) : Type 0 where
  source_gap : Answer W G
  found : List (ZoneSummary W G) → Answer W G

-- at < start is refused, as is at > end
abbrev pub not_before : Option DateTime → ℕ → Bool
not_before none now = true
not_before (some start) now = not (ltb now (as_utc start))

abbrev pub not_after : Option DateTime → ℕ → Bool
not_after none now = true
not_after (some until) now = not (ltb (as_utc until) now)

-- the aliases of the four groups of `zone_coverage`
abbrev pub groups : List (String × List String)
groups =
    ("eez_boundary", "eez" ∷ "boundary" ∷ "international_boundary" ∷ [])
    ∷ ("marine_protected_area", "mpa" ∷ "marine_protected_area" ∷ "protected" ∷ [])
    ∷ ("restricted_area", "restricted" ∷ "no_fishing" ∷ "exclusion" ∷ [])
    ∷ ("naval_firing_area", "naval" ∷ "firing_range" ∷ "naval_firing_range" ∷ [])
    ∷ []

pub record Coverage : Type 0 where
  pub group : String
  pub status : String
  pub feature_count : ℕ

module _ {G : Type 0} where
  unfoldable pub effective : Zone G → ℕ → Bool
  effective z now =
      if not_before z.parsed.effective_from now
      then not_after z.parsed.effective_until now
      else false

  abbrev pub in_group : List String → Zone G → Bool
  in_group aliases z =
      any (λ alias. text_eq (lower (strip (codes z.parsed.zone_type))) (codes alias)) aliases

  abbrev pub count_features : ℕ → List (Zone G) → List String → ℕ
  count_features now zones aliases =
      length (keep (λ z. effective z now && in_group aliases z) zones)

  unfoldable pub zone_coverage : ℕ → List (Zone G) → List Coverage
  zone_coverage now zones =
      map
        (λ g.
          let count = count_features now zones g.1 in
          record {
            group = g.0;
            status = if count == 0 then "not_loaded" else "available";
            feature_count = count;
          })
        groups

module _ {W : Type 0} ⦃f : Float W⦄ where
  abbrev pub zero_km : Option W
  zero_km = some (f.round (f.lit 0 1) 3)

  -- the distance and whether the point is inside, where neither call raises and the zone is not farther
  abbrev pub within_radius : W → Option W → Option Bool → Option (W × Bool)
  within_radius radius (some distance) (some inside) =
      if f.lt radius distance then none else some (distance, inside)
  within_radius radius _ _ = none

module _ {W G : Type 0} ⦃f : Float W⦄ where
  abbrev pub summary : Zone G → Option W → Option Bool → ZoneSummary W G
  summary z distance inside = record { zone = z; distance_km = distance; inside = inside }

  abbrev pub put_near :
      Zone G → Option (W × Bool) → List (W × ZoneSummary W G) → List (W × ZoneSummary W G)
  put_near z none rest = rest
  put_near z (some (distance, inside)) rest =
      (f.round distance 3, summary z (some (f.round distance 3)) (some inside)) ∷ rest

  abbrev pub when_loaded : List (Zone G) → List (ZoneSummary W G) → Answer W G
  when_loaded [] out = source_gap
  when_loaded (z ∷ zones) out = found out

  -- before the first entry that is not nearer, so that equal distances keep their order
  unfoldable pub insert_near :
      W × ZoneSummary W G → List (W × ZoneSummary W G) → List (W × ZoneSummary W G)
  insert_near s [] = s ∷ []
  insert_near s (t ∷ ts) =
      let rest = insert_near s ts in if f.lt t.0 s.0 then t ∷ rest else s ∷ t ∷ ts

  unfoldable pub sort_near : List (W × ZoneSummary W G) → List (W × ZoneSummary W G)
  sort_near [] = []
  sort_near (s ∷ ss) = insert_near s (sort_near ss)

module _ {W G : Type 0} ⦃f : Float W⦄ (shapely : Shapely W G) (now : ℕ) where
  -- point_in_geometry, where it does not raise
  abbrev pub holds_point : W → W → Option G → Bool
  holds_point lat lon none = false
  holds_point lat lon (some g) = elim (shapely.contains lat lon g) [
    | none ↦ false
    | some inside ↦ inside
  ]

  unfoldable pub containing : W → W → List (Zone G) → List (ZoneSummary W G)
  containing lat lon [] = []
  containing lat lon (z ∷ zones) =
      let rest = containing lat lon zones in
      if effective z now && holds_point lat lon z.parsed.geometry
      then summary z zero_km (some true) ∷ rest
      else rest

  unfoldable pub check_point_in_zones : W → W → List (Zone G) → Answer W G
  check_point_in_zones lat lon zones = when_loaded zones (containing lat lon zones)

  abbrev pub near_point : W → W → W → Option G → Option (W × Bool)
  near_point lat lon radius none = none
  near_point lat lon radius (some g) =
      within_radius radius (shapely.distance lat lon g) (shapely.contains lat lon g)

  -- each with its rounded distance, by which the result is sorted
  unfoldable pub nearby : W → W → W → List (Zone G) → List (W × ZoneSummary W G)
  nearby lat lon radius [] = []
  nearby lat lon radius (z ∷ zones) =
      let rest = nearby lat lon radius zones in
      if effective z now
      then put_near z (near_point lat lon radius z.parsed.geometry) rest
      else rest

  unfoldable pub find_nearby_zones : W → W → W → List (Zone G) → Answer W G
  find_nearby_zones lat lon radius zones =
      when_loaded zones (map (λ s. s.1) (sort_near (nearby lat lon radius zones)))

  abbrev pub meets : G → Option G → Bool
  meets probe none = false
  meets probe (some g) = if shapely.loads g then shapely.intersects probe g else false

  unfoldable pub meeting : G → List (Zone G) → List (ZoneSummary W G)
  meeting probe [] = []
  meeting probe (z ∷ zones) =
      let rest = meeting probe zones in
      if effective z now && meets probe z.parsed.geometry
      then summary z zero_km none ∷ rest
      else rest

  -- `none` for the ValueError of a geometry that cannot be loaded
  unfoldable pub find_route_intersections : G → List (Zone G) → Option (Answer W G)
  find_route_intersections geometry zones =
      if shapely.loads geometry then some (when_loaded zones (meeting geometry zones)) else none
