-- ===== src/Examples/Routes.antt =====
-- Routes at concrete values. The trigonometry is replaced by identities.
use ocean_data_engine_fronte.Prelude.{
  ℕ, ◌≤◌, ◌≡◌, refl, inl, List, [], ◌∷◌, map, true, Option, none, some, length, All,
}
use ocean_data_engine_fronte.Prelude.Json.{done}
use ocean_data_engine_fronte.Prelude.Fixed.{Fixed, fixed_float}
use ocean_data_engine_fronte.Qc.Checks.{aware}
use ocean_data_engine_fronte.Risk.Thresholds.{default_thresholds}
use ocean_data_engine_fronte.Geofence.Zones.{ZoneSummary, Answer, found}
use ocean_data_engine_fronte.Route.Earth.{Trig, haversine_km}
use ocean_data_engine_fronte.Route.Parts.{RouteRequest, Environment, no_environment, listed, label}
use ocean_data_engine_fronte.Route.Defs.{route_between, segment_count, vertices_of}
use ocean_data_engine_fronte.Route.Legs.{ends_of, pairs, route_between-joined}
use ocean_data_engine_fronte.Route.Screened.{CarriesZone, route_between-screened}

abbrev flat : Trig Fixed
flat = record {
  radians = λ x. x;
  degrees = λ x. x;
  sin = λ x. x;
  cos = λ x. some 1000;
  asin = λ x. x;
  atan2 = λ y x. y;
  sqrt = λ x. x;
  remainder = λ x y. x;
  ceil = λ x. 3;
}

abbrev firing_range : ZoneSummary Fixed ℕ
firing_range = record {
  zone = record {
    uid = "nav-1";
    parsed = record {
      zone_uid = "nav-1";
      zone_type = "naval";
      name = "";
      geometry = some 0;
      status = none;
      restriction = none;
      authority = none;
      effective_from = none;
      effective_until = none;
      provider = "operator";
      source_dataset = "zones";
      source_url = none;
      source_metadata = done;
    };
    source_url = none;
    retrieved_at = aware 5;
    updated_at = 6;
  };
  distance_km = none;
  inside = none;
}

abbrev one_zone : List (Fixed × Fixed) → Option (Answer Fixed ℕ)
one_zone coordinates = some (found (firing_range ∷ []))

-- a rough sea, and no answer in the south
abbrev rough_sea : Fixed → Fixed → Option (ℕ × Fixed) → Option (Environment Fixed)
rough_sea none lon eta = none
rough_sea (some lat) lon eta =
    some
      (record no_environment { wave_height = some (some 5000); current_speed = some (some 2000) })

abbrev request : RouteRequest Fixed ℕ
request = record {
  start = (some 8000, some 77000);
  end = (some 9000, some 79000);
  departure_time = some 100;
  vessel_type = "trawler";
  vessel_speed_knots = some 10000;
  thresholds = default_thresholds;
  segment_km = some 50000;
  env_sampler = some rough_sea;
  zone_checker = some one_zone;
  sources = [];
}

abbrev start : Fixed × Fixed
start = (some 8000, some 77000)

abbrev harbour : Fixed × Fixed
harbour = (some 9000, some 79000)

route_between-joined_example :
    (map ends_of (route_between flat request start harbour).segments
      ≡ pairs (
          vertices_of flat request start harbour (
            segment_count flat request
              (haversine_km flat (some 8000) (some 77000) (some 9000) (some 79000)))))
    × (length (route_between flat request start harbour).segments
        ≡ segment_count flat request
            (haversine_km flat (some 8000) (some 77000) (some 9000) (some 79000)))
    × (1
        ≤ segment_count flat request
            (haversine_km flat (some 8000) (some 77000) (some 9000) (some 79000)))
route_between-joined_example = route_between-joined flat request start harbour

route_between-screened_example :
    (listed (label firing_range) (route_between flat request start harbour).avoided_zones ≡ true)
    × All (CarriesZone flat request) (route_between flat request start harbour).segments
route_between-screened_example =
    route_between-screened flat request start harbour one_zone (firing_range ∷ []) firing_range refl
      refl (inl refl) refl
