-- ===== src/Examples/Waters.antt =====
-- Marine zones at concrete values. A geometry is an interval of longitudes.
use ocean_data_engine_fronte.Prelude.{
  ℕ, ◌-◌, ◌≡◌, ◌↔◌, refl, List, [], ◌∷◌, Bool, true, false, ◌&&◌, Option, none, some, In, leb,
}
use ocean_data_engine_fronte.Prelude.Json
use ocean_data_engine_fronte.Prelude.Json.{done}
use ocean_data_engine_fronte.Prelude.Fixed.{Fixed, fixed_float, fixed-IsIeee}
use ocean_data_engine_fronte.Qc.Checks.{aware, loaded}
use ocean_data_engine_fronte.Ingestion.Parsed.{RawPayload, ParsedMarineZone}
use ocean_data_engine_fronte.Ingestion.Tables.{Externals, Ledger, new_summary}
use ocean_data_engine_fronte.Ingestion.Records.{ingest_marine_zone}
use ocean_data_engine_fronte.Geofence.Zones.{
  Shapely, Zone, effective, zero_km, summary, holds_point, check_point_in_zones, find_nearby_zones,
}
use ocean_data_engine_fronte.Geofence.Reported.{
  Reports, zone_row, check_point_in_zones_iff, ingested_zone-Reports,
}
use ocean_data_engine_fronte.Geofence.Nearest.{IsNearAnswer, find_nearby_zones-IsNear}

-- from one longitude to another, in thousandths
abbrev Strip : Type 0
Strip = ℕ × ℕ

abbrev in_strip : Fixed → Strip → Option Bool
in_strip none g = none
in_strip (some lon) g = some (leb g.0 lon && leb lon g.1)

abbrev strip_distance : Fixed → Strip → Option Fixed
strip_distance none g = none
strip_distance (some lon) g = some (some (g.0 - lon))

abbrev strips : Shapely Fixed Strip
strips = record {
  contains = λ lat lon g. in_strip lon g;
  distance = λ lat lon g. strip_distance lon g;
  loads = λ g. true;
  intersects = λ g h. leb g.0 h.1 && leb h.0 g.1;
}

abbrev reserve : ParsedMarineZone Strip
reserve = record {
  zone_uid = "mpa-1";
  zone_type = "mpa";
  name = "Gulf of Mannar";
  geometry = some (78000, 79000);
  status = none;
  restriction = none;
  authority = none;
  effective_from = some (aware 10);
  effective_until = none;
  provider = "operator";
  source_dataset = "zones";
  source_url = none;
  source_metadata = done;
}

abbrev row_of : ParsedMarineZone Strip → Zone Strip
row_of z = record {
  uid = z.zone_uid;
  parsed = z;
  source_url = none;
  retrieved_at = aware 5;
  updated_at = 6;
}

abbrev offshore : ParsedMarineZone Strip
offshore = record reserve { zone_uid = "eez-1"; geometry = some (78500, 90000) }

abbrev zones : List (Zone Strip)
zones = row_of offshore ∷ row_of reserve ∷ []

check_point_in_zones_iff_example :
    Reports
      (check_point_in_zones strips 20 (some 8000) (some 78200) zones)
      (summary (row_of reserve) zero_km (some true))
    ↔ (In (row_of reserve) zones
        × (effective (row_of reserve) 20 ≡ true)
        × (holds_point strips 20 (some 8000) (some 78200) reserve.geometry ≡ true)
        × (zero_km {W = Fixed} ≡ zero_km)
        × (some true ≡ some true))
check_point_in_zones_iff_example =
    check_point_in_zones_iff strips 20 (some 8000) (some 78200)
      (summary (row_of reserve) zero_km (some true)) zones

find_nearby_zones-IsNear_example :
    IsNearAnswer strips 20
      (some 8000)
      (some 77000)
      (some 5000)
      (find_nearby_zones strips 20 (some 8000) (some 77000) (some 5000) zones)
find_nearby_zones-IsNear_example =
    find_nearby_zones-IsNear strips 20 (some 8000) (some 77000) (some 5000) fixed-IsIeee zones

abbrev world : Externals Fixed Strip
world = record {
  python = record { sha256 = λ t. "key"; isoformat = λ t. "2026-01-01"; float_str = λ v. "1.5" };
  json_str = λ v. "{}";
  float_json = λ v. Json.null;
  load = λ g. loaded true false;
  bbox = λ g. none;
  centroid = λ g. none;
  point = λ lon lat. (0, 0);
  now = 50;
  timestamp = "2026-01-01";
  fresh = λ n. record { message_id = n; enqueued_at = 1; not_before = 1 };
}

abbrev chart : RawPayload
chart = record {
  provider = "operator";
  dataset = "zones";
  source_url = none;
  retrieved_at = aware 5;
}

abbrev filled : Ledger Fixed Strip
filled = record {
  alerts = [];
  pfz = [];
  observations = [];
  forecasts = [];
  stations = [];
  marine_zones = zones;
  quality = [];
  queue = none;
  offered = 0;
  alert_callback = none;
  summary = new_summary;
}

ingested_zone-Reports_example :
    Reports
      (check_point_in_zones strips 20
        (some 8000)
        (some 78200)
        (ingest_marine_zone world chart reserve filled).marine_zones)
      (summary (zone_row world chart reserve) zero_km (some true))
unfolding effective
ingested_zone-Reports_example =
    ingested_zone-Reports world chart strips 20 (some 8000) (some 78200) reserve filled refl refl
      refl
