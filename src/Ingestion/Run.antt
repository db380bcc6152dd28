-- ===== src/Ingestion/Run.antt =====
-- services/ingestion.py: `ingest`, the records of a payload in their order, with the cyclones and the tsunamis as
-- alerts.
use ocean_data_engine_fronte.Prelude.{
  String, str_append, str_eq, List, [], ◌∷◌, Bool, false, ◌&&◌, ◌||◌, Option, none, some,
  if◌then◌else◌,
}
use ocean_data_engine_fronte.Prelude.Float.{Float}
use ocean_data_engine_fronte.Ingestion.Parsed.{
  ParsedAlert, ParsedCyclone, ParsedTsunami, FetchResult,
}
use ocean_data_engine_fronte.Ingestion.Tables.{Externals, Ledger, new_summary}
use ocean_data_engine_fronte.Ingestion.Records.{
  ingest_alert, ingest_pfz, ingest_station, ingest_marine_zone, ingest_observation, ingest_forecast,
  point_of,
}

-- for x in xs: f(x)
unfoldable pub for_each : {A S : Type 0} → (A → S → S) → List A → S → S
for_each f [] s = s
for_each f (x ∷ xs) s = for_each f xs (f x s)

abbrev or_text : Option String → String → String
or_text none default = default
or_text (some s) default = if str_eq s "" then default else s

-- f"{v}" of a text that may be missing
abbrev shown : Option String → String
shown none = "None"
shown (some s) = s

-- ", ".join(names)
abbrev comma_list : List String → String
comma_list [] = ""
comma_list (s ∷ []) = s
comma_list (s ∷ t ∷ names) = str_append s (str_append ", " (comma_list (t ∷ names)))

abbrev or_empty_list : Option (List String) → List String
or_empty_list none = []
or_empty_list (some names) = names

abbrev pub is_warning : Option String → Bool
is_warning none = false
is_warning (some level) = str_eq level "warning" || str_eq level "watch"

module _ {W G : Type 0} ⦃f : Float W⦄ (x : Externals W G) where
  -- f"{v or '?'}"
  abbrev or_mark : Option W → String
  or_mark none = "?"
  or_mark (some v) = if f.le v (f.lit 0 1) && f.le (f.lit 0 1) v then "?" else x.python.float_str v

  -- f"{v}"
  abbrev shown_number : Option W → String
  shown_number none = "None"
  shown_number (some v) = x.python.float_str v

  unfoldable pub cyclone_alert : ParsedCyclone W G → ParsedAlert G
  cyclone_alert c = record {
    alert_uid = c.cyclone_id;
    event_type = "cyclone";
    severity = "extreme";
    certainty = "observed";
    urgency = "immediate";
    headline = some (str_append "Cyclone " (or_text c.name c.cyclone_id));
    description = some (
        str_append "Category: " (
          str_append (or_text c.intensity_category "unknown") (
            str_append ", Max wind: " (
              str_append (or_mark c.max_sustained_wind) (
                str_append " km/h, Central pressure: "
                  (str_append (or_mark c.central_pressure) " hPa"))))));
    area_description = none;
    geometry = c.track_geometry;
    issued_at = c.issue_time;
    effective_from = c.issue_time;
    valid_until = none;
    source_url = c.source_url;
    provider = c.provider;
    source_dataset = c.source_dataset;
    source_metadata = c.source_metadata;
  }

  unfoldable pub tsunami_alert : ParsedTsunami W → ParsedAlert G
  tsunami_alert t = record {
    alert_uid = t.event_id;
    event_type = "tsunami";
    severity = if is_warning t.alert_level then "extreme" else "severe";
    certainty = "observed";
    urgency = "immediate";
    headline = some (
        str_append "Tsunami "
          (str_append (or_text t.alert_level "alert") (str_append ": M" (or_mark t.magnitude))));
    description = some (
        str_append "Magnitude: " (
          str_append (shown_number t.magnitude) (
            str_append ", Depth: " (
              str_append (shown_number t.depth) (
                str_append " km, Status: " (
                  str_append (shown t.tsunami_status) (
                    str_append ", Regions: " (comma_list (or_empty_list t.affected_regions)))))))));
    area_description = some (comma_list (or_empty_list t.affected_regions));
    geometry = point_of x t.eq_lat t.eq_lon;
    issued_at = t.earthquake_time;
    effective_from = t.earthquake_time;
    valid_until = none;
    source_url = t.source_url;
    provider = t.provider;
    source_dataset = t.source_dataset;
    source_metadata = t.source_metadata;
  }

  unfoldable pub ingest_records : FetchResult W G → Ledger W G → Ledger W G
  unfolding for_each
  ingest_records r s =
      for_each (λ t. ingest_alert x r.raw (tsunami_alert t)) r.tsunamis
        (for_each (λ c. ingest_alert x r.raw (cyclone_alert c)) r.cyclones
          (for_each (ingest_forecast x r.raw) r.forecasts (
            for_each (ingest_observation x r.raw) r.observations (
              for_each (ingest_marine_zone x r.raw) r.marine_zones (
                for_each (ingest_station x r.raw) r.stations (
                  for_each (ingest_pfz x r.raw) r.pfz (
                    for_each (ingest_alert x r.raw) r.alerts
                      (record s { summary = new_summary }))))))))
