-- ===== src/Ingestion/Records.antt =====
-- services/ingestion.py: the handlers of the parsed records, `_ingest_alert` to `_ingest_forecast`.
use ocean_data_engine_fronte.Prelude.{
  String, str_append, str_eq, List, [], ◌∷◌, ◌++◌, Bool, true, false, not, Option, none, some, ◌==◌,
  if◌then◌else◌,
}
use ocean_data_engine_fronte.Prelude.Float.{Float}
use ocean_data_engine_fronte.Prelude.Json.{
  Json, null, bool, num, str, arr, obj, end, item, JsonFields, done, field, get,
}
use ocean_data_engine_fronte.Queue.Priority.{normal_ingestion}
use ocean_data_engine_fronte.Qc.Checks.{QcResult, Loaded, qc_observation, qc_geometry_record}
use ocean_data_engine_fronte.Ingestion.Keys.{
  Part, word, instant_of, number_of, make_idempotency_key,
}
use ocean_data_engine_fronte.Ingestion.Parsed.{
  RawPayload, ParsedAlert, ParsedPfz, ParsedObservation, ParsedForecast, ParsedStation,
  ParsedMarineZone,
}
use ocean_data_engine_fronte.Ingestion.Events.{alert_created, pfz_updated, observation_ingested}
use ocean_data_engine_fronte.Ingestion.Tables.{
  Externals, Stored, Upserted, Ledger, exists, is_rejected, or_url, severity_priority, call_back,
  skip, audit, publish_event,
}

abbrev or_empty : Option String → String
or_empty none = ""
or_empty (some s) = s

-- bool(v) of a JSON value
abbrev pub truthy : Json → Bool
truthy null = false
truthy (bool b) = b
truthy (num n) = not (n == 0)
truthy (str s) = not (str_eq s "")
truthy (arr end) = false
truthy (arr (item v vs)) = true
truthy (obj done) = false
truthy (obj (field k v rest)) = true

abbrev pub is_truthy : Option Json → Bool
is_truthy none = false
is_truthy (some v) = truthy v

-- the row of an upsert takes the place of the one with its identity
unfoldable pub upsert : {P : Type 0} → Upserted P → List (Upserted P) → List (Upserted P)
upsert row [] = row ∷ []
upsert row (r ∷ rows) =
    let rest = upsert row rows in if str_eq r.uid row.uid then row ∷ rows else r ∷ rest

module _ {W G : Type 0} ⦃f : Float W⦄ (x : Externals W G) where
  abbrev stored :
      {P E : Type 0} → RawPayload → String → P → E → Option String → QcResult W → Stored W P E
  stored raw key parsed extent url qc = record {
    idempotency_key = key;
    parsed = parsed;
    extent = extent;
    source_url = url;
    retrieved_at = raw.retrieved_at;
    processed_at = x.now;
    quality_status = qc.status;
    quality_score = qc.score;
    missing_flag = qc.missing_flag;
    outlier_flag = qc.outlier_flag;
    interpolated_flag = qc.interpolated_flag;
  }

  abbrev pub upserted : {P : Type 0} → RawPayload → String → P → Option String → Upserted P
  upserted raw uid parsed url = record {
    uid = uid;
    parsed = parsed;
    source_url = or_url url raw.source_url;
    retrieved_at = raw.retrieved_at;
    updated_at = x.now;
  }

  abbrev pub loaded_of : Option G → Option Loaded
  loaded_of none = none
  loaded_of (some g) = some (x.load g)

  abbrev bbox_of : Option G → Option (W × W × W × W)
  bbox_of none = none
  bbox_of (some g) = x.bbox g

  abbrev centroid_of : Option G → Option (W × W)
  centroid_of none = none
  centroid_of (some g) = x.centroid g

  unfoldable pub alert_key : ParsedAlert G → String
  alert_key a =
      make_idempotency_key x.python
        (word a.provider ∷ word a.source_dataset ∷ word a.alert_uid ∷ instant_of a.issued_at ∷ [])

  unfoldable pub alert_qc : ParsedAlert G → QcResult W
  alert_qc a = qc_geometry_record (loaded_of a.geometry) a.effective_from a.valid_until

  abbrev pub alert_event : ParsedAlert G → JsonFields
  alert_event a =
      alert_created x.python.isoformat x.timestamp a.alert_uid a.event_type a.severity a.headline
        a.issued_at

  unfoldable pub announce_alert : ParsedAlert G → Ledger W G → Ledger W G
  announce_alert a s =
      let sent =
        publish_event (x.fresh s.offered) (severity_priority a.event_type a.severity)
          (alert_event a) (str_append "event:" (alert_key a)) s in
      record sent {
        alert_callback = call_back s.alert_callback (alert_event a);
        summary = record s.summary { alert_events = s.summary.alert_events ++ alert_event a ∷ [] };
      }

  abbrev pub alert_row :
      RawPayload → ParsedAlert G → Stored W (ParsedAlert G) (Option (W × W × W × W))
  alert_row raw a = stored raw (alert_key a) a (bbox_of a.geometry) a.source_url (alert_qc a)

  unfoldable pub store_alert : RawPayload → ParsedAlert G → Ledger W G → Ledger W G
  store_alert raw a s =
      audit "alert" (alert_key a) raw.dataset (alert_qc a)
        (record s { alerts = alert_row raw a ∷ s.alerts })

  unfoldable pub ingest_alert : RawPayload → ParsedAlert G → Ledger W G → Ledger W G
  unfolding announce_alert store_alert
  ingest_alert raw a s =
      if exists (alert_key a) s.alerts
      then skip s
      else if is_rejected (alert_qc a).status
      then store_alert raw a s
      else announce_alert a (store_alert raw a s)

  unfoldable pub pfz_key : ParsedPfz W G → String
  pfz_key p =
      make_idempotency_key x.python
        (word p.provider ∷ word p.source_dataset ∷ word p.pfz_uid ∷ instant_of p.issue_time ∷ [])

  unfoldable pub pfz_qc : ParsedPfz W G → QcResult W
  pfz_qc p = qc_geometry_record (loaded_of p.geometry) p.valid_from p.valid_until

  abbrev pub pfz_event : ParsedPfz W G → JsonFields
  pfz_event p =
      pfz_updated x.python.isoformat x.timestamp p.pfz_uid p.region p.valid_from p.valid_until

  unfoldable pub announce_pfz : ParsedPfz W G → Ledger W G → Ledger W G
  announce_pfz p s =
      let sent =
        publish_event (x.fresh s.offered) normal_ingestion (pfz_event p)
          (str_append "event:pfz:" (pfz_key p)) s in
      record sent {
        summary = record s.summary { pfz_events = s.summary.pfz_events ++ pfz_event p ∷ [] };
      }

  abbrev pub pfz_row : RawPayload → ParsedPfz W G → Stored W (ParsedPfz W G) (Option (W × W))
  pfz_row raw p = stored raw (pfz_key p) p (centroid_of p.geometry) p.source_url (pfz_qc p)

  unfoldable pub store_pfz : RawPayload → ParsedPfz W G → Ledger W G → Ledger W G
  store_pfz raw p s =
      audit "pfz" (pfz_key p) raw.dataset (pfz_qc p) (record s { pfz = pfz_row raw p ∷ s.pfz })

  unfoldable pub ingest_pfz : RawPayload → ParsedPfz W G → Ledger W G → Ledger W G
  unfolding announce_pfz store_pfz
  ingest_pfz raw p s =
      if exists (pfz_key p) s.pfz
      then skip s
      else if is_rejected (pfz_qc p).status
      then store_pfz raw p s
      else announce_pfz p (store_pfz raw p s)

  -- a point where both coordinates are known
  abbrev pub point_of : Option W → Option W → Option G
  point_of (some latitude) (some longitude) = some (x.point longitude latitude)
  point_of _ _ = none

  unfoldable pub station_qc : ParsedStation W → QcResult W
  station_qc t = qc_geometry_record (loaded_of (point_of t.latitude t.longitude)) none none

  unfoldable pub audit_station : RawPayload → ParsedStation W → Ledger W G → Ledger W G
  audit_station raw t s =
      let key =
        make_idempotency_key x.python
          (word t.provider ∷ word t.source_dataset ∷ word t.station_uid ∷ []) in
      audit "station" key raw.dataset (station_qc t) s

  unfoldable pub upsert_station : RawPayload → ParsedStation W → Ledger W G → Ledger W G
  upsert_station raw t s = record s {
    stations = upsert (upserted raw t.station_uid t t.source_url) s.stations;
  }

  unfoldable pub ingest_station : RawPayload → ParsedStation W → Ledger W G → Ledger W G
  ingest_station raw t s =
      let checked = audit_station raw t s in
      if is_rejected (station_qc t).status then checked else upsert_station raw t checked

  unfoldable pub zone_qc : ParsedMarineZone G → QcResult W
  zone_qc z = qc_geometry_record (loaded_of z.geometry) z.effective_from z.effective_until

  unfoldable pub audit_zone : RawPayload → ParsedMarineZone G → Ledger W G → Ledger W G
  audit_zone raw z s =
      let key =
        make_idempotency_key x.python
          (word z.provider ∷ word z.source_dataset ∷ word z.zone_uid ∷ []) in
      audit "marine_zone" key raw.dataset (zone_qc z) s

  unfoldable pub upsert_zone : RawPayload → ParsedMarineZone G → Ledger W G → Ledger W G
  upsert_zone raw z s = record s {
    marine_zones = upsert (upserted raw z.zone_uid z z.source_url) s.marine_zones;
  }

  unfoldable pub ingest_marine_zone : RawPayload → ParsedMarineZone G → Ledger W G → Ledger W G
  ingest_marine_zone raw z s =
      let checked = audit_zone raw z s in
      if is_rejected (zone_qc z).status then checked else upsert_zone raw z checked

  unfoldable pub observation_key : ParsedObservation W → String
  observation_key o = make_idempotency_key x.python (
      word o.provider
      ∷ word o.source_dataset
      ∷ word o.station_id
      ∷ word (or_empty o.sensor_id)
      ∷ word o.parameter
      ∷ instant_of o.observed_at
      ∷ [])

  unfoldable pub observation_qc : ParsedObservation W → QcResult W
  observation_qc o =
      qc_observation o.parameter o.value o.latitude o.longitude o.observed_at x.now false

  abbrev json_of : Option W → Json
  json_of none = null
  json_of (some v) = x.float_json v

  abbrev pub observation_event : ParsedObservation W → JsonFields
  observation_event o =
      observation_ingested x.python.isoformat x.timestamp o.station_id o.parameter (json_of o.value)
        o.unit o.observed_at

  unfoldable pub announce_observation : ParsedObservation W → Ledger W G → Ledger W G
  announce_observation o s =
      let sent =
        publish_event (x.fresh s.offered) normal_ingestion (observation_event o)
          (str_append "event:obs:" (observation_key o)) s in
      record sent {
        summary = record s.summary {
          observation_events = s.summary.observation_events ++ observation_event o ∷ [];
        };
      }

  abbrev pub observation_row :
      RawPayload → ParsedObservation W → Stored W (ParsedObservation W) Unit
  observation_row raw o =
      stored raw (observation_key o) o tt (or_url o.source_url raw.source_url) (observation_qc o)

  unfoldable pub store_observation : RawPayload → ParsedObservation W → Ledger W G → Ledger W G
  store_observation raw o s =
      audit "observation" (observation_key o) raw.dataset (observation_qc o)
        (record s { observations = observation_row raw o ∷ s.observations })

  unfoldable pub ingest_observation : RawPayload → ParsedObservation W → Ledger W G → Ledger W G
  unfolding announce_observation store_observation
  ingest_observation raw o s =
      if exists (observation_key o) s.observations
      then skip s
      else if is_rejected (observation_qc o).status
      then store_observation raw o s
      else announce_observation o (store_observation raw o s)

  -- meta.get("area_description") or ""
  abbrev scope_of : Option Json → Part W
  scope_of none = word ""
  scope_of (some (str s)) = word s
  scope_of (some v) = if truthy v then word (x.json_str v) else word ""

  unfoldable pub forecast_key : ParsedForecast W → String
  forecast_key c = make_idempotency_key x.python (
      word c.provider
      ∷ word c.source_dataset
      ∷ word (or_empty c.model_name)
      ∷ word c.parameter
      ∷ number_of c.latitude
      ∷ number_of c.longitude
      ∷ instant_of c.valid_from
      ∷ scope_of (get c.source_metadata "area_description")
      ∷ [])

  -- a category stands in for a value that is missing, and 0.0 is then checked in its place
  abbrev pub checked_value : Option W → Bool → Option W
  checked_value none true = some (f.lit 0 1)
  checked_value none false = none
  checked_value (some v) category = some v

  unfoldable pub forecast_qc : ParsedForecast W → QcResult W
  forecast_qc c =
      qc_observation c.parameter
        (checked_value c.value (is_truthy (get c.source_metadata "sea_state_category"))) c.latitude
        c.longitude c.forecast_time x.now false

  unfoldable pub store_forecast : RawPayload → ParsedForecast W → Ledger W G → Ledger W G
  store_forecast raw c s =
      let row =
        stored raw (forecast_key c) c tt (or_url c.source_url raw.source_url) (forecast_qc c) in
      audit "forecast" (forecast_key c) raw.dataset (forecast_qc c)
        (record s { forecasts = row ∷ s.forecasts })

  unfoldable pub ingest_forecast : RawPayload → ParsedForecast W → Ledger W G → Ledger W G
  unfolding store_forecast
  ingest_forecast raw c s =
      if exists (forecast_key c) s.forecasts then skip s else store_forecast raw c s
