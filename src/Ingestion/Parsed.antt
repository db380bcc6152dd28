-- ===== src/Ingestion/Parsed.antt =====
-- The parsed records of sources/base.py. `G` is a GeoJSON geometry.
use ocean_data_engine_fronte.Prelude.{ℕ, ◌+◌, String, List, length, Option}
use ocean_data_engine_fronte.Prelude.Json.{JsonFields}
use ocean_data_engine_fronte.Qc.Checks.{DateTime}

-- The fetched bytes are left to the raw store.
pub record RawPayload : Type 0 where
  pub provider : String
  pub dataset : String
  pub source_url : Option String
  pub retrieved_at : DateTime

pub record ParsedAlert (G : Type 0) : Type 0 where
  pub alert_uid : String
  pub event_type : String
  pub severity : String
  pub certainty : String
  pub urgency : String
  pub headline : Option String
  pub description : Option String
  pub area_description : Option String
  pub geometry : Option G
  pub issued_at : Option DateTime
  pub effective_from : Option DateTime
  pub valid_until : Option DateTime
  pub source_url : Option String
  pub provider : String
  pub source_dataset : String
  pub source_metadata : JsonFields

pub record ParsedPfz (W G : Type 0) : Type 0 where
  pub pfz_uid : String
  pub region : Option String
  pub advisory_text : Option String
  pub advisory_type : Option String
  pub geometry : Option G
  pub issue_time : Option DateTime
  pub valid_from : Option DateTime
  pub valid_until : Option DateTime
  pub sst_context : Option W
  pub chlorophyll_context : Option W
  pub confidence : Option W
  pub source_url : Option String
  pub provider : String
  pub source_dataset : String
  pub source_metadata : JsonFields

pub record ParsedObservation (W : Type 0) : Type 0 where
  pub station_id : String
  pub station_type : String
  pub latitude : Option W
  pub longitude : Option W
  pub parameter : String
  pub value : Option W
  pub unit : Option String
  pub observed_at : Option DateTime
  pub provider : String
  pub source_dataset : String
  pub source_url : Option String
  pub sensor_id : Option String
  pub source_metadata : JsonFields

pub record ParsedForecast (W : Type 0) : Type 0 where
  pub parameter : String
  pub value : Option W
  pub unit : Option String
  pub latitude : Option W
  pub longitude : Option W
  pub valid_from : Option DateTime
  pub forecast_time : Option DateTime
  pub model_name : Option String
  pub model_cycle : Option String
  pub forecast_hour : Option ℕ
  pub resolution : Option String
  pub provider : String
  pub source_dataset : String
  pub source_url : Option String
  pub source_metadata : JsonFields

pub record ParsedCyclone (W G : Type 0) : Type 0 where
  pub cyclone_id : String
  pub name : Option String
  pub center_lat : W
  pub center_lon : W
  pub issue_time : Option DateTime
  pub movement_direction : Option W
  pub movement_speed : Option W
  pub central_pressure : Option W
  pub max_sustained_wind : Option W
  pub intensity_category : Option String
  pub track_geometry : Option G
  pub provider : String
  pub source_dataset : String
  pub source_url : Option String
  pub source_metadata : JsonFields

pub record ParsedTsunami (W : Type 0) : Type 0 where
  pub event_id : String
  pub earthquake_time : Option DateTime
  pub eq_lat : Option W
  pub eq_lon : Option W
  pub magnitude : Option W
  pub depth : Option W
  pub tsunami_status : Option String
  pub alert_level : Option String
  pub affected_regions : Option (List String)
  pub provider : String
  pub source_dataset : String
  pub source_url : Option String
  pub source_metadata : JsonFields

pub record ParsedStation (W : Type 0) : Type 0 where
  pub station_uid : String
  pub name : Option String
  pub station_type : Option String
  pub latitude : Option W
  pub longitude : Option W
  pub status : Option String
  pub provider : String
  pub source_dataset : String
  pub source_url : Option String
  pub last_reported_at : Option DateTime
  pub source_metadata : JsonFields

pub record ParsedMarineZone (G : Type 0) : Type 0 where
  pub zone_uid : String
  pub zone_type : String
  pub name : String
  pub geometry : Option G
  pub status : Option String
  pub restriction : Option String
  pub authority : Option String
  pub effective_from : Option DateTime
  pub effective_until : Option DateTime
  pub provider : String
  pub source_dataset : String
  pub source_url : Option String
  pub source_metadata : JsonFields

pub record FetchResult (W G : Type 0) : Type 0 where
  pub raw : RawPayload
  pub alerts : List (ParsedAlert G)
  pub pfz : List (ParsedPfz W G)
  pub observations : List (ParsedObservation W)
  pub cyclones : List (ParsedCyclone W G)
  pub tsunamis : List (ParsedTsunami W)
  pub forecasts : List (ParsedForecast W)
  pub stations : List (ParsedStation W)
  pub marine_zones : List (ParsedMarineZone G)

unfoldable pub record_count : {W G : Type 0} → FetchResult W G → ℕ
record_count r =
    length r.alerts
    + length r.pfz
    + length r.observations
    + length r.cyclones
    + length r.tsunamis
    + length r.forecasts
    + length r.stations
    + length r.marine_zones
