-- ===== src/Examples/Ingested.antt =====
-- Payloads and keys at concrete values.
use ocean_data_engine_fronte.Prelude.{
  ℕ, ◌+◌, ◌≡◌, refl, inl, String, str_append, [], ◌∷◌, true, false, none, some, length,
}
use ocean_data_engine_fronte.Prelude.Json.{null, done}
use ocean_data_engine_fronte.Prelude.Text.{Text}
use ocean_data_engine_fronte.Prelude.Fixed.{Fixed, fixed_float}
use ocean_data_engine_fronte.Queue.Defs.{Fresh, InMemoryQueue}
use ocean_data_engine_fronte.Qc.Checks.{aware, Loaded, loaded}
use ocean_data_engine_fronte.Ingestion.Keys.{Format, missing, word, make_idempotency_key}
use ocean_data_engine_fronte.Ingestion.Split.{texts_of, make_idempotency_key-inj}
use ocean_data_engine_fronte.Ingestion.Parsed.{
  RawPayload, ParsedAlert, ParsedCyclone, ParsedTsunami, ParsedObservation, FetchResult,
  record_count,
}
use ocean_data_engine_fronte.Ingestion.Tables.{Externals, Ledger, new_summary, exists}
use ocean_data_engine_fronte.Ingestion.Records.{ingest_alert}
use ocean_data_engine_fronte.Ingestion.Run.{ingest_records, cyclone_alert}
use ocean_data_engine_fronte.Ingestion.Counted.{handled, ingest_records-counted}
use ocean_data_engine_fronte.Ingestion.Kept.{DistinctLedger, ingest_records-Distinct}
use ocean_data_engine_fronte.Dataset.State.{Dataset, new_dataset}
use ocean_data_engine_fronte.Ingestion.Ending.{Completion}
use ocean_data_engine_fronte.Ingestion.Standing.{standing, Balanced, ingest_records-Balanced}
use ocean_data_engine_fronte.Ingestion.Urgent.{
  IsNews, hazard_alert, with_critical, hazards-critical,
}

-- a stroke for each code point, in place of a hash
abbrev strokes : Text → String
strokes [] = ""
strokes (c ∷ text) = str_append "x" (strokes text)

abbrev format : Format Fixed
format = record { sha256 = strokes; isoformat = λ t. "2026-01-01"; float_str = λ v. "1.5" }

abbrev new_ids : ℕ → Fresh
new_ids n = record { message_id = n; enqueued_at = 100; not_before = 100 }

-- a geometry is what is known of it
abbrev outside : Externals Fixed Loaded
outside = record {
  python = format;
  json_str = λ v. "{}";
  float_json = λ v. null;
  load = λ g. g;
  bbox = λ g. none;
  centroid = λ g. none;
  point = λ lon lat. loaded true false;
  now = 50;
  timestamp = "2026-01-01";
  fresh = new_ids;
}

abbrev raw : RawPayload
raw = record { provider = "imd"; dataset = "imd_cap"; source_url = none; retrieved_at = aware 40 }

abbrev high_wave : ParsedAlert Loaded
high_wave = record {
  alert_uid = "hw-1";
  event_type = "high_wave";
  severity = "moderate";
  certainty = "likely";
  urgency = "expected";
  headline = none;
  description = none;
  area_description = none;
  geometry = some (loaded true false);
  issued_at = some (aware 30);
  effective_from = some (aware 30);
  valid_until = some (aware 60);
  source_url = none;
  provider = "imd";
  source_dataset = "imd_cap";
  source_metadata = done;
}

-- valid until before it begins
abbrev reversed : ParsedAlert Loaded
reversed = record high_wave { alert_uid = "hw-10"; valid_until = some (aware 20) }

abbrev cyclone : ParsedCyclone Fixed Loaded
cyclone = record {
  cyclone_id = "bob-03-2026";
  name = none;
  center_lat = some 15000;
  center_lon = some 85000;
  issue_time = some (aware 35);
  movement_direction = none;
  movement_speed = none;
  central_pressure = none;
  max_sustained_wind = none;
  intensity_category = none;
  track_geometry = none;
  provider = "imd";
  source_dataset = "imd_cyclone";
  source_url = none;
  source_metadata = done;
}

abbrev tsunami : ParsedTsunami Fixed
tsunami = record {
  event_id = "ts-7";
  earthquake_time = some (aware 36);
  eq_lat = some (some 1000);
  eq_lon = some (some 92000);
  magnitude = none;
  depth = none;
  tsunami_status = none;
  alert_level = some "information";
  affected_regions = none;
  provider = "incois";
  source_dataset = "incois_tsunami";
  source_url = none;
  source_metadata = done;
}

abbrev wave_height : ParsedObservation Fixed
wave_height = record {
  station_id = "bd08";
  station_type = "buoy";
  latitude = some (some 18000);
  longitude = some (some 89000);
  parameter = "significant_wave_height";
  value = some (some 2500);
  unit = some "m";
  observed_at = some (aware 30);
  provider = "imd";
  source_dataset = "imd_buoy";
  source_url = none;
  sensor_id = none;
  source_metadata = done;
}

-- with an alert twice, so that one is skipped, and one that is rejected
abbrev payload : FetchResult Fixed Loaded
payload = record {
  raw = raw;
  alerts = high_wave ∷ reversed ∷ high_wave ∷ [];
  pfz = [];
  observations = wave_height ∷ [];
  cyclones = cyclone ∷ [];
  tsunamis = tsunami ∷ [];
  forecasts = [];
  stations = [];
  marine_zones = [];
}

abbrev waiting : InMemoryQueue
waiting = record { pending = []; dlq = []; seen_keys = []; backoff_base = 1; backoff_max = 60 }

abbrev ledger : Ledger Fixed Loaded
ledger = record {
  alerts = [];
  pfz = [];
  observations = [];
  forecasts = [];
  stations = [];
  marine_zones = [];
  quality = [];
  queue = some waiting;
  offered = 0;
  alert_callback = some [];
  summary = new_summary;
}

ingest_records-counted_example :
    (handled (ingest_records outside payload ledger).summary
        + (ingest_records outside payload ledger).summary.skipped_duplicates
      ≡ record_count payload)
    × (length (ingest_records outside payload ledger).quality
        ≡ length ledger.quality + handled (ingest_records outside payload ledger).summary)
ingest_records-counted_example = ingest_records-counted outside payload ledger

ingest_records-Distinct_example : DistinctLedger (ingest_records outside payload ledger)
ingest_records-Distinct_example = ingest_records-Distinct outside payload ledger (tt, tt, tt, tt)

abbrev first_run : Completion
first_run = record { job_uid = "p1"; duration_ms = 12; result_state = "ok"; processed_at = "10:00" }

abbrev second_run : Completion
second_run = record { job_uid = "p1"; duration_ms = 9; result_state = "ok"; processed_at = "11:00" }

abbrev bulletins : Dataset Fixed
bulletins = new_dataset "imd"

ingest_records-Balanced_example :
    Balanced
      (standing ledger.alerts)
      (standing ledger.pfz)
      (standing ledger.observations)
      (ingest_records outside payload ledger)
ingest_records-Balanced_example = ingest_records-Balanced outside payload ledger

cyclone-IsNews : IsNews outside (hazard_alert outside (inl cyclone)) ledger waiting
unfolding exists cyclone_alert
cyclone-IsNews = (refl, refl, refl, refl)

hazards-critical_example :
    (ingest_alert outside raw (hazard_alert outside (inl cyclone)) ledger).queue
    ≡ some (with_critical outside (hazard_alert outside (inl cyclone)) ledger waiting)
hazards-critical_example = hazards-critical outside raw (inl cyclone) ledger waiting cyclone-IsNews

make_idempotency_key-inj_example :
    texts_of format (word "imd" ∷ missing ∷ []) ≡ texts_of format (word "imd" ∷ word "" ∷ [])
unfolding make_idempotency_key
make_idempotency_key-inj_example =
    make_idempotency_key-inj format (word "imd") (word "imd") (missing ∷ []) (word "" ∷ [])
      (refl, (refl, tt)) (refl, (refl, tt)) (λ e. refl) refl
