-- ===== src/Ingestion/Tables.antt =====
-- services/ingestion.py: the tables and the summary that an ingestion run writes, and what the handlers share:
-- `_exists`, `_record_quality`, `_tally`, `_severity_priority` and the publications.
--
-- A table is a list of its rows, the latest first. A row holds its parsed record in place of the columns copied
-- from it. The clock is read as one instant during a run. What shapely, `uuid4` and the formatting of numbers
-- answer are fields of `Externals`.
use ocean_data_engine_fronte.Prelude.{
  ℕ, suc, String, str_eq, List, [], ◌∷◌, ◌++◌, Bool, true, false, ◌||◌, Option, none, some, any,
  if◌then◌else◌,
}
use ocean_data_engine_fronte.Prelude.Json.{Json, JsonFields}
use ocean_data_engine_fronte.Queue.Priority.{QueuePriority, critical_alerts, normal_ingestion}
use ocean_data_engine_fronte.Queue.Defs.{InMemoryQueue, Fresh, publish}
use ocean_data_engine_fronte.Qc.Checks.{
  QcStatus, accepted, rejected, quarantined, unknown, QcCheck, QcResult, DateTime, Loaded,
}
use ocean_data_engine_fronte.Ingestion.Keys.{Format}
use ocean_data_engine_fronte.Ingestion.Parsed.{
  ParsedAlert, ParsedPfz, ParsedObservation, ParsedForecast, ParsedStation, ParsedMarineZone,
}

pub record Externals (W G : Type 0) : Type 0 where
  pub python : Format W
  -- str(v) of a JSON value, and a float as JSON
  pub json_str : Json → String
  pub float_json : W → Json
  -- what shapely makes of a geometry; `none` where it raises
  pub load : G → Loaded
  pub bbox : G → Option (W × W × W × W)
  pub centroid : G → Option (W × W)
  -- the GeoJSON point at a longitude and a latitude
  pub point : W → W → G
  pub now : ℕ
  pub timestamp : String
  -- the identity and the times of the n-th message offered to the queue
  pub fresh : ℕ → Fresh

-- A row of a table with a unique `idempotency_key`. `E` is the extent of its geometry.
pub record Stored (W P E : Type 0) : Type 0 where
  pub idempotency_key : String
  pub parsed : P
  pub extent : E
  pub source_url : Option String
  pub retrieved_at : DateTime
  pub processed_at : ℕ
  pub quality_status : QcStatus
  pub quality_score : W
  pub missing_flag : Bool
  pub outlier_flag : Bool
  pub interpolated_flag : Bool

-- A row that is written anew whenever its source reports it.
pub record Upserted (P : Type 0) : Type 0 where
  pub uid : String
  pub parsed : P
  pub source_url : Option String
  pub retrieved_at : DateTime
  pub updated_at : ℕ

pub record DataQualityRecord (W : Type 0) : Type 0 where
  pub entity_type : String
  pub entity_idempotency_key : String
  pub dataset_key : String
  pub quality_status : QcStatus
  pub quality_score : W
  pub checks : List QcCheck
  pub reason : Option (List QcCheck)

pub record IngestSummary : Type 0 where
  pub accepted_count : ℕ
  pub rejected_count : ℕ
  pub quarantined_count : ℕ
  pub skipped_duplicates : ℕ
  pub alert_events : List JsonFields
  pub pfz_events : List JsonFields
  pub observation_events : List JsonFields
  pub processing_events : List JsonFields
  pub dataset_events : List JsonFields

abbrev pub new_summary : IngestSummary
new_summary = record {
  accepted_count = 0;
  rejected_count = 0;
  quarantined_count = 0;
  skipped_duplicates = 0;
  alert_events = [];
  pfz_events = [];
  observation_events = [];
  processing_events = [];
  dataset_events = [];
}

-- What an `IngestionService` writes to: the tables, the queue, the sink of alerts with the events it was
-- given, and the summary of the run.
pub record Ledger (W G : Type 0) : Type 0 where
  pub alerts : List (Stored W (ParsedAlert G) (Option (W × W × W × W)))
  pub pfz : List (Stored W (ParsedPfz W G) (Option (W × W)))
  pub observations : List (Stored W (ParsedObservation W) Unit)
  pub forecasts : List (Stored W (ParsedForecast W) Unit)
  pub stations : List (Upserted (ParsedStation W))
  pub marine_zones : List (Upserted (ParsedMarineZone G))
  pub quality : List (DataQualityRecord W)
  pub queue : Option InMemoryQueue
  pub offered : ℕ
  pub alert_callback : Option (List JsonFields)
  pub summary : IngestSummary

unfoldable pub exists : {W P E : Type 0} → String → List (Stored W P E) → Bool
exists key rows = any (λ row. str_eq row.idempotency_key key) rows

unfoldable pub tally : QcStatus → IngestSummary → IngestSummary
tally accepted s = record s { accepted_count = suc s.accepted_count }
tally rejected s = record s { rejected_count = suc s.rejected_count }
tally quarantined s = record s { quarantined_count = suc s.quarantined_count }
tally unknown s = record s { quarantined_count = suc s.quarantined_count }

abbrev pub is_rejected : QcStatus → Bool
is_rejected accepted = false
is_rejected rejected = true
is_rejected quarantined = false
is_rejected unknown = false

-- `a or b` on texts that may be missing
abbrev pub or_url : Option String → Option String → Option String
or_url none b = b
or_url (some a) b = if str_eq a "" then b else some a

unfoldable pub severity_priority : String → String → QueuePriority
severity_priority event_type severity =
    if (str_eq event_type "cyclone"
        || (str_eq event_type "tsunami" || str_eq event_type "storm_surge"))
      || (str_eq severity "severe" || str_eq severity "extreme")
    then critical_alerts
    else normal_ingestion

-- publications leave the number of attempts at its default
abbrev pub offer :
    Option InMemoryQueue → Fresh → QueuePriority → JsonFields → String → Option InMemoryQueue
offer none fresh priority event key = none
offer (some q) fresh priority event key = some (publish q fresh priority event key 5).0

abbrev pub call_back : Option (List JsonFields) → JsonFields → Option (List JsonFields)
call_back none event = none
call_back (some events) event = some (events ++ event ∷ [])

module _ {W G : Type 0} where
  abbrev pub skip : Ledger W G → Ledger W G
  skip s = record s {
    summary = record s.summary { skipped_duplicates = suc s.summary.skipped_duplicates };
  }

  -- `_record_quality` and `_tally`
  unfoldable pub audit : String → String → String → QcResult W → Ledger W G → Ledger W G
  unfolding tally
  audit entity_type key dataset_key qc s = record s {
    quality =
        record {
          entity_type = entity_type;
          entity_idempotency_key = key;
          dataset_key = dataset_key;
          quality_status = qc.status;
          quality_score = qc.score;
          checks = qc.checks;
          reason = qc.reason;
        }
        ∷ s.quality;
    summary = tally qc.status s.summary;
  }

  unfoldable pub publish_event :
      Fresh → QueuePriority → JsonFields → String → Ledger W G → Ledger W G
  publish_event fresh priority event key s = record s {
    queue = offer s.queue fresh priority event key;
    offered = suc s.offered;
  }
