-- ===== src/Ingestion/Events.antt =====
-- domain/events.py: the payloads of the events, as JSON. The time stamp, `isoformat` and what a float is in
-- JSON are parameters.
use ocean_data_engine_fronte.Prelude.{ℕ, String, Option, none, some}
use ocean_data_engine_fronte.Prelude.Json.{Json, null, num, str, obj, JsonFields, done, field}
use ocean_data_engine_fronte.Qc.Checks.{DateTime}

abbrev pub or_null : Option String → Json
or_null none = null
or_null (some s) = str s

module _ (isoformat : DateTime → String) (now : String) where
  abbrev pub iso : Option DateTime → Json
  iso none = null
  iso (some t) = str (isoformat t)

  abbrev pub event : String → JsonFields → JsonFields
  event kind fields = field "type" (str kind) (field "timestamp" (str now) fields)

  unfoldable pub alert_created :
      String → String → String → Option String → Option DateTime → JsonFields
  alert_created alert_uid event_type severity headline issued_at = event "alert.created" (
      field "alert_uid" (str alert_uid) (
        field "event_type" (str event_type) (
          field "severity" (str severity)
            (field "headline" (or_null headline) (field "issued_at" (iso issued_at) done)))))

  unfoldable pub alert_updated : String → JsonFields → JsonFields
  alert_updated alert_uid changes =
      event "alert.updated" (field "alert_uid" (str alert_uid) (field "changes" (obj changes) done))

  unfoldable pub alert_expired : String → DateTime → JsonFields
  alert_expired alert_uid expired_at =
      event "alert.expired"
        (field "alert_uid" (str alert_uid) (field "expired_at" (iso (some expired_at)) done))

  unfoldable pub pfz_updated :
      String → Option String → Option DateTime → Option DateTime → JsonFields
  pfz_updated pfz_uid region valid_from valid_until = event "pfz.updated" (
      field "pfz_uid" (str pfz_uid) (
        field "region" (or_null region)
          (field "valid_from" (iso valid_from) (field "valid_until" (iso valid_until) done))))

  -- with the value as JSON
  unfoldable pub observation_ingested :
      String → String → Json → Option String → Option DateTime → JsonFields
  observation_ingested station_id parameter value unit observed_at = event "observation.ingested" (
      field "station_id" (str station_id) (
        field "parameter" (str parameter) (
          field "value" value
            (field "unit" (or_null unit) (field "observed_at" (iso observed_at) done)))))

  unfoldable pub dataset_updated : String → String → Option DateTime → JsonFields
  dataset_updated dataset_key status last_success_at = event "dataset.updated" (
      field "dataset_key" (str dataset_key)
        (field "status" (str status) (field "last_success_at" (iso last_success_at) done)))

  unfoldable pub processing_started : String → String → String → JsonFields
  processing_started job_uid dataset_key job_type = event "processing.started" (
      field "job_uid" (str job_uid)
        (field "dataset_key" (str dataset_key) (field "job_type" (str job_type) done)))

  abbrev pub num_or_null : Option ℕ → Json
  num_or_null none = null
  num_or_null (some n) = num n

  unfoldable pub processing_completed : String → String → ℕ → ℕ → Option ℕ → JsonFields
  processing_completed job_uid dataset_key records_accepted records_rejected duration_ms =
      event "processing.completed" (
        field "job_uid" (str job_uid) (
          field "dataset_key" (str dataset_key) (
            field "records_accepted" (num records_accepted) (
              field "records_rejected" (num records_rejected)
                (field "duration_ms" (num_or_null duration_ms) done)))))

  unfoldable pub processing_failed : String → String → String → JsonFields
  processing_failed job_uid dataset_key error = event "processing.failed" (
      field "job_uid" (str job_uid)
        (field "dataset_key" (str dataset_key) (field "error" (str error) done)))
