-- ===== src/Ingestion/Ending.antt =====
-- services/ingestion.py: `ingest` on a payload whose processing raises nothing, from its records to the events at the
-- end of the run, and `_emit_dataset_updated`.
use ocean_data_engine_fronte.Prelude.{String, str_append, [], ◌∷◌, ◌++◌, Option, none, some, ℕ}
use ocean_data_engine_fronte.Prelude.Float.{Float}
use ocean_data_engine_fronte.Prelude.Json.{JsonFields}
use ocean_data_engine_fronte.Queue.Priority.{normal_ingestion}
use ocean_data_engine_fronte.Qc.Checks.{as_utc}
use ocean_data_engine_fronte.Dataset.State.{
  DatasetStatus, healthy, stale, degraded, failed, disabled, Dataset, record_success,
  emit_dataset_updated,
}
use ocean_data_engine_fronte.Ingestion.Parsed.{RawPayload, FetchResult, record_count}
use ocean_data_engine_fronte.Ingestion.Events.{dataset_updated, processing_completed}
use ocean_data_engine_fronte.Ingestion.Tables.{Externals, Ledger, publish_event}
use ocean_data_engine_fronte.Ingestion.Run.{ingest_records}

-- of the run: its processing job, how long it took, the state of the fetch, and the text of `last_processed_at`
pub record Completion : Type 0 where
  pub job_uid : String
  pub duration_ms : ℕ
  pub result_state : String
  pub processed_at : String

abbrev pub status_value : DatasetStatus → String
status_value healthy = "healthy"
status_value stale = "stale"
status_value degraded = "degraded"
status_value failed = "failed"
status_value disabled = "disabled"

module _ {W G : Type 0} ⦃f : Float W⦄ (x : Externals W G) where
  abbrev pub completed_key : Completion → String
  completed_key c = str_append "event:" (str_append c.job_uid ":completed")

  abbrev pub updated_key : Completion → String → DatasetStatus → String
  updated_key c key status = str_append "event:dataset:" (
      str_append key
        (str_append ":" (str_append (status_value status) (str_append ":" c.processed_at))))

  -- the event of the run, with the counts of its summary
  abbrev pub completed_event : Completion → String → Ledger W G → JsonFields
  completed_event c key s =
      processing_completed x.python.isoformat x.timestamp c.job_uid key s.summary.accepted_count
        s.summary.rejected_count (some c.duration_ms)

  unfoldable pub complete_run : Completion → String → Ledger W G → Ledger W G
  complete_run c key s =
      let event = completed_event c key s in
      let sent = publish_event (x.fresh s.offered) normal_ingestion event (completed_key c) s in
      record sent {
        summary = record s.summary {
          processing_events = s.summary.processing_events ++ event ∷ [];
        };
      }

  -- `_emit_dataset_updated`, with the status to be told when it changed
  unfoldable pub tell_status :
      Completion → RawPayload → String → Option DatasetStatus → Ledger W G → Ledger W G
  tell_status c raw key none s = s
  tell_status c raw key (some status) s =
      let event =
        dataset_updated x.python.isoformat x.timestamp key (status_value status)
          (some raw.retrieved_at) in
      let sent =
        publish_event (x.fresh s.offered) normal_ingestion event (updated_key c key status) s in
      record sent {
        summary = record s.summary { dataset_events = s.summary.dataset_events ++ event ∷ [] };
      }

  abbrev pub succeeded_dataset : Completion → FetchResult W G → Dataset W → Dataset W
  succeeded_dataset c r d =
      record_success x.now (as_utc r.raw.retrieved_at) (record_count r) c.result_state d

  unfoldable pub ingest_payload :
      Completion → FetchResult W G → Dataset W × Ledger W G → Dataset W × Ledger W G
  unfolding complete_run tell_status
  ingest_payload c r (d, s) =
      let d' = succeeded_dataset c r d in
      (
        d',
        tell_status c r.raw d.key (emit_dataset_updated d.status d')
            (complete_run c d.key (ingest_records x r s)),
      )
