-- ===== src/Ingestion/Announced.antt =====
-- What a run announces: the events of its summary, the sink of alerts and the queue.
use ocean_data_engine_fronte.Prelude.{◌≡◌, sym, ap, ◌∙◌, String, List, [], ◌∷◌, ◌++◌, some}
use mathlib.Core.List.{append-nil, append_assoc}
use ocean_data_engine_fronte.Prelude.Float.{Float}
use ocean_data_engine_fronte.Prelude.Json.{JsonFields}
use ocean_data_engine_fronte.Qc.Checks.{QcResult}
use ocean_data_engine_fronte.Ingestion.Parsed.{
  RawPayload, ParsedAlert, ParsedPfz, ParsedObservation, ParsedForecast, ParsedStation,
  ParsedMarineZone, FetchResult,
}
use ocean_data_engine_fronte.Ingestion.Tables.{Externals, Ledger, audit, publish_event, call_back}
use ocean_data_engine_fronte.Ingestion.Records.{
  alert_key, alert_qc, alert_event, pfz_qc, observation_qc, forecast_qc, station_qc, zone_qc,
  ingest_alert, ingest_pfz, ingest_observation, ingest_forecast, ingest_station, ingest_marine_zone,
  store_alert, announce_alert, store_pfz, announce_pfz, store_observation, announce_observation,
  store_forecast, audit_station, upsert_station, audit_zone, upsert_zone,
}
use ocean_data_engine_fronte.Ingestion.Run.{ingest_records}
use ocean_data_engine_fronte.Ingestion.Cases
use ocean_data_engine_fronte.Ingestion.Cases.{KeptBy, ingest_records-keeps}
use ocean_data_engine_fronte.Ingestion.Counted.{tally-elim}

module _ {W G : Type 0} where
  -- the sink was given these events, and then those of the summary
  abbrev Mirrors : List JsonFields → Ledger W G → Type 0
  Mirrors old s = s.alert_callback ≡ some (old ++ s.summary.alert_events)

  -- what an audit keeps, as it changes counts and audit rows only
  Mirrors-audit :
      (old : List JsonFields) (e k d : String) (qc : QcResult W) (s : Ledger W G)
      → Mirrors old s
      → Mirrors old (audit e k d qc s)
  unfolding audit
  Mirrors-audit old e k d qc s h =
      tally-elim (λ t. s.alert_callback ≡ some (old ++ t.alert_events)) qc.status s.summary
        (λ a r c. h)

module _ {W G : Type 0} ⦃f : Float W⦄ (x : Externals W G) (raw : RawPayload)
    (old : List JsonFields) where
  Mirrors-alert :
      (a : ParsedAlert G) (s : Ledger W G) → Mirrors old s → Mirrors old (ingest_alert x raw a s)
  unfolding store_alert announce_alert publish_event audit
  Mirrors-alert a s h =
      let stored = Mirrors-audit old "alert" (alert_key x a) raw.dataset (alert_qc x a) s h in
      Cases.ingest_alert-cases (Mirrors old) x raw a s (λ e. h) (λ e d. stored)
        (λ e d.
          ap (λ sink. call_back sink (alert_event x a)) stored
          ∙ ap some (append_assoc old _ (alert_event x a ∷ [])))

  Mirrors-pfz :
      (a : ParsedPfz W G) (s : Ledger W G) → Mirrors old s → Mirrors old (ingest_pfz x raw a s)
  unfolding store_pfz announce_pfz publish_event audit
  Mirrors-pfz a s h =
      let stored = Mirrors-audit old "pfz" "" raw.dataset (pfz_qc x a) s h in
      Cases.ingest_pfz-cases (Mirrors old) x raw a s (λ e. h) (λ e d. stored) (λ e d. stored)

  Mirrors-observation :
      (a : ParsedObservation W) (s : Ledger W G)
      → Mirrors old s
      → Mirrors old (ingest_observation x raw a s)
  unfolding store_observation announce_observation publish_event audit
  Mirrors-observation a s h =
      let stored = Mirrors-audit old "observation" "" raw.dataset (observation_qc x a) s h in
      Cases.ingest_observation-cases (Mirrors old) x raw a s (λ e. h) (λ e d. stored)
        (λ e d. stored)

  Mirrors-forecast :
      (a : ParsedForecast W) (s : Ledger W G)
      → Mirrors old s
      → Mirrors old (ingest_forecast x raw a s)
  unfolding store_forecast audit
  Mirrors-forecast a s h =
      let stored = Mirrors-audit old "forecast" "" raw.dataset (forecast_qc x a) s h in
      Cases.ingest_forecast-cases (Mirrors old) x raw a s (λ e. h) (λ e. stored)

  Mirrors-station :
      (a : ParsedStation W) (s : Ledger W G)
      → Mirrors old s
      → Mirrors old (ingest_station x raw a s)
  unfolding audit_station upsert_station audit
  Mirrors-station a s h =
      let stored = Mirrors-audit old "station" "" raw.dataset (station_qc x a) s h in
      Cases.ingest_station-cases (Mirrors old) x raw a s (λ e. stored) (λ e. stored)

  Mirrors-zone :
      (a : ParsedMarineZone G) (s : Ledger W G)
      → Mirrors old s
      → Mirrors old (ingest_marine_zone x raw a s)
  unfolding audit_zone upsert_zone audit
  Mirrors-zone a s h =
      let stored = Mirrors-audit old "zone" "" raw.dataset (zone_qc x a) s h in
      Cases.ingest_marine_zone-cases (Mirrors old) x raw a s (λ e. stored) (λ e. stored)

-- The sink of alerts, when there is one, is given exactly the alert events that the run's summary lists, in
-- their order, after the events of earlier runs.
pub ingest_records-Mirrors :
    {W G : Type 0} ⦃f : Float W⦄ (x : Externals W G) (r : FetchResult W G) (s : Ledger W G)
    (old : List JsonFields)
    → s.alert_callback ≡ some old
    → let after = ingest_records x r s in
      after.alert_callback ≡ some (old ++ after.summary.alert_events)
ingest_records-Mirrors x r s old h =
    ingest_records-keeps x (Mirrors old) r s
      (
        Mirrors-alert x r.raw old,
        Mirrors-pfz x r.raw old,
        Mirrors-station x r.raw old,
        Mirrors-zone x r.raw old,
        Mirrors-observation x r.raw old,
        Mirrors-forecast x r.raw old,
      )
      (h ∙ ap some (sym (append-nil old)))
