-- ===== src/Ingestion/Cases.antt =====
-- The ways that a handler of services/ingestion.py takes, each with what holds where it is taken.
use ocean_data_engine_fronte.Prelude.{◌≡◌, true, false, if-elim}
use ocean_data_engine_fronte.Prelude.Float.{Float}
use ocean_data_engine_fronte.Ingestion.Parsed.{
  RawPayload, ParsedAlert, ParsedPfz, ParsedObservation, ParsedForecast, ParsedStation,
  ParsedMarineZone, FetchResult,
}
use ocean_data_engine_fronte.Ingestion.Tables.{
  Externals, Ledger, exists, is_rejected, skip, new_summary,
}
use ocean_data_engine_fronte.Ingestion.Records.{
  alert_key, alert_qc, store_alert, announce_alert, ingest_alert, pfz_key, pfz_qc, store_pfz,
  announce_pfz, ingest_pfz, observation_key, observation_qc, store_observation,
  announce_observation, ingest_observation, forecast_key, store_forecast, ingest_forecast,
  station_qc, audit_station, upsert_station, ingest_station, zone_qc, audit_zone, upsert_zone,
  ingest_marine_zone,
}
use ocean_data_engine_fronte.Ingestion.Run.{ingest_records, cyclone_alert, tsunami_alert}
use ocean_data_engine_fronte.Ingestion.Loops.{for_each-keeps}

module _ {W G : Type 0} ⦃f : Float W⦄ (P : Ledger W G → Type 0) (x : Externals W G)
    (raw : RawPayload) where
  pub ingest_alert-cases :
      (a : ParsedAlert G) (s : Ledger W G)
      → (exists (alert_key x a) s.alerts ≡ true → P (skip s))
      → (exists (alert_key x a) s.alerts ≡ false
          → is_rejected (alert_qc x a).status ≡ true
          → P (store_alert x raw a s))
      → (exists (alert_key x a) s.alerts ≡ false
          → is_rejected (alert_qc x a).status ≡ false
          → P (announce_alert x a (store_alert x raw a s)))
      → P (ingest_alert x raw a s)
  unfolding ingest_alert
  ingest_alert-cases a s h k l =
      if-elim P (exists (alert_key x a) s.alerts) h
        (λ e. if-elim P (is_rejected (alert_qc x a).status) (k e) (l e))

  pub ingest_pfz-cases :
      (a : ParsedPfz W G) (s : Ledger W G)
      → (exists (pfz_key x a) s.pfz ≡ true → P (skip s))
      → (exists (pfz_key x a) s.pfz ≡ false
          → is_rejected (pfz_qc x a).status ≡ true
          → P (store_pfz x raw a s))
      → (exists (pfz_key x a) s.pfz ≡ false
          → is_rejected (pfz_qc x a).status ≡ false
          → P (announce_pfz x a (store_pfz x raw a s)))
      → P (ingest_pfz x raw a s)
  unfolding ingest_pfz
  ingest_pfz-cases a s h k l =
      if-elim P (exists (pfz_key x a) s.pfz) h
        (λ e. if-elim P (is_rejected (pfz_qc x a).status) (k e) (l e))

  pub ingest_observation-cases :
      (a : ParsedObservation W) (s : Ledger W G)
      → (exists (observation_key x a) s.observations ≡ true → P (skip s))
      → (exists (observation_key x a) s.observations ≡ false
          → is_rejected (observation_qc x a).status ≡ true
          → P (store_observation x raw a s))
      → (exists (observation_key x a) s.observations ≡ false
          → is_rejected (observation_qc x a).status ≡ false
          → P (announce_observation x a (store_observation x raw a s)))
      → P (ingest_observation x raw a s)
  unfolding ingest_observation
  ingest_observation-cases a s h k l =
      if-elim P (exists (observation_key x a) s.observations) h
        (λ e. if-elim P (is_rejected (observation_qc x a).status) (k e) (l e))

  pub ingest_forecast-cases :
      (a : ParsedForecast W) (s : Ledger W G)
      → (exists (forecast_key x a) s.forecasts ≡ true → P (skip s))
      → (exists (forecast_key x a) s.forecasts ≡ false → P (store_forecast x raw a s))
      → P (ingest_forecast x raw a s)
  unfolding ingest_forecast
  ingest_forecast-cases a s h k = if-elim P (exists (forecast_key x a) s.forecasts) h k

  pub ingest_station-cases :
      (a : ParsedStation W) (s : Ledger W G)
      → (is_rejected (station_qc x a).status ≡ true → P (audit_station x raw a s))
      → (is_rejected (station_qc x a).status ≡ false
          → P (upsert_station x raw a (audit_station x raw a s)))
      → P (ingest_station x raw a s)
  unfolding ingest_station
  ingest_station-cases a s h k = if-elim P (is_rejected (station_qc x a).status) h k

  pub ingest_marine_zone-cases :
      (a : ParsedMarineZone G) (s : Ledger W G)
      → (is_rejected (zone_qc x a).status ≡ true → P (audit_zone x raw a s))
      → (is_rejected (zone_qc x a).status ≡ false → P (upsert_zone x raw a (audit_zone x raw a s)))
      → P (ingest_marine_zone x raw a s)
  unfolding ingest_marine_zone
  ingest_marine_zone-cases a s h k = if-elim P (is_rejected (zone_qc x a).status) h k

module _ {W G : Type 0} ⦃f : Float W⦄ (x : Externals W G) where
  -- Every handler keeps the property.
  abbrev pub KeptBy : RawPayload → (Ledger W G → Type 0) → Type 0
  KeptBy raw P =
      ((a : ParsedAlert G) (s : Ledger W G) → P s → P (ingest_alert x raw a s))
      × ((a : ParsedPfz W G) (s : Ledger W G) → P s → P (ingest_pfz x raw a s))
      × ((a : ParsedStation W) (s : Ledger W G) → P s → P (ingest_station x raw a s))
      × ((a : ParsedMarineZone G) (s : Ledger W G) → P s → P (ingest_marine_zone x raw a s))
      × ((a : ParsedObservation W) (s : Ledger W G) → P s → P (ingest_observation x raw a s))
      × ((a : ParsedForecast W) (s : Ledger W G) → P s → P (ingest_forecast x raw a s))

  pub ingest_records-keeps :
      (P : Ledger W G → Type 0) (r : FetchResult W G) (s : Ledger W G)
      → KeptBy r.raw P
      → P (record s { summary = new_summary })
      → P (ingest_records x r s)
  unfolding ingest_records
  ingest_records-keeps P r s k h =
      for_each-keeps (λ t. ingest_alert x r.raw (tsunami_alert x t)) P
        (λ t. k.0 (tsunami_alert x t)) r.tsunamis _
        (for_each-keeps (λ c. ingest_alert x r.raw (cyclone_alert x c)) P
          (λ c. k.0 (cyclone_alert x c)) r.cyclones _
          (for_each-keeps (ingest_forecast x r.raw) P k.5 r.forecasts _ (
            for_each-keeps (ingest_observation x r.raw) P k.4 r.observations _ (
              for_each-keeps (ingest_marine_zone x r.raw) P k.3 r.marine_zones _ (
                for_each-keeps (ingest_station x r.raw) P k.2 r.stations _ (
                  for_each-keeps (ingest_pfz x r.raw) P k.1 r.pfz _
                    (for_each-keeps (ingest_alert x r.raw) P k.0 r.alerts _ h)))))))
