-- ===== src/Ingestion/Kept.antt =====
-- The tables with a unique key: no row is lost or changed, and no key stands twice.
use ocean_data_engine_fronte.Prelude.{◌≡◌, refl, ap, List, [], ◌∷◌, ◌++◌, false}
use ocean_data_engine_fronte.Prelude.Float.{Float}
use ocean_data_engine_fronte.Ingestion.Parsed.{
  RawPayload, ParsedAlert, ParsedPfz, ParsedObservation, ParsedForecast, ParsedStation,
  ParsedMarineZone, FetchResult,
}
use ocean_data_engine_fronte.Ingestion.Tables.{
  Externals, Stored, Ledger, exists, audit, publish_event,
}
use ocean_data_engine_fronte.Ingestion.Records.{
  ingest_alert, ingest_pfz, ingest_observation, ingest_forecast, ingest_station, ingest_marine_zone,
  store_alert, announce_alert, store_pfz, announce_pfz, store_observation, announce_observation,
  store_forecast, audit_station, upsert_station, audit_zone, upsert_zone,
}
use ocean_data_engine_fronte.Ingestion.Run.{ingest_records}
use ocean_data_engine_fronte.Ingestion.Cases
use ocean_data_engine_fronte.Ingestion.Cases.{KeptBy, ingest_records-keeps}

-- no two rows share a key
abbrev pub DistinctRows : {W P E : Type 0} → List (Stored W P E) → Type 0
DistinctRows [] = Unit
DistinctRows (row ∷ rows) = (exists row.idempotency_key rows ≡ false) × DistinctRows rows

-- `ys` is `xs` with rows put before it
abbrev pub Grows : {A : Type 0} → List A → List A → Type 0
Grows {A} xs ys = (new : List A) × (ys ≡ new ++ xs)

Grows-refl : {A : Type 0} (xs : List A) → Grows xs xs
Grows-refl xs = ([], refl)

Grows-cons : {A : Type 0} (a : A) (xs ys : List A) → Grows xs ys → Grows xs (a ∷ ys)
Grows-cons a xs ys h = (a ∷ h.0, ap (λ zs. a ∷ zs) h.1)

module _ {W G : Type 0} where
  abbrev pub DistinctLedger : Ledger W G → Type 0
  DistinctLedger s =
      DistinctRows s.alerts
      × DistinctRows s.pfz
      × DistinctRows s.observations
      × DistinctRows s.forecasts

  abbrev pub Extends : Ledger W G → Ledger W G → Type 0
  Extends s t =
      Grows s.alerts t.alerts
      × Grows s.pfz t.pfz
      × Grows s.observations t.observations
      × Grows s.forecasts t.forecasts

  pub Extends-refl : (s : Ledger W G) → Extends s s
  Extends-refl s =
      (Grows-refl s.alerts, Grows-refl s.pfz, Grows-refl s.observations, Grows-refl s.forecasts)

module _ {W G : Type 0} ⦃f : Float W⦄ (x : Externals W G) (raw : RawPayload) where
  Distinct-alert :
      (a : ParsedAlert G) (s : Ledger W G)
      → DistinctLedger s
      → DistinctLedger (ingest_alert x raw a s)
  unfolding store_alert audit announce_alert publish_event
  Distinct-alert a s h =
      Cases.ingest_alert-cases DistinctLedger x raw a s (λ e. h) (λ e d. ((e, h.0), h.1, h.2, h.3))
        (λ e d. ((e, h.0), h.1, h.2, h.3))

  Distinct-pfz :
      (a : ParsedPfz W G) (s : Ledger W G)
      → DistinctLedger s
      → DistinctLedger (ingest_pfz x raw a s)
  unfolding store_pfz audit announce_pfz publish_event
  Distinct-pfz a s h =
      Cases.ingest_pfz-cases DistinctLedger x raw a s (λ e. h) (λ e d. (h.0, (e, h.1), h.2, h.3))
        (λ e d. (h.0, (e, h.1), h.2, h.3))

  Distinct-observation :
      (a : ParsedObservation W) (s : Ledger W G)
      → DistinctLedger s
      → DistinctLedger (ingest_observation x raw a s)
  unfolding store_observation audit announce_observation publish_event
  Distinct-observation a s h =
      Cases.ingest_observation-cases DistinctLedger x raw a s (λ e. h)
        (λ e d. (h.0, h.1, (e, h.2), h.3)) (λ e d. (h.0, h.1, (e, h.2), h.3))

  Distinct-forecast :
      (a : ParsedForecast W) (s : Ledger W G)
      → DistinctLedger s
      → DistinctLedger (ingest_forecast x raw a s)
  unfolding store_forecast audit
  Distinct-forecast a s h =
      Cases.ingest_forecast-cases DistinctLedger x raw a s (λ e. h) (λ e. (h.0, h.1, h.2, (e, h.3)))

  Distinct-station :
      (a : ParsedStation W) (s : Ledger W G)
      → DistinctLedger s
      → DistinctLedger (ingest_station x raw a s)
  unfolding audit_station upsert_station audit
  Distinct-station a s h = Cases.ingest_station-cases DistinctLedger x raw a s (λ e. h) (λ e. h)

  Distinct-zone :
      (a : ParsedMarineZone G) (s : Ledger W G)
      → DistinctLedger s
      → DistinctLedger (ingest_marine_zone x raw a s)
  unfolding audit_zone upsert_zone audit
  Distinct-zone a s h = Cases.ingest_marine_zone-cases DistinctLedger x raw a s (λ e. h) (λ e. h)

  Distinct-KeptBy : KeptBy x raw DistinctLedger
  Distinct-KeptBy = (
    Distinct-alert, Distinct-pfz, Distinct-station, Distinct-zone, Distinct-observation,
    Distinct-forecast,
  )

  Extends-alert :
      (s0 : Ledger W G) (a : ParsedAlert G) (s : Ledger W G)
      → Extends s0 s
      → Extends s0 (ingest_alert x raw a s)
  unfolding store_alert audit announce_alert publish_event
  Extends-alert s0 a s h =
      Cases.ingest_alert-cases (Extends s0) x raw a s (λ e. h)
        (λ e d. (Grows-cons _ s0.alerts s.alerts h.0, h.1, h.2, h.3))
        (λ e d. (Grows-cons _ s0.alerts s.alerts h.0, h.1, h.2, h.3))

  Extends-pfz :
      (s0 : Ledger W G) (a : ParsedPfz W G) (s : Ledger W G)
      → Extends s0 s
      → Extends s0 (ingest_pfz x raw a s)
  unfolding store_pfz audit announce_pfz publish_event
  Extends-pfz s0 a s h =
      Cases.ingest_pfz-cases (Extends s0) x raw a s (λ e. h)
        (λ e d. (h.0, Grows-cons _ s0.pfz s.pfz h.1, h.2, h.3))
        (λ e d. (h.0, Grows-cons _ s0.pfz s.pfz h.1, h.2, h.3))

  Extends-observation :
      (s0 : Ledger W G) (a : ParsedObservation W) (s : Ledger W G)
      → Extends s0 s
      → Extends s0 (ingest_observation x raw a s)
  unfolding store_observation audit announce_observation publish_event
  Extends-observation s0 a s h =
      Cases.ingest_observation-cases (Extends s0) x raw a s (λ e. h)
        (λ e d. (h.0, h.1, Grows-cons _ s0.observations s.observations h.2, h.3))
        (λ e d. (h.0, h.1, Grows-cons _ s0.observations s.observations h.2, h.3))

  Extends-forecast :
      (s0 : Ledger W G) (a : ParsedForecast W) (s : Ledger W G)
      → Extends s0 s
      → Extends s0 (ingest_forecast x raw a s)
  unfolding store_forecast audit
  Extends-forecast s0 a s h =
      Cases.ingest_forecast-cases (Extends s0) x raw a s (λ e. h)
        (λ e. (h.0, h.1, h.2, Grows-cons _ s0.forecasts s.forecasts h.3))

  Extends-station :
      (s0 : Ledger W G) (a : ParsedStation W) (s : Ledger W G)
      → Extends s0 s
      → Extends s0 (ingest_station x raw a s)
  unfolding audit_station upsert_station audit
  Extends-station s0 a s h = Cases.ingest_station-cases (Extends s0) x raw a s (λ e. h) (λ e. h)

  Extends-zone :
      (s0 : Ledger W G) (a : ParsedMarineZone G) (s : Ledger W G)
      → Extends s0 s
      → Extends s0 (ingest_marine_zone x raw a s)
  unfolding audit_zone upsert_zone audit
  Extends-zone s0 a s h = Cases.ingest_marine_zone-cases (Extends s0) x raw a s (λ e. h) (λ e. h)

  pub Extends-KeptBy : (s0 : Ledger W G) → KeptBy x raw (Extends s0)
  Extends-KeptBy s0 = (
    Extends-alert s0,
    Extends-pfz s0,
    Extends-station s0,
    Extends-zone s0,
    Extends-observation s0,
    Extends-forecast s0,
  )

module _ {W G : Type 0} ⦃f : Float W⦄ (x : Externals W G) where
  -- A run keeps the keys of each of the four tables apart, so that the unique index of a table never
  -- refuses a row: one key never stands twice among the alerts, zones of fish, observations or forecasts.
  pub ingest_records-Distinct :
      (r : FetchResult W G) (s : Ledger W G)
      → DistinctLedger s
      → DistinctLedger (ingest_records x r s)
  ingest_records-Distinct r s h =
      ingest_records-keeps x DistinctLedger r s (Distinct-KeptBy x r.raw) h

  -- A run only adds rows to the alerts, fishing zones, observations and forecasts: the rows that stood there
  -- remain behind the new ones, unchanged and in their order.
  pub ingest_records-Extends :
      (r : FetchResult W G) (s : Ledger W G) → Extends s (ingest_records x r s)
  ingest_records-Extends r s =
      ingest_records-keeps x (Extends s) r s (Extends-KeptBy x r.raw s) (Extends-refl s)
