-- ===== src/Ingestion/Standing.antt =====
-- Rows that quality control did not reject, against the events of a run's summary.
use ocean_data_engine_fronte.Prelude.{
  ℕ, suc, ◌+◌, ◌≡◌, refl, ap, ◌∙◌, String, List, [], ◌∷◌, ◌++◌, true, false, not, length, keep,
  arith, if◌then◌else◌,
}
use ocean_data_engine_fronte.Prelude.Float.{Float}
use ocean_data_engine_fronte.Prelude.Json.{JsonFields}
use ocean_data_engine_fronte.Qc.Checks.{QcResult}
use ocean_data_engine_fronte.Ingestion.Parsed.{
  RawPayload, ParsedAlert, ParsedPfz, ParsedObservation, ParsedForecast, ParsedStation,
  ParsedMarineZone, FetchResult,
}
use ocean_data_engine_fronte.Ingestion.Tables.{
  Externals, Stored, Ledger, is_rejected, audit, publish_event,
}
use ocean_data_engine_fronte.Ingestion.Records.{
  alert_key, alert_qc, pfz_key, observation_key, alert_row, pfz_row, observation_row, pfz_event,
  observation_event, alert_event, pfz_qc, observation_qc, forecast_qc, station_qc, zone_qc,
  ingest_alert, ingest_pfz, ingest_observation, ingest_forecast, ingest_station, ingest_marine_zone,
  store_alert, announce_alert, store_pfz, announce_pfz, store_observation, announce_observation,
  store_forecast, audit_station, upsert_station, audit_zone, upsert_zone,
}
use ocean_data_engine_fronte.Ingestion.Run.{ingest_records}
use ocean_data_engine_fronte.Ingestion.Cases
use ocean_data_engine_fronte.Ingestion.Cases.{KeptBy, ingest_records-keeps}
use ocean_data_engine_fronte.Ingestion.Counted.{tally-elim}

length-snoc : {A : Type 0} (xs : List A) (x : A) → length (xs ++ x ∷ []) ≡ suc (length xs)
length-snoc [] x = refl
length-snoc (y ∷ xs) x = omega (arith, length-snoc xs x)

-- the rows that quality control did not reject
abbrev pub standing : {W P E : Type 0} → List (Stored W P E) → ℕ
standing rows = length (keep (λ row. not (is_rejected row.quality_status)) rows)

module _ {W P E : Type 0} (row : Stored W P E) (rows : List (Stored W P E)) where
  standing-rejected : is_rejected row.quality_status ≡ true → standing (row ∷ rows) ≡ standing rows
  standing-rejected e =
      let rest = keep (λ r. not (is_rejected r.quality_status)) rows in
      ap (λ b. length (if not b then row ∷ rest else rest)) e

  standing-kept :
      is_rejected row.quality_status ≡ false → standing (row ∷ rows) ≡ suc (standing rows)
  standing-kept e =
      let rest = keep (λ r. not (is_rejected r.quality_status)) rows in
      ap (λ b. length (if not b then row ∷ rest else rest)) e

-- one more on both sides
one_more :
    {W P E : Type 0} (row : Stored W P E) (rows : List (Stored W P E)) (n : ℕ) (event : JsonFields)
    (events : List JsonFields)
    → is_rejected row.quality_status ≡ false
    → standing rows ≡ n + length events
    → standing (row ∷ rows) ≡ n + length (events ++ event ∷ [])
one_more row rows n event events e h =
    omega (arith, standing-kept row rows e, length-snoc events event, h)

module _ {W G : Type 0} where
  -- the rows standing are these and those announced
  abbrev pub Balanced : ℕ → ℕ → ℕ → Ledger W G → Type 0
  Balanced n k l s =
      (standing s.alerts ≡ n + length s.summary.alert_events)
      × (standing s.pfz ≡ k + length s.summary.pfz_events)
      × (standing s.observations ≡ l + length s.summary.observation_events)

  Balanced-audit :
      (n k l : ℕ) (e key d : String) (qc : QcResult W) (s : Ledger W G)
      → Balanced n k l s
      → Balanced n k l (audit e key d qc s)
  unfolding audit
  Balanced-audit n k l e key d qc s h =
      tally-elim (λ t. Balanced n k l (record s { summary = t })) qc.status s.summary (λ a r c. h)

module _ {W G : Type 0} ⦃f : Float W⦄ (x : Externals W G) (raw : RawPayload) (n k l : ℕ) where
  Balanced-alert :
      (a : ParsedAlert G) (s : Ledger W G)
      → Balanced n k l s
      → Balanced n k l (ingest_alert x raw a s)
  unfolding store_alert announce_alert publish_event audit
  Balanced-alert a s h =
      let row = alert_row x raw a in
      let event = alert_event x a in
      Cases.ingest_alert-cases (Balanced n k l) x raw a s (λ e. h)
        (λ e d.
          Balanced-audit n k l "alert" (alert_key x a) raw.dataset (alert_qc x a)
            (record s { alerts = row ∷ s.alerts })
            (standing-rejected row s.alerts d ∙ h.0, h.1, h.2))
        (λ e d.
          tally-elim
            (λ t. Balanced n k l (record s {
              alerts = row ∷ s.alerts;
              summary = record t { alert_events = t.alert_events ++ event ∷ [] };
            }))
            (alert_qc x a).status s.summary
            (λ b r c. (one_more row s.alerts n event s.summary.alert_events d h.0, h.1, h.2)))

  Balanced-pfz :
      (a : ParsedPfz W G) (s : Ledger W G)
      → Balanced n k l s
      → Balanced n k l (ingest_pfz x raw a s)
  unfolding store_pfz announce_pfz publish_event audit
  Balanced-pfz a s h =
      let row = pfz_row x raw a in
      let event = pfz_event x a in
      Cases.ingest_pfz-cases (Balanced n k l) x raw a s (λ e. h)
        (λ e d.
          Balanced-audit n k l "pfz" (pfz_key x a) raw.dataset (pfz_qc x a)
            (record s { pfz = row ∷ s.pfz }) (h.0, standing-rejected row s.pfz d ∙ h.1, h.2))
        (λ e d.
          tally-elim
            (λ t. Balanced n k l (record s {
              pfz = row ∷ s.pfz;
              summary = record t { pfz_events = t.pfz_events ++ event ∷ [] };
            }))
            (pfz_qc x a).status s.summary
            (λ b r c. (h.0, one_more row s.pfz k event s.summary.pfz_events d h.1, h.2)))

  Balanced-observation :
      (a : ParsedObservation W) (s : Ledger W G)
      → Balanced n k l s
      → Balanced n k l (ingest_observation x raw a s)
  unfolding store_observation announce_observation publish_event audit
  Balanced-observation a s h =
      let row = observation_row x raw a in
      let event = observation_event x a in
      Cases.ingest_observation-cases (Balanced n k l) x raw a s (λ e. h)
        (λ e d.
          Balanced-audit n k l "observation" (observation_key x a) raw.dataset (observation_qc x a)
            (record s { observations = row ∷ s.observations })
            (h.0, h.1, standing-rejected row s.observations d ∙ h.2))
        (λ e d.
          tally-elim
            (λ t. Balanced n k l (record s {
              observations = row ∷ s.observations;
              summary = record t { observation_events = t.observation_events ++ event ∷ [] };
            }))
            (observation_qc x a).status s.summary
            (λ b r c.
              (h.0, h.1, one_more row s.observations l event s.summary.observation_events d h.2)))

  Balanced-forecast :
      (a : ParsedForecast W) (s : Ledger W G)
      → Balanced n k l s
      → Balanced n k l (ingest_forecast x raw a s)
  unfolding store_forecast audit
  Balanced-forecast a s h =
      let stored = Balanced-audit n k l "forecast" "" raw.dataset (forecast_qc x a) s h in
      Cases.ingest_forecast-cases (Balanced n k l) x raw a s (λ e. h) (λ e. stored)

  Balanced-station :
      (a : ParsedStation W) (s : Ledger W G)
      → Balanced n k l s
      → Balanced n k l (ingest_station x raw a s)
  unfolding audit_station upsert_station audit
  Balanced-station a s h =
      let stored = Balanced-audit n k l "station" "" raw.dataset (station_qc x a) s h in
      Cases.ingest_station-cases (Balanced n k l) x raw a s (λ e. stored) (λ e. stored)

  Balanced-zone :
      (a : ParsedMarineZone G) (s : Ledger W G)
      → Balanced n k l s
      → Balanced n k l (ingest_marine_zone x raw a s)
  unfolding audit_zone upsert_zone audit
  Balanced-zone a s h =
      let stored = Balanced-audit n k l "zone" "" raw.dataset (zone_qc x a) s h in
      Cases.ingest_marine_zone-cases (Balanced n k l) x raw a s (λ e. stored) (λ e. stored)

-- A run reports one event for each alert, fishing zone and observation that it stores and that quality control
-- does not reject, and none for those it rejects or has already.
pub ingest_records-Balanced :
    {W G : Type 0} ⦃f : Float W⦄ (x : Externals W G) (r : FetchResult W G) (s : Ledger W G)
    → Balanced (standing s.alerts) (standing s.pfz) (standing s.observations) (ingest_records x r s)
ingest_records-Balanced x r s =
    let n = standing s.alerts in
    let k = standing s.pfz in
    let l = standing s.observations in
    ingest_records-keeps x (Balanced n k l) r s
      (
        Balanced-alert x r.raw n k l,
        Balanced-pfz x r.raw n k l,
        Balanced-station x r.raw n k l,
        Balanced-zone x r.raw n k l,
        Balanced-observation x r.raw n k l,
        Balanced-forecast x r.raw n k l,
      )
      (omega arith, omega arith, omega arith)
