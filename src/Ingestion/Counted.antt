-- ===== src/Ingestion/Counted.antt =====
-- Every record of a payload is counted once, and every one that is not a duplicate is audited.
use ocean_data_engine_fronte.Prelude.{ℕ, suc, ◌+◌, ◌≡◌, refl, String, length, arith}
use ocean_data_engine_fronte.Prelude.Float.{Float}
use ocean_data_engine_fronte.Qc.Checks.{
  QcStatus, QcResult, accepted, rejected, quarantined, unknown,
}
use ocean_data_engine_fronte.Ingestion.Parsed.{
  RawPayload, ParsedAlert, ParsedPfz, ParsedObservation, ParsedForecast, ParsedStation,
  ParsedMarineZone, FetchResult, record_count,
}
use ocean_data_engine_fronte.Ingestion.Tables.{
  Externals, IngestSummary, Ledger, tally, audit, skip, publish_event, new_summary,
}
use ocean_data_engine_fronte.Ingestion.Records.{
  ingest_alert, ingest_pfz, ingest_observation, ingest_forecast, ingest_station, ingest_marine_zone,
  store_alert, announce_alert, alert_key, alert_qc, store_pfz, announce_pfz, pfz_key, pfz_qc,
  store_observation, announce_observation, observation_key, observation_qc, store_forecast,
  forecast_key, forecast_qc, audit_station, upsert_station, station_qc, audit_zone, upsert_zone,
  zone_qc,
}
use ocean_data_engine_fronte.Ingestion.Run.{ingest_records, for_each, cyclone_alert, tsunami_alert}
use ocean_data_engine_fronte.Ingestion.Loops.{for_each-adds}
use ocean_data_engine_fronte.Ingestion.Cases

abbrev pub handled : IngestSummary → ℕ
handled s = s.accepted_count + s.rejected_count + s.quarantined_count

handled-tally : (q : QcStatus) (s : IngestSummary) → handled (tally q s) ≡ suc (handled s)
unfolding tally
handled-tally accepted s = omega arith
handled-tally rejected s = omega arith
handled-tally quarantined s = omega arith
handled-tally unknown s = omega arith

skipped-tally :
    (q : QcStatus) (s : IngestSummary) → (tally q s).skipped_duplicates ≡ s.skipped_duplicates
unfolding tally
skipped-tally accepted s = refl
skipped-tally rejected s = refl
skipped-tally quarantined s = refl
skipped-tally unknown s = refl

-- A tally changes the three counts only.
pub tally-elim :
    (P : IngestSummary → Type 0) (q : QcStatus) (s : IngestSummary)
    → ((a r c : ℕ) → P (record s { accepted_count = a; rejected_count = r; quarantined_count = c }))
    → P (tally q s)
unfolding tally
tally-elim P accepted s h = h _ _ _
tally-elim P rejected s h = h _ _ _
tally-elim P quarantined s h = h _ _ _
tally-elim P unknown s h = h _ _ _

module _ {W G : Type 0} where
  -- the records counted, and the records audited together with those skipped
  abbrev pub counted : Ledger W G → ℕ
  counted s = handled s.summary + s.summary.skipped_duplicates

  abbrev pub audited : Ledger W G → ℕ
  audited s = length s.quality + s.summary.skipped_duplicates

  abbrev OneMore : Ledger W G → Ledger W G → Type 0
  OneMore s t = (counted t ≡ suc (counted s)) × (audited t ≡ suc (audited s))

  OneMore-skip : (s : Ledger W G) → OneMore s (skip s)
  OneMore-skip s = (omega arith, omega arith)

  OneMore-audit : (e k d : String) (qc : QcResult W) (s : Ledger W G) → OneMore s (audit e k d qc s)
  unfolding audit
  OneMore-audit e k d qc s = (
    omega (arith, handled-tally qc.status s.summary, skipped-tally qc.status s.summary),
    omega (arith, skipped-tally qc.status s.summary),
  )

module _ {W G : Type 0} ⦃f : Float W⦄ (x : Externals W G) (raw : RawPayload) where
  OneMore-alert : (a : ParsedAlert G) (s : Ledger W G) → OneMore s (ingest_alert x raw a s)
  unfolding announce_alert publish_event store_alert audit
  OneMore-alert a s =
      let one = OneMore-audit "alert" (alert_key x a) raw.dataset (alert_qc x a) s in
      Cases.ingest_alert-cases (OneMore s) x raw a s (λ e. OneMore-skip s) (λ e d. one) (λ e d. one)

  OneMore-pfz : (a : ParsedPfz W G) (s : Ledger W G) → OneMore s (ingest_pfz x raw a s)
  unfolding announce_pfz publish_event store_pfz audit
  OneMore-pfz a s =
      let one = OneMore-audit "pfz" (pfz_key x a) raw.dataset (pfz_qc x a) s in
      Cases.ingest_pfz-cases (OneMore s) x raw a s (λ e. OneMore-skip s) (λ e d. one) (λ e d. one)

  OneMore-observation :
      (a : ParsedObservation W) (s : Ledger W G) → OneMore s (ingest_observation x raw a s)
  unfolding announce_observation publish_event store_observation audit
  OneMore-observation a s =
      let one =
        OneMore-audit "observation" (observation_key x a) raw.dataset (observation_qc x a) s in
      Cases.ingest_observation-cases (OneMore s) x raw a s (λ e. OneMore-skip s) (λ e d. one)
        (λ e d. one)

  OneMore-forecast : (a : ParsedForecast W) (s : Ledger W G) → OneMore s (ingest_forecast x raw a s)
  unfolding store_forecast audit
  OneMore-forecast a s =
      Cases.ingest_forecast-cases (OneMore s) x raw a s (λ e. OneMore-skip s)
        (λ e. OneMore-audit "forecast" (forecast_key x a) raw.dataset (forecast_qc x a) s)

  OneMore-station : (a : ParsedStation W) (s : Ledger W G) → OneMore s (ingest_station x raw a s)
  unfolding audit_station upsert_station audit
  OneMore-station a s =
      let one = OneMore-audit "station" "" raw.dataset (station_qc x a) s in
      Cases.ingest_station-cases (OneMore s) x raw a s (λ e. one) (λ e. one)

  OneMore-zone :
      (a : ParsedMarineZone G) (s : Ledger W G) → OneMore s (ingest_marine_zone x raw a s)
  unfolding audit_zone upsert_zone audit
  OneMore-zone a s =
      let one = OneMore-audit "zone" "" raw.dataset (zone_qc x a) s in
      Cases.ingest_marine_zone-cases (OneMore s) x raw a s (λ e. one) (λ e. one)

module _ {W G : Type 0} ⦃f : Float W⦄ (x : Externals W G) where
  -- a measure that every handler raises by one is raised by the number of records
  ingest_records-adds :
      (m : Ledger W G → ℕ)
      → ((s t : Ledger W G) → OneMore s t → m t ≡ suc (m s))
      → (r : FetchResult W G) (s : Ledger W G)
      → m (ingest_records x r s) ≡ record_count r + m (record s { summary = new_summary })
  unfolding ingest_records record_count
  ingest_records-adds m h r s =
      let raw = r.raw in
      let s0 : Ledger W G = record s { summary = new_summary } in
      let s1 = for_each (ingest_alert x raw) r.alerts s0 in
      let s2 = for_each (ingest_pfz x raw) r.pfz s1 in
      let s3 = for_each (ingest_station x raw) r.stations s2 in
      let s4 = for_each (ingest_marine_zone x raw) r.marine_zones s3 in
      let s5 = for_each (ingest_observation x raw) r.observations s4 in
      let s6 = for_each (ingest_forecast x raw) r.forecasts s5 in
      let s7 = for_each (λ c. ingest_alert x raw (cyclone_alert x c)) r.cyclones s6 in
      omega (
        arith,
        for_each-adds (ingest_alert x raw) m (λ a s. h _ _ (OneMore-alert x raw a s)) r.alerts s0,
        for_each-adds (ingest_pfz x raw) m (λ a s. h _ _ (OneMore-pfz x raw a s)) r.pfz s1,
        for_each-adds (ingest_station x raw) m (λ a s. h _ _ (OneMore-station x raw a s)) r.stations
            s2,
        for_each-adds (ingest_marine_zone x raw) m (λ a s. h _ _ (OneMore-zone x raw a s))
            r.marine_zones s3,
        for_each-adds (ingest_observation x raw) m (λ a s. h _ _ (OneMore-observation x raw a s))
            r.observations s4,
        for_each-adds (ingest_forecast x raw) m (λ a s. h _ _ (OneMore-forecast x raw a s))
            r.forecasts s5,
        for_each-adds (λ c. ingest_alert x raw (cyclone_alert x c)) m
            (λ c s. h _ _ (OneMore-alert x raw (cyclone_alert x c) s)) r.cyclones s6,
        for_each-adds (λ t. ingest_alert x raw (tsunami_alert x t)) m
            (λ t s. h _ _ (OneMore-alert x raw (tsunami_alert x t) s)) r.tsunamis s7,
      )

  -- A run counts every record of its payload exactly once, as accepted, rejected, quarantined or skipped,
  -- and leaves one audit row for each record that it does not skip.
  pub ingest_records-counted :
      (r : FetchResult W G) (s : Ledger W G)
      → let after = ingest_records x r s in
        (handled after.summary + after.summary.skipped_duplicates ≡ record_count r)
        × (length after.quality ≡ length s.quality + handled after.summary)
  ingest_records-counted r s =
      let n = ingest_records-adds counted (λ s t h. h.0) r s in
      let k = ingest_records-adds audited (λ s t h. h.1) r s in
      (omega (arith, n), omega (arith, n, k))
