-- ===== src/Ingestion/Again.antt =====
-- services/ingestion.py: proofs on records whose keys are known.
use ocean_data_engine_fronte.Prelude.{
  ◌≡◌, refl, sym, ap, ◌∙◌, subst, String, List, [], true, false, All,
}
use mathlib.Core.Bool.{false≢true}
use ocean_data_engine_fronte.Prelude.Float.{Float}
use ocean_data_engine_fronte.Ingestion.Parsed.{RawPayload, FetchResult}
use ocean_data_engine_fronte.Ingestion.Tables.{
  Externals, IngestSummary, Stored, Ledger, exists, audit, new_summary,
}
use ocean_data_engine_fronte.Ingestion.Records.{
  alert_key, pfz_key, observation_key, forecast_key, audit_station, upsert_station, station_qc,
  zone_qc, audit_zone, upsert_zone,
}
use ocean_data_engine_fronte.Ingestion.Run.{ingest_records}
use ocean_data_engine_fronte.Ingestion.Loops.{for_each-keeps_if}
use ocean_data_engine_fronte.Qc.Checks.{QcResult}
use ocean_data_engine_fronte.Ingestion.Cases
use ocean_data_engine_fronte.Ingestion.Counted.{tally-elim}
use ocean_data_engine_fronte.Ingestion.Items.{
  Item, alert_item, pfz_item, station_item, zone_item, observation_item, forecast_item, ingest_item,
  Known, items, ingest_records-items,
}

-- a key that stands in a table stands in an equal one
clash :
    {W P E : Type 0} (key : String) (xs ys : List (Stored W P E))
    → ys ≡ xs
    → exists key xs ≡ true
    → exists key ys ≡ false
    → ⊥
clash key xs ys h k e = false≢true (sym e ∙ (ap (exists key) h ∙ k))

abbrev pub NoEvents : IngestSummary → Type 0
NoEvents s =
    (s.alert_events ≡ [])
    × (s.pfz_events ≡ [])
    × (s.observation_events ≡ [])
    × (s.processing_events ≡ [])
    × (s.dataset_events ≡ [])

module _ {W G : Type 0} where
  -- The tables with keys, the queue and the sink of alerts are as before, and the summary lists no events.
  abbrev pub Unchanged : Ledger W G → Ledger W G → Type 0
  Unchanged s t =
      (t.alerts ≡ s.alerts)
      × (t.pfz ≡ s.pfz)
      × (t.observations ≡ s.observations)
      × (t.forecasts ≡ s.forecasts)
      × (t.queue ≡ s.queue)
      × (t.alert_callback ≡ s.alert_callback)
      × NoEvents t.summary

  Unchanged-audit :
      (s t : Ledger W G) (entity key dataset : String) (qc : QcResult W)
      → Unchanged s t
      → Unchanged s (audit entity key dataset qc t)
  unfolding audit
  Unchanged-audit s t entity key dataset qc h =
      (h.0, h.1, h.2, h.3, h.4, h.5, tally-elim NoEvents qc.status t.summary (λ a r c. h.6))

module _ {W G : Type 0} ⦃f : Float W⦄ (x : Externals W G) (raw : RawPayload) where
  Unchanged-ingest :
      (s : Ledger W G) (i : Item W G) (t : Ledger W G)
      → Known x raw i s
      → Unchanged s t
      → Unchanged s (ingest_item x raw i t)
  unfolding Known ingest_item audit_station upsert_station audit_zone upsert_zone audit
  Unchanged-ingest s (alert_item a) t k h =
      let no = clash (alert_key x a) s.alerts t.alerts h.0 k in
      Cases.ingest_alert-cases (Unchanged s) x raw a t (λ e. h) (λ e d. absurd (no e))
        (λ e d. absurd (no e))
  Unchanged-ingest s (pfz_item a) t k h =
      let no = clash (pfz_key x a) s.pfz t.pfz h.1 k in
      Cases.ingest_pfz-cases (Unchanged s) x raw a t (λ e. h) (λ e d. absurd (no e))
        (λ e d. absurd (no e))
  Unchanged-ingest s (station_item a) t k h =
      let same = Unchanged-audit s t "station" "" raw.dataset (station_qc x a) h in
      Cases.ingest_station-cases (Unchanged s) x raw a t (λ e. same) (λ e. same)
  Unchanged-ingest s (zone_item a) t k h =
      let same = Unchanged-audit s t "marine_zone" "" raw.dataset (zone_qc x a) h in
      Cases.ingest_marine_zone-cases (Unchanged s) x raw a t (λ e. same) (λ e. same)
  Unchanged-ingest s (observation_item a) t k h =
      let no = clash (observation_key x a) s.observations t.observations h.2 k in
      Cases.ingest_observation-cases (Unchanged s) x raw a t (λ e. h) (λ e d. absurd (no e))
        (λ e d. absurd (no e))
  Unchanged-ingest s (forecast_item a) t k h =
      let no = clash (forecast_key x a) s.forecasts t.forecasts h.3 k in
      Cases.ingest_forecast-cases (Unchanged s) x raw a t (λ e. h) (λ e. absurd (no e))

-- Where a ledger knows the keys of the records of a payload, ingesting them leaves the tables with keys, the queue and
-- the sink of alerts as they are and reports no events.
pub ingest_records-again :
    {W G : Type 0} ⦃f : Float W⦄ (x : Externals W G) (r : FetchResult W G) (u : Ledger W G)
    → All (λ i. Known x r.raw i u) (items x r)
    → Unchanged u (ingest_records x r u)
ingest_records-again x r u known = subst (Unchanged u) (ingest_records-items x r u) (
    for_each-keeps_if (ingest_item x r.raw) (λ i. Known x r.raw i u) (Unchanged u)
      (λ i t. Unchanged-ingest x r.raw u i t) (items x r) (record u { summary = new_summary }) known
      (refl, refl, refl, refl, refl, refl, (refl, refl, refl, refl, refl)))
