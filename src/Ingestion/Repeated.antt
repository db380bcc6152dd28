-- ===== src/Ingestion/Repeated.antt =====
-- services/ingestion.py: proofs on a payload that `ingest` takes a second time.
use ocean_data_engine_fronte.Prelude.{◌≡◌, String, [], ◌∷◌, true, Option, none, some}
use ocean_data_engine_fronte.Prelude.Float.{Float}
use ocean_data_engine_fronte.Prelude.Json.{JsonFields}
use ocean_data_engine_fronte.Queue.Defs.{InMemoryQueue, was_seen}
use ocean_data_engine_fronte.Dataset.State.{Dataset}
use ocean_data_engine_fronte.Ingestion.Tables.{Ledger}

abbrev HasSeen : String → Option InMemoryQueue → Type 0
HasSeen key none = Unit
HasSeen key (some q) = was_seen key q.seen_keys ≡ true

module _ {W G : Type 0} where
  -- Tables, queue and sink are as before; the only event of the run is the given one.
  abbrev pub Repeats : Ledger W G → Ledger W G → JsonFields → Type 0
  Repeats s t event =
      (t.alerts ≡ s.alerts)
      × (t.pfz ≡ s.pfz)
      × (t.observations ≡ s.observations)
      × (t.forecasts ≡ s.forecasts)
      × (t.queue ≡ s.queue)
      × (t.alert_callback ≡ s.alert_callback)
      × (t.summary.alert_events ≡ [])
      × (t.summary.pfz_events ≡ [])
      × (t.summary.observation_events ≡ [])
      × (t.summary.processing_events ≡ event ∷ [])
      × (t.summary.dataset_events ≡ [])
