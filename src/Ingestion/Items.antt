-- ===== src/Ingestion/Items.antt =====
-- A payload of services/ingestion.py as one list of records, and that a run leaves each of them known by its key.
use ocean_data_engine_fronte.Prelude.{
  ◌≡◌, refl, subst, ap, ◌∙◌, String, str_eq, eq_refl, List, [], ◌∷◌, ◌++◌, map, Bool, true, ◌||◌,
  any, any-append, All, arith,
}
use ocean_data_engine_fronte.Prelude.Float.{Float}
use ocean_data_engine_fronte.Ingestion.Parsed.{
  RawPayload, ParsedAlert, ParsedPfz, ParsedObservation, ParsedForecast, ParsedStation,
  ParsedMarineZone, FetchResult,
}
use ocean_data_engine_fronte.Ingestion.Tables.{
  Externals, Stored, Ledger, exists, audit, publish_event, new_summary,
}
use ocean_data_engine_fronte.Ingestion.Records.{
  alert_key, pfz_key, observation_key, forecast_key, ingest_alert, ingest_pfz, ingest_observation,
  ingest_forecast, ingest_station, ingest_marine_zone, store_alert, announce_alert, store_pfz,
  announce_pfz, store_observation, announce_observation, store_forecast,
}
use ocean_data_engine_fronte.Ingestion.Run.{for_each, ingest_records, cyclone_alert, tsunami_alert}
use ocean_data_engine_fronte.Ingestion.Loops.{for_each-reaches}
use ocean_data_engine_fronte.Ingestion.Cases
use ocean_data_engine_fronte.Ingestion.Kept.{Grows, Extends, Extends-refl, Extends-KeptBy}

-- a record of any kind, the hazards as the alerts they become
pub data Item (W G : Type 0) : Type 0 where
  alert_item : ParsedAlert G → Item W G
  pfz_item : ParsedPfz W G → Item W G
  station_item : ParsedStation W → Item W G
  zone_item : ParsedMarineZone G → Item W G
  observation_item : ParsedObservation W → Item W G
  forecast_item : ParsedForecast W → Item W G

for_each-append :
    {A S : Type 0} (f : A → S → S) (xs ys : List A) (s : S)
    → for_each f (xs ++ ys) s ≡ for_each f ys (for_each f xs s)
unfolding for_each
for_each-append f [] ys s = refl
for_each-append f (x ∷ xs) ys s = for_each-append f xs ys (f x s)

for_each-map :
    {A B S : Type 0} (f : B → S → S) (g : A → B) (xs : List A) (s : S)
    → for_each f (map g xs) s ≡ for_each (λ a. f (g a)) xs s
unfolding for_each
for_each-map f g [] s = refl
for_each-map f g (x ∷ xs) s = for_each-map f g xs (f (g x) s)

-- one loop after others
for_each-then :
    {A B S : Type 0} (f : B → S → S) (g : A → B) (xs : List A) (ys : List B) (s : S)
    → for_each f (map g xs ++ ys) s ≡ for_each f ys (for_each (λ a. f (g a)) xs s)
for_each-then f g xs ys s =
    for_each-append f (map g xs) ys s ∙ ap (for_each f ys) (for_each-map f g xs s)

or_true : (a b : Bool) → b ≡ true → (a || b) ≡ true
or_true a b h = ground arith

exists-Grows :
    {W P E : Type 0} (key : String) (xs ys : List (Stored W P E))
    → Grows xs ys
    → exists key xs ≡ true
    → exists key ys ≡ true
unfolding exists
exists-Grows key xs ys h e =
    ap (any (λ row. str_eq row.idempotency_key key)) h.1
    ∙ (any-append (λ row. str_eq row.idempotency_key key) h.0 xs ∙ or_true _ _ e)

exists-head :
    {W P E : Type 0} (row : Stored W P E) (rows : List (Stored W P E))
    → exists row.idempotency_key (row ∷ rows) ≡ true
unfolding exists
exists-head row rows = ap (λ b. b || exists row.idempotency_key rows) (eq_refl row.idempotency_key)

module _ {W G : Type 0} ⦃f : Float W⦄ (x : Externals W G) (raw : RawPayload) where
  unfoldable pub ingest_item : Item W G → Ledger W G → Ledger W G
  ingest_item (alert_item a) s = ingest_alert x raw a s
  ingest_item (pfz_item a) s = ingest_pfz x raw a s
  ingest_item (station_item a) s = ingest_station x raw a s
  ingest_item (zone_item a) s = ingest_marine_zone x raw a s
  ingest_item (observation_item a) s = ingest_observation x raw a s
  ingest_item (forecast_item a) s = ingest_forecast x raw a s

  -- The record has a row under its key, where its table has keys.
  unfoldable pub Known : Item W G → Ledger W G → Type 0
  Known (alert_item a) s = exists (alert_key x a) s.alerts ≡ true
  Known (pfz_item a) s = exists (pfz_key x a) s.pfz ≡ true
  Known (station_item a) s = Unit
  Known (zone_item a) s = Unit
  Known (observation_item a) s = exists (observation_key x a) s.observations ≡ true
  Known (forecast_item a) s = exists (forecast_key x a) s.forecasts ≡ true

  ingest_item-Extends : (i : Item W G) (s : Ledger W G) → Extends s (ingest_item i s)
  unfolding ingest_item
  ingest_item-Extends (alert_item a) s = (Extends-KeptBy x raw s).0 a s (Extends-refl s)
  ingest_item-Extends (pfz_item a) s = (Extends-KeptBy x raw s).1 a s (Extends-refl s)
  ingest_item-Extends (station_item a) s = (Extends-KeptBy x raw s).2 a s (Extends-refl s)
  ingest_item-Extends (zone_item a) s = (Extends-KeptBy x raw s).3 a s (Extends-refl s)
  ingest_item-Extends (observation_item a) s = (Extends-KeptBy x raw s).4 a s (Extends-refl s)
  ingest_item-Extends (forecast_item a) s = (Extends-KeptBy x raw s).5 a s (Extends-refl s)

  pub Known-Extends : (i : Item W G) (s t : Ledger W G) → Extends s t → Known i s → Known i t
  unfolding Known
  Known-Extends (alert_item a) s t h k = exists-Grows _ s.alerts t.alerts h.0 k
  Known-Extends (pfz_item a) s t h k = exists-Grows _ s.pfz t.pfz h.1 k
  Known-Extends (station_item a) s t h k = tt
  Known-Extends (zone_item a) s t h k = tt
  Known-Extends (observation_item a) s t h k = exists-Grows _ s.observations t.observations h.2 k
  Known-Extends (forecast_item a) s t h k = exists-Grows _ s.forecasts t.forecasts h.3 k

  Known-ingest : (i : Item W G) (s : Ledger W G) → Known i (ingest_item i s)
  unfolding Known ingest_item store_alert announce_alert store_pfz announce_pfz store_observation
      announce_observation store_forecast audit publish_event
  Known-ingest (alert_item a) s =
      Cases.ingest_alert-cases (Known (alert_item a)) x raw a s (λ e. e)
        (λ e d. exists-head _ s.alerts) (λ e d. exists-head _ s.alerts)
  Known-ingest (pfz_item a) s =
      Cases.ingest_pfz-cases (Known (pfz_item a)) x raw a s (λ e. e) (λ e d. exists-head _ s.pfz)
        (λ e d. exists-head _ s.pfz)
  Known-ingest (station_item a) s = tt
  Known-ingest (zone_item a) s = tt
  Known-ingest (observation_item a) s =
      Cases.ingest_observation-cases (Known (observation_item a)) x raw a s (λ e. e)
        (λ e d. exists-head _ s.observations) (λ e d. exists-head _ s.observations)
  Known-ingest (forecast_item a) s =
      Cases.ingest_forecast-cases (Known (forecast_item a)) x raw a s (λ e. e)
        (λ e. exists-head _ s.forecasts)

module _ {W G : Type 0} ⦃f : Float W⦄ (x : Externals W G) where
  unfoldable pub items : FetchResult W G → List (Item W G)
  items r =
      map alert_item r.alerts
      ++ (map pfz_item r.pfz
          ++ (map station_item r.stations
              ++ (map zone_item r.marine_zones
                  ++ (map observation_item r.observations
                      ++ (map forecast_item r.forecasts
                          ++ (map (λ c. alert_item (cyclone_alert x c)) r.cyclones
                              ++ (map (λ t. alert_item (tsunami_alert x t)) r.tsunamis ++ [])))))))

  pub ingest_records-items :
      (r : FetchResult W G) (s : Ledger W G)
      → for_each (ingest_item x r.raw) (items r) (record s { summary = new_summary })
        ≡ ingest_records x r s
  unfolding ingest_records items ingest_item for_each
  ingest_records-items r s =
      let h = ingest_item x r.raw in
      for_each-then h alert_item r.alerts _ _
      ∙ (for_each-then h pfz_item r.pfz _ _
          ∙ (for_each-then h station_item r.stations _ _
              ∙ (for_each-then h zone_item r.marine_zones _ _
                  ∙ (for_each-then h observation_item r.observations _ _
                      ∙ (for_each-then h forecast_item r.forecasts _ _
                          ∙ (for_each-then h (λ c. alert_item (cyclone_alert x c)) r.cyclones _ _
                              ∙ for_each-then h (λ t. alert_item (tsunami_alert x t)) r.tsunamis []
                                  _))))))

  pub ingest_records-Known :
      (r : FetchResult W G) (s : Ledger W G)
      → All (λ i. Known x r.raw i (ingest_records x r s)) (items r)
  ingest_records-Known r s =
      subst (λ t. All (λ i. Known x r.raw i t) (items r)) (ingest_records-items r s)
        (for_each-reaches (ingest_item x r.raw) (Known x r.raw)
          (λ i j t k. Known-Extends x r.raw i t _ (ingest_item-Extends x r.raw j t) k)
          (Known-ingest x r.raw) (items r) _)
