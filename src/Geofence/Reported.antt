-- ===== src/Geofence/Reported.antt =====
-- services/geofence.py: the zones that a check of a point reports, the ingested ones among them.
use ocean_data_engine_fronte.Prelude.{
  ℕ, ◌≡◌, refl, sym, ap, ◌∙◌, subst, ◌↔◌, inl, inr, str_eq, List, [], ◌∷◌, Bool, true, false, not,
  ◌&&◌, some, In, arith, Bool-cases, if◌then◌else◌,
}
use mathlib.Core.Bool.{false≢true}
use ocean_data_engine_fronte.Prelude.Float.{Float}
use ocean_data_engine_fronte.Qc.Disposition.{geometry_holds, window_holds, qc_geometry_status}
use ocean_data_engine_fronte.Ingestion.Parsed.{RawPayload, ParsedMarineZone}
use ocean_data_engine_fronte.Ingestion.Tables.{Externals, Upserted, Ledger, is_rejected, audit}
use ocean_data_engine_fronte.Ingestion.Records.{
  upsert, upserted, loaded_of, zone_qc, audit_zone, upsert_zone, ingest_marine_zone,
}
use ocean_data_engine_fronte.Ingestion.Cases
use ocean_data_engine_fronte.Ingestion.Urgent.{is_rejected-if}
use ocean_data_engine_fronte.Geofence.Zones.{
  Shapely, ZoneSummary, Answer, source_gap, found, Zone, effective, zero_km, summary, holds_point,
  containing, check_point_in_zones,
}

-- the answer lists the zone
abbrev pub Reports : {W G : Type 0} → Answer W G → ZoneSummary W G → Type 0
Reports source_gap s = ⊥
Reports (found out) s = In s out

both : (a b : Bool) → a ≡ true → b ≡ true → (a && b) ≡ true
both a b h k = ground arith

each : (a b : Bool) → (a && b) ≡ true → (a ≡ true) × (b ≡ true)
each a b h = (ground arith, ground arith)

module _ {W G : Type 0} ⦃f : Float W⦄ (shapely : Shapely W G) (now : ℕ) (lat lon : W) where
  -- the zone counts and contains the point
  abbrev pub covers : Zone G → Bool
  covers z = effective z now && holds_point shapely now lat lon z.parsed.geometry

  abbrev reported : Zone G → ZoneSummary W G
  reported z = summary z zero_km (some true)

  In-containing :
      (z : Zone G) (zones : List (Zone G))
      → covers z ≡ true
      → In z zones
      → In (reported z) (containing shapely now lat lon zones)
  unfolding containing
  In-containing z [] h k = absurd k
  In-containing z (y ∷ zones) h (inl e) =
      let rest = containing shapely now lat lon zones in
      subst (λ b. In (reported z) (if b then reported y ∷ rest else rest))
        (sym (subst (λ q. covers q ≡ true) e h)) (inl (ap reported e))
  In-containing z (y ∷ zones) h (inr k) =
      let rest = containing shapely now lat lon zones in
      let tail = In-containing z zones h k in
      elim (Bool-cases (covers y)) [
        | inl e ↦
            subst (λ b. In (reported z) (if b then reported y ∷ rest else rest)) (sym e) (inr tail)
        | inr e ↦ subst (λ b. In (reported z) (if b then reported y ∷ rest else rest)) (sym e) tail
      ]

  abbrev Listed : ZoneSummary W G → List (Zone G) → Type 0
  Listed s zones = (s ≡ reported s.zone) × In s.zone zones × (covers s.zone ≡ true)

  Listed-later :
      (s : ZoneSummary W G) (y : Zone G) (zones : List (Zone G))
      → Listed s zones
      → Listed s (y ∷ zones)
  Listed-later s y zones h = (h.0, inr h.1, h.2)

  containing-In :
      (s : ZoneSummary W G) (zones : List (Zone G))
      → In s (containing shapely now lat lon zones)
      → Listed s zones
  unfolding containing
  containing-In s [] h = absurd h
  containing-In s (y ∷ zones) h =
      let rest = containing shapely now lat lon zones in
      elim (Bool-cases (covers y)) [
        | inl e ↦ elim (subst (λ b. In s (if b then reported y ∷ rest else rest)) e h) [
          | inl k ↦ subst (λ t. Listed t (y ∷ zones)) (sym k) (refl, inl refl, e)
          | inr k ↦ Listed-later s y zones (containing-In s zones k)
        ]
        | inr e ↦
            Listed-later s y zones (
              containing-In s zones (subst (λ b. In s (if b then reported y ∷ rest else rest)) e h))
      ]

  -- A check of a point lists a summary exactly when it is that of a loaded zone that is in effect and contains the
  -- point, at no distance and inside: it lists nothing else, and no zone whose geometry is missing or raises.
  pub check_point_in_zones_iff :
      (s : ZoneSummary W G) (zones : List (Zone G))
      → Reports (check_point_in_zones shapely now lat lon zones) s ↔ (
          In s.zone zones
          × (effective s.zone now ≡ true)
          × (holds_point shapely now lat lon s.zone.parsed.geometry ≡ true)
          × (s.distance_km ≡ zero_km)
          × (s.inside ≡ some true))
  unfolding check_point_in_zones
  check_point_in_zones_iff s [] = (λ h. absurd h, λ h. absurd h.0)
  check_point_in_zones_iff s (y ∷ zones) = (
    λ h.
        let k = containing-In s (y ∷ zones) h in
        let c = each (effective s.zone now) _ k.2 in
        (k.1, c.0, c.1, ap (λ t. t.distance_km) k.0, ap (λ t. t.inside) k.0),
    λ h.
        subst (λ t. In t (containing shapely now lat lon (y ∷ zones)))
          (λ i. summary s.zone (sym h.3 i) (sym h.4 i))
          (In-containing s.zone (y ∷ zones) (both (effective s.zone now) _ h.1 h.2) h.0),
  )

In-upsert : {P : Type 0} (row : Upserted P) (rows : List (Upserted P)) → In row (upsert row rows)
unfolding upsert
In-upsert row [] = inl refl
In-upsert row (r ∷ rows) =
    let put = upsert row rows in
    elim (Bool-cases (str_eq r.uid row.uid)) [
      | inl e ↦ subst (λ b. In row (if b then row ∷ rows else r ∷ put)) (sym e) (inl refl)
      | inr e ↦
          subst (λ b. In row (if b then row ∷ rows else r ∷ put)) (sym e) (inr (In-upsert row rows))
    ]

module _ {W G : Type 0} ⦃f : Float W⦄ (x : Externals W G) (raw : RawPayload) where
  abbrev pub zone_row : ParsedMarineZone G → Zone G
  zone_row z = upserted x raw z.zone_uid z z.source_url

  is_rejected-zone_qc :
      (z : ParsedMarineZone G)
      → is_rejected (zone_qc x z).status
        ≡ not (
            geometry_holds (loaded_of x z.geometry)
            && window_holds z.effective_from z.effective_until)
  unfolding zone_qc
  is_rejected-zone_qc z =
      ap is_rejected
        (qc_geometry_status W (loaded_of x z.geometry) z.effective_from z.effective_until)
      ∙ is_rejected-if
          (geometry_holds (loaded_of x z.geometry)
            && window_holds z.effective_from z.effective_until)
          _

  In-ingested :
      (z : ParsedMarineZone G) (s : Ledger W G)
      → is_rejected (zone_qc x z).status ≡ false
      → In (zone_row z) (ingest_marine_zone x raw z s).marine_zones
  unfolding upsert_zone audit_zone audit
  In-ingested z s h =
      Cases.ingest_marine_zone-cases (λ t. In (zone_row z) t.marine_zones) x raw z s
        (λ e. absurd (false≢true (sym h ∙ e))) (λ e. In-upsert (zone_row z) s.marine_zones)

  -- A marine zone whose geometry and period hold is reported for every point that its geometry contains, at every
  -- instant of its period, from its ingestion on, even when it replaces an earlier row of the same zone.
  pub ingested_zone-Reports :
      (shapely : Shapely W G) (now : ℕ) (lat lon : W) (z : ParsedMarineZone G) (s : Ledger W G)
      → (geometry_holds (loaded_of x z.geometry) && window_holds z.effective_from z.effective_until)
        ≡ true
      → effective (zone_row z) now ≡ true
      → holds_point shapely now lat lon z.geometry ≡ true
      → Reports
          (check_point_in_zones shapely now lat lon (ingest_marine_zone x raw z s).marine_zones)
          (summary (zone_row z) zero_km (some true))
  ingested_zone-Reports shapely now lat lon z s ok h k =
      (check_point_in_zones_iff shapely now lat lon (summary (zone_row z) zero_km (some true)) _).1
        (In-ingested z s (is_rejected-zone_qc z ∙ ap not ok), h, k, refl, refl)
