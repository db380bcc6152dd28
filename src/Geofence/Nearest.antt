-- ===== src/Geofence/Nearest.antt =====
-- services/geofence.py: proofs on `find_nearby_zones`.
use ocean_data_engine_fronte.Prelude.{
  ℕ, ◌≡◌, refl, sym, ap, ◌∙◌, subst, inl, inr, List, [], ◌∷◌, map, Bool, true, false, Option, none,
  some, All, arith, Bool-cases, if◌then◌else◌,
}
use ocean_data_engine_fronte.Prelude.Float.{Float, IsIeee}
use ocean_data_engine_fronte.Geofence.Zones.{
  Shapely, ZoneSummary, Answer, source_gap, found, Zone, effective, near_point, within_radius,
  put_near, nearby, insert_near, sort_near, find_nearby_zones,
}

module _ {W : Type 0} ⦃f : Float W⦄ where
  lt_asymm : IsIeee W → (a b : W) → f.lt a b ≡ true → f.lt b a ≡ false
  lt_asymm law a b h =
      ground (arith, law.lt-eq-not-le b a, law.lt_le a b, law.lt_nan_left a b, law.lt_nan_right a b)

  abbrev pub farther : Option W → Option W → Bool
  farther (some a) (some b) = f.lt b a
  farther _ _ = false

module _ {W G : Type 0} ⦃f : Float W⦄ where
  -- no entry is nearer than the one before it
  abbrev pub IsNearestFirst : List (W × ZoneSummary W G) → Type 0
  IsNearestFirst [] = Unit
  IsNearestFirst (s ∷ []) = Unit
  IsNearestFirst (s ∷ t ∷ ts) = (f.lt t.0 s.0 ≡ false) × IsNearestFirst (t ∷ ts)

  -- `s` may stand before the list
  abbrev Before : W × ZoneSummary W G → List (W × ZoneSummary W G) → Type 0
  Before s [] = Unit
  Before s (t ∷ ts) = f.lt t.0 s.0 ≡ false

  first :
      (s : W × ZoneSummary W G) (ts : List (W × ZoneSummary W G))
      → Before s ts
      → IsNearestFirst ts
      → IsNearestFirst (s ∷ ts)
  first s [] h k = tt
  first s (t ∷ ts) h k = (h, k)

  Before-rest :
      (s : W × ZoneSummary W G) (ts : List (W × ZoneSummary W G))
      → IsNearestFirst (s ∷ ts)
      → Before s ts
  Before-rest s [] h = tt
  Before-rest s (t ∷ ts) h = h.0

  rest_sorted :
      (s : W × ZoneSummary W G) (ts : List (W × ZoneSummary W G))
      → IsNearestFirst (s ∷ ts)
      → IsNearestFirst ts
  rest_sorted s [] h = tt
  rest_sorted s (t ∷ ts) h = h.1

  Before-insert :
      (t s : W × ZoneSummary W G) (ts : List (W × ZoneSummary W G))
      → f.lt s.0 t.0 ≡ false
      → Before t ts
      → Before t (insert_near s ts)
  unfolding insert_near
  Before-insert t s [] h k = h
  Before-insert t s (u ∷ ts) h k = elim (Bool-cases (f.lt u.0 s.0)) [
    | inl e ↦ subst (λ b. Before t (if b then u ∷ insert_near s ts else s ∷ u ∷ ts)) (sym e) k
    | inr e ↦ subst (λ b. Before t (if b then u ∷ insert_near s ts else s ∷ u ∷ ts)) (sym e) h
  ]

  insert_near-sorted :
      IsIeee W
      → (s : W × ZoneSummary W G) (ts : List (W × ZoneSummary W G)) → IsNearestFirst ts
      → IsNearestFirst (insert_near s ts)
  unfolding insert_near
  insert_near-sorted law s [] h = tt
  insert_near-sorted law s (t ∷ ts) h = elim (Bool-cases (f.lt t.0 s.0)) [
    | inl e ↦
        subst (λ b. IsNearestFirst (if b then t ∷ insert_near s ts else s ∷ t ∷ ts)) (sym e)
          (first t (insert_near s ts)
            (Before-insert t s ts (lt_asymm law t.0 s.0 e) (Before-rest t ts h))
            (insert_near-sorted law s ts (rest_sorted t ts h)))
    | inr e ↦
        subst (λ b. IsNearestFirst (if b then t ∷ insert_near s ts else s ∷ t ∷ ts)) (sym e) (e, h)
  ]

  All-insert :
      (P : W × ZoneSummary W G → Type 0) (s : W × ZoneSummary W G) (ts : List (W × ZoneSummary W G))
      → P s
      → All P ts
      → All P (insert_near s ts)
  unfolding insert_near
  All-insert P s [] h k = (h, tt)
  All-insert P s (t ∷ ts) h k = elim (Bool-cases (f.lt t.0 s.0)) [
    | inl e ↦
        subst (λ b. All P (if b then t ∷ insert_near s ts else s ∷ t ∷ ts)) (sym e)
          (k.0, All-insert P s ts h k.1)
    | inr e ↦ subst (λ b. All P (if b then t ∷ insert_near s ts else s ∷ t ∷ ts)) (sym e) (h, k)
  ]

  All-sort :
      (P : W × ZoneSummary W G → Type 0) (ts : List (W × ZoneSummary W G))
      → All P ts
      → All P (sort_near ts)
  unfolding sort_near
  All-sort P [] h = tt
  All-sort P (t ∷ ts) h = All-insert P t (sort_near ts) h.0 (All-sort P ts h.1)

  sort_near-sorted : IsIeee W → (ts : List (W × ZoneSummary W G)) → IsNearestFirst (sort_near ts)
  unfolding sort_near
  sort_near-sorted law [] = tt
  sort_near-sorted law (t ∷ ts) = insert_near-sorted law t (sort_near ts) (sort_near-sorted law ts)

  -- entries that carry the distance of their zone
  abbrev Carries : W × ZoneSummary W G → Type 0
  Carries e = e.1.distance_km ≡ some e.0

  -- no zone of the list is nearer than the one before it
  abbrev pub AreNearestFirst : List (ZoneSummary W G) → Type 0
  AreNearestFirst [] = Unit
  AreNearestFirst (s ∷ []) = Unit
  AreNearestFirst (s ∷ t ∷ ts) =
      (farther s.distance_km t.distance_km ≡ false) × AreNearestFirst (t ∷ ts)

  carried :
      (ts : List (W × ZoneSummary W G))
      → All Carries ts
      → IsNearestFirst ts
      → AreNearestFirst (map (λ e. e.1) ts)
  carried [] h k = tt
  carried (s ∷ []) h k = tt
  carried (s ∷ t ∷ ts) h k = (
    ap (λ d. farther d t.1.distance_km) h.0 ∙ (ap (λ d. farther (some s.0) d) h.1.0 ∙ k.0),
    carried (t ∷ ts) h.1 k.1,
  )

module _ {W G : Type 0} ⦃f : Float W⦄ (shapely : Shapely W G) (now : ℕ) (lat lon radius : W) where
  -- a zone in effect, at a distance that is not beyond the radius, with what shapely says of it
  abbrev pub IsNear : ZoneSummary W G → Type 0
  IsNear s =
      (effective s.zone now ≡ true)
      × ((g : G) × (d : W) × (inside : Bool) × (s.zone.parsed.geometry ≡ some g)
          × (shapely.distance lat lon g ≡ some d)
          × (f.lt radius d ≡ false)
          × (s.distance_km ≡ some (f.round d 3))
          × (s.inside ≡ some inside))

  abbrev IsEntry : W × ZoneSummary W G → Type 0
  IsEntry e = Carries e × IsNear e.1

  put-IsEntry :
      (z : Zone G) (g : G) (d : Option W) (i : Option Bool) (rest : List (W × ZoneSummary W G))
      → effective z now ≡ true
      → z.parsed.geometry ≡ some g
      → shapely.distance lat lon g ≡ d
      → All IsEntry rest
      → All IsEntry (put_near z (within_radius radius d i) rest)
  put-IsEntry z g none i rest e h k r = r
  put-IsEntry z g (some d) none rest e h k r = r
  put-IsEntry z g (some d) (some i) rest e h k r = elim (Bool-cases (f.lt radius d)) [
    | inl far ↦
        subst (λ b. All IsEntry (put_near z (if b then none else some (d, i)) rest)) (sym far) r
    | inr near ↦
        subst (λ b. All IsEntry (put_near z (if b then none else some (d, i)) rest)) (sym near)
          ((refl, (e, (g, d, i, h, k, near, refl, refl))), r)
  ]

  near-IsEntry :
      (z : Zone G) (g : Option G) (rest : List (W × ZoneSummary W G))
      → effective z now ≡ true
      → z.parsed.geometry ≡ g
      → All IsEntry rest
      → All IsEntry (put_near z (near_point shapely now lat lon radius g) rest)
  near-IsEntry z none rest e h r = r
  near-IsEntry z (some g) rest e h r =
      put-IsEntry z g (shapely.distance lat lon g) (shapely.contains lat lon g) rest e h refl r

  nearby-IsEntry : (zones : List (Zone G)) → All IsEntry (nearby shapely now lat lon radius zones)
  unfolding nearby
  nearby-IsEntry [] = tt
  nearby-IsEntry (z ∷ zones) =
      let rest = nearby shapely now lat lon radius zones in
      let put = put_near z (near_point shapely now lat lon radius z.parsed.geometry) rest in
      elim (Bool-cases (effective z now)) [
        | inl e ↦
            subst (λ b. All IsEntry (if b then put else rest)) (sym e)
              (near-IsEntry z z.parsed.geometry rest e refl (nearby-IsEntry zones))
        | inr e ↦ subst (λ b. All IsEntry (if b then put else rest)) (sym e) (nearby-IsEntry zones)
      ]

  split-entries :
      (ts : List (W × ZoneSummary W G))
      → All IsEntry ts
      → All Carries ts × All IsNear (map (λ e. e.1) ts)
  split-entries [] h = (tt, tt)
  split-entries (t ∷ ts) h = let ih = split-entries ts h.1 in ((h.0.0, ih.0), (h.0.1, ih.1))

  abbrev pub IsNearAnswer : Answer W G → Type 0
  IsNearAnswer source_gap = Unit
  IsNearAnswer (found out) = All IsNear out × AreNearestFirst out

  -- A search for nearby zones lists only zones in effect that are not beyond the radius, each with its rounded
  -- distance, and none of them is nearer than the one listed before it.
  pub find_nearby_zones-IsNear :
      IsIeee W
      → (zones : List (Zone G)) → IsNearAnswer (find_nearby_zones shapely now lat lon radius zones)
  unfolding find_nearby_zones
  find_nearby_zones-IsNear law [] = tt
  find_nearby_zones-IsNear law (z ∷ zones) =
      let near = nearby shapely now lat lon radius (z ∷ zones) in
      let entries =
        split-entries (sort_near near) (All-sort IsEntry near (nearby-IsEntry (z ∷ zones))) in
      (entries.1, carried (sort_near near) entries.0 (sort_near-sorted law near))
