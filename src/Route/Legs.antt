-- ===== src/Route/Legs.antt =====
-- services/routing.py: the segments of a route join its vertices one after the other, and their scores stay within 100.
use ocean_data_engine_fronte.Prelude.{
  ℕ, zero, suc, ◌≤◌, ◌≡◌, refl, sym, ap, ◌∙◌, List, [], ◌∷◌, ◌++◌, map, Bool, true, false, not,
  Option, none, some, length, is_empty, All, All-append, arith,
}
use mathlib.Core.List.{append-nil, append_assoc}
use ocean_data_engine_fronte.Prelude.Float.{Float, IsIeee}
use ocean_data_engine_fronte.Risk.Thresholds.{RiskThresholds}
use ocean_data_engine_fronte.Risk.Bounds.{fmin-le, risk_score_bounds}
use ocean_data_engine_fronte.Route.Earth.{Trig, haversine_km}
use ocean_data_engine_fronte.Route.Parts.{
  Penalties, RouteSegment, Environment, RouteRequest, Scored, Progress, score_environment, add_zone,
  add_current,
}
use ocean_data_engine_fronte.Route.Defs.{
  vertices_from, add_leg, legs, leg_score, segment_count, vertices_of, route_between, route_screen,
  route_vertices, begun, distance_of, segment_of, next_leg, leg_hours, speed_kmh, arrival,
}

-- each vertex with the next
abbrev pub pairs : {A : Type 0} → List A → List (A × A)
pairs [] = []
pairs (a ∷ []) = []
pairs (a ∷ b ∷ xs) = (a, b) ∷ pairs (b ∷ xs)

map-append : {A B : Type 0} (g : A → B) (xs ys : List A) → map g (xs ++ ys) ≡ map g xs ++ map g ys
map-append g [] ys = refl
map-append g (x ∷ xs) ys = ap (λ zs. g x ∷ zs) (map-append g xs ys)

length-map : {A B : Type 0} (g : A → B) (xs : List A) → length (map g xs) ≡ length xs
length-map g [] = refl
length-map g (x ∷ xs) = omega (arith, length-map g xs)

length-pairs : {A : Type 0} (a : A) (xs : List A) → length (pairs (a ∷ xs)) ≡ length xs
length-pairs a [] = refl
length-pairs a (b ∷ xs) = omega (arith, length-pairs b xs)

module _ {W : Type 0} where
  abbrev pub ends_of : RouteSegment W → (W × W) × (W × W)
  ends_of s = (s.start, s.end)

module _ {W : Type 0} ⦃f : Float W⦄ where
  -- the first vertex and so many after it
  vertices-pairs : (vertex : ℕ → W × W) (i n : ℕ) → length (pairs (vertices_from vertex i n)) ≡ n
  vertices-pairs vertex i zero = refl
  vertices-pairs vertex i (suc zero) = refl
  vertices-pairs vertex i (suc (suc n)) = omega (arith, vertices-pairs vertex (suc i) (suc n))

module _ {W G : Type 0} ⦃f : Float W⦄ (trig : Trig W) (q : RouteRequest W G) (meets : Bool) where
  legs-ends :
      (p : Progress W) (vertices : List (W × W))
      → map ends_of (legs trig q meets p vertices).segments
        ≡ map ends_of p.segments ++ pairs vertices
  unfolding legs add_leg
  legs-ends p [] = sym (append-nil (map ends_of p.segments))
  legs-ends p (a ∷ []) = sym (append-nil (map ends_of p.segments))
  legs-ends p (a ∷ b ∷ vertices) =
      legs-ends (add_leg trig q meets p a b) (b ∷ vertices)
      ∙ (ap (λ xs. xs ++ pairs (b ∷ vertices)) (map-append ends_of p.segments _)
          ∙ append_assoc (map ends_of p.segments) ((a, b) ∷ []) (pairs (b ∷ vertices)))

  pub legs-All :
      (P : RouteSegment W → Type 0)
      → ((p : Progress W) (a b : W × W)
          → All P p.segments
          → All P (add_leg trig q meets p a b).segments)
      → (p : Progress W) (vertices : List (W × W)) → All P p.segments
      → All P (legs trig q meets p vertices).segments
  unfolding legs
  legs-All P h p [] k = k
  legs-All P h p (a ∷ []) k = k
  legs-All P h p (a ∷ b ∷ vertices) k =
      legs-All P h (add_leg trig q meets p a b) (b ∷ vertices) (h p a b k)

some_segment :
    {W G : Type 0} ⦃f : Float W⦄ (trig : Trig W) (q : RouteRequest W G) (km : W)
    → 1 ≤ segment_count trig q km
some_segment trig q km = ground arith

-- The segments of a route are exactly its consecutive vertices, in their order and without gaps, as many as the
-- distance asks for and at least one.
pub route_between-joined :
    {W G : Type 0} ⦃f : Float W⦄ (trig : Trig W) (q : RouteRequest W G) (s e : W × W)
    → let r = route_between trig q s e in
      let n = segment_count trig q (haversine_km trig s.0 s.1 e.0 e.1) in
      (map ends_of r.segments ≡ pairs (vertices_of trig q s e n))
      × (length r.segments ≡ n)
      × (1 ≤ n)
unfolding route_between vertices_of
route_between-joined trig q s e =
    let n = segment_count trig q (distance_of trig q s e) in
    let r = route_between trig q s e in
    let vertices = vertices_of trig q s e n in
    let ends : map ends_of r.segments ≡ pairs vertices =
      legs-ends trig q (not (is_empty (route_screen trig q s e).0)) (begun trig q s e) vertices in
    (
      ends,
      sym (length-map ends_of r.segments) ∙ (ap length ends ∙ vertices-pairs _ 0 n),
      some_segment trig q (haversine_km trig s.0 s.1 e.0 e.1),
    )

module _ {W G : Type 0} ⦃f : Float W⦄ (law : IsIeee W) (trig : Trig W) (q : RouteRequest W G) where
  abbrev pub WithinHundred : W → Type 0
  WithinHundred risk = f.le risk (f.lit 100 1) ≡ true

  current-within :
      (cs : Option W) (p : Penalties W) (risk : W)
      → WithinHundred risk
      → WithinHundred (add_current cs p risk).1
  current-within none p risk h = h
  current-within (some cs) p risk h = fmin-le law _

  environment-within :
      (t : RiskThresholds W) (e : Environment W) → WithinHundred (score_environment t e).1
  unfolding score_environment
  environment-within t e = current-within e.current_speed _ _ (risk_score_bounds law _ t).1

  leg-within :
      (sampler : Option (W → W → Option (ℕ × W) → Option (Environment W))) (a b : W × W)
      (eta : Option (ℕ × W)) (i : ℕ)
      → WithinHundred (leg_score trig q sampler a b eta i).0.1
  leg-within none a b eta i = law.lit_mono 0 1 100 1 (omega arith) (omega arith) (omega arith)
  leg-within (some sampler) a b eta i =
      environment-within (record q.thresholds { vessel_type = q.vessel_type }) _

  zone-within :
      (meets : Bool) (s : Scored W) → WithinHundred s.1 → WithinHundred (add_zone meets s).1
  unfolding add_zone
  zone-within true s h = fmin-le law _
  zone-within false s h = h

  -- Each segment's score is at most 100, whatever the sampler returns. The numbers meet the laws of IEEE 754.
  pub route_between-bounded :
      (s e : W × W) → All (λ leg. WithinHundred leg.risk_score) (route_between trig q s e).segments
  unfolding route_between add_leg
  route_between-bounded s e =
      let meets = not (is_empty (route_screen trig q s e).0) in
      legs-All trig q meets (λ leg. WithinHundred leg.risk_score)
        (λ p a b h.
          All-append (λ leg. WithinHundred leg.risk_score) p.segments
            (segment_of trig q (add_zone meets (next_leg trig q p a b).0) a b ∷ []) h
            (
              zone-within meets (next_leg trig q p a b).0 (
                  leg-within q.env_sampler a b
                    (arrival q.departure_time (speed_kmh trig q) p.cumulative_h
                      (leg_hours trig q a b))
                    (length p.segments)),
              tt,
            ))
        (begun trig q s e) (route_vertices trig q s e) tt
