-- ===== src/Suitability/Safety.antt =====
-- domain/suitability.py: the safety sub-score is the worst of its factors, and falls as the sea or the wind rises.
use ocean_data_engine_fronte.Prelude.{
  ◌≡◌, sym, ap, ◌∙◌, subst, inl, inr, true, false, not, none, some, arith, Bool-cases,
  if◌then◌else◌,
}
use ocean_data_engine_fronte.Prelude.Float.{Float, IsIeee, zero_, fmin}
use ocean_data_engine_fronte.Prelude.Ieee.{not_nan_left, not_nan_right, le_of_not_lt}
use ocean_data_engine_fronte.Suitability.SubScores.{
  SuitabilityWeights, one, falling, when_valid, least, both_parts, part_of, safety_score,
}

module _ {W : Type 0} ⦃f : Float W⦄ (law : IsIeee W) where
  -- a comfortable limit below the last one, with finite distances
  abbrev pub IsBand : W → W → Type 0
  IsBand low high =
      (f.lt low high ≡ true) × (f.isfinite low ≡ true) × (f.isfinite (f.sub high low) ≡ true)

  abbrev pub InUnit : W → Type 0
  InUnit x = (f.le zero_ x ≡ true) × (f.le x one ≡ true)

  zero-le-one : f.le zero_ one ≡ true
  zero-le-one = law.lit_mono 0 1 1 1 (omega arith) (omega arith) (omega arith)

  one-InUnit : InUnit one
  one-InUnit = (zero-le-one, law.le_refl one (law.isnan-lit 1 1))

  zero-InUnit : InUnit zero_
  zero-InUnit = (law.le_refl zero_ (law.isnan-lit 0 1), zero-le-one)

  -- the complement of a share
  one_sub-InUnit : (d : W) → InUnit d → InUnit (f.sub one d)
  one_sub-InUnit d h = (
    law.le_trans zero_ (f.sub one one) (f.sub one d)
        (law.sub_nonneg one one (law.isfinite-lit 1 1 (omega arith) (omega arith)) one-InUnit.1)
        (law.one_sub_mono d one h.1),
    law.one_sub_small d h.0,
  )

  -- of two numbers, one that is not below the other is at least it
  over : (x y : W) → f.isnan x ≡ false → f.isnan y ≡ false → f.le x y ≡ false → f.le y x ≡ true
  over x y nx ny h = law.lt_le y x (law.lt-eq-not-le y x ny nx ∙ ap not h)

  module _ (low high : W) (band : IsBand low high) where
    low_number : f.isnan low ≡ false
    low_number = not_nan_left law low high (law.lt_le low high band.0)

    high_number : f.isnan high ≡ false
    high_number = not_nan_right law low high (law.lt_le low high band.0)

    width_pos : f.lt zero_ (f.sub high low) ≡ true
    width_pos = law.sub_pos high low band.1 band.0

    abbrev share : W → W
    share x = f.div (f.sub x low) (f.sub high low)

    share-InUnit : (x : W) → f.le low x ≡ true → f.le x high ≡ true → InUnit (share x)
    share-InUnit x h k = (
      law.zero-le-div (f.sub x low) (f.sub high low) band.2 width_pos
          (law.sub_nonneg x low band.1 h),
      law.div-le-one (f.sub x low) (f.sub high low) band.2 width_pos
          (law.sub_mono x high low band.1 k),
    )

    falling_low : (x : W) → f.le x low ≡ true → falling low high x ≡ one
    falling_low x e =
        ap (λ b. if b then one else if f.le high x then zero_ else f.sub one (share x)) e

    falling_rest :
        (x : W)
        → f.le x low ≡ false
        → falling low high x ≡ (if f.le high x then zero_ else f.sub one (share x))
    falling_rest x e =
        ap (λ b. if b then one else if f.le high x then zero_ else f.sub one (share x)) e

    falling_high : (x : W) → f.le x low ≡ false → f.le high x ≡ true → falling low high x ≡ zero_
    falling_high x e k = falling_rest x e ∙ ap (λ b. if b then zero_ else f.sub one (share x)) k

    falling_mid :
        (x : W)
        → f.le x low ≡ false
        → f.le high x ≡ false
        → falling low high x ≡ f.sub one (share x)
    falling_mid x e k = falling_rest x e ∙ ap (λ b. if b then zero_ else f.sub one (share x)) k

    falling-InUnit : (x : W) → f.isnan x ≡ false → InUnit (falling low high x)
    falling-InUnit x nx = elim (Bool-cases (f.le x low)) [
      | inl e ↦ subst InUnit (sym (falling_low x e)) one-InUnit
      | inr e ↦ elim (Bool-cases (f.le high x)) [
        | inl k ↦ subst InUnit (sym (falling_high x e k)) zero-InUnit
        | inr k ↦ subst InUnit (sym (falling_mid x e k)) (
            one_sub-InUnit (share x)
              (share-InUnit x (over x low nx low_number e) (over high x high_number nx k)))
      ]
    ]

    above : (x y : W) → f.le x y ≡ true → f.le x low ≡ false → f.le y low ≡ false
    above x y h e = ground (arith, law.le_trans x y low)

    below : (x y : W) → f.le x y ≡ true → f.le high y ≡ false → f.le high x ≡ false
    below x y h e = ground (arith, law.le_trans high x y)

    falling_antitone :
        (x y : W) → f.le x y ≡ true → f.le (falling low high y) (falling low high x) ≡ true
    falling_antitone x y h =
        let nx = not_nan_left law x y h in
        let ny = not_nan_right law x y h in
        elim (Bool-cases (f.le x low)) [
          | inl e ↦
              subst (λ r. f.le (falling low high y) r ≡ true) (sym (falling_low x e))
                (falling-InUnit y ny).1
          | inr e ↦
              let e' = above x y h e in
              elim (Bool-cases (f.le high y)) [
                | inl k ↦
                    subst (λ r. f.le r (falling low high x) ≡ true) (sym (falling_high y e' k))
                      (falling-InUnit x nx).0
                | inr k ↦
                    let k' = below x y h k in
                    subst (λ r. f.le r (falling low high x) ≡ true) (sym (falling_mid y e' k))
                      (subst (λ r. f.le (f.sub one (share y)) r ≡ true) (sym (falling_mid x e k'))
                        (law.one_sub_mono (share x) (share y) (
                          law.div_mono (f.sub x low) (f.sub y low) (f.sub high low) band.2 width_pos
                            (law.sub_mono x y low band.1 h))))
              ]
        ]

  fmin-le-left : (a b : W) → f.isnan a ≡ false → f.le (fmin a b) a ≡ true
  fmin-le-left a b na = ground (arith, law.lt_le b a, law.le_refl a)

  fmin-le-right : (a b : W) → f.isnan a ≡ false → f.isnan b ≡ false → f.le (fmin a b) b ≡ true
  fmin-le-right a b na nb = ground (arith, law.le_refl b, le_of_not_lt law b a)

  le-fmin : (c a b : W) → f.le c a ≡ true → f.le c b ≡ true → f.le c (fmin a b) ≡ true
  le-fmin c a b h k = ground arith

  number_of : (x : W) → InUnit x → f.isnan x ≡ false
  number_of x h = not_nan_right law zero_ x h.0

  valid_number : (x : W) → f.isnan x ≡ false → when_valid (some x) ≡ some x
  valid_number x e = ap (λ b. if b then none else some x) e

  -- both limits of both factors
  abbrev pub AreBands : SuitabilityWeights W → Type 0
  AreBands w = IsBand w.wave_comfortable w.wave_max × IsBand w.wind_comfortable w.wind_max

  module _ (w : SuitabilityWeights W) (bands : AreBands w) where
    abbrev pub wave_factor : W → W
    wave_factor wave = falling w.wave_comfortable w.wave_max wave

    abbrev pub wind_factor : W → W
    wind_factor wind = falling w.wind_comfortable w.wind_max wind

    safety_score-both :
        (wave wind : W)
        → f.isnan wave ≡ false
        → f.isnan wind ≡ false
        → safety_score (some wave) (some wind) w ≡ some (fmin (wave_factor wave) (wind_factor wind))
    unfolding safety_score
    safety_score-both wave wind nv nd =
        ap
          (λ o. least (
            both_parts (part_of w.wave_comfortable w.wave_max o)
              (part_of w.wind_comfortable w.wind_max (when_valid (some wind)))))
          (valid_number wave nv)
        ∙ ap
            (λ o. least (
              both_parts (part_of w.wave_comfortable w.wave_max (some wave))
                (part_of w.wind_comfortable w.wind_max o)))
            (valid_number wind nd)

    -- For a wave height and a wind speed that are numbers, and limits with the comfortable one below the last one, the
    -- safety sub-score is in [0, 1] and at most the factor of each; and waves that are not lower never raise it.
    pub safety_score_lem :
        (wave higher wind : W)
        → f.le wave higher ≡ true
        → f.isnan wind ≡ false
        → (s : W) × (t : W) × (safety_score (some wave) (some wind) w ≡ some s)
          × (safety_score (some higher) (some wind) w ≡ some t)
          × InUnit s
          × (f.le s (wave_factor wave) ≡ true)
          × (f.le s (wind_factor wind) ≡ true)
          × (f.le t s ≡ true)
    safety_score_lem wave higher wind h nd =
        let nv = not_nan_left law wave higher h in
        let nh = not_nan_right law wave higher h in
        let a = falling-InUnit _ _ bands.0 wave nv in
        let c = falling-InUnit _ _ bands.0 higher nh in
        let b = falling-InUnit _ _ bands.1 wind nd in
        let na = number_of (wave_factor wave) a in
        let nc = number_of (wave_factor higher) c in
        let nb = number_of (wind_factor wind) b in
        let left = fmin-le-left (wave_factor wave) (wind_factor wind) na in
        (
          fmin (wave_factor wave) (wind_factor wind),
          fmin (wave_factor higher) (wind_factor wind),
          safety_score-both wave wind nv nd,
          safety_score-both higher wind nh nd,
          (
            le-fmin zero_ (wave_factor wave) (wind_factor wind) a.0 b.0,
            law.le_trans _ _ one left a.1,
          ),
          left,
          fmin-le-right (wave_factor wave) (wind_factor wind) na nb,
          le-fmin _ (wave_factor wave) (wind_factor wind)
              (law.le_trans _ _ _ (fmin-le-left (wave_factor higher) (wind_factor wind) nc)
                (falling_antitone _ _ bands.0 wave higher h))
              (fmin-le-right (wave_factor higher) (wind_factor wind) nc nb),
        )
