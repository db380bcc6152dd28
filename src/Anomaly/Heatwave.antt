-- ===== src/Anomaly/Heatwave.antt =====
-- domain/anomaly.py: when a summary reports an anomaly, and the order of the heatwave categories.
use ocean_data_engine_fronte.Prelude.{
  ℕ, ◌≤◌, ◌≡◌, refl, sym, ap, ◌∙◌, String, str_eq, List, [], ◌∷◌, ◌++◌, Bool, true, false, not,
  ◌&&◌, ◌||◌, Option, none, some, is_empty, arith, if-elim,
}
use ocean_data_engine_fronte.Prelude.Float.{Float, IsIeee}
use ocean_data_engine_fronte.Anomaly.Detect.{
  AnomalyResult, Category, moderate, strong, severe, extreme, Driver, sst_departure,
  AnomalyDetectionSummary, is_normal, lookup, is_chlorophyll, is_some, mhw_category, category_of,
  drivers_unless, heatwave_drivers, add_result, sst_step, chlorophyll_drivers, evaluate,
  evaluate_if, compute_anomaly, compute_sst_anomaly, compute_chlorophyll_anomaly, detect_from,
  no_anomalies, detect_anomalies,
}

abbrev pub rank : Option Category → ℕ
rank none = 0
rank (some moderate) = 1
rank (some strong) = 2
rank (some severe) = 3
rank (some extreme) = 4

regroup : (e c n a m : Bool) → e ≡ (a && not m) → (e && (not c && n)) ≡ ((a && n) && not (c || m))
regroup e c n a m h = ground arith

module _ {W : Type 0} ⦃f : Float W⦄ where
  -- A warmer sea is never in a lower category of heatwave. The numbers meet the laws of IEEE 754.
  pub mhw_category_monotone :
      IsIeee W → (x y : W) → f.le x y ≡ true → rank (mhw_category x) ≤ rank (mhw_category y)
  unfolding mhw_category
  mhw_category_monotone law x y h = ground (
    arith,
    law.le_trans (f.lit 4 1) x y,
    law.le_trans (f.lit 3 1) x y,
    law.le_trans (f.lit 2 1) x y,
    law.le_trans (f.lit 1 1) x y,
    law.le_trans (f.lit 3 1) (f.lit 4 1) y,
  )

  abbrev pub all_normal : List (String × AnomalyResult W) → Bool
  all_normal [] = true
  all_normal (r ∷ rs) = is_normal r.1.classification && all_normal rs

  -- no drivers exactly when all is normal and there is no heatwave
  abbrev Tells : AnomalyDetectionSummary W → Type 0
  Tells s = is_empty s.drivers ≡ (all_normal s.anomalies && not s.mhw_detected)

  all_normal-append :
      (rs : List (String × AnomalyResult W)) (r : String × AnomalyResult W)
      → all_normal (rs ++ r ∷ []) ≡ (all_normal rs && is_normal r.1.classification)
  all_normal-append [] r = ground arith
  all_normal-append (q ∷ rs) r = ground (arith, all_normal-append rs r)

  is_empty-append : (xs ys : List (Driver W)) → is_empty (xs ++ ys) ≡ (is_empty xs && is_empty ys)
  is_empty-append [] ys = refl
  is_empty-append (x ∷ xs) ys = refl

  drivers_unless-empty : (b : Bool) (d : Driver W) → is_empty (drivers_unless b d) ≡ b
  drivers_unless-empty true d = refl
  drivers_unless-empty false d = refl

  chlorophyll-empty :
      (r : AnomalyResult W) → is_empty (chlorophyll_drivers r) ≡ is_normal r.classification
  chlorophyll-empty r = ground arith

  Tells-add :
      (param : String) (r : AnomalyResult W) (more : List (Driver W))
      (s : AnomalyDetectionSummary W)
      → is_empty more ≡ is_normal r.classification
      → Tells s
      → Tells (add_result param r more s)
  Tells-add param r more s e h =
      ground (arith, is_empty-append s.drivers more, all_normal-append s.anomalies (param, r), e, h)

  heatwave-empty :
      (c : Option Category) (anomaly : W) → is_empty (heatwave_drivers c anomaly) ≡ not (is_some c)
  heatwave-empty none anomaly = refl
  heatwave-empty (some c) anomaly = refl

  Tells-sst :
      (param : String) (r : AnomalyResult W) (s : AnomalyDetectionSummary W)
      → Tells s
      → Tells (sst_step param r s)
  Tells-sst param r s h =
      let c = category_of r.anomaly in
      let heat = heatwave_drivers c r.anomaly in
      let own =
        drivers_unless (is_normal r.classification) (sst_departure r.classification r.anomaly) in
      is_empty-append s.drivers (heat ++ own)
      ∙ (ap (λ b. is_empty s.drivers && b) (is_empty-append heat own)
          ∙ (ap (λ b. is_empty s.drivers && (b && is_empty own)) (heatwave-empty c r.anomaly)
              ∙ (ap (λ b. is_empty s.drivers && (not (is_some c) && b)) (drivers_unless-empty _ _)
                  ∙ (regroup (is_empty s.drivers) (is_some c) (is_normal r.classification)
                        (all_normal s.anomalies) s.mhw_detected h
                      ∙ ap (λ b. b && not (is_some c || s.mhw_detected))
                          (sym (all_normal-append s.anomalies (param, r)))))))

  module _ (normal_cdf : W → W) where
    Tells-evaluate :
        (param : String) (current baseline : W) (std : Option W) (s : AnomalyDetectionSummary W)
        → Tells s
        → Tells (evaluate normal_cdf param current baseline std s)
    unfolding evaluate
    Tells-evaluate param current baseline std s h =
        if-elim Tells (str_eq param "sst")
          (λ e. Tells-sst param (compute_sst_anomaly normal_cdf current baseline std) s h)
          (λ e.
            if-elim Tells (is_chlorophyll param)
              (λ k.
                Tells-add param (compute_chlorophyll_anomaly normal_cdf current baseline std) _ s
                  (chlorophyll-empty (compute_chlorophyll_anomaly normal_cdf current baseline std))
                  h)
              (λ k.
                Tells-add param (compute_anomaly normal_cdf current baseline std) _ s
                  (drivers_unless-empty _ _) h))

    Tells-if :
        (param : String) (current : W) (baseline std : Option W) (s : AnomalyDetectionSummary W)
        → Tells s
        → Tells (evaluate_if normal_cdf param current baseline std s)
    Tells-if param current none std s h = h
    Tells-if param current (some baseline) std s h = Tells-evaluate param current baseline std s h

    Tells-detect :
        (values baselines stds : List (String × W)) (s : AnomalyDetectionSummary W)
        → Tells s
        → Tells (detect_from normal_cdf values baselines stds s)
    unfolding detect_from
    Tells-detect [] baselines stds s h = h
    Tells-detect ((param, current) ∷ values) baselines stds s h =
        Tells-detect values baselines stds _
          (Tells-if param current (lookup param baselines) (lookup param stds) s h)

    -- A summary has the status NORMAL exactly when every parameter that it evaluated is classified as normal and no
    -- marine heatwave was detected.
    pub detect_anomalies_status :
        (values baselines stds : List (String × W))
        → let s = detect_anomalies normal_cdf values baselines stds in
          s.anomaly_detected ≡ not (all_normal s.anomalies && not s.mhw_detected)
    unfolding detect_anomalies
    detect_anomalies_status values baselines stds =
        ap not (Tells-detect values baselines stds no_anomalies refl)
