-- ===== src/Freshness/Service.antt =====
-- services/freshness.py `evaluate_dataset_freshness`, over the rows of the two tables it reads and writes.
use ocean_data_engine_fronte.Prelude.{
  ℕ, String, str_eq, List, [], ◌∷◌, Bool, true, false, Option, none, some, if◌then◌else◌,
}
use ocean_data_engine_fronte.Prelude.Float.{Float}
use ocean_data_engine_fronte.Qc.Checks.{DateTime, aware}
use ocean_data_engine_fronte.Risk.Assess.{is_zero}
use ocean_data_engine_fronte.Dataset.State.{DatasetStatus, healthy, stale, Dataset, with_status}
use ocean_data_engine_fronte.Freshness.Compute.{Freshness, compute_freshness}

pub record FreshnessRow (W : Type 0) : Type 0 where
  pub dataset_key : String
  pub last_data_at : Option ℕ
  pub expected_interval_s : Option ℕ
  pub freshness_score : W
  pub is_stale : Bool
  pub evaluated_at : ℕ

-- only healthy and stale change into one another
unfoldable pub settle_status : Bool → DatasetStatus → DatasetStatus
settle_status true healthy = stale
settle_status false stale = healthy
settle_status is_stale status = status

abbrev pub as_datetime : Option ℕ → Option DateTime
as_datetime none = none
as_datetime (some t) = some (aware t)

module _ {W : Type 0} where
  -- the row of a key is written over, or added when there is none
  unfoldable pub upsert : FreshnessRow W → List (FreshnessRow W) → List (FreshnessRow W)
  upsert row [] = row ∷ []
  upsert row (r ∷ rows) =
      let rest = upsert row rows in
      if str_eq r.dataset_key row.dataset_key then row ∷ rows else r ∷ rest

  unfoldable pub find_row : String → List (FreshnessRow W) → Option (FreshnessRow W)
  find_row key [] = none
  find_row key (r ∷ rows) =
      let rest = find_row key rows in if str_eq r.dataset_key key then some r else rest

module _ {W : Type 0} ⦃f : Float W⦄ where
  -- dataset.stale_multiplier or default_stale_multiplier
  abbrev pub multiplier_of : W → Option W → W
  multiplier_of default none = default
  multiplier_of default (some m) = if is_zero m then default else m

  unfoldable pub freshness_of : W → ℕ → Dataset W → Freshness W
  unfolding compute_freshness
  freshness_of default now d =
      compute_freshness (as_datetime d.last_success_at) now d.expected_update_interval_s
        (multiplier_of default d.stale_multiplier)

  unfoldable pub row_of : W → ℕ → Dataset W → FreshnessRow W
  row_of default now d =
      let freshness = freshness_of default now d in
      record {
        dataset_key = d.key;
        last_data_at = freshness.reference_at;
        expected_interval_s = freshness.expected_update_interval_s;
        freshness_score = freshness.freshness_score;
        is_stale = freshness.is_stale;
        evaluated_at = now;
      }

  unfoldable pub settle : W → ℕ → Dataset W → Dataset W
  unfolding settle_status
  settle default now d =
      with_status (settle_status (freshness_of default now d).is_stale d.status) d

  -- the datasets and the freshness rows after the evaluation
  unfoldable pub evaluate_dataset_freshness :
      W → ℕ → List (Dataset W) → List (FreshnessRow W) → List (Dataset W) × List (FreshnessRow W)
  unfolding row_of settle upsert
  evaluate_dataset_freshness default now [] rows = ([], rows)
  evaluate_dataset_freshness default now (d ∷ datasets) rows =
      let later =
        evaluate_dataset_freshness default now datasets (upsert (row_of default now d) rows) in
      (settle default now d ∷ later.0, later.1)
