-- ===== src/Dataset/State.antt =====
-- services/ingestion.py: what an ingestion run or a failed fetch writes to its dataset.
-- Instants are microseconds; the texts of the details are left out.
use ocean_data_engine_fronte.Prelude.{
  ℕ, suc, ◌*◌, String, str_eq, List, [], ◌∷◌, Bool, true, false, ◌||◌, Option, none, some,
  if◌then◌else◌,
}

pub data DatasetStatus : Type 0 where
  healthy stale degraded failed disabled : DatasetStatus

pub record Dataset (W : Type 0) : Type 0 where
  pub key : String
  pub expected_update_interval_s : Option ℕ
  pub stale_multiplier : Option W
  pub status : DatasetStatus
  pub consecutive_failures : ℕ
  pub last_success_at : Option ℕ
  pub last_failure_at : Option ℕ
  pub last_processed_at : Option ℕ
  pub last_checked_at : Option ℕ
  pub last_result_count : Option ℕ
  pub last_result_state : String

abbrev pub same_status : DatasetStatus → DatasetStatus → Bool
same_status healthy healthy = true
same_status stale stale = true
same_status degraded degraded = true
same_status failed failed = true
same_status disabled disabled = true
same_status _ _ = false

-- {"disabled", "contract_unavailable", "license_gated"}
unfoldable pub is_blocked_state : String → Bool
is_blocked_state state =
    str_eq state "disabled" || (str_eq state "contract_unavailable" || str_eq state "license_gated")

module _ {W : Type 0} where
  -- the dataset that `_ensure_dataset` adds for a key without one
  abbrev pub new_dataset : String → Dataset W
  new_dataset key = record {
    key = key;
    expected_update_interval_s = some (6 * 3600);
    stale_multiplier = none;
    status = disabled;
    consecutive_failures = 0;
    last_success_at = none;
    last_failure_at = none;
    last_processed_at = none;
    last_checked_at = none;
    last_result_count = none;
    last_result_state = "not_run";
  }

  unfoldable pub find_dataset : String → List (Dataset W) → Option (Dataset W)
  find_dataset key [] = none
  find_dataset key (d ∷ datasets) =
      let rest = find_dataset key datasets in if str_eq d.key key then some d else rest

  abbrev pub failed_with : ℕ → Dataset W → Dataset W
  failed_with now d = record d {
    last_failure_at = some now;
    consecutive_failures = suc d.consecutive_failures;
  }

  abbrev pub with_status : DatasetStatus → Dataset W → Dataset W
  with_status status d = record d { status = status }

  -- `record_source_error` on the dataset, by the error's `result_state`
  unfoldable pub record_source_error : ℕ → String → Dataset W → Dataset W
  record_source_error now state dataset =
      let checked = record dataset {
        last_checked_at = some now;
        last_result_count = some 0;
        last_result_state = state;
      } in
      if is_blocked_state state
      then with_status disabled checked
      else if str_eq state "auth_blocked"
      then with_status degraded checked
      else if str_eq state "contract_error"
      then with_status degraded (failed_with now checked)
      else with_status failed (failed_with now checked)

  -- `ingest`, when the processing of a payload raises
  unfoldable pub record_processing_error : ℕ → Dataset W → Dataset W
  record_processing_error now dataset = with_status failed (
      failed_with now (record dataset {
        last_checked_at = some now;
        last_result_count = some 0;
        last_result_state = "processing_error";
      }))

  -- `ingest`, when the processing of a payload ends
  unfoldable pub record_success : ℕ → ℕ → ℕ → String → Dataset W → Dataset W
  record_success now retrieved_at record_count state dataset = record dataset {
    last_success_at = some retrieved_at;
    last_processed_at = some now;
    last_checked_at = some now;
    last_result_count = some record_count;
    last_result_state = state;
    consecutive_failures = 0;
    status = if str_eq state "degraded" then degraded else healthy;
  }

  -- `_emit_dataset_updated`: the status of the event, when there is one
  unfoldable pub emit_dataset_updated : DatasetStatus → Dataset W → Option DatasetStatus
  emit_dataset_updated prev_status dataset =
      if same_status dataset.status prev_status then none else some dataset.status
