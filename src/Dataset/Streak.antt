-- ===== src/Dataset/Streak.antt =====
-- worker/runtime.py `_build_ingest_handler` and services/ingestion.py: proofs on the failure counter of a dataset along the runs of its handler.
use ocean_data_engine_fronte.Prelude.{
  ℕ, suc, ◌≡◌, refl, ap, ◌∙◌, String, str_eq, List, [], ◌∷◌, Bool, not, ◌||◌, arith, if◌then◌else◌,
}
use ocean_data_engine_fronte.Prelude.Json.{done}
use ocean_data_engine_fronte.Dataset.State.{
  Dataset, find_dataset, is_blocked_state, record_source_error, record_success,
}
use ocean_data_engine_fronte.Dataset.Ingest.{
  result_state, Fetched, fetch_failed, fetched, Processed, process_failed, processed, session_scope,
  ingest_handler,
}
use ocean_data_engine_fronte.Dataset.Recorded.{or_new, find_dataset-write, handler-fetch_failed}

-- One run of the handler: when it runs, and how the fetch and the processing end.
pub record HandlerRun : Type 0 where
  pub now : ℕ
  pub end : Fetched Processed

-- An error with this state counts as a failure: an outage or a broken contract, no known block.
abbrev pub counts : String → Bool
counts state = not (is_blocked_state state || str_eq state "auth_blocked")

abbrev pub add_failure : Fetched Processed → ℕ → ℕ
add_failure (fetch_failed error text) earlier =
    if counts (result_state error) then suc earlier else earlier
add_failure (fetched (process_failed error)) earlier = earlier
add_failure (fetched (processed retrieved_at record_count state)) earlier = 0

-- The failed fetches that count since the last success, the latest run first. A payload that could not be processed is not one.
unfoldable pub failed_fetches : ℕ → List HandlerRun → ℕ
failed_fetches start [] = start
failed_fetches start (run ∷ runs) = add_failure run.end (failed_fetches start runs)

module _ {W : Type 0} (key : String) where
  abbrev pub run_ingest : HandlerRun → List (Dataset W) → List (Dataset W)
  run_ingest run db = (ingest_handler (λ payload. run.end) (λ result. result) key run.now done db).1

  -- the table after the runs, the latest first
  unfoldable pub after_runs : List (Dataset W) → List HandlerRun → List (Dataset W)
  after_runs db [] = db
  after_runs db (run ∷ runs) = run_ingest run (after_runs db runs)

  -- the counter of the dataset that the table holds, or of a new one
  abbrev pub counter : List (Dataset W) → ℕ
  counter db = (or_new key (find_dataset key db)).consecutive_failures

  source_error-counter :
      (now : ℕ) (state : String) (d : Dataset W)
      → (record_source_error now state d).consecutive_failures
        ≡ (if counts state then suc d.consecutive_failures else d.consecutive_failures)
  unfolding record_source_error
  source_error-counter now state d = ground arith

  counter-run :
      (now : ℕ) (end : Fetched Processed) (db : List (Dataset W))
      → counter (run_ingest (record { now = now; end = end }) db) ≡ add_failure end (counter db)
  unfolding ingest_handler session_scope record_success
  counter-run now (fetch_failed error text) db =
      ap (λ o. (or_new key o).consecutive_failures)
        (handler-fetch_failed (λ payload. fetch_failed error text) (λ result. result) key now done
          db error text refl).1
      ∙ source_error-counter now (result_state error) (or_new key (find_dataset key db))
  counter-run now (fetched (process_failed error)) db = refl
  counter-run now (fetched (processed retrieved_at record_count state)) db =
      ap (λ o. (or_new key o).consecutive_failures)
        (find_dataset-write key (record_success now retrieved_at record_count state) db (λ d. refl))

  -- The counter that the runs of a handler leave in the table of datasets is the number of failed fetches that count
  -- since the last success, added to where it started when there was no success. A payload whose processing raised
  -- leaves the counter as it was, since the session rolls back what was written for it.
  pub consecutive_failures_count :
      (db : List (Dataset W)) (runs : List HandlerRun)
      → counter (after_runs db runs) ≡ failed_fetches (counter db) runs
  unfolding after_runs failed_fetches
  consecutive_failures_count db [] = refl
  consecutive_failures_count db (run ∷ runs) =
      counter-run run.now run.end (after_runs db runs)
      ∙ ap (add_failure run.end) (consecutive_failures_count db runs)
