-- ===== src/Dataset/Ingest.antt =====
-- worker/runtime.py `_build_ingest_handler`, the errors of sources/base.py and db/session.py
-- `session_scope`, over the table of datasets. The adapter and the processing of a payload are
-- parameters; looking up the source of a new dataset is taken to succeed.
use ocean_data_engine_fronte.Prelude.{
  ℕ, String, str_eq, List, [], ◌∷◌, Bool, true, false, if◌then◌else◌,
}
use ocean_data_engine_fronte.Prelude.Json.{JsonFields}
use ocean_data_engine_fronte.Worker.Defs.{Outcome, returned, raised}
use ocean_data_engine_fronte.Dataset.State.{
  Dataset, new_dataset, record_source_error, record_processing_error, record_success,
}

-- The classes of `SourceAdapterError`, and any other exception.
pub data SourceError : Type 0 where
  source_adapter live_source_disabled authentication_required source_contract_unavailable :
      SourceError
  source_license_required source_contract source_unavailable other_exception : SourceError

-- getattr(error, "result_state", "source_unavailable")
unfoldable pub result_state : SourceError → String
result_state source_adapter = "unavailable"
result_state live_source_disabled = "disabled"
result_state authentication_required = "auth_blocked"
result_state source_contract_unavailable = "contract_unavailable"
result_state source_license_required = "license_gated"
result_state source_contract = "contract_error"
result_state source_unavailable = "source_unavailable"
result_state other_exception = "source_unavailable"

-- isinstance(exc, SourceAdapterError) and not exc.retryable
unfoldable pub is_final : SourceError → Bool
is_final live_source_disabled = true
is_final authentication_required = true
is_final source_contract_unavailable = true
is_final source_license_required = true
is_final _ = false

-- The end of `adapter.fetch()`, and of the processing inside `ingest`.
pub data Fetched (R : Type 0) : Type 0 where
  fetch_failed : SourceError → String → Fetched R
  fetched : R → Fetched R

pub data Processed : Type 0 where
  process_failed : String → Processed
  processed : (retrieved_at record_count : ℕ) → (state : String) → Processed

module _ {W : Type 0} where
  -- the dataset of a key, added when there is none, and written
  unfoldable pub write_dataset :
      String → (Dataset W → Dataset W) → List (Dataset W) → List (Dataset W)
  write_dataset key write [] = write (new_dataset key) ∷ []
  write_dataset key write (d ∷ datasets) =
      let rest = write_dataset key write datasets in
      if str_eq d.key key then write d ∷ datasets else d ∷ rest

  -- commit when the body returns, roll back when it raises
  abbrev pub session_end :
      List (Dataset W) → Outcome × List (Dataset W) → Outcome × List (Dataset W)
  session_end before (returned, after) = (returned, after)
  session_end before (raised error, after) = (raised error, before)

  unfoldable pub session_scope :
      (List (Dataset W) → Outcome × List (Dataset W))
      → List (Dataset W)
      → Outcome × List (Dataset W)
  session_scope body db = session_end db (body db)

  -- `ingest`, for what it writes to its dataset
  abbrev pub ingest_end : ℕ → String → Processed → List (Dataset W) → Outcome × List (Dataset W)
  ingest_end now key (process_failed error) db =
      (raised error, write_dataset key (record_processing_error now) db)
  ingest_end now key (processed retrieved_at record_count state) db =
      (returned, write_dataset key (record_success now retrieved_at record_count state) db)

module _ {W R : Type 0} (fetch : JsonFields → Fetched R) (process : R → Processed)
    (key : String) where
  -- the outcome is that of the statement after the session of the error
  abbrev pub after_source_error :
      SourceError → String → Outcome × List (Dataset W) → Outcome × List (Dataset W)
  after_source_error error text (returned, db) =
      (if is_final error then returned else raised text, db)
  after_source_error error text (raised e, db) = (raised e, db)

  abbrev pub after_fetch : ℕ → Fetched R → List (Dataset W) → Outcome × List (Dataset W)
  after_fetch now (fetch_failed error text) db = after_source_error error text (
      session_scope
        (λ t. (returned, write_dataset key (record_source_error now (result_state error)) t)) db)
  after_fetch now (fetched result) db = session_scope (ingest_end now key (process result)) db

  unfoldable pub ingest_handler : ℕ → JsonFields → List (Dataset W) → Outcome × List (Dataset W)
  unfolding session_scope
  ingest_handler now payload db = after_fetch now (fetch payload) db
