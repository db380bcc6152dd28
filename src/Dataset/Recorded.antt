-- ===== src/Dataset/Recorded.antt =====
-- What a run of an ingest handler leaves in the table of datasets, and how it ends.
use ocean_data_engine_fronte.Prelude.{
  ℕ, ◌≡◌, refl, ap, ◌∙◌, sym, subst, String, str_eq, eq_refl, List, [], ◌∷◌, ◌⊎◌, inl, inr, true,
  false, Option, none, some, arith, if◌then◌else◌, Bool-cases,
}
use ocean_data_engine_fronte.Prelude.Json.{JsonFields}
use ocean_data_engine_fronte.Worker.Defs.{returned, raised}
use ocean_data_engine_fronte.Dataset.State.{
  degraded, disabled, Dataset, new_dataset, find_dataset, record_source_error, is_blocked_state,
}
use ocean_data_engine_fronte.Dataset.Ingest.{
  SourceError, source_adapter, live_source_disabled, authentication_required,
  source_contract_unavailable, source_license_required, source_contract, source_unavailable,
  other_exception, result_state, is_final, Fetched, fetch_failed, fetched, Processed,
  process_failed, write_dataset, session_scope, ingest_handler,
}

module _ {W : Type 0} where
  abbrev pub or_new : String → Option (Dataset W) → Dataset W
  or_new key none = new_dataset key
  or_new key (some d) = d

  find_head :
      (key : String) (d : Dataset W) (db : List (Dataset W))
      → str_eq d.key key ≡ true
      → find_dataset key (d ∷ db) ≡ some d
  unfolding find_dataset
  find_head key d db e = ap (λ b. if b then some d else find_dataset key db) e

  find_tail :
      (key : String) (d : Dataset W) (db : List (Dataset W))
      → str_eq d.key key ≡ false
      → find_dataset key (d ∷ db) ≡ find_dataset key db
  unfolding find_dataset
  find_tail key d db e = ap (λ b. if b then some d else find_dataset key db) e

  write_head :
      (key : String) (write : Dataset W → Dataset W) (d : Dataset W) (db : List (Dataset W))
      → str_eq d.key key ≡ true
      → write_dataset key write (d ∷ db) ≡ write d ∷ db
  unfolding write_dataset
  write_head key write d db e =
      ap (λ b. if b then write d ∷ db else d ∷ write_dataset key write db) e

  write_tail :
      (key : String) (write : Dataset W → Dataset W) (d : Dataset W) (db : List (Dataset W))
      → str_eq d.key key ≡ false
      → write_dataset key write (d ∷ db) ≡ d ∷ write_dataset key write db
  unfolding write_dataset
  write_tail key write d db e =
      ap (λ b. if b then write d ∷ db else d ∷ write_dataset key write db) e

  same_key :
      (key : String) (d e : Dataset W)
      → e.key ≡ d.key
      → str_eq d.key key ≡ true
      → str_eq e.key key ≡ true
  same_key key d e h k = subst (λ x. str_eq x key ≡ true) (sym h) k

  pub find_dataset-write :
      (key : String) (write : Dataset W → Dataset W) (db : List (Dataset W))
      → ((d : Dataset W) → (write d).key ≡ d.key)
      → find_dataset key (write_dataset key write db)
        ≡ some (write (or_new key (find_dataset key db)))
  unfolding write_dataset find_dataset
  find_dataset-write key write [] keeps = find_head key (write (new_dataset key)) [] (
      same_key key (new_dataset key) (write (new_dataset key)) (keeps (new_dataset key))
        (eq_refl key))
  find_dataset-write key write (d ∷ db) keeps = elim (Bool-cases (str_eq d.key key)) [
    | inl e ↦
        ap (find_dataset key) (write_head key write d db e)
        ∙ (find_head key (write d) db (same_key key d (write d) (keeps d) e)
            ∙ ap (λ o. some (write (or_new key o))) (sym (find_head key d db e)))
    | inr e ↦
        ap (find_dataset key) (write_tail key write d db e)
        ∙ (find_tail key d (write_dataset key write db) e
            ∙ (find_dataset-write key write db keeps
                ∙ ap (λ o. some (write (or_new key o))) (sym (find_tail key d db e))))
  ]

  source_error-key :
      (now : ℕ) (state : String) (d : Dataset W) → (record_source_error now state d).key ≡ d.key
  unfolding record_source_error
  source_error-key now state d = ground arith

  -- A known block disables or degrades the dataset and leaves its failure counter alone.
  pub final_error-status :
      (now : ℕ) (error : SourceError) (d : Dataset W)
      → is_final error ≡ true
      → (((record_source_error now (result_state error) d).status ≡ disabled)
          ⊎ ((record_source_error now (result_state error) d).status ≡ degraded))
        × ((record_source_error now (result_state error) d).consecutive_failures
            ≡ d.consecutive_failures)
  unfolding record_source_error result_state is_final is_blocked_state
  final_error-status now live_source_disabled d h = (inl refl, refl)
  final_error-status now authentication_required d h = (inr refl, refl)
  final_error-status now source_contract_unavailable d h = (inl refl, refl)
  final_error-status now source_license_required d h = (inl refl, refl)
  final_error-status now source_adapter d h = ground arith
  final_error-status now source_contract d h = ground arith
  final_error-status now source_unavailable d h = ground arith
  final_error-status now other_exception d h = ground arith

module _ {W R : Type 0} (fetch : JsonFields → Fetched R) (process : R → Processed)
    (key : String) where
  -- When the fetch fails, the dataset of the handler, a new one when there was none, is found with the
  -- error recorded, and the handler returns exactly for the known blocks: the other errors are raised again.
  pub handler-fetch_failed :
      (now : ℕ) (payload : JsonFields) (db : List (Dataset W)) (error : SourceError) (text : String)
      → fetch payload ≡ fetch_failed error text
      → ((ingest_handler fetch process key now payload db).0
          ≡ (if is_final error then returned else raised text))
        × (find_dataset key (ingest_handler fetch process key now payload db).1
            ≡ some
                (record_source_error now (result_state error) (or_new key (find_dataset key db))))
  unfolding ingest_handler session_scope
  handler-fetch_failed now payload db error text h =
      rw h (refl, find_dataset-write key _ db (source_error-key now (result_state error)))

  -- When the processing of a fetched payload raises, the handler raises and the table of datasets is what it
  -- was before: the failure that `ingest` wrote to the dataset is rolled back with the session.
  pub handler-process_failed :
      (now : ℕ) (payload : JsonFields) (db : List (Dataset W)) (result : R) (error : String)
      → fetch payload ≡ fetched result
      → process result ≡ process_failed error
      → ingest_handler fetch process key now payload db ≡ (raised error, db)
  unfolding ingest_handler session_scope
  handler-process_failed now payload db result error h k = rw (h, k) refl
