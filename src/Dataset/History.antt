-- ===== src/Dataset/History.antt =====
-- services/ingestion.py: proofs on the event of a change of status.
use ocean_data_engine_fronte.Prelude.{
  ℕ, ◌≡◌, ap, String, ◌≢◌, ◌↔◌, inl, inr, true, none, some, arith, if◌then◌else◌, Bool-cases,
}
use ocean_data_engine_fronte.Dataset.State.{
  DatasetStatus, Dataset, same_status, record_source_error, record_processing_error, record_success,
  emit_dataset_updated,
}

-- The end of one run.
pub data RunEnd : Type 0 where
  source_error : (now : ℕ) → (state : String) → RunEnd
  processing_error : (now : ℕ) → RunEnd
  success : (now retrieved_at record_count : ℕ) → (state : String) → RunEnd

same_status-equal : (a b : DatasetStatus) → same_status a b ≡ true → a ≡ b
same_status-equal a b h = ground arith

same_status_refl : (a : DatasetStatus) → same_status a a ≡ true
same_status_refl a = ground arith

emitted_iff :
    (new old status : DatasetStatus)
    → ((if same_status new old then none else some new) ≡ some status)
      ↔ ((new ≡ status) × (old ≢ status))
emitted_iff new old status = (
  λ h. elim (Bool-cases (same_status new old)) [
    | inl e ↦ ground arith
    | inr e ↦ ground (arith, same_status_refl old)
  ],
  λ h. elim (Bool-cases (same_status new old)) [
    | inl e ↦ ground (arith, same_status-equal new old e)
    | inr e ↦ rw e (ap some h.0)
  ],
)

module _ {W : Type 0} where
  unfoldable pub end_run : RunEnd → Dataset W → Dataset W
  unfolding record_source_error record_processing_error record_success
  end_run (source_error now state) d = record_source_error now state d
  end_run (processing_error now) d = record_processing_error now d
  end_run (success now retrieved_at record_count state) d =
      record_success now retrieved_at record_count state d

  -- `dataset.updated` is emitted exactly when the end of a run changes the status, with the new status.
  pub updated_iff :
      (run : RunEnd) (d : Dataset W) (status : DatasetStatus)
      → (emit_dataset_updated d.status (end_run run d) ≡ some status)
        ↔ (((end_run run d).status ≡ status) × (d.status ≢ status))
  unfolding emit_dataset_updated
  updated_iff run d status = emitted_iff (end_run run d).status d.status status
