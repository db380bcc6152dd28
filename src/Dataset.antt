-- ===== src/Dataset.antt =====
-- The health of a dataset: the fields of db/models.py `Dataset` that
-- src/marine_data_engine/services/ingestion.py writes when a run ends.
pub mod State
pub mod History
pub mod Ingest
pub mod Recorded
pub mod Streak
