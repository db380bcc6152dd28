-- ===== src/Freshness.antt =====
-- src/marine_data_engine/domain/freshness.py and services/freshness.py.
pub mod Compute
pub mod Decay
pub mod Score
pub mod Service
pub mod Upsert
