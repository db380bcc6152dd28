-- ===== src/Risk.antt =====
-- src/marine_data_engine/domain/risk.py: the marine risk engine.
pub mod Thresholds
pub mod Assess
pub mod Bounds
