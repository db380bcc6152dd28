-- ===== src/Qc.antt =====
-- src/marine_data_engine/domain/qc.py: quality control.
pub mod Checks
pub mod Disposition
