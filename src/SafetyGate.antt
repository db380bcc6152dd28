-- ===== src/SafetyGate.antt =====
-- src/marine_data_engine/domain/safety_gate.py: the safety-clearance gate.
pub mod Gate
pub mod Clearance
pub mod Reasons
