-- ===== src/Suitability.antt =====
-- domain/suitability.py: how suitable a place is for fishing.
pub mod SubScores
pub mod Assess
pub mod Safety
pub mod Hazards
