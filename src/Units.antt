-- ===== src/Units.antt =====
-- domain/unit_labels.py and domain/normalize.py: what a source's unit label denotes, and values in canonical units.
pub mod Labels
pub mod Contract
