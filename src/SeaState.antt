-- ===== src/SeaState.antt =====
-- src/marine_data_engine/domain/sea_state.py: categorical sea states.
pub mod Parse
pub mod Conservative
