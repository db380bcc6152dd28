-- ===== src/SafeWindow.antt =====
-- src/marine_data_engine/domain/safe_window.py: the operating windows of a forecast.
pub mod Windows
pub mod Steps
pub mod Merged
pub mod Cover
pub mod Warned
