-- ===== src/Cache.antt =====
-- src/marine_data_engine/cache.py: the bulletin cache and its single flight.
pub mod Bulletin
pub mod FailOpen
