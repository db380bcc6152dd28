-- ===== src/Storage.antt =====
-- storage/raw_store.py: the store of raw payloads.
pub mod RawStore
pub mod Lookup
pub mod WriteOnce
