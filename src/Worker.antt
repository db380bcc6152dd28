-- ===== src/Worker.antt =====
-- src/marine_data_engine/worker/runtime.py: the `Worker` of the in-memory queue.
pub mod Defs
pub mod Drain
pub mod Roles
pub mod RoleShares
