-- ===== src/Queue.antt =====
-- src/marine_data_engine/messaging/subjects.py and the in-memory queue of messaging/queue.py.
pub mod Accounting
pub mod Count
pub mod Defs
pub mod Invariant
pub mod Order
pub mod Priority
pub mod Publish
