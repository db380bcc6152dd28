-- ===== src/JetStream.antt =====
-- src/marine_data_engine/messaging/queue.py: the consumer of `JetStreamQueue`.
pub mod Dispatch
pub mod Settle
pub mod Round
