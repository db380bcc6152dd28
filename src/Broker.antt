-- ===== src/Broker.antt =====
-- src/marine_data_engine/api/broker.py: the fan-out of alerts to the WebSocket subscribers.
pub mod Fanout
pub mod Received
pub mod Replay
