-- ===== src/Examples.antt =====
-- The theorems at concrete inputs.
mod QueueRuns
mod Deliveries
mod Seas
mod Records
mod Ingested
mod Waters
mod Routes
mod Fishing
mod Objects
mod Labels
mod Reruns
