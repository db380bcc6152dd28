-- ===== src/Ingestion.antt =====
-- services/ingestion.py and what it stores: the keys of domain/idempotency.py, the parsed records of sources/base.py and
-- the events of domain/events.py.
pub mod Keys
pub mod Split
pub mod Parsed
pub mod Events
pub mod Tables
pub mod Records
pub mod Run
pub mod Loops
pub mod Cases
pub mod Counted
pub mod Kept
pub mod Items
pub mod Again
pub mod Announced
pub mod Standing
pub mod Urgent
pub mod Lineage
pub mod Reopened
pub mod SingleRows
pub mod Ending
pub mod Repeated
