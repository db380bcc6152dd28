-- ===== src/Anomaly.antt =====
-- domain/anomaly.py: departures from a baseline and marine heatwaves.
pub mod Detect
pub mod Heatwave
