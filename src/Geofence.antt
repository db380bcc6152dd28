-- ===== src/Geofence.antt =====
-- services/geofence.py: which marine zones contain a point, lie near it or meet a route.
pub mod Zones
pub mod Reported
pub mod Nearest
