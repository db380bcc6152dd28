-- ===== src/Route.antt =====
-- services/routing.py with the formulas of domain/geo.py, domain/crs.py and domain/units.py: a route split into segments with
-- their risks.
pub mod Earth
pub mod Parts
pub mod Defs
pub mod Legs
pub mod Screened
