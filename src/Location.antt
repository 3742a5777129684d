-- ===== src/Location.antt =====
-- services/api/src/little_orbit_api/domain/location.py: together-time estimates from two streams of
-- location samples.
pub mod Types
pub mod Proximity
pub mod Streams
pub mod Minutes
pub mod Timeline
pub mod Projection
mod Examples
