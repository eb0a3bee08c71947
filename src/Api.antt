-- ===== src/Api.antt =====
-- The API's requests on incidents.
pub mod Incidents
pub mod Bulk
pub mod Counts
pub mod Told
