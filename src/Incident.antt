-- ===== src/Incident.antt =====
-- Incidents: internal/infrastructure/postgres/{incidents,incident_write_repo,incident_read_repo,
-- poll_transitions}.go. One module for the texts of the lifecycle, one for the tables, and one for
-- each group of operations; the others prove.
pub mod Status
pub mod Tables
pub mod Write
pub mod Touch
pub mod Itsm
pub mod Batch
pub mod Path
pub mod Audit
pub mod Outcome
pub mod Dedup
pub mod Listing
pub mod Pages
