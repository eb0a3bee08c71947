-- ===== src/Trap.antt =====
-- SNMP traps: internal/repository/trap.go and trap_oid_mappings.go.
pub mod Classify
pub mod Mapping
pub mod Crud
pub mod Write
pub mod Audit
pub mod Stored
pub mod Life
pub mod Chosen
pub mod Report
