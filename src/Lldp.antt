-- ===== src/Lldp.antt =====
-- The LLDP topology: indexes of the walked tables, the scan of all devices, and the stored links.
pub mod Oids
pub mod Tables
pub mod Scan
pub mod Bounds
pub mod Snapshot
pub mod Whole
