-- ===== src/Discovery.antt =====
-- Discovery of devices in a network: internal/usecases/discovery/scanner.go.
pub mod Addresses
pub mod Ends
pub mod Versions
pub mod Scan
pub mod Hosts
