-- ===== src/Tests.antt =====
-- Runs at concrete inputs, and each theorem that has hypotheses at an input that meets them.
mod Data
mod Incidents
mod Logins
mod Sessions
mod Entry
mod Backoffs
mod Traps
mod Tickets
mod Alerts
mod Addresses
mod Cycles
mod Requests
mod Devices
mod Topology
mod Requested
