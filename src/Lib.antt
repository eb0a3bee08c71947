-- ===== src/Lib.antt =====
-- NMS: the incidents, the polls, the traps, the devices with their secrets, the topology, the ticket
-- system's updates, the login limiters, the sessions and the authentication of the monitoring server.
--
-- The server (cmd/server), the worker (cmd/worker) and the trap receiver (cmd/trap-receiver) share
-- one PostgreSQL database, which they reach through internal/infrastructure/postgres. The worker
-- polls devices by SNMP and writes what it found: the status of the device, an availability event
-- and an incident. The API, the ticket system's webhook and the trap receiver open, assign and move
-- incidents. The API's login is limited by address and user, in the process's memory and in the
-- database.
--
-- Prelude: shared names, lists as tables, maps as association lists, errors as values. Its Text
--   has the functions of Go's `strings` that the code uses, for ASCII letters and spaces.
-- Config: internal/config/env_secret.go, over the process's environment as a parameter.
-- Sql: internal/infrastructure/postgres/tx.go. A block of Go code with statements is a function
--   from a connection to a result and a connection; the driver may refuse any statement, BEGIN and
--   COMMIT included. Sql.Rules, Sql.Parts and Sql.Atomic have the rules by which invariants
--   are proved of blocks.
-- Incident: incidents.go, incident_write_repo.go and incident_read_repo.go in
--   the same directory. Status has the texts of the lifecycle and incidentStatusPath; Tables the rows
--   and the shared statements; Write CreateIncident, TransitionIncidentStatus,
--   TransitionIncidentsStatus and AssignIncident; Touch CreateOrTouchOpenIncident; Itsm
--   ApplyITSMInboundUpdate; Batch the escalation and the automatic resolution; Listing the pages of
--   incident_read_repo.go. Path, Audit, Outcome, Dedup and Pages prove.
-- Poll: poll_transitions.go and truncateDetail of availability_events.go.
-- History: sequences of all these operations, each at its time and with its failing statements.
-- Login: internal/delivery/http/login_rate_limit.go (Local and Handler) and
--   internal/infrastructure/postgres/login_rate_limit.go (Shared). Lockout, Fallback and
--   Agreement prove.
-- Session: internal/delivery/http/session.go and the table of session_revocations.go. Revocations has
--   the map and the table; Token signs, verifies and revokes, with SHA-256, HMAC, base64 and JSON as
--   a parameter. Genuine, Safety, Revival and Roundtrip prove.
-- Auth: RequireAuth, adminUserFromRequest and RequireAdmin of internal/delivery/http/auth.go, over
--   Session and Login. Entry proves.
-- Worker: cmd/worker/poll.go, the back-off in Backoff and the cycle over the devices in Cycle, with
--   gosnmp's answers as a parameter. Waiting and Reported prove.
-- Trap: internal/repository/trap.go and trap_oid_mappings.go. Classify reads an object identifier;
--   Mapping chooses the mapping of a trap; Crud administers the mappings and stores the traps; Write
--   opens, touches and resolves the incidents of traps. PostgreSQL's ILIKE and encoding/json are
--   a parameter. Audit, Stored, Life, Chosen and Report prove.
-- Itsm: internal/infrastructure/postgres/itsm_inbound_mappings.go (Mapping) and
--   internal/delivery/http/itsm_inbound.go (Webhook), with SHA-256 as a parameter. Chosen and Guard
--   prove.
-- Alert: internal/delivery/http/alert_webhook.go, in Webhook. Rate, Once and Guard prove.
-- Discovery: internal/usecases/discovery/scanner.go, the enumeration of addresses in Addresses and
--   ScanNetwork in Scan, with the probes as parameters; internal/domain/snmp.go in Versions. Ends and
--   Hosts prove.
-- Device: internal/infrastructure/postgres/secrets.go (Secrets), device_repo.go (Tables, Reading, Repo)
--   and rotate_secrets.go (Rotation). AES-GCM, SHA-256 and base64 are a parameter with the laws
--   IsCipher, the reads of crypto/rand are inputs, and INET is a parameter. Life is over all
--   operations that write; the other children prove.
-- Lldp: internal/usecases/lldp/scanner.go (Oids, Scan) and
--   internal/infrastructure/postgres/lldp_repo.go (Tables). The walks and the order in which `range`
--   visits a map are a parameter. Bounds, Snapshot and Whole prove.
-- Api: internal/delivery/http/incidents.go, single requests and the queue of events in Incidents, the
--   bulk request in Bulk. Told and Counts prove.
-- Web: trusted_proxy.go, https_policy.go and csrf.go of internal/delivery/http, with clientIP of
--   login_rate_limit.go, in Peer and Checks; the package net is a parameter. Forged proves.
-- Tests: concrete inputs.
--
-- An id is a natural number, 0 standing for every value that the code's tests `<= 0` catch; a time
-- is a number of nanoseconds, and what the column of a login attempt keeps of one is a function of
-- that table. The loops are over lists, except that of
-- generateIPs, which is given a number of rounds; a theorem says how many are enough. Concurrency is
-- the order of the requests: a transaction locks the rows that it reads, so it is one step, and so is
-- a method under the limiter's mutex. A statement of a transaction that PostgreSQL itself would
-- refuse, for a constraint of the schema, is among the refused ones. JSON documents are texts.
--
-- Not modelled: the login page, the setting of cookies, settings and the other HTTP handlers.
-- Network input and output, templates and process start are left out.
pub mod Prelude
pub mod Config
pub mod Sql
pub mod Incident
pub mod Poll
pub mod History
pub mod Login
pub mod Session
pub mod Auth
pub mod Worker
pub mod Trap
pub mod Itsm
pub mod Alert
pub mod Discovery
pub mod Device
pub mod Lldp
pub mod Api
pub mod Web
pub mod Tests
