-- ===== src/History.antt =====
-- The whole life of the incident tables: requests of the API, of the ticket system and of the
-- worker, in any order, each at its own time and with its own failing statements.
pub mod Availability
use nms.Prelude.{ℕ, Bool, true, false, List, [], ◌∷◌, String, Option}
use nms.Config.{Os}
use nms.Sql.{Sql, Conn, pure, ◌>>=◌}
use nms.Sql.Rules.{Keeps, Keeps-bind, Keeps-pure}
use nms.Incident.Status.{new}
use nms.Incident.Tables.{Db, DeviceRow}
use nms.Incident.Write.{
  IncidentInput, create_incident, transition_incident_status, transition_incidents_status,
  assign_incident,
}
use nms.Incident.Touch.{create_or_touch_open_incident}
use nms.Incident.Itsm.{apply_itsm_inbound_update}
use nms.Incident.Batch.{escalate_unacked_incidents_with_filter, resolve_open_incidents_by_source}
use nms.Poll.{record_poll_failure_transition, record_poll_recovery_transition}
use nms.Incident.Audit.{IsAudited}
use nms.Incident.Audit.Write.{
  create_incident-Keeps, transition_incident_status-Keeps, transition_incidents_status-Keeps,
  assign_incident-Keeps,
}
use nms.Incident.Audit.Inbound.{
  create_or_touch_open_incident-Keeps, apply_itsm_inbound_update-Keeps,
}
use nms.Incident.Audit.Resolve.{escalate-Keeps, resolve_open_incidents_by_source-Keeps}
use nms.Poll.Audit.{record_poll_failure_transition-Keeps, record_poll_recovery_transition-Keeps}

-- The operations of `Repo` that write incidents.
pub data Op : Type 0 where
  create : Option IncidentInput → Op
  transition : ℕ → String → String → String → Op
  transition_all : List ℕ → String → String → String → Op
  assign : ℕ → String → String → String → Op
  touch : Option ℕ → String → String → String → String → ℕ → Op
  inbound : ℕ → String → String → String → String → Op
  escalate : ℕ → String → String → String → String → String → Bool → Op
  resolve : ℕ → String → String → String → Op
  poll_failed : ℕ → String → String → String → ℕ → Op
  poll_ok : ℕ → Op

-- Only what an operation does to the tables is of interest here.
abbrev ignore : {A : Type 0} → Sql Db A → Sql Db (Unit {0})
ignore m = m >>= λ _. pure tt

unfoldable pub perform : Os → Op → Sql Db (Unit {0})
perform os (create input) = ignore (create_incident os input)
perform os (transition id to by comment) = ignore (transition_incident_status id to by comment)
perform os (transition_all ids to by comment) =
    ignore (transition_incidents_status ids to by comment)
perform os (assign id who by comment) = ignore (assign_incident id who by comment)
perform os (touch dev title severity source details window) =
    ignore (create_or_touch_open_incident os dev title severity source details window)
perform os (inbound id to who by comment) = ignore (apply_itsm_inbound_update id to who by comment)
perform os (escalate older target by comment severity source only) =
    ignore (escalate_unacked_incidents_with_filter older target by comment severity source only)
perform os (resolve dev source by comment) =
    ignore (resolve_open_incidents_by_source dev source by comment)
perform os (poll_failed dev status text details window) =
    record_poll_failure_transition os dev status text details window
perform os (poll_ok dev) = record_poll_recovery_transition dev

pub record Request : Type 0 where
  pub op : Op
  pub at : ℕ
  pub faults : List Bool

abbrev pub connect : Db → Request → Conn Db
connect db r = record { db = record db { now = r.at }; faults = r.faults }

unfoldable pub run : Os → Db → List Request → Db
run os db [] = db
run os db (r ∷ rs) = run os (perform os r.op (connect db r)).1.db rs

ignore-Keeps : {A : Type 0} {P : Db → Type 0} {m : Sql Db A} → Keeps P m → Keeps P (ignore m)
ignore-Keeps h = Keeps-bind _ h (λ a. Keeps-pure tt)

pub perform-Keeps : (os : Os) (op : Op) → Keeps IsAudited (perform os op)
unfolding perform
perform-Keeps os (create input) = ignore-Keeps (create_incident-Keeps os input)
perform-Keeps os (transition id to by comment) =
    ignore-Keeps (transition_incident_status-Keeps id to by comment)
perform-Keeps os (transition_all ids to by comment) =
    ignore-Keeps (transition_incidents_status-Keeps ids to by comment)
perform-Keeps os (assign id who by comment) = ignore-Keeps (assign_incident-Keeps id who by comment)
perform-Keeps os (touch dev title severity source details window) =
    ignore-Keeps (create_or_touch_open_incident-Keeps os dev title severity source details window)
perform-Keeps os (inbound id to who by comment) =
    ignore-Keeps (apply_itsm_inbound_update-Keeps id to who by comment)
perform-Keeps os (escalate older target by comment severity source only) =
    ignore-Keeps (escalate-Keeps older target by comment severity source only)
perform-Keeps os (resolve dev source by comment) =
    ignore-Keeps (resolve_open_incidents_by_source-Keeps dev source by comment)
perform-Keeps os (poll_failed dev status text details window) =
    record_poll_failure_transition-Keeps os dev status text details window
perform-Keeps os (poll_ok dev) = record_poll_recovery_transition-Keeps dev

pub at-IsAudited : (now : ℕ) (db : Db) → IsAudited db → IsAudited (record db { now = now })
at-IsAudited now db h = record {
  rows = h.rows;
  unique = h.unique;
  trail = h.trail;
  logged_ids = h.logged_ids;
}

-- From tables with an audited history, whatever requests come, at whatever times and with whatever
-- failing statements, every row has the status at which the log of its transitions ends, ids stay
-- unique, and each logged transition starts where the one before it ended and goes to the same or a
-- later status.
pub run-IsAudited :
    (os : Os) (db : Db) (requests : List Request) → IsAudited db → IsAudited (run os db requests)
unfolding run
run-IsAudited os db [] h = h
run-IsAudited os db (r ∷ rs) h =
    run-IsAudited os (perform os r.op (connect db r)).1.db rs
      ((perform-Keeps os r.op).at (connect db r) (at-IsAudited r.at db h))
