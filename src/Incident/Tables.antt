-- ===== src/Incident/Tables.antt =====
-- The rows that the incident code reads and writes (the structs of internal/domain and the columns
-- of the statements), and the statements that several operations share.
-- A time is a number of nanoseconds; `now` is what NOW() answers. An id or device number is a
-- number, 0 standing for every value that is not positive.
use nms.Prelude.{
  ℕ, ◌+◌, List, ◌∷◌, String, Option, none, some, ◌==◌, str_eq, trim_space, find, update_where,
  if◌then◌else◌,
}
use nms.Sql.{Sql, statement, query, exec}

pub record IncidentRow : Type 0 where
  pub id : ℕ
  pub device_id : Option ℕ
  pub assignee : Option String
  pub title : String
  pub severity : String
  pub status : String
  pub source : String
  pub details : String
  pub created_at : ℕ
  pub updated_at : ℕ
  pub acknowledged_at : Option ℕ
  pub resolved_at : Option ℕ
  pub closed_at : Option ℕ

pub record IncidentTransition : Type 0 where
  pub incident_id : ℕ
  pub from_status : String
  pub to_status : String
  pub changed_by : String
  pub comment : String
  pub changed_at : ℕ

pub record DeviceRow : Type 0 where
  pub id : ℕ
  pub ip : String
  pub status : Option String
  pub last_seen : Option ℕ
  pub last_error : Option String
  pub last_error_at : Option ℕ
  pub last_poll_ok_at : Option ℕ

pub record AvailabilityEvent : Type 0 where
  pub device_id : ℕ
  pub kind : String
  pub detail : String
  pub occurred_at : ℕ

-- `transitions` and `events` have their newest row first.
pub record Db : Type 0 where
  pub incidents : List IncidentRow
  pub transitions : List IncidentTransition
  pub devices : List DeviceRow
  pub events : List AvailabilityEvent
  pub next_id : ℕ
  pub now : ℕ

abbrev pub second : ℕ
second = 1000000000

-- What the API returns for an incident: the row, and the address of its device.
pub record Incident : Type 0 where
  pub row : IncidentRow
  pub device_ip : Option String

-- `sql.NullInt64{Valid: deviceID > 0}`.
abbrev pub positive_id : Option ℕ → Option ℕ
positive_id none = none
positive_id (some d) = if d == 0 then none else some d

abbrev pub trimmed : Option String → Option String
trimmed none = none
trimmed (some a) = some (trim_space a)

abbrev pub trimmed_non_empty : Option String → Option String
trimmed_non_empty none = none
trimmed_non_empty (some a) = let s = trim_space a in if str_eq s "" then none else some s

-- `LEFT JOIN devices d ON d.id = i.device_id`.
unfoldable pub device_address : Option ℕ → List DeviceRow → Option String
device_address none ds = none
device_address (some d) ds = elim (find (λ x. x.id == d) ds) [ none ↦ none | some x ↦ some x.ip ]

unfoldable pub found_incident : Db → Option IncidentRow → Option Incident
found_incident db none = none
found_incident db (some r) = some (record {
  row = record r { assignee = trimmed r.assignee };
  device_ip = trimmed_non_empty (device_address r.device_id db.devices);
})

-- `GetIncidentByID`, for an id that is positive where it is called.
unfoldable pub get_incident_by_id : ℕ → Sql Db (Option Incident)
get_incident_by_id id = query (λ db. found_incident db (find (λ r. r.id == id) db.incidents))

-- `SELECT … FROM incidents WHERE id = $1 FOR UPDATE`.
unfoldable pub select_incident : ℕ → Sql Db (Option IncidentRow)
select_incident id = query (λ db. find (λ r. r.id == id) db.incidents)

abbrev pub acknowledged_now : String → ℕ → Option ℕ → Option ℕ
acknowledged_now to now none = if str_eq to "acknowledged" then some now else none
acknowledged_now to now (some t) = some t

abbrev pub with_status : String → ℕ → IncidentRow → IncidentRow
with_status to now r = record r {
  status = to;
  updated_at = now;
  acknowledged_at = acknowledged_now to now r.acknowledged_at;
  resolved_at = if str_eq to "resolved" then some now else r.resolved_at;
  closed_at = if str_eq to "closed" then some now else r.closed_at;
}

-- `updateIncidentStatusInTx`.
unfoldable pub update_incident_status : ℕ → String → Sql Db (Unit {0})
update_incident_status id to = exec (λ db. record db {
  incidents = update_where (λ r. r.id == id) (with_status to db.now) db.incidents;
})

-- `updateIncidentAssigneeInTx`.
unfoldable pub update_incident_assignee : ℕ → Option String → Sql Db (Unit {0})
update_incident_assignee id target = exec (λ db. record db {
  incidents =
      update_where (λ r. r.id == id) (λ r. record r { assignee = target; updated_at = db.now })
        db.incidents;
})

abbrev pub log_transition : ℕ → String → String → String → String → Db → Db
log_transition id from to by comment db = record db {
  transitions =
      (record {
        incident_id = id;
        from_status = from;
        to_status = to;
        changed_by = by;
        comment = comment;
        changed_at = db.now;
      })
      ∷ db.transitions;
}

-- `insertIncidentTransitionInTx`.
unfoldable pub insert_incident_transition :
    ℕ → String → String → String → String → Sql Db (Unit {0})
insert_incident_transition id from to by comment = exec (log_transition id from to by comment)

-- `INSERT INTO incidents … VALUES ($1, $2, $3, $4, 'new', $5, $6) RETURNING id`.
abbrev pub new_row : Option ℕ → Option String → String → String → String → String → Db → IncidentRow
new_row dev assignee title severity source details db = record {
  id = db.next_id;
  device_id = dev;
  assignee = assignee;
  title = title;
  severity = severity;
  status = "new";
  source = source;
  details = details;
  created_at = db.now;
  updated_at = db.now;
  acknowledged_at = none;
  resolved_at = none;
  closed_at = none;
}

abbrev pub add_row : IncidentRow → Db → Db
add_row r db = record db { incidents = r ∷ db.incidents; next_id = db.next_id + 1 }

unfoldable pub insert_incident :
    Option ℕ → Option String → String → String → String → String → Sql Db IncidentRow
insert_incident dev assignee title severity source details =
    statement
      (λ db. let r = new_row dev assignee title severity source details db in (r, add_row r db))
