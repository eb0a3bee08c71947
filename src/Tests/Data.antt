-- ===== src/Tests/Data.antt =====
-- A process with no settings, and small tables.
use nms.Prelude.{[], ◌∷◌, none, some}
use nms.Config.{Os}
use nms.Incident.Tables.{DeviceRow, Db, IncidentRow}
use nms.Incident.Write.{IncidentInput}

abbrev pub bare_os : Os
bare_os = record { getenv = λ _. ""; read_file = λ _. none }

abbrev pub switch : DeviceRow
switch = record {
  id = 7;
  ip = "10.0.0.7";
  status = some "active";
  last_seen = none;
  last_error = none;
  last_error_at = none;
  last_poll_ok_at = none;
}

abbrev pub empty_db : Db
empty_db = record {
  incidents = [];
  transitions = [];
  devices = switch ∷ [];
  events = [];
  next_id = 1;
  now = 1000;
}

abbrev pub broken_fan : IncidentInput
broken_fan = record {
  device_id = some 7;
  assignee = none;
  title = " fan broken ";
  severity = "Critical";
  source = "";
  details = "";
}

abbrev pub fan_row : IncidentRow
fan_row = record {
  id = 1;
  device_id = some 7;
  assignee = none;
  title = "fan broken";
  severity = "critical";
  status = "new";
  source = "manual";
  details = "{}";
  created_at = 1000;
  updated_at = 1000;
  acknowledged_at = none;
  resolved_at = none;
  closed_at = none;
}

abbrev pub fan_db : Db
fan_db = record empty_db { incidents = fan_row ∷ []; next_id = 2 }
