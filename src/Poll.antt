-- ===== src/Poll.antt =====
-- What a poll of a device writes: internal/infrastructure/postgres/poll_transitions.go, and the
-- availability events of availability_events.go.
pub mod Audit
pub mod Frame
pub mod Reported
pub mod Alternation
pub mod Resolved
use Prim.Native.String.{◌++◌, len, slice}
use nms.Prelude.{
  ℕ, Bool, ◌&&◌, ◌||◌, not, ◌∷◌, String, Option, none, some, ◌==◌, str_eq, trim_space, to_lower,
  has_prefix, leb, find, update_where, if◌then◌else◌,
}
use nms.Prelude.Result.{no_rows, device_required}
use nms.Config.{Os}
use nms.Sql.{Sql, pure, raise, ◌>>=◌, ◌>>◌, query, exec, in_tx}
use nms.Incident.Tables.{DeviceRow, AvailabilityEvent, Db, insert_incident}
use nms.Incident.Status.{default_incident_assignee}
use nms.Incident.Write.{null_if_blank}
use nms.Incident.Touch.{TouchKey, touch_key, touch_body, or_empty_object}
use nms.Incident.Batch.{resolve_open_incidents_by_source_tx}

unfoldable pub poll_status_was_ok : String → Bool
poll_status_was_ok status = let s = trim_space (to_lower status) in str_eq s "" || str_eq s "active"

unfoldable pub poll_status_was_failure : String → Bool
poll_status_was_failure status = has_prefix (trim_space (to_lower status)) "failed"

abbrev pub max_availability_detail_len : ℕ
max_availability_detail_len = 8000

-- `s[:8000]` counts bytes. Where the cut falls inside a character, the source keeps its first bytes,
-- and this text leaves the character out.
unfoldable pub truncate_detail : String → String
truncate_detail s =
    let t = trim_space s in
    if leb (len t) max_availability_detail_len
    then t
    else slice t 0 max_availability_detail_len ++ "…"

abbrev pub add_event : ℕ → String → String → Db → Db
add_event device kind detail db = record db {
  events =
      (record {
        device_id = device;
        kind = kind;
        detail = truncate_detail detail;
        occurred_at = db.now;
      })
      ∷ db.events;
}

-- `insertAvailabilityEventTx`: another kind is not stored.
unfoldable pub insert_availability_event : ℕ → String → String → Sql Db (Unit {0})
insert_availability_event device kind detail =
    let k = trim_space (to_lower kind) in
    if not (str_eq k "unavailable") && not (str_eq k "available")
    then pure tt
    else exec (add_event device k detail)

-- `createOrTouchOpenIncidentTx`.
unfoldable pub create_or_touch_open_incident_tx :
    Os → ℕ → String → String → String → String → ℕ → Sql Db (Unit {0})
create_or_touch_open_incident_tx os device title severity source details window = do
  k ← touch_key (some device) title severity source window
  touched ← touch_body os k (or_empty_object details)
  pure tt

-- `COALESCE(status, '')`.
abbrev pub coalesce : Option String → String
coalesce none = ""
coalesce (some s) = s

abbrev pub status_of : Option DeviceRow → Option String
status_of none = none
status_of (some d) = some (coalesce d.status)

-- `SELECT COALESCE(status, '') FROM devices WHERE id = $1 FOR UPDATE`; no row is an error.
abbrev pub or_no_rows : Option String → Sql Db String
or_no_rows none = raise no_rows
or_no_rows (some s) = pure s

unfoldable pub previous_status : ℕ → Sql Db String
previous_status device = do
  found ← query (λ db. status_of (find (λ d. d.id == device) db.devices))
  or_no_rows found

abbrev pub failed_row : String → String → ℕ → DeviceRow → DeviceRow
failed_row status error_text now d = record d {
  status = some status;
  last_seen = some now;
  last_error = some error_text;
  last_error_at = some now;
}

abbrev pub recovered_row : ℕ → DeviceRow → DeviceRow
recovered_row now d = record d {
  status = some "active";
  last_seen = some now;
  last_error = none;
  last_error_at = none;
  last_poll_ok_at = some now;
}

unfoldable pub update_device : ℕ → (ℕ → DeviceRow → DeviceRow) → Sql Db (Unit {0})
update_device device change =
    exec
      (λ db. record db { devices = update_where (λ d. d.id == device) (change db.now) db.devices })

-- The event and the incident of a device that was well before.
unfoldable pub report_failure : Os → ℕ → String → String → String → ℕ → String → Sql Db (Unit {0})
report_failure os device status error_text details window previous =
    if poll_status_was_ok previous
    then (do
      insert_availability_event device "unavailable"
          (if str_eq error_text "" then status else (status ++ ": ") ++ error_text)
      create_or_touch_open_incident_tx os device "SNMP device unavailable" "critical" "polling"
          details window)
    else pure tt

unfoldable pub failure_body : Os → ℕ → String → String → String → ℕ → Sql Db (Unit {0})
failure_body os device status error_text details window = do
  previous ← previous_status device
  report_failure os device status error_text details window previous
  update_device device (failed_row status error_text)

unfoldable pub record_poll_failure_transition :
    Os → ℕ → String → String → String → ℕ → Sql Db (Unit {0})
record_poll_failure_transition os device status error_text details window =
    if device == 0
    then raise device_required
    else in_tx (
        failure_body os device (if str_eq (trim_space status) "" then "failed" else status)
          (trim_space error_text) details window)

unfoldable pub report_recovery : ℕ → String → Sql Db (Unit {0})
report_recovery device previous =
    if poll_status_was_failure previous
    then (do
      insert_availability_event device "available" "SNMP опрос восстановлен"
      n ←
          resolve_open_incidents_by_source_tx device "polling" "system"
            "auto-resolved: SNMP poll restored"
      pure tt)
    else pure tt

unfoldable pub recovery_body : ℕ → Sql Db (Unit {0})
recovery_body device = do
  previous ← previous_status device
  report_recovery device previous
  update_device device recovered_row

unfoldable pub record_poll_recovery_transition : ℕ → Sql Db (Unit {0})
record_poll_recovery_transition device =
    if device == 0 then raise device_required else in_tx (recovery_body device)
