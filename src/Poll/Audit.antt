-- ===== src/Poll/Audit.antt =====
-- The transitions of a poll keep the audit trail of the incidents.
use nms.Prelude.{ℕ, ◌&&◌, not, String, Option, none, some, ◌==◌, str_eq, trim_space, to_lower, List}
use nms.Config.{Os}
use nms.Sql.Rules.{
  Ensures, Keeps, Ensures-pure, Ensures-raise, Ensures-exec, Ensures-query, Ensures-if,
  Ensures-lift, Ensures-bind, Keeps-in_tx, Keeps-raise, Keeps-if,
}
use nms.Incident.Tables.{DeviceRow, AvailabilityEvent, Db}
use nms.Incident.Touch.{touch_key, or_empty_object}
use nms.Incident.Audit.{IsAudited}
use nms.Incident.Audit.Inbound.{touch_body-IsAudited}
use nms.Incident.Audit.Resolve.{resolve_tx-IsAudited}
use nms.Poll.{
  poll_status_was_ok, poll_status_was_failure, insert_availability_event,
  create_or_touch_open_incident_tx, previous_status, or_no_rows, update_device, report_failure,
  failure_body, record_poll_failure_transition, report_recovery, recovery_body,
  record_poll_recovery_transition, failed_row, recovered_row,
}

-- The trail does not depend on the devices and the events.
IsAudited-frame :
    (ds : List DeviceRow) (es : List AvailabilityEvent) (db : Db)
    → IsAudited db
    → IsAudited (record db { devices = ds; events = es })
IsAudited-frame ds es db h = record {
  rows = h.rows;
  unique = h.unique;
  trail = h.trail;
  logged_ids = h.logged_ids;
}

event-IsAudited :
    (device : ℕ) (kind detail : String)
    → Ensures IsAudited (insert_availability_event device kind detail) (λ _. IsAudited)
unfolding insert_availability_event
event-IsAudited device kind detail =
    Ensures-if
      (not (str_eq (trim_space (to_lower kind)) "unavailable")
        && not (str_eq (trim_space (to_lower kind)) "available"))
      _ _ (λ _. Ensures-pure _ tt (λ db p. p))
      (λ _. Ensures-exec _ _ (λ db p. IsAudited-frame _ _ db p))

pub touch_key-passes :
    (P : Db → Type 0) (dev : Option ℕ) (title severity source : String) (window : ℕ)
    → Ensures P (touch_key dev title severity source window) (λ _. P)
unfolding touch_key
touch_key-passes P dev title severity source window =
    Ensures-if (str_eq (trim_space title) "") _ _ (λ _. Ensures-raise _ _)
      (λ _.
        Ensures-bind (λ _. P) _ (Ensures-lift _ _ (λ sv db p e. p))
          (λ sv.
            Ensures-bind (λ _. P) _ (Ensures-lift _ _ (λ src db p e. p))
              (λ src. Ensures-pure _ _ (λ db p. p))))

touch_tx-IsAudited :
    (os : Os) (device : ℕ) (title severity source details : String) (window : ℕ)
    → Ensures IsAudited
        (create_or_touch_open_incident_tx os device title severity source details window)
        (λ _. IsAudited)
unfolding create_or_touch_open_incident_tx
touch_tx-IsAudited os device title severity source details window =
    Ensures-bind (λ _. IsAudited) _
      (touch_key-passes IsAudited (some device) title severity source window)
      (λ k.
        Ensures-bind (λ _. IsAudited) _ (touch_body-IsAudited os k (or_empty_object details))
          (λ touched. Ensures-pure _ tt (λ db p. p)))

pub or_no_rows-passes : (P : Db → Type 0) (o : Option String) → Ensures P (or_no_rows o) (λ _. P)
or_no_rows-passes P none = Ensures-raise _ _
or_no_rows-passes P (some s) = Ensures-pure _ s (λ db p. p)

previous_status-passes :
    (P : Db → Type 0) (device : ℕ) → Ensures P (previous_status device) (λ _. P)
unfolding previous_status
previous_status-passes P device =
    Ensures-bind (λ _. P) _ (Ensures-query _ _ (λ db p. p)) (or_no_rows-passes P)

update_device-IsAudited :
    (device : ℕ) (change : ℕ → DeviceRow → DeviceRow)
    → Ensures IsAudited (update_device device change) (λ _. IsAudited)
unfolding update_device
update_device-IsAudited device change = Ensures-exec _ _ (λ db p. IsAudited-frame _ _ db p)

-- Recording a failed poll.
pub record_poll_failure_transition-Keeps :
    (os : Os) (device : ℕ) (status error_text details : String) (window : ℕ)
    → Keeps IsAudited (record_poll_failure_transition os device status error_text details window)
unfolding record_poll_failure_transition failure_body report_failure
record_poll_failure_transition-Keeps os device status error_text details window =
    Keeps-if (device == 0) _ _ (λ _. Keeps-raise _)
      (λ _. Keeps-in_tx _ (
        Ensures-bind (λ _. IsAudited) _ (previous_status-passes IsAudited device)
          (λ previous.
            Ensures-bind (λ _. IsAudited) _
              (Ensures-if (poll_status_was_ok previous) _ _
                (λ _.
                  Ensures-bind (λ _. IsAudited) _ (event-IsAudited device "unavailable" _)
                    (λ _. touch_tx-IsAudited os device _ _ _ _ _))
                (λ _. Ensures-pure _ tt (λ db p. p)))
              (λ _. update_device-IsAudited device (failed_row _ _)))))

-- Recording a poll that succeeded.
pub record_poll_recovery_transition-Keeps :
    (device : ℕ) → Keeps IsAudited (record_poll_recovery_transition device)
unfolding record_poll_recovery_transition recovery_body report_recovery
record_poll_recovery_transition-Keeps device =
    Keeps-if (device == 0) _ _ (λ _. Keeps-raise _)
      (λ _. Keeps-in_tx _ (
        Ensures-bind (λ _. IsAudited) _ (previous_status-passes IsAudited device)
          (λ previous.
            Ensures-bind (λ _. IsAudited) _
              (Ensures-if (poll_status_was_failure previous) _ _
                (λ _.
                  Ensures-bind (λ _. IsAudited) _ (event-IsAudited device "available" _)
                    (λ _.
                      Ensures-bind (λ _. IsAudited) _
                        (resolve_tx-IsAudited device "polling" "system" _)
                        (λ n. Ensures-pure _ tt (λ db p. p))))
                (λ _. Ensures-pure _ tt (λ db p. p)))
              (λ _. update_device-IsAudited device recovered_row))))
