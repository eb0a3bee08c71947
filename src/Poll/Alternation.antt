-- ===== src/Poll/Alternation.antt =====
-- Polls keep the availability events alternating and in agreement with the statuses.
use nms.Prelude.{
  ℕ, ◌≡◌, ◌≢◌, ◌⊎◌, inl, inr, refl, true, false, String, Option, none, some, arith, ◌==◌, str_eq,
  eq_iff, trim_space, to_lower, has_prefix, find, if◌then◌else◌, Bool-cases,
}
use nms.Config.{Os}
use nms.Sql.Rules.{
  Ensures, Keeps, Ensures-pure, Ensures-raise, Ensures-exec, Ensures-query, Ensures-if,
  Ensures-bind, Ensures-weaken, Keeps-in_tx, Keeps-raise, Keeps-if,
}
use nms.Incident.Tables.{DeviceRow, Db}
use nms.Poll.{
  poll_status_was_ok, poll_status_was_failure, insert_availability_event, coalesce, previous_status,
  or_no_rows, status_of, update_device, report_failure, failure_body,
  record_poll_failure_transition, report_recovery, recovery_body, record_poll_recovery_transition,
  failed_row, recovered_row,
}
use nms.Poll.Frame.{touch_tx-Framed, resolve_tx-Framed}
use nms.Poll.Reported.{
  last_kind, AgreesWith, IsReporting, Reported, Reporting, ok-not-failure, settled,
  add_event-Reporting, change-Reported, previous-agrees,
}

-- What the SELECT … FOR UPDATE of the device found.
abbrev Read : ℕ → String → Db → Type 0
Read device status db = Reported db × AgreesWith status (last_kind device db.events)

abbrev ReadRow : ℕ → Option String → Db → Type 0
ReadRow device none db = Reported db
ReadRow device (some s) db = Read device s db

read-ReadRow :
    (device : ℕ) (db : Db) (o : Option DeviceRow)
    → Reported db
    → find (λ x. x.id == device) db.devices ≡ o
    → ReadRow device (status_of o) db
read-ReadRow device db none h e = h
read-ReadRow device db (some d) h e = (h, previous-agrees device db d h e)

or_no_rows-Read :
    (device : ℕ) (o : Option String) → Ensures (ReadRow device o) (or_no_rows o) (Read device)
or_no_rows-Read device none = Ensures-raise _ _
or_no_rows-Read device (some s) = Ensures-pure _ s (λ db p. p)

previous_status-Read : (device : ℕ) → Ensures Reported (previous_status device) (Read device)
unfolding previous_status
previous_status-Read device =
    Ensures-bind (ReadRow device) _ (Ensures-query _ _ (λ db p. read-ReadRow device db _ p refl))
      (or_no_rows-Read device)

-- The two kinds are stored as they are written.
event-Reporting :
    (device : ℕ) (kind detail : String)
    → (kind ≡ "available") ⊎ (kind ≡ "unavailable")
    → Ensures
        (λ db. Reported db × (kind ≢ last_kind device db.events))
        (insert_availability_event device kind detail)
        (λ _. Reporting device kind)
unfolding insert_availability_event trim_space to_lower
event-Reporting device kind detail (inl e) =
    rw e (Ensures-exec _ _ (λ db p. add_event-Reporting device "available" detail db p.1 p.0))
event-Reporting device kind detail (inr e) =
    rw e (Ensures-exec _ _ (λ db p. add_event-Reporting device "unavailable" detail db p.1 p.0))

update_device-Reported :
    (device : ℕ) (kind : String) (change : ℕ → DeviceRow → DeviceRow)
    → ((now : ℕ) (d : DeviceRow)
        → ((change now d).id ≡ d.id) × AgreesWith (coalesce (change now d).status) kind)
    → Ensures (Reporting device kind) (update_device device change) (λ _. Reported)
unfolding update_device
update_device-Reported device kind change k =
    Ensures-exec _ _ (λ db p. change-Reported device kind (change db.now) db (k db.now) p)

-- What the previous status says of the last event.
last_when_ok : (s k : String) → AgreesWith s k → poll_status_was_ok s ≡ true → k ≡ "available"
last_when_ok s k (inl a) h = a.1
last_when_ok s k (inr a) h = absurd (ok-not-failure s h a.0)

last_when_not_ok :
    (s k : String) → AgreesWith s k → poll_status_was_ok s ≡ false → k ≡ "unavailable"
last_when_not_ok s k (inl a) h = cc
last_when_not_ok s k (inr a) h = a.1

last_when_failure :
    (s k : String) → AgreesWith s k → poll_status_was_failure s ≡ true → k ≡ "unavailable"
last_when_failure s k (inl a) h = absurd (ok-not-failure s a.0 h)
last_when_failure s k (inr a) h = a.1

last_when_not_failure :
    (s k : String) → AgreesWith s k → poll_status_was_failure s ≡ false → k ≡ "available"
last_when_not_failure s k (inl a) h = a.1
last_when_not_failure s k (inr a) h = cc

ne-available : {k : String} → k ≡ "available" → ◌≢◌ {A = String} "unavailable" k
ne-available e = rw e (ground (arith, eq_iff "unavailable" "available"))

ne-unavailable : {k : String} → k ≡ "unavailable" → ◌≢◌ {A = String} "available" k
ne-unavailable e = rw e (ground (arith, eq_iff "available" "unavailable"))

failed_is_failure : poll_status_was_failure "failed" ≡ true
unfolding poll_status_was_failure trim_space to_lower has_prefix
failed_is_failure = refl

-- A blank status is stored as "failed".
effective-failure :
    (status : String)
    → poll_status_was_failure status ≡ true
    → poll_status_was_failure (if str_eq (trim_space status) "" then "failed" else status) ≡ true
effective-failure status h = elim (Bool-cases (str_eq (trim_space status) "")) [
  | inl e ↦ rw e failed_is_failure
  | inr n ↦ rw n h
]

active_is_ok : poll_status_was_ok "active" ≡ true
unfolding poll_status_was_ok trim_space to_lower
active_is_ok = refl

report_failure-Reporting :
    (os : Os) (device : ℕ) (status text details : String) (window : ℕ) (previous : String)
    → Ensures
        (Read device previous)
        (report_failure os device status text details window previous)
        (λ _. Reporting device "unavailable")
unfolding report_failure
report_failure-Reporting os device status text details window previous =
    Ensures-if (poll_status_was_ok previous) _ _
      (λ was_ok.
        Ensures-bind (λ _. Reporting device "unavailable") _
          (Ensures-weaken (λ db p. (p.0, ne-available (last_when_ok previous _ p.1 was_ok)))
            (event-Reporting device "unavailable" _ (inr refl)))
          (λ _. touch_tx-Framed (IsReporting device "unavailable") os device _ _ _ _ _))
      (λ was_not.
        Ensures-pure _ tt
          (λ db p. settled device _ db (last_when_not_ok previous _ p.1 was_not) p.0))

report_recovery-Reporting :
    (device : ℕ) (previous : String)
    → Ensures
        (Read device previous)
        (report_recovery device previous)
        (λ _. Reporting device "available")
unfolding report_recovery
report_recovery-Reporting device previous =
    Ensures-if (poll_status_was_failure previous) _ _
      (λ failed.
        Ensures-bind (λ _. Reporting device "available") _
          (Ensures-weaken (λ db p. (p.0, ne-unavailable (last_when_failure previous _ p.1 failed)))
            (event-Reporting device "available" _ (inl refl)))
          (λ _.
            Ensures-bind (λ _. Reporting device "available") _
              (resolve_tx-Framed (IsReporting device "available") device "polling" "system" _)
              (λ n. Ensures-pure _ tt (λ db p. p))))
      (λ was_not.
        Ensures-pure _ tt
          (λ db p. settled device _ db (last_when_not_failure previous _ p.1 was_not) p.0))

-- A failed poll.
pub failure-Keeps :
    (os : Os) (device : ℕ) (status text details : String) (window : ℕ)
    → poll_status_was_failure status ≡ true
    → Keeps Reported (record_poll_failure_transition os device status text details window)
unfolding record_poll_failure_transition failure_body
failure-Keeps os device status text details window failed =
    Keeps-if (device == 0) _ _ (λ _. Keeps-raise _)
      (λ _. Keeps-in_tx _ (
        Ensures-bind (Read device) _ (previous_status-Read device) (λ previous.
          Ensures-bind (λ _. Reporting device "unavailable") _
            (report_failure-Reporting os device _ _ _ _ previous)
            (λ _.
              update_device-Reported device "unavailable" (failed_row _ _)
                (λ now d. (refl, inr (effective-failure status failed, refl)))))))

-- A poll that succeeded.
pub recovery-Keeps : (device : ℕ) → Keeps Reported (record_poll_recovery_transition device)
unfolding record_poll_recovery_transition recovery_body
recovery-Keeps device =
    Keeps-if (device == 0) _ _ (λ _. Keeps-raise _)
      (λ _. Keeps-in_tx _ (
        Ensures-bind (Read device) _ (previous_status-Read device) (λ previous.
          Ensures-bind (λ _. Reporting device "available") _
            (report_recovery-Reporting device previous)
            (λ _.
              update_device-Reported device "available" recovered_row
                (λ now d. (refl, inl (active_is_ok, refl)))))))
