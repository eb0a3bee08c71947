-- ===== src/Worker/Reported.antt =====
-- A cycle of polls against the availability events, and its counts.
use nms.Prelude.{
  ℕ, ◌+◌, ◌≡◌, refl, true, List, [], ◌∷◌, String, arith, length, Bool-cases, inl, inr, trim_space,
  to_lower, has_prefix,
}
use nms.Prelude.Result.{Result, ok, err}
use nms.Sql.{Sql, Conn, query}
use nms.Sql.Rules.{Holds, Ensures-query, Keeps, Keeps-query}
use nms.Sql.Parts.{Keeps-or_else, Keeps-zoom, Keeps-exec}
use nms.Incident.Tables.{Db, DeviceRow}
use nms.Poll.{poll_status_was_failure}
use nms.Poll.Reported.{IsReported, Reported}
use nms.Poll.Alternation.{failure-Keeps, recovery-Keeps}
use nms.Worker.Backoff.{should_skip}
use nms.Worker.Cycle.{
  ErrorKind, kind_timeout, kind_auth, kind_no_such, kind_transport, kind_other, failure_status,
  SnmpAnswer, replied, failed_with, Outside, Fleet, fleet_tables, set_fleet_tables, save_metric,
  save_metrics, PollState, PollResult, poll_success, poll_failed, poll_skipped, transition, clock,
  answered, poll_one_device, PollCounts, add_result, poll_devices, poll_listed, poll_all_devices,
}

failure_status-failed : (kind : ErrorKind) → poll_status_was_failure (failure_status kind) ≡ true
unfolding poll_status_was_failure trim_space to_lower has_prefix
failure_status-failed kind_timeout = refl
failure_status-failed kind_auth = refl
failure_status-failed kind_no_such = refl
failure_status-failed kind_transport = refl
failure_status-failed kind_other = refl

abbrev FleetReported : Fleet → Type 0
FleetReported f = Reported f.tables

transition-Reported :
    (m : Sql Db (Unit {0})) (c : Conn Fleet)
    → Keeps Reported m
    → FleetReported c.db
    → FleetReported (transition m c).db
transition-Reported m c k h =
    (Keeps-or_else {P = FleetReported} tt _
        (Keeps-zoom Reported fleet_tables set_fleet_tables m (λ f p. p) (λ db f p q. p) k)).at
      c h

save_metrics-Reported :
    (device : ℕ) (values : List (String × String)) (c : Conn Fleet)
    → FleetReported c.db
    → FleetReported (save_metrics device values c).db
unfolding save_metrics save_metric
save_metrics-Reported device [] c h = h
save_metrics-Reported device ((oid, v) ∷ values) c h =
    save_metrics-Reported device values _
      ((Keeps-or_else {P = FleetReported} tt _ (Keeps-exec _ (λ f p. p))).at c h)

answered-Reported :
    (out : Outside) (d : DeviceRow) (a : SnmpAnswer) (st : PollState)
    → FleetReported st.conn.db
    → FleetReported (answered out d a st).1.conn.db
unfolding answered
answered-Reported out d (failed_with kind text) st h =
    transition-Reported _ (clock (out.ended d) st.conn)
      (failure-Keeps out.os d.id (failure_status kind) text _ _ (failure_status-failed kind)) h
answered-Reported out d (replied values) st h =
    transition-Reported _ _ (recovery-Keeps d.id)
      (save_metrics-Reported d.id values (clock (out.ended d) st.conn) h)

poll_one_device-Reported :
    (out : Outside) (d : DeviceRow) (st : PollState)
    → FleetReported st.conn.db
    → FleetReported (poll_one_device out d st).1.conn.db
unfolding poll_one_device
poll_one_device-Reported out d st h =
    elim (Bool-cases (should_skip d.ip (out.started d) st.backoff).0) [
      | inl waiting ↦ rw waiting h
      | inr due ↦ rw due (answered-Reported out d (out.get_device d) st h)
    ]

abbrev total : PollCounts → ℕ
total n = n.success + n.failed + n.skipped

total-add_result : (r : PollResult) (n : PollCounts) → total (add_result r n) ≡ total n + 1
total-add_result poll_success n = omega arith
total-add_result poll_failed n = omega arith
total-add_result poll_skipped n = omega arith

devices-Reported :
    (out : Outside) (ds : List DeviceRow) (n : PollCounts) (st : PollState)
    → FleetReported st.conn.db
    → FleetReported (poll_devices out ds n st).1.conn.db
      × (total (poll_devices out ds n st).0 ≡ total n + length ds)
unfolding poll_devices
devices-Reported out [] n st h = (h, omega arith)
devices-Reported out (d ∷ ds) n st h =
    let (r, st') = poll_one_device out d st in
    let (reported, counts) =
      devices-Reported out ds (add_result r n) st' (poll_one_device-Reported out d st h) in
    let one = total-add_result r n in (reported, omega arith)

-- A count for each device, where there is one.
abbrev pub CountsAll : Result PollCounts → ℕ → Type 0
CountsAll (ok n) k = n.success + n.failed + n.skipped ≡ k
CountsAll (err e) k = Unit

abbrev HasLength : Result (List DeviceRow) → ℕ → Type 0
HasLength (ok ds) k = length ds ≡ k
HasLength (err e) k = Unit

Holds-HasLength :
    (k : ℕ) (r : Result (List DeviceRow) × Conn Fleet)
    → Holds (λ ds f. length ds ≡ k) r
    → HasLength r.0 k
Holds-HasLength k (ok ds, c) h = h
Holds-HasLength k (err e, c) h = tt

listed-Reported :
    (out : Outside) (st : PollState) (r : Result (List DeviceRow) × Conn Fleet) (k : ℕ)
    → FleetReported r.1.db
    → HasLength r.0 k
    → FleetReported (poll_listed out st.backoff r).1.conn.db
      × CountsAll (poll_listed out st.backoff r).0 k
listed-Reported out st (err e, c) k h l = (h, tt)
listed-Reported out st (ok ds, c) k h l =
    let (reported, counts) =
      devices-Reported out ds _ (record { conn = c; backoff = st.backoff }) h in
    (reported, omega arith)

-- A cycle of polls keeps the availability events in step with the status of the devices, whatever
-- the devices answer, whichever statements fail and whatever the back-off holds; and when the
-- devices could be listed, each of them is counted once, as polled, failed or skipped.
pub poll_all_devices-IsReported :
    (out : Outside) (st : PollState)
    → IsReported st.conn.db.tables.devices st.conn.db.tables.events
    → IsReported
        (poll_all_devices out st).1.conn.db.tables.devices
        (poll_all_devices out st).1.conn.db.tables.events
      × CountsAll (poll_all_devices out st).0 (length st.conn.db.tables.devices)
unfolding poll_all_devices
poll_all_devices-IsReported out st h =
    listed-Reported out st (query (λ f. f.tables.devices) st.conn)
      (length st.conn.db.tables.devices)
      ((Keeps-query {P = FleetReported} (λ f. f.tables.devices)).at st.conn h)
      (Holds-HasLength _ (query (λ f. f.tables.devices) st.conn) (
        (Ensures-query {P = λ f. f ≡ st.conn.db}
            (λ ds f. length ds ≡ length st.conn.db.tables.devices) (λ f. f.tables.devices)
            (λ f same. rw same refl)).at
          st.conn refl))
