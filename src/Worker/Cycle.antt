-- ===== src/Worker/Cycle.antt =====
-- One cycle of polls: pollOneDevice, pollAllDevices and the settings of cmd/worker/poll.go. gosnmp's
-- answers, strconv.Atoi, time.ParseDuration and encoding/json are parameters, `Outside`. Devices
-- differ, so the polls of the goroutines are taken one after the other; a cycle is not cut off.
use nms.Prelude.{ℕ, ◌+◌, ◌*◌, List, [], ◌∷◌, String, Option, str_eq, trim_space, ltb, if◌then◌else◌}
use nms.Prelude.Result.{Result, ok, err}
use nms.Config.{Os, env_or_file, positive_or}
use nms.Sql.{Conn, Sql, query, exec, zoom, or_else}
use nms.Incident.Tables.{Db, DeviceRow, second}
use nms.Poll.{record_poll_failure_transition, record_poll_recovery_transition}
use nms.Worker.Backoff.{DeviceBackoff, should_skip, back_off, resume}

pub data ErrorKind : Type 0 where
  kind_timeout kind_auth kind_no_such kind_transport kind_other : ErrorKind

-- What GetDevice answers: values by object identifier, or an error with its text.
pub data SnmpAnswer : Type 0 where
  replied : List (String × String) → SnmpAnswer
  failed_with : ErrorKind → String → SnmpAnswer

-- What surrounds the cycle: `started` and `ended` are the times of a device's poll.
pub record Outside : Type 0 where
  pub os : Os
  pub atoi : String → Option ℕ
  pub parse_duration : String → Option ℕ
  pub get_device : DeviceRow → SnmpAnswer
  pub details_json : DeviceRow → String → String → String
  pub started : DeviceRow → ℕ
  pub ended : DeviceRow → ℕ

pub record Metric : Type 0 where
  pub device_id : ℕ
  pub oid : String
  pub metric_value : String
  pub recorded_at : ℕ

pub record Fleet : Type 0 where
  pub tables : Db
  pub metrics : List Metric

unfoldable pub polling_incident_suppression_window : Outside → ℕ
polling_incident_suppression_window out =
    let raw = trim_space (env_or_file out.os "NMS_POLL_INCIDENT_SUPPRESSION_WINDOW") in
    if str_eq raw "" then 600 * second else positive_or (600 * second) (out.parse_duration raw)

abbrev at_most : ℕ → ℕ → ℕ
at_most most n = if ltb most n then most else n

unfoldable pub poll_worker_concurrency : Outside → ℕ
poll_worker_concurrency out =
    let v = trim_space (out.os.getenv "NMS_WORKER_POLL_CONCURRENCY") in
    if str_eq v "" then 4 else at_most 128 (positive_or 4 (out.atoi v))

unfoldable pub poll_rate_limit_per_sec : Outside → ℕ
poll_rate_limit_per_sec out =
    let v = trim_space (out.os.getenv "NMS_WORKER_POLL_RATE_LIMIT_PER_SEC") in
    if str_eq v "" then 0 else at_most 1000 (positive_or 0 (out.atoi v))

abbrev pub failure_status : ErrorKind → String
failure_status kind_timeout = "failed_timeout"
failure_status kind_auth = "failed_auth"
failure_status kind_no_such = "failed_no_such_name"
failure_status kind_transport = "failed_transport"
failure_status kind_other = "failed_transport"

abbrev pub fleet_tables : Fleet → Db
fleet_tables f = f.tables

abbrev pub set_fleet_tables : Db → Fleet → Fleet
set_fleet_tables db f = record f { tables = db }

-- `SaveMetric`.
unfoldable pub save_metric : ℕ → String → String → Sql Fleet (Unit {0})
save_metric device oid v = exec (λ f. record f {
  metrics =
      (record { device_id = device; oid = oid; metric_value = v; recorded_at = f.tables.now })
      ∷ f.metrics;
})

-- The loop over the values; an error is logged only.
unfoldable pub save_metrics : ℕ → List (String × String) → Conn Fleet → Conn Fleet
save_metrics device [] c = c
save_metrics device ((oid, v) ∷ values) c =
    save_metrics device values (or_else tt (save_metric device oid v) c).1

-- The worker's variables: the back-off in memory, and the connection.
pub record PollState : Type 0 where
  pub conn : Conn Fleet
  pub backoff : DeviceBackoff

pub data PollResult : Type 0 where
  poll_success poll_failed poll_skipped : PollResult

-- An error of the transition is logged only.
abbrev pub transition : Sql Db (Unit {0}) → Conn Fleet → Conn Fleet
transition m c = (or_else tt (zoom fleet_tables set_fleet_tables m) c).1

abbrev pub clock : ℕ → Conn Fleet → Conn Fleet
clock now c = record c { db = record c.db { tables = record c.db.tables { now = now } } }

unfoldable pub answered : Outside → DeviceRow → SnmpAnswer → PollState → PollResult × PollState
answered out d (failed_with kind text) st =
    let status = failure_status kind in
    let (delay, backoff) = back_off d.ip text (out.ended d) st.backoff in
    (
      poll_failed,
      record {
        conn =
            transition
              (record_poll_failure_transition out.os d.id status text
                (out.details_json d status text) (polling_incident_suppression_window out))
              (clock (out.ended d) st.conn);
        backoff = backoff;
      },
    )
answered out d (replied values) st = (
  poll_success,
  record {
    conn =
        transition (record_poll_recovery_transition d.id)
          (save_metrics d.id values (clock (out.ended d) st.conn));
    backoff = resume d.ip st.backoff;
  },
)

unfoldable pub poll_one_device : Outside → DeviceRow → PollState → PollResult × PollState
poll_one_device out d st =
    if (should_skip d.ip (out.started d) st.backoff).0
    then (poll_skipped, st)
    else answered out d (out.get_device d) st

pub record PollCounts : Type 0 where
  pub success : ℕ
  pub failed : ℕ
  pub skipped : ℕ

abbrev pub add_result : PollResult → PollCounts → PollCounts
add_result poll_success n = record n { success = n.success + 1 }
add_result poll_failed n = record n { failed = n.failed + 1 }
add_result poll_skipped n = record n { skipped = n.skipped + 1 }

-- The devices of a cycle.
unfoldable pub poll_devices :
    Outside → List DeviceRow → PollCounts → PollState → PollCounts × PollState
poll_devices out [] n st = (n, st)
poll_devices out (d ∷ ds) n st =
    let (r, st') = poll_one_device out d st in poll_devices out ds (add_result r n) st'

abbrev pub poll_listed :
    Outside → DeviceBackoff → Result (List DeviceRow) × Conn Fleet → Result PollCounts × PollState
poll_listed out backoff (err e, c) = (err e, record { conn = c; backoff = backoff })
poll_listed out backoff (ok ds, c) =
    let (n, st) =
      poll_devices out ds (record { success = 0; failed = 0; skipped = 0 })
        (record { conn = c; backoff = backoff }) in
    (ok n, st)

unfoldable pub poll_all_devices : Outside → PollState → Result PollCounts × PollState
poll_all_devices out st = poll_listed out st.backoff (query (λ f. f.tables.devices) st.conn)
