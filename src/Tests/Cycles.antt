-- ===== src/Tests/Cycles.antt =====
-- A cycle over one switch that does not answer.
use nms.Prelude.{true, ◌≡◌, refl, [], none, inl, trim_space, to_lower}
use nms.Poll.{poll_status_was_ok}
use nms.Poll.Reported.{IsReported}
use nms.Worker.Backoff.{new_device_backoff}
use nms.Worker.Cycle.{Outside, failed_with, kind_timeout, PollState, poll_all_devices}
use nms.Worker.Reported.{CountsAll, poll_all_devices-IsReported}
use nms.Tests.Data.{bare_os, empty_db}

abbrev silent : Outside
silent = record {
  os = bare_os;
  atoi = λ text. none;
  parse_duration = λ text. none;
  get_device = λ d. failed_with kind_timeout "request timeout";
  details_json = λ d status text. "{}";
  started = λ d. 2000;
  ended = λ d. 3000;
}

abbrev morning : PollState
morning = record {
  conn = record { db = record { tables = empty_db; metrics = [] }; faults = [] };
  backoff = new_device_backoff;
}

active : poll_status_was_ok "active" ≡ true
unfolding poll_status_was_ok trim_space to_lower
active = refl

poll_all_devices-IsReported_example :
    IsReported
      (poll_all_devices silent morning).1.conn.db.tables.devices
      (poll_all_devices silent morning).1.conn.db.tables.events
    × CountsAll (poll_all_devices silent morning).0 1
poll_all_devices-IsReported_example =
    poll_all_devices-IsReported silent morning
      (record { events = tt; devices = (inl (active, refl), tt) })
