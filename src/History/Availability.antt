-- ===== src/History/Availability.antt =====
-- A history of polls: the availability events against the status of the devices.
use nms.Prelude.{◌≡◌, true, List, [], ◌∷◌, All}
use nms.Config.{Os}
use nms.Sql.Rules.{Keeps}
use nms.Incident.Tables.{Db}
use nms.Poll.{poll_status_was_failure}
use nms.Poll.Reported.{IsReported}
use nms.Poll.Alternation.{failure-Keeps, recovery-Keeps}
use nms.History.{Op, poll_failed, poll_ok, Request, connect, perform, run}

-- What the worker asks for; the status of a failed poll begins with "failed".
abbrev pub IsPoll : Op → Type 0
IsPoll (poll_failed device status text details window) = poll_status_was_failure status ≡ true
IsPoll (poll_ok device) = Unit
IsPoll _ = ⊥

perform-Keeps :
    (os : Os) (op : Op) → IsPoll op → Keeps (λ db. IsReported db.devices db.events) (perform os op)
unfolding perform
perform-Keeps os (poll_failed device status text details window) h =
    failure-Keeps os device status text details window h
perform-Keeps os (poll_ok device) h = recovery-Keeps device
perform-Keeps os _ h = absurd h

-- No two neighbouring availability events of one device are of the same kind, and each device either
-- has failed and its newest event is "unavailable", or is active or of empty status and its newest
-- event is "available" or it has none: from tables of which this holds, it holds after any polls of
-- any devices, failed ones with a status that begins with "failed", whichever statements fail.
pub run-IsReported :
    (os : Os) (db : Db) (polls : List Request)
    → All (λ r. IsPoll r.op) polls
    → IsReported db.devices db.events
    → IsReported (run os db polls).devices (run os db polls).events
unfolding run
run-IsReported os db [] p h = h
run-IsReported os db (r ∷ rs) p h =
    run-IsReported os (perform os r.op (connect db r)).1.db rs p.1
      ((perform-Keeps os r.op p.0).at (connect db r) h)
