-- ===== src/Tests/Incidents.antt =====
-- Incidents and polls.
use nms.Prelude.{
  All, ℕ, ◌+◌, ◌≡◌, refl, inl, inr, ◌⊎◌, true, false, List, [], ◌∷◌, some, arith, trim_space,
  to_lower, has_prefix, ◌==◌, length, ◌≤◌, Mem, update_where,
}
use nms.Prelude.Result.{ok, Error, err}
use nms.Incident.Status.{new, closed, name, incident_status_path}
use nms.Incident.Path.{IsPath}
use nms.Incident.Tables.{Db, IncidentRow}
use nms.Incident.Write.{transition_tx}
use nms.Incident.Audit.{IsAudited}
use nms.Incident.Outcome.{
  sound, status_at, row_of, entries, transition_forward, transition_backward,
}
use nms.Poll.{
  recovered_row, record_poll_recovery_transition, poll_status_was_ok, poll_status_was_failure,
}
use nms.Poll.Reported.{IsReported}
use nms.History.{Request, create, transition, poll_failed, poll_ok, run, run-IsAudited}
use nms.History.Availability.{run-IsReported}
use nms.Incident.Touch.{TouchKey, touch_body}
use nms.Incident.Listing.{ListFilter, select_page}
use nms.Incident.Pages.{Passes, Descending, NotOlder, select_page-newest}
use nms.Incident.Dedup.{IsCopyOf, touch_reuses}
use nms.Incident.Batch.{is_open_of}
use nms.Poll.Resolved.{recovery_resolves}
use nms.Tests.Data.{switch, bare_os, empty_db, broken_fan, fan_row, fan_db}

abbrev script : List Request
script =
    record { op = create (some broken_fan); at = 2000; faults = [] }
    ∷ record {
      op = transition 1 "resolved" "ann" "done";
      at = 3000;
      faults = false ∷ false ∷ false ∷ true ∷ [];
    }
    ∷ record { op = transition 1 "closed" "ann" ""; at = 4000; faults = [] }
    ∷ []

empty-IsAudited : IsAudited empty_db
empty-IsAudited = record { rows = tt; unique = tt; trail = tt; logged_ids = tt }

run-IsAudited_example : IsAudited (run bare_os empty_db script)
run-IsAudited_example = run-IsAudited bare_os empty_db script empty-IsAudited

abbrev polls : List Request
polls =
    record { op = poll_failed 7 "failed_timeout" "timeout" "" 0; at = 2000; faults = [] }
    ∷ record { op = poll_failed 7 "failed_timeout" "timeout" "" 0; at = 3000; faults = [] }
    ∷ record { op = poll_ok 7; at = 4000; faults = [] }
    ∷ []

timeout_is_failure : poll_status_was_failure "failed_timeout" ≡ true
unfolding poll_status_was_failure trim_space to_lower has_prefix
timeout_is_failure = refl

active_is_ok : poll_status_was_ok "active" ≡ true
unfolding poll_status_was_ok trim_space to_lower
active_is_ok = refl

run-IsReported_example :
    IsReported (run bare_os empty_db polls).devices (run bare_os empty_db polls).events
run-IsReported_example =
    run-IsReported bare_os empty_db polls (timeout_is_failure, (timeout_is_failure, (tt, tt)))
      (record { events = tt; devices = (inl (active_is_ok, refl), tt) })

-- A new incident that is closed goes through the four later statuses.
transition_forward_example :
    (db' : Db) × (transition_tx 1 (name closed) "ann" "" (sound fan_db) ≡ (ok true, sound db'))
    × (status_at 1 db' ≡ some (name closed))
    × ((j : ℕ) → (j == 1) ≡ false → row_of j db' ≡ row_of j fan_db)
    × (db'.transitions
        ≡ entries 1 "ann" "" fan_db.now
            (name new)
            (incident_status_path (name new) (name closed))
            fan_db.transitions)
    × IsPath (name new) (incident_status_path (name new) (name closed)) (name closed)
    × (length (incident_status_path (name new) (name closed)) + 0 ≡ 4)
transition_forward_example =
    transition_forward 1 new closed "ann" "" fan_db fan_row refl refl (omega arith)

transition_backward_example :
    (e : Error) × (transition_tx 1 (name new) "ann" "" (sound fan_db) ≡ (err e, sound fan_db))
transition_backward_example =
    transition_backward 1 new new "ann" "" fan_db fan_row refl refl (omega arith)

-- An hour-wide window around the fan's incident, and another title.
abbrev fan_key : TouchKey
fan_key = record {
  device_id = some 7;
  title = "fan broken";
  severity = "critical";
  source = "manual";
  window_sec = 3600;
}

abbrev disk_key : TouchKey
disk_key = record fan_key { title = "disk full" }

touch_reuses_example :
    (r : IncidentRow) × (touch_body bare_os fan_key "[]" (sound fan_db) ≡ (
      ok (record { id = r.id; created = false }),
      sound (record fan_db {
        incidents =
            update_where
              (λ x. x.id == r.id)
              (λ x. record x { updated_at = 1000; details = "[]" })
              fan_db.incidents;
      }),
    ))
    × Mem r fan_db.incidents
    × IsCopyOf fan_key 1000 r
    × (1000 ≤ r.updated_at)
touch_reuses_example = touch_reuses bare_os fan_key "[]" fan_db [] [] fan_row refl (record {
  source = refl;
  title = refl;
  severity = refl;
  device = refl;
  is_open_now = inl refl;
  recent = omega arith;
})

-- The switch has failed, with an open incident from polling.
abbrev failed_db : Db
failed_db = record fan_db {
  incidents = record fan_row { source = "polling" } ∷ [];
  devices = record switch { status = some "failed_timeout" } ∷ [];
}

recovery_resolves_example :
    (db' : Db) × (record_poll_recovery_transition 7 (sound failed_db) ≡ (ok tt, sound db'))
    × All (λ r. is_open_of 7 "polling" r ≡ false) db'.incidents
    × (db'.devices ≡ recovered_row 1000 (record switch { status = some "failed_timeout" }) ∷ [])
recovery_resolves_example =
    recovery_resolves 7 failed_db (record switch { status = some "failed_timeout" }) refl refl
      timeout_is_failure

abbrev of_switch : ListFilter
of_switch = record { device_id = 7; status = ""; severity = "critical"; cursor = some (1000, 9) }

select_page-newest_example :
    (length (select_page 50 of_switch fan_db).items ≤ 50)
    × All (λ r. Mem r fan_db.incidents × Passes of_switch r) (select_page 50 of_switch fan_db).items
    × Descending (select_page 50 of_switch fan_db).items
    × (Mem fan_row (select_page 50 of_switch fan_db).items
        ⊎ ((length (select_page 50 of_switch fan_db).items ≡ 50)
            × ((select_page 50 of_switch fan_db).more ≡ true)
            × All (λ r. NotOlder r fan_row) (select_page 50 of_switch fan_db).items))
unfolding trim_space
select_page-newest_example = select_page-newest 50 of_switch fan_db [] [] fan_row refl (record {
  device = inr refl;
  status = inl refl;
  severity = inr refl;
  past = inr (refl, omega arith);
})
