-- ===== src/Tests/Requested.antt =====
-- Requests of the API on small tables.
use nms.Prelude.{refl, [], ◌∷◌, true, some, pos, negsuc}
use nms.Tests.Data.{empty_db, fan_db}
use nms.Api.Incidents.{Api, transition_incident_request, assign_incident_request}
use nms.Api.Bulk.{BulkBody, bulk_transition_incidents}
use nms.Api.Counts.{IsBulkAnswer, bulk_transition_incidents-IsBulkAnswer}
use nms.Api.Told.{Told, requests-Told}

-- No incident yet, and room for one event.
abbrev quiet : Api
quiet = record {
  conn = record { db = empty_db; faults = [] };
  queue = record { enabled = true; size = 1; waiting = [] };
}

abbrev some_ids : BulkBody
some_ids = record {
  incident_ids = pos 1 ∷ negsuc 4 ∷ pos 1 ∷ pos 9 ∷ [];
  status = "acknowledged";
  comment = "";
}

bulk_transition_incidents-IsBulkAnswer_example :
    IsBulkAnswer
      (pos 1 ∷ negsuc 4 ∷ pos 1 ∷ pos 9 ∷ [])
      (bulk_transition_incidents (some some_ids) (some "ann") quiet).0
bulk_transition_incidents-IsBulkAnswer_example =
    bulk_transition_incidents-IsBulkAnswer some_ids (some "ann") quiet refl

-- The incident of the fan, and a queue with room for one event.
abbrev one_incident : Api
one_incident = record quiet { conn = record { db = fan_db; faults = [] } }

requests-Told_example :
    Told "incident.status_changed" "1"
      (some ("acknowledged", "seen"))
      (some "ann")
      one_incident.queue
      (transition_incident_request "1" (some ("acknowledged", "seen")) (some "ann") one_incident)
    × Told "incident.assignment_changed" "1"
        (some ("acknowledged", "seen"))
        (some "ann")
        one_incident.queue
        (assign_incident_request "1" (some ("acknowledged", "seen")) (some "ann") one_incident)
requests-Told_example = requests-Told "1" (some ("acknowledged", "seen")) (some "ann") one_incident
