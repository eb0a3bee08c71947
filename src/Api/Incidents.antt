-- ===== src/Api/Incidents.antt =====
-- internal/delivery/http/incidents.go: reading, creating, moving and assigning incidents, one and
-- in bulk, and the queue of events for the ticket system.
-- A body is the decoded one, or `none` where decoding fails. The time of an event and the metrics
-- are left out.
use nms.Prelude.{
  [], ℕ, suc, zero, Bool, ◌&&◌, List, ◌∷◌, String, Option, none, some, str_eq, trim_space, ltb, ℤ,
  pos, negsuc, length, if◌then◌else◌,
}
use nms.Prelude.Atoi.{atoi}
use nms.Prelude.Result.{Result, ok, err}
use nms.Config.{Os, positive_or}
use nms.Sql.{Conn, Sql}
use nms.Incident.Tables.{Db, Incident, IncidentTransition, get_incident_by_id}
use nms.Incident.Listing.{list_incident_transitions}
use nms.Incident.Write.{IncidentInput, create_incident, transition_incident_status, assign_incident}

-- A status other than 200 with its text, or the JSON that is written.
pub data Reply (A : Type 0) : Type 0 where
  refused : ℕ → String → Reply A
  replied : A → Reply A

-- `services.ITSMIncidentEvent`.
pub record Event : Type 0 where
  pub event_type : String
  pub changed_by : String
  pub comment : String
  pub incident : Incident

-- The channel of `itsmDispatchQueue`, oldest event last; it is closed to all where no notifier is
-- enabled.
pub record Queue : Type 0 where
  pub enabled : Bool
  pub size : ℕ
  pub waiting : List Event

pub record Api : Type 0 where
  pub conn : Conn Db
  pub queue : Queue

positive_setting : ℕ → Option ℤ → ℕ
positive_setting n none = n
positive_setting n (some (pos v)) = positive_or n (some v)
positive_setting n (some (negsuc v)) = n

abbrev setting_or : ℕ → String → ℕ
unfolding positive_setting
setting_or n text =
    let v = trim_space text in if str_eq v "" then n else positive_setting n (atoi v)

-- The size and the number of workers.
unfoldable pub itsm_dispatch_queue_config : Os → ℕ × ℕ
unfolding positive_setting
itsm_dispatch_queue_config os = (
  setting_or 256 (os.getenv "NMS_ITSM_QUEUE_SIZE"),
  setting_or 2 (os.getenv "NMS_ITSM_QUEUE_WORKERS"),
)

-- A full queue drops the event.
unfoldable pub notify_itsm_incident_async : Event → Api → Api
notify_itsm_incident_async e a =
    if a.queue.enabled && ltb (length a.queue.waiting) a.queue.size
    then record a { queue = record (a.queue) { waiting = e ∷ a.queue.waiting } }
    else a

abbrev pub call : {A : Type 0} → Sql Db A → Api → Result A × Api
call m a = let (r, c) = m a.conn in (r, record a { conn = c })

positive_part : Option ℤ → Option ℕ
positive_part none = none
positive_part (some (pos zero)) = none
positive_part (some (pos (suc n))) = some (suc n)
positive_part (some (negsuc n)) = none

unfoldable pub incident_id_from_chi : String → Option ℕ
unfolding positive_part
incident_id_from_chi param =
    let s = trim_space param in if str_eq s "" then none else positive_part (atoi s)

-- The user of the context, if any.
unfoldable pub changed_by_user : Option String → String
changed_by_user none = "system"
changed_by_user (some name) = let u = trim_space name in if str_eq u "" then "system" else u

unfoldable pub shown :
    Incident
    → Result (List IncidentTransition) × Api
    → Reply (Incident × List IncidentTransition) × Api
shown item (err e, a) = (refused 500 "internal server error", a)
shown item (ok ts, a) = (replied (item, ts), a)

unfoldable pub found_for_show :
    ℕ → Result (Option Incident) × Api → Reply (Incident × List IncidentTransition) × Api
unfolding shown
found_for_show id (err e, a) = (refused 500 "internal server error", a)
found_for_show id (ok none, a) = (refused 404 "incident not found", a)
found_for_show id (ok (some item), a) = shown item (call (list_incident_transitions id 100) a)

unfoldable pub get_checked : Option ℕ → Api → Reply (Incident × List IncidentTransition) × Api
unfolding found_for_show
get_checked none a = (refused 400 "bad incident id", a)
get_checked (some id) a = found_for_show id (call (get_incident_by_id id) a)

unfoldable pub get_incident : String → Api → Reply (Incident × List IncidentTransition) × Api
get_incident param a = get_checked (incident_id_from_chi param) a

abbrev pub event_of : String → String → String → Incident → Event
event_of kind by comment item = record {
  event_type = kind;
  changed_by = by;
  comment = comment;
  incident = item;
}

unfoldable pub created : Result Incident × Api → Reply Incident × Api
created (err e, a) = (refused 400 "invalid incident payload", a)
created (ok item, a) = (
  replied item,
  notify_itsm_incident_async (event_of "incident.created" "system" "created via API" item) a,
)

unfoldable pub create_incident_request : Os → Option IncidentInput → Api → Reply Incident × Api
unfolding created
create_incident_request os none a = (refused 400 "invalid json body", a)
create_incident_request os (some input) a = created (call (create_incident os (some input)) a)

-- What TransitionIncident and AssignIncident make of the repository's answer.
unfoldable pub moved :
    String → String → String → String → Result (Option Incident) × Api → Reply Incident × Api
moved kind why by comment (err e, a) = (refused 400 why, a)
moved kind why by comment (ok none, a) = (refused 404 "incident not found", a)
moved kind why by comment (ok (some item), a) =
    (replied item, notify_itsm_incident_async (event_of kind by comment item) a)

unfoldable pub transition_found :
    ℕ → String → String → String → Result (Option Incident) × Api → Reply Incident × Api
unfolding moved
transition_found id status by comment (err e, a) = (refused 500 "internal server error", a)
transition_found id status by comment (ok none, a) = (refused 404 "incident not found", a)
transition_found id status by comment (ok (some before), a) =
    moved "incident.status_changed" "invalid incident status transition" by comment
      (call (transition_incident_status id status by comment) a)

unfoldable pub transition_checked :
    Option ℕ → Option (String × String) → String → Api → Reply Incident × Api
unfolding transition_found
transition_checked none body by a = (refused 400 "bad incident id", a)
transition_checked (some id) none by a = (refused 400 "invalid json body", a)
transition_checked (some id) (some (status, comment)) by a =
    transition_found id status by comment (call (get_incident_by_id id) a)

-- The body is the status and the comment.
unfoldable pub transition_incident_request :
    String → Option (String × String) → Option String → Api → Reply Incident × Api
unfolding transition_checked
transition_incident_request param body user a =
    transition_checked (incident_id_from_chi param) body (changed_by_user user) a

unfoldable pub assign_checked :
    Option ℕ → Option (String × String) → String → Api → Reply Incident × Api
unfolding moved
assign_checked none body by a = (refused 400 "bad incident id", a)
assign_checked (some id) none by a = (refused 400 "invalid json body", a)
assign_checked (some id) (some (assignee, comment)) by a =
    moved "incident.assignment_changed" "invalid incident assignment change" by comment
      (call (assign_incident id assignee by comment) a)

-- The body is the assignee and the comment.
unfoldable pub assign_incident_request :
    String → Option (String × String) → Option String → Api → Reply Incident × Api
unfolding assign_checked
assign_incident_request param body user a =
    assign_checked (incident_id_from_chi param) body (changed_by_user user) a

abbrev pub without_last : List Event → List Event
without_last [] = []
without_last (e ∷ []) = []
without_last (e ∷ e' ∷ es) = e ∷ without_last (e' ∷ es)

-- `for task := range q.ch`.
unfoldable pub take_event : Api → Api
take_event a = record a { queue = record (a.queue) { waiting = without_last a.queue.waiting } }
