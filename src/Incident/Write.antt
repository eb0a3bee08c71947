-- ===== src/Incident/Write.antt =====
-- Creating an incident, moving its status and assigning it, one at a time and in bulk:
-- CreateIncident, TransitionIncidentStatus, TransitionIncidentsStatus and AssignIncident of
-- internal/infrastructure/postgres/incident_write_repo.go.
use Prim.Native.String.{◌++◌}
use nms.Prelude.{
  ℕ, Bool, true, false, List, [], ◌∷◌, String, Option, none, some, ◌==◌, str_eq, trim_space,
  to_lower, any, ◌||◌, if◌then◌else◌,
}
use nms.Prelude.Result.{
  input_required, title_required, id_required, already_in_status, invalid_transition,
}
use nms.Config.{Os}
use nms.Sql.{Sql, pure, raise, lift, ◌>>=◌, ◌>>◌, in_tx}
use nms.Incident.Status.{
  normalize_incident_severity, normalize_incident_source, normalize_incident_status, is_allowed,
  incident_status_path, default_incident_assignee,
}
use nms.Incident.Tables.{
  IncidentRow, Incident, Db, positive_id, trimmed, get_incident_by_id, select_incident,
  update_incident_status, update_incident_assignee, insert_incident_transition, insert_incident,
}

-- `if x = strings.TrimSpace(x); x == "" { x = fallback }`.
abbrev pub or_default : String → String → String
or_default s fallback = let t = trim_space s in if str_eq t "" then fallback else t

-- A text that is only stored when it is not blank.
abbrev pub null_if_blank : Option String → Option String
null_if_blank none = none
null_if_blank (some a) = let s = trim_space a in if str_eq s "" then none else some s

pub record IncidentInput : Type 0 where
  pub device_id : Option ℕ
  pub assignee : Option String
  pub title : String
  pub severity : String
  pub source : String
  pub details : String

abbrev or_else : Option String → Option String → Option String
or_else none b = b
or_else (some a) b = some a

unfoldable pub create_from : Os → IncidentInput → Sql Db Incident
create_from os input = if str_eq (trim_space input.title) "" then raise title_required else do
  severity ← lift (normalize_incident_severity input.severity)
  source ← lift (normalize_incident_source input.source)
  let details = if str_eq input.details "" then "{}" else input.details
  let given = null_if_blank input.assignee
  let assignee = or_else given (null_if_blank (default_incident_assignee os source severity))
  row ←
      insert_incident (positive_id input.device_id) assignee (trim_space input.title) severity
        source details
  pure (record { row = record row { assignee = trimmed row.assignee }; device_ip = none })

unfoldable pub create_incident : Os → Option IncidentInput → Sql Db Incident
create_incident os none = raise input_required
create_incident os (some input) = create_from os input

-- The loop over the statuses on the way.
unfoldable pub transition_steps : ℕ → String → String → String → List String → Sql Db (Unit {0})
transition_steps id by comment prev [] = pure tt
transition_steps id by comment prev (step ∷ steps) =
    if is_allowed prev step
    then (do
      update_incident_status id step
      insert_incident_transition id prev step by comment
      transition_steps id by comment step steps)
    else raise (invalid_transition prev step)

unfoldable pub walk_path : ℕ → String → String → String → String → List String → Sql Db Bool
walk_path id to by comment from [] = raise (invalid_transition from to)
walk_path id to by comment from (step ∷ steps) = do
  transition_steps id by comment from (step ∷ steps)
  pure true

-- The body of the transaction; `false` is `notFound`.
unfoldable pub transition_row : ℕ → String → String → String → Option IncidentRow → Sql Db Bool
transition_row id to by comment none = pure false
transition_row id to by comment (some r) =
    let from = to_lower (trim_space r.status) in
    if str_eq from to
    then raise (already_in_status to)
    else walk_path id to by comment from (incident_status_path from to)

-- `notFound` answers nil, else the incident is read again after the commit.
unfoldable pub read_back : ℕ → Bool → Sql Db (Option Incident)
read_back id false = pure none
read_back id true = get_incident_by_id id

unfoldable pub transition_tx : ℕ → String → String → String → Sql Db Bool
transition_tx id to by comment =
    in_tx (do row ← select_incident id; transition_row id to by comment row)

unfoldable pub transition_incident_status : ℕ → String → String → String → Sql Db (Option Incident)
transition_incident_status id to_status changed_by comment =
    if id == 0 then raise id_required else do
      to ← lift (normalize_incident_status to_status)
      found ← transition_tx id to (or_default changed_by "system") (trim_space comment)
      read_back id found

-- The comment of an assignment that came with none.
abbrev pub audit_comment : String → Option String → String
audit_comment comment none = if str_eq comment "" then "assignee cleared" else comment
audit_comment comment (some a) = if str_eq comment "" then "assigned to " ++ a else comment

unfoldable pub assign_row : ℕ → Option String → String → String → Option IncidentRow → Sql Db Bool
assign_row id target by comment none = pure false
assign_row id target by comment (some r) = do
  update_incident_assignee id target
  insert_incident_transition id r.status r.status by (audit_comment comment target)
  pure true

unfoldable pub assign_tx : ℕ → Option String → String → String → Sql Db Bool
assign_tx id target by comment =
    in_tx (do row ← select_incident id; assign_row id target by comment row)

unfoldable pub assign_incident : ℕ → String → String → String → Sql Db (Option Incident)
assign_incident id assignee changed_by comment = if id == 0 then raise id_required else do
  found ←
      assign_tx id (null_if_blank (some assignee)) (or_default changed_by "system")
        (trim_space comment)
  read_back id found

abbrev pub collect : Option Incident → List Incident → List Incident
collect none out = out
collect (some i) out = i ∷ out

-- The loop of `TransitionIncidentsStatus`, with the ids it has seen. Each id has a transaction of
-- its own, and the first error ends the loop.
unfoldable pub bulk_loop : String → String → String → List ℕ → List ℕ → Sql Db (List Incident)
bulk_loop to by comment seen [] = pure []
bulk_loop to by comment seen (id ∷ ids) =
    if id == 0 || any (λ k. k == id) seen then bulk_loop to by comment seen ids else do
      item ← transition_incident_status id to by comment
      rest ← bulk_loop to by comment (id ∷ seen) ids
      pure (collect item rest)

unfoldable pub transition_incidents_status :
    List ℕ → String → String → String → Sql Db (List Incident)
transition_incidents_status ids to by comment = bulk_loop to by comment [] ids
