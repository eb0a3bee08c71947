-- ===== src/Incident/Itsm.antt =====
-- ApplyITSMInboundUpdate of incident_write_repo.go: a status and an owner from the ticket system.
use nms.Prelude.{
  ℕ, Bool, true, false, String, Option, none, some, ◌==◌, str_eq, trim_space, to_lower,
  if◌then◌else◌,
}
use nms.Prelude.Result.{id_required, invalid_transition}
use nms.Sql.{Sql, pure, raise, lift, ◌>>=◌, ◌>>◌, in_tx}
use nms.Incident.Status.{normalize_incident_status, is_allowed}
use nms.Incident.Tables.{
  IncidentRow, Incident, Db, get_incident_by_id, select_incident, update_incident_status,
  update_incident_assignee, insert_incident_transition,
}
use nms.Incident.Write.{or_default, null_if_blank, audit_comment}

-- The status of the row after the first half, and whether it changed. `none` is no status asked for.
unfoldable pub itsm_status :
    ℕ → Option String → String → String → IncidentRow → Sql Db (String × Bool)
itsm_status id none by comment r = pure (r.status, false)
itsm_status id (some to) by comment r =
    let from = to_lower (trim_space r.status) in
    if str_eq to from
    then pure (r.status, false)
    else if is_allowed from to
    then (do
      update_incident_status id to
      insert_incident_transition id from to by comment
      pure (to, true))
    else raise (invalid_transition from to)

-- `currentAssignee.String`, trimmed; NULL reads as "".
abbrev pub current_assignee : Option String → String
current_assignee none = ""
current_assignee (some a) = trim_space a

unfoldable pub itsm_assignee : ℕ → String → String → String → String → Option String → Sql Db Bool
itsm_assignee id assignee by comment status current =
    if str_eq (trim_space assignee) (current_assignee current) then pure false else do
      update_incident_assignee id (null_if_blank (some assignee))
      insert_incident_transition id status status by
          (audit_comment comment (null_if_blank (some assignee)))
      pure true

pub record ItsmOutcome : Type 0 where
  pub found : Bool
  pub status_changed : Bool
  pub assignee_changed : Bool

unfoldable pub itsm_row :
    ℕ → Option String → String → String → String → Option IncidentRow → Sql Db ItsmOutcome
itsm_row id to assignee by comment none =
    pure (record { found = false; status_changed = false; assignee_changed = false })
itsm_row id to assignee by comment (some r) = do
  after ← itsm_status id to by comment r
  changed ← itsm_assignee id assignee by comment after.0 r.assignee
  pure (record { found = true; status_changed = after.1; assignee_changed = changed })

unfoldable pub itsm_tx : ℕ → Option String → String → String → String → Sql Db ItsmOutcome
itsm_tx id to assignee by comment =
    in_tx (do row ← select_incident id; itsm_row id to assignee by comment row)

-- A blank status asks for none.
unfoldable pub requested_status : String → Sql Db (Option String)
requested_status to_status =
    if str_eq (trim_space to_status) ""
    then pure none
    else (do to ← lift (normalize_incident_status to_status); pure (some to))

unfoldable pub itsm_answer : ℕ → ItsmOutcome → Sql Db (Option Incident × Bool × Bool)
itsm_answer id o =
    if o.found
    then (do item ← get_incident_by_id id; pure (item, o.status_changed, o.assignee_changed))
    else pure (none, false, false)

unfoldable pub apply_itsm_inbound_update :
    ℕ → String → String → String → String → Sql Db (Option Incident × Bool × Bool)
apply_itsm_inbound_update id to_status assignee changed_by comment =
    if id == 0 then raise id_required else do
      to ← requested_status to_status
      outcome ← itsm_tx id to assignee (or_default changed_by "system") (trim_space comment)
      itsm_answer id outcome
