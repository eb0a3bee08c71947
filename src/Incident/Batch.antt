-- ===== src/Incident/Batch.antt =====
-- Changes of many incidents at once: EscalateUnackedIncidents(WithFilter) of incident_write_repo.go,
-- ResolveOpenIncidentsBySource of incidents.go, and resolveOpenIncidentsBySourceTx of
-- poll_transitions.go.
use Prim.Native.Char.{code}
use nms.Prelude.{
  ℕ, ◌+◌, Bool, true, false, not, ◌&&◌, ◌||◌, List, [], ◌∷◌, ◌++◌, map, String, Option, none, some,
  ◌==◌, str_eq, trim_space, leb, length, select_where, update_where, if◌then◌else◌,
}
use nms.Prelude.Result.{Result, ok}
use nms.Sql.{Sql, pure, lift, ◌>>=◌, ◌>>◌, statement, query, exec}
use nms.Incident.Status.{normalize_incident_severity, normalize_incident_source}
use nms.Incident.Tables.{IncidentRow, IncidentTransition, Db, insert_incident_transition}
use nms.Incident.Write.{or_default}
use nms.Incident.Touch.{is_open, same_device}

-- The rows that a CTE logs: one transition from the old status of each candidate.
abbrev pub logged :
    (String → String) → String → String → ℕ → List IncidentRow → List IncidentTransition
logged to by comment now = map λ r. record {
  incident_id = r.id;
  from_status = r.status;
  to_status = to r.status;
  changed_by = by;
  comment = comment;
  changed_at = now;
}

-- One statement: `WITH candidates AS (…), updated AS (UPDATE …), inserted AS (INSERT …)
-- SELECT COUNT(*) FROM updated`.
unfoldable pub update_and_log :
    (Db → IncidentRow → Bool)
    → (ℕ → IncidentRow → IncidentRow)
    → (String → String)
    → String
    → String
    → Sql Db ℕ
update_and_log is_candidate change to by comment = statement (λ db.
    let rows = select_where (is_candidate db) db.incidents in
    (
      length rows,
      record db {
        incidents = update_where (is_candidate db) (change db.now) db.incidents;
        transitions = logged to by comment db.now rows ++ db.transitions;
      },
    ))

-- `btrim(assignee) = ''`.
unfoldable pub is_blank : String → Bool
is_blank String.[] = true
is_blank (String.◌∷◌ c s) = code c == 32 && is_blank s

-- `assignee IS DISTINCT FROM $2`.
unfoldable pub distinct_from : Option String → String → Bool
distinct_from none target = true
distinct_from (some a) target = not (str_eq a target)

unfoldable pub unassigned : Option String → Bool
unassigned none = true
unassigned (some a) = is_blank a

pub record EscalationFilter : Type 0 where
  pub older_than : ℕ
  pub target : String
  pub severity : String
  pub source : String
  pub only_if_unassigned : Bool

unfoldable pub is_escalated : EscalationFilter → Db → IncidentRow → Bool
is_escalated f db r =
    str_eq r.status "new"
    && leb (r.created_at + f.older_than) db.now
    && distinct_from r.assignee f.target
    && (str_eq f.severity "" || str_eq r.severity f.severity)
    && (str_eq f.source "" || str_eq r.source f.source)
    && (not f.only_if_unassigned || unassigned r.assignee)

abbrev pub take_over : String → ℕ → IncidentRow → IncidentRow
take_over target now r = record r { assignee = some target; updated_at = now }

abbrev pub keep_status : String → String
keep_status s = s

-- A blank filter stays as it is written.
unfoldable pub normalize_filter : (String → Result String) → String → Result String
normalize_filter normalize v = if str_eq (trim_space v) "" then ok v else normalize v

unfoldable pub escalate_unacked_incidents_with_filter :
    ℕ → String → String → String → String → String → Bool → Sql Db ℕ
escalate_unacked_incidents_with_filter older target by comment severity source only =
    if older == 0 then pure 0 else if str_eq (trim_space target) "" then pure 0 else do
      sv ← lift (normalize_filter normalize_incident_severity severity)
      src ← lift (normalize_filter normalize_incident_source source)
      update_and_log
          (is_escalated (record {
            older_than = older;
            target = trim_space target;
            severity = sv;
            source = src;
            only_if_unassigned = only;
          }))
          (take_over (trim_space target)) keep_status (or_default by "system-escalation")
          (or_default comment "auto-escalated: ack timeout reached")

unfoldable pub escalate_unacked_incidents : ℕ → String → String → String → Sql Db ℕ
escalate_unacked_incidents older target by comment =
    escalate_unacked_incidents_with_filter older target by comment "" "" false

-- `device_id = $1 AND source = $2 AND status IN (…)`; a NULL device is equal to none.
unfoldable pub is_open_of : ℕ → String → IncidentRow → Bool
is_open_of device source r =
    same_device r.device_id (some device) && str_eq r.source source && is_open r.status

abbrev pub resolve_row : ℕ → IncidentRow → IncidentRow
resolve_row now r = record r { status = "resolved"; updated_at = now; resolved_at = some now }

abbrev pub to_resolved : String → String
to_resolved s = "resolved"

unfoldable pub resolve_open_incidents_by_source : ℕ → String → String → String → Sql Db ℕ
resolve_open_incidents_by_source device source by comment = if device == 0 then pure 0 else do
  src ← lift (normalize_incident_source source)
  update_and_log (λ db. is_open_of device src) resolve_row to_resolved (or_default by "system")
      (or_default comment "auto-resolved")

-- The loop of resolveOpenIncidentsBySourceTx over the rows that it selected.
unfoldable pub resolve_loop : String → String → ℕ → List IncidentRow → Sql Db ℕ
resolve_loop by comment changed [] = pure changed
resolve_loop by comment changed (it ∷ items) = do
  exec (λ db. record db {
    incidents = update_where (λ r. r.id == it.id) (resolve_row db.now) db.incidents;
  })
  insert_incident_transition it.id it.status "resolved" by comment
  resolve_loop by comment (changed + 1) items

unfoldable pub resolve_open_incidents_by_source_tx : ℕ → String → String → String → Sql Db ℕ
resolve_open_incidents_by_source_tx device source by comment = if device == 0 then pure 0 else do
  src ← lift (normalize_incident_source source)
  items ← query (λ db. select_where (is_open_of device src) db.incidents)
  resolve_loop (or_default by "system") (or_default comment "auto-resolved") 0 items
