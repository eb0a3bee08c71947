-- ===== src/Trap/Write.antt =====
-- The incidents of traps: CreateOrTouchOpenTrapIncident and ResolveOpenTrapIncidents of
-- internal/repository/trap.go.
use nms.Prelude.{
  ℕ, ◌+◌, ◌*◌, Bool, ◌&&◌, List, [], ◌∷◌, String, Option, none, some, str_eq, trim_space,
  equal_fold, leb, any, find, if◌then◌else◌, not,
}
use nms.Config.{Os, env_or_file}
use nms.Sql.{Sql, pure, ◌>>=◌, ◌>>◌, statement, query, exec, in_tx, zoom, or_else}
use nms.Incident.Tables.{IncidentRow, Db, second, new_row, add_row}
use nms.Incident.Touch.{is_open, same_device, latest, touch_found, window_seconds, advisory_lock}
use nms.Incident.Batch.{update_and_log, resolve_row, to_resolved}
use nms.Incident.Write.{or_default}
use nms.Trap.Classify.{
  TrapClassification, TrapOidMappingRow, default_trap_classification, classification_from_mapping,
}
use nms.Trap.Mapping.{Outside, TrapDb, trap_oid_mapping_lookup}

abbrev pub tables_of : TrapDb → Db
tables_of s = s.tables

abbrev pub with_tables : Db → TrapDb → TrapDb
with_tables db s = record s { tables = db }

abbrev on_tables : {A : Type 0} → Sql Db A → Sql TrapDb A
on_tables = zoom tables_of with_tables

unfoldable pub classified : String → Option TrapOidMappingRow → TrapClassification
classified oid none = default_trap_classification oid
classified oid (some row) = classification_from_mapping oid row

-- The WHERE clause of the inner SELECT.
unfoldable pub is_trap_match : Option ℕ → String → ℕ → ℕ → IncidentRow → Bool
is_trap_match dev title window now r =
    str_eq r.source "trap"
    && is_open r.status
    && str_eq r.title title
    && same_device r.device_id dev
    && leb now (r.updated_at + window * second)

unfoldable pub touch_open_trap : Option ℕ → String → ℕ → String → Sql Db (Option ℕ)
touch_open_trap dev title window details =
    statement
      (λ db. touch_found details db (latest (is_trap_match dev title window db.now) db.incidents))

-- The three variables, each taken when it is set.
unfoldable pub trap_assignee : Os → String → Option String
trap_assignee os severity =
    let critical = trim_space (env_or_file os "NMS_INCIDENT_ASSIGNEE_CRITICAL") in
    let trap = trim_space (env_or_file os "NMS_INCIDENT_ASSIGNEE_TRAP") in
    let other = trim_space (env_or_file os "NMS_INCIDENT_ASSIGNEE_DEFAULT") in
    if not (str_eq critical "") && equal_fold severity "critical"
    then some critical
    else if not (str_eq trap "")
    then some trap
    else if not (str_eq other "")
    then some other
    else none

-- Nothing more to do for an incident that was touched.
unfoldable pub touch_or_insert_trap :
    Os → Option ℕ → String → String → String → Option ℕ → Sql Db (Unit {0})
touch_or_insert_trap os dev title severity details (some id) = pure tt
touch_or_insert_trap os dev title severity details none =
    exec
      (λ db. add_row (new_row dev (trap_assignee os severity) title severity "trap" details db) db)

unfoldable pub trap_tx : Os → Option ℕ → String → String → ℕ → String → Sql Db (Unit {0})
trap_tx os dev title severity window details = do
  advisory_lock
  touched ← touch_open_trap dev title window details
  touch_or_insert_trap os dev title severity details touched

-- `titleConds`: the titles that are not blank.
unfoldable pub title_conds : List String → List String
title_conds [] = []
title_conds (t ∷ ts) =
    let rest = title_conds ts in if str_eq (trim_space t) "" then rest else trim_space t ∷ rest

unfoldable pub is_open_trap_of : ℕ → List String → IncidentRow → Bool
is_open_trap_of device titles r =
    str_eq r.source "trap"
    && same_device r.device_id (some device)
    && is_open r.status
    && any (λ t. str_eq r.title t) titles

-- From `BeginTx`; with no title left the deferred `Rollback` ends the transaction.
unfoldable pub resolve_titles : ℕ → List String → String → String → Sql Db ℕ
resolve_titles device [] by comment = exec (λ db. db) >> pure 0
resolve_titles device (t ∷ ts) by comment = in_tx (
    update_and_log (λ db. is_open_trap_of device (t ∷ ts)) resolve_row to_resolved
      (or_default by "system") (or_default comment "auto-resolved"))

unfoldable pub resolve_open_trap_incidents : Option ℕ → List String → String → String → Sql Db ℕ
resolve_open_trap_incidents none titles by comment = pure 0
resolve_open_trap_incidents (some device) [] by comment = pure 0
resolve_open_trap_incidents (some device) (t ∷ ts) by comment =
    resolve_titles device (title_conds (t ∷ ts)) by comment

-- `SELECT id FROM devices WHERE ip = $1`.
abbrev pub device_id_of : String → Db → Option ℕ
device_id_of ip db = elim (find (λ d. str_eq d.ip ip) db.devices) [
  | none ↦ none
  | some d ↦ some d.id
]

-- A recovery resolves the incidents of the device; anything else touches or opens one.
unfoldable pub report_trap : Os → Option ℕ → TrapClassification → ℕ → String → Sql Db (Unit {0})
report_trap os dev c window details =
    if c.recovery
    then (resolve_open_trap_incidents dev ("Link loss detected" ∷ []) "system"
          "auto-resolved by recovery trap"
        >>= λ n. pure tt)
    else in_tx (trap_tx os dev c.title c.severity window details)

unfoldable pub create_or_touch_open_trap_incident :
    Outside → String → String → List (String × String) → ℕ → Sql TrapDb (Unit {0})
create_or_touch_open_trap_incident out ip oid vars window = do
  row ← trap_oid_mapping_lookup out oid vars
  dev ← or_else none (on_tables (query (device_id_of ip)))
  on_tables (
      report_trap out.os dev (classified oid row) (window_seconds window)
        (out.details_json oid ip vars))
