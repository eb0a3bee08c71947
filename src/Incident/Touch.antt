-- ===== src/Incident/Touch.antt =====
-- Reusing an open incident inside the suppression window, or creating one:
-- CreateOrTouchOpenIncident of incident_write_repo.go and createOrTouchOpenIncidentTx of
-- poll_transitions.go.
use nms.Prelude.{
  ℕ, ◌+◌, ◌*◌, ◌/◌, Bool, true, false, ◌&&◌, ◌||◌, List, [], ◌∷◌, String, Option, none, some, ◌==◌,
  str_eq, trim_space, ltb, leb, update_where, if◌then◌else◌,
}
use nms.Prelude.Result.{title_required, invariant_violated}
use nms.Config.{Os}
use nms.Sql.{Sql, pure, raise, lift, ◌>>=◌, ◌>>◌, statement, exec, in_tx}
use nms.Incident.Status.{
  normalize_incident_severity, normalize_incident_source, default_incident_assignee,
}
use nms.Incident.Tables.{
  IncidentRow, Incident, Db, second, positive_id, get_incident_by_id, insert_incident,
}
use nms.Incident.Write.{null_if_blank}

-- `status IN ('new', 'acknowledged', 'in_progress')`.
unfoldable pub is_open : String → Bool
is_open status = str_eq status "new" || str_eq status "acknowledged" || str_eq status "in_progress"

-- `a IS NOT DISTINCT FROM b`.
unfoldable pub same_device : Option ℕ → Option ℕ → Bool
same_device none none = true
same_device none (some b) = false
same_device (some a) none = false
same_device (some a) (some b) = a == b

pub record TouchKey : Type 0 where
  pub device_id : Option ℕ
  pub title : String
  pub severity : String
  pub source : String
  pub window_sec : ℕ

-- The WHERE clause of the inner SELECT. `updated_at >= now - window` is written with a sum.
unfoldable pub is_match : TouchKey → ℕ → IncidentRow → Bool
is_match k now r =
    str_eq r.source k.source
    && is_open r.status
    && str_eq r.title k.title
    && str_eq r.severity k.severity
    && same_device r.device_id k.device_id
    && leb now (r.updated_at + k.window_sec * second)

abbrev pub newer : IncidentRow → Option IncidentRow → IncidentRow
newer r none = r
newer r (some s) = if ltb r.updated_at s.updated_at then s else r

-- `ORDER BY updated_at DESC LIMIT 1`.
unfoldable pub latest : (IncidentRow → Bool) → List IncidentRow → Option IncidentRow
latest p [] = none
latest p (r ∷ rs) = let rest = latest p rs in if p r then some (newer r rest) else rest

unfoldable pub touch_found : String → Db → Option IncidentRow → Option ℕ × Db
touch_found details db none = (none, db)
touch_found details db (some found) = (
  some found.id,
  record db {
    incidents =
        update_where (λ r. r.id == found.id)
          (λ r. record r { updated_at = db.now; details = details }) db.incidents;
  },
)

-- `UPDATE incidents … RETURNING i.id`; `none` is `sql.ErrNoRows`.
unfoldable pub touch_open : TouchKey → String → Sql Db (Option ℕ)
touch_open k details =
    statement (λ db. touch_found details db (latest (is_match k db.now) db.incidents))

-- `SELECT pg_advisory_xact_lock(key)`: while it is held no other transaction with the key runs.
unfoldable pub advisory_lock : Sql Db (Unit {0})
advisory_lock = exec (λ db. db)

pub record Touched : Type 0 where
  pub id : ℕ
  pub created : Bool

unfoldable pub touch_or_insert : Os → TouchKey → String → Option ℕ → Sql Db Touched
touch_or_insert os k details (some id) = pure (record { id = id; created = false })
touch_or_insert os k details none = do
  row ←
      insert_incident k.device_id (null_if_blank (default_incident_assignee os k.source k.severity))
        k.title k.severity k.source details
  pure (record { id = row.id; created = true })

-- From the lock to the insertion, inside a transaction.
unfoldable pub touch_body : Os → TouchKey → String → Sql Db Touched
touch_body os k details = do
  advisory_lock
  touched ← touch_open k details
  touch_or_insert os k details touched

-- A window that is not positive is ten minutes, and one shorter than a second is a second.
unfoldable pub window_seconds : ℕ → ℕ
window_seconds w = let n = (if w == 0 then 600 * second else w) / second in if ltb n 1 then 1 else n

-- The checks of the arguments. `details` is raw JSON text.
unfoldable pub touch_key : Option ℕ → String → String → String → ℕ → Sql Db TouchKey
touch_key device_id title severity source window =
    if str_eq (trim_space title) "" then raise title_required else do
      sv ← lift (normalize_incident_severity severity)
      src ← lift (normalize_incident_source source)
      pure (record {
        device_id = positive_id device_id;
        title = trim_space title;
        severity = sv;
        source = src;
        window_sec = window_seconds window;
      })

abbrev pub or_empty_object : String → String
or_empty_object details = if str_eq details "" then "{}" else details

unfoldable pub create_or_touch_open_incident :
    Os → Option ℕ → String → String → String → String → ℕ → Sql Db (Option Incident × Bool)
create_or_touch_open_incident os device_id title severity source details window = do
  k ← touch_key device_id title severity source window
  touched ← in_tx (touch_body os k (or_empty_object details))
  if touched.id == 0
      then raise invariant_violated
      else do item ← get_incident_by_id touched.id; pure (item, touched.created)
