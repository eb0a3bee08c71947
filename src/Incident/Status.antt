-- ===== src/Incident/Status.antt =====
-- Statuses, severities and sources of incidents, and the moves between statuses:
-- internal/infrastructure/postgres/incidents.go and the top of incident_write_repo.go.
use nms.Prelude.{
  ℕ, ◌+◌, ◌-◌, ◌≡◌, refl, Bool, ◌||◌, List, [], ◌∷◌, String, Option, none, some, str_eq, trim_space,
  to_lower, equal_fold, leb, any, take, drop, if◌then◌else◌,
}
use nms.Config.{Os, env_or_file}
use nms.Prelude.Result.{Result, ok, err, invalid_severity, invalid_source, invalid_status}

-- The texts of the lifecycle, which the CHECK constraint of the table allows.
pub data Status : Type 0 where
  new acknowledged in_progress resolved closed : Status

abbrev pub name : Status → String
name new = "new"
name acknowledged = "acknowledged"
name in_progress = "in_progress"
name resolved = "resolved"
name closed = "closed"

abbrev pub IsStatus : String → Type 0
IsStatus s = (st : Status) × (s ≡ name st)

unfoldable pub incident_status_order : List String
incident_status_order = "new" ∷ "acknowledged" ∷ "in_progress" ∷ "resolved" ∷ "closed" ∷ []

unfoldable pub allowed_incident_transitions : List (String × List String)
allowed_incident_transitions =
    ("new", "acknowledged" ∷ [])
    ∷ ("acknowledged", "in_progress" ∷ "resolved" ∷ [])
    ∷ ("in_progress", "resolved" ∷ [])
    ∷ ("resolved", "closed" ∷ [])
    ∷ []

-- `_, ok := allowedIncidentTransitions[prev][step]`; a missing key gives the nil map.
targets : String → List (String × List String) → List String
targets prev [] = []
targets prev ((k, v) ∷ m) = if str_eq k prev then v else targets prev m

unfoldable pub is_allowed : String → String → Bool
unfolding targets allowed_incident_transitions
is_allowed prev step = any (λ s. str_eq s step) (targets prev allowed_incident_transitions)

unfoldable pub normalize_incident_severity : String → Result String
normalize_incident_severity v =
    let s = to_lower (trim_space v) in
    if str_eq s "critical"
    then ok "critical"
    else if str_eq s "info"
    then ok "info"
    else if str_eq s "" || str_eq s "warning"
    then ok "warning"
    else err (invalid_severity v)

unfoldable pub normalize_incident_source : String → Result String
normalize_incident_source v =
    let s = to_lower (trim_space v) in
    if str_eq s "polling"
    then ok "polling"
    else if str_eq s "trap"
    then ok "trap"
    else if str_eq s "" || str_eq s "manual"
    then ok "manual"
    else err (invalid_source v)

unfoldable pub normalize_incident_status : String → Result String
normalize_incident_status v =
    let s = to_lower (trim_space v) in
    if str_eq s "new"
    then ok "new"
    else if str_eq s "acknowledged"
    then ok "acknowledged"
    else if str_eq s "in_progress"
    then ok "in_progress"
    else if str_eq s "resolved"
    then ok "resolved"
    else if str_eq s "closed"
    then ok "closed"
    else err (invalid_status v)

-- The loop of `incidentStatusPath`: the last index at which the status stands (`none` for -1).
index_from : ℕ → Option ℕ → String → List String → Option ℕ
index_from i found s [] = found
index_from i found s (x ∷ xs) = index_from (i + 1) (if str_eq x s then some i else found) s xs

slice_between : Option ℕ → Option ℕ → List String
unfolding incident_status_order
slice_between none to = []
slice_between (some i) none = []
slice_between (some i) (some j) =
    if leb j i then [] else take (j + 1 - (i + 1)) (drop (i + 1) incident_status_order)

unfoldable pub incident_status_path : String → String → List String
unfolding index_from slice_between
incident_status_path from_raw to_raw =
    let from = to_lower (trim_space from_raw) in
    let to = to_lower (trim_space to_raw) in
    if str_eq from "" || str_eq to "" || str_eq from to
    then []
    else slice_between (index_from 0 none from incident_status_order)
        (index_from 0 none to incident_status_order)

abbrev non_empty : String → Option String → Option String
non_empty v otherwise = if str_eq v "" then otherwise else some v

abbrev env_assignee : Os → String → Option String → Option String
env_assignee os key = non_empty (trim_space (env_or_file os key))

unfoldable pub default_incident_assignee : Os → String → String → Option String
default_incident_assignee os source severity =
    let global = env_assignee os "NMS_INCIDENT_ASSIGNEE_DEFAULT" none in
    let s = to_lower (trim_space source) in
    let by_source =
      if str_eq s "trap"
      then env_assignee os "NMS_INCIDENT_ASSIGNEE_TRAP" global
      else if str_eq s "polling"
      then env_assignee os "NMS_INCIDENT_ASSIGNEE_POLLING" global
      else if str_eq s "manual"
      then env_assignee os "NMS_INCIDENT_ASSIGNEE_MANUAL" global
      else global in
    if equal_fold (trim_space severity) "critical"
    then env_assignee os "NMS_INCIDENT_ASSIGNEE_CRITICAL" by_source
    else by_source

path_test :
    incident_status_path " New" "RESOLVED\n" ≡ "acknowledged" ∷ "in_progress" ∷ "resolved" ∷ []
unfolding incident_status_path trim_space to_lower
path_test = refl
