-- ===== src/Incident/Path.antt =====
-- The paths between statuses that `incidentStatusPath` returns, against the moves that
-- `allowedIncidentTransitions` allows.
use nms.Prelude.{
  ℕ, ◌+◌, ◌≤◌, ◌<◌, ◌≡◌, refl, inl, inr, true, List, [], ◌∷◌, String, arith, length, str_eq, eq_iff,
  Bool-cases, to_lower, trim_space,
}
use nms.Prelude.Result.{ok}
use nms.Incident.Status.{
  Status, new, acknowledged, in_progress, resolved, closed, name, IsStatus, is_allowed,
  incident_status_path, normalize_incident_status,
}

abbrev pub rank : Status → ℕ
rank new = 0
rank acknowledged = 1
rank in_progress = 2
rank resolved = 3
rank closed = 4

-- The statuses lead from `from` to `to`, each move of them allowed.
abbrev pub IsPath : String → List String → String → Type 0
IsPath from [] to = from ≡ to
IsPath from (s ∷ ss) to = (is_allowed from s ≡ true) × IsPath s ss to

-- From a status to a later one, the path leads there by allowed moves only, one for each rank.
pub incident_status_path-IsPath :
    (a b : Status)
    → rank a < rank b
    → IsPath (name a) (incident_status_path (name a) (name b)) (name b)
      × (length (incident_status_path (name a) (name b)) + rank a ≡ rank b)
unfolding incident_status_path is_allowed trim_space to_lower
incident_status_path-IsPath new new h = absurd (omega arith)
incident_status_path-IsPath new acknowledged h = ((refl, refl), refl)
incident_status_path-IsPath new in_progress h = ((refl, (refl, refl)), refl)
incident_status_path-IsPath new resolved h = ((refl, (refl, (refl, refl))), refl)
incident_status_path-IsPath new closed h = ((refl, (refl, (refl, (refl, refl)))), refl)
incident_status_path-IsPath acknowledged new h = absurd (omega arith)
incident_status_path-IsPath acknowledged acknowledged h = absurd (omega arith)
incident_status_path-IsPath acknowledged in_progress h = ((refl, refl), refl)
incident_status_path-IsPath acknowledged resolved h = ((refl, (refl, refl)), refl)
incident_status_path-IsPath acknowledged closed h = ((refl, (refl, (refl, refl))), refl)
incident_status_path-IsPath in_progress new h = absurd (omega arith)
incident_status_path-IsPath in_progress acknowledged h = absurd (omega arith)
incident_status_path-IsPath in_progress in_progress h = absurd (omega arith)
incident_status_path-IsPath in_progress resolved h = ((refl, refl), refl)
incident_status_path-IsPath in_progress closed h = ((refl, (refl, refl)), refl)
incident_status_path-IsPath resolved new h = absurd (omega arith)
incident_status_path-IsPath resolved acknowledged h = absurd (omega arith)
incident_status_path-IsPath resolved in_progress h = absurd (omega arith)
incident_status_path-IsPath resolved resolved h = absurd (omega arith)
incident_status_path-IsPath resolved closed h = ((refl, refl), refl)
incident_status_path-IsPath closed new h = absurd (omega arith)
incident_status_path-IsPath closed acknowledged h = absurd (omega arith)
incident_status_path-IsPath closed in_progress h = absurd (omega arith)
incident_status_path-IsPath closed resolved h = absurd (omega arith)
incident_status_path-IsPath closed closed h = absurd (omega arith)

pub path_backward : (a b : Status) → rank b ≤ rank a → incident_status_path (name a) (name b) ≡ []
unfolding incident_status_path trim_space to_lower
path_backward new new h = refl
path_backward new acknowledged h = absurd (omega arith)
path_backward new in_progress h = absurd (omega arith)
path_backward new resolved h = absurd (omega arith)
path_backward new closed h = absurd (omega arith)
path_backward acknowledged new h = refl
path_backward acknowledged acknowledged h = refl
path_backward acknowledged in_progress h = absurd (omega arith)
path_backward acknowledged resolved h = absurd (omega arith)
path_backward acknowledged closed h = absurd (omega arith)
path_backward in_progress new h = refl
path_backward in_progress acknowledged h = refl
path_backward in_progress in_progress h = refl
path_backward in_progress resolved h = absurd (omega arith)
path_backward in_progress closed h = absurd (omega arith)
path_backward resolved new h = refl
path_backward resolved acknowledged h = refl
path_backward resolved in_progress h = refl
path_backward resolved resolved h = refl
path_backward resolved closed h = absurd (omega arith)
path_backward closed new h = refl
path_backward closed acknowledged h = refl
path_backward closed in_progress h = refl
path_backward closed resolved h = refl
path_backward closed closed h = refl

pub normalize_incident_status-IsStatus :
    (v s : String) → normalize_incident_status v ≡ ok s → IsStatus s
unfolding normalize_incident_status
normalize_incident_status-IsStatus v s h =
    let t = to_lower (trim_space v) in
    elim (Bool-cases (str_eq t "new")) [
      | inl e ↦ (new, ground arith)
      | inr n₁ ↦ elim (Bool-cases (str_eq t "acknowledged")) [
        | inl e ↦ (acknowledged, ground arith)
        | inr n₂ ↦ elim (Bool-cases (str_eq t "in_progress")) [
          | inl e ↦ (in_progress, ground arith)
          | inr n₃ ↦ elim (Bool-cases (str_eq t "resolved")) [
            | inl e ↦ (resolved, ground arith)
            | inr n₄ ↦ (closed, ground arith)
          ]
        ]
      ]
    ]

-- Statuses are their own canonical spelling.
pub canonical : (a : Status) → to_lower (trim_space (name a)) ≡ name a
unfolding to_lower trim_space
canonical new = refl
canonical acknowledged = refl
canonical in_progress = refl
canonical resolved = refl
canonical closed = refl

-- What may follow a status is a status, and a later one.
pub allowed_up :
    (a : Status) (s : String)
    → is_allowed (name a) s ≡ true
    → (b : Status) × (s ≡ name b) × (rank a < rank b)
unfolding is_allowed
allowed_up new s h = (acknowledged, ground (arith, eq_iff "acknowledged" s), omega arith)
allowed_up acknowledged s h = elim (Bool-cases (str_eq "in_progress" s)) [
  | inl e ↦ (in_progress, ground (arith, eq_iff "in_progress" s), omega arith)
  | inr n ↦ (resolved, ground (arith, eq_iff "resolved" s), omega arith)
]
allowed_up in_progress s h = (resolved, ground (arith, eq_iff "resolved" s), omega arith)
allowed_up resolved s h = (closed, ground (arith, eq_iff "closed" s), omega arith)
allowed_up closed s h = cc
