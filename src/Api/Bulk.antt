-- ===== src/Api/Bulk.antt =====
-- BulkTransitionIncidents of internal/delivery/http/incidents.go.
use nms.Prelude.{
  ℕ, suc, zero, ◌+◌, List, [], ◌∷◌, String, Option, none, some, ◌==◌, ℤ, pos, negsuc, length, any,
  if◌then◌else◌,
}
use nms.Prelude.Result.{Error, Result, ok, err}
use nms.Incident.Tables.{Incident}
use nms.Incident.Write.{transition_incident_status}
use nms.Api.Incidents.{
  Reply, refused, replied, Api, call, event_of, notify_itsm_incident_async, changed_by_user,
}

-- `bulkResult`: what became of an id.
pub data BulkResult : Type 0 where
  not_positive : ℤ → BulkResult
  not_moved : ℕ → Error → BulkResult
  not_found : ℕ → BulkResult
  is_moved : ℕ → Incident → BulkResult

-- The variables of the loop; the lists have their newest element first.
pub record Bulk : Type 0 where
  pub results : List BulkResult
  pub updated_items : List Incident
  pub seen : List ℕ
  pub failed_count : ℕ

abbrev pub no_bulk : Bulk
no_bulk = record { results = []; updated_items = []; seen = []; failed_count = 0 }

abbrev pub add_failed : BulkResult → Bulk → Bulk
add_failed r b = record b { results = r ∷ b.results; failed_count = b.failed_count + 1 }

unfoldable pub add_answer : ℕ → String → String → Bulk → Result (Option Incident) × Api → Bulk × Api
add_answer id by comment b (err e, a) = (add_failed (not_moved id e) b, a)
add_answer id by comment b (ok none, a) = (add_failed (not_found id) b, a)
add_answer id by comment b (ok (some item), a) = (
  record b { results = is_moved id item ∷ b.results; updated_items = item ∷ b.updated_items },
  notify_itsm_incident_async (event_of "incident.status_changed" by comment item) a,
)

unfoldable pub bulk_positive : ℕ → String → String → String → Bulk × Api → Bulk × Api
bulk_positive id status by comment (b, a) =
    if any (λ x. x == id) b.seen
    then (b, a)
    else add_answer id by comment (record b { seen = id ∷ b.seen })
        (call (transition_incident_status id status by comment) a)

unfoldable pub bulk_one : ℤ → String → String → String → Bulk × Api → Bulk × Api
bulk_one (pos zero) status by comment (b, a) = (add_failed (not_positive (pos zero)) b, a)
bulk_one (pos (suc n)) status by comment s = bulk_positive (suc n) status by comment s
bulk_one (negsuc n) status by comment (b, a) = (add_failed (not_positive (negsuc n)) b, a)

unfoldable pub bulk_rounds : List ℤ → String → String → String → Bulk × Api → Bulk × Api
bulk_rounds [] status by comment s = s
bulk_rounds (id ∷ ids) status by comment s =
    bulk_rounds ids status by comment (bulk_one id status by comment s)

pub record BulkBody : Type 0 where
  pub incident_ids : List ℤ
  pub status : String
  pub comment : String

unfoldable pub bulk_reply : Bulk × Api → Reply Bulk × Api
bulk_reply (b, a) = (replied b, a)

unfoldable pub bulk_transition_incidents : Option BulkBody → Option String → Api → Reply Bulk × Api
unfolding bulk_reply
bulk_transition_incidents none user a = (refused 400 "invalid json body", a)
bulk_transition_incidents (some body) user a =
    if length body.incident_ids == 0
    then (refused 400 "incident_ids is required", a)
    else bulk_reply
        (bulk_rounds body.incident_ids body.status (changed_by_user user) body.comment (no_bulk, a))
