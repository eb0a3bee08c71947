-- ===== src/Itsm/Webhook.antt =====
-- The handlers of internal/delivery/http/itsm_inbound.go. The digest is a parameter, `sha256`; the
-- request's headers and its decoded body are what net/http and encoding/json answer.
use nms.Prelude.{
  ℕ, Bool, false, not, ◌&&◌, ◌||◌, List, [], ◌∷◌, ◌++◌, String, Option, none, some, ◌==◌, str_eq,
  trim_space, to_lower, has_prefix, text_drop, contains, if◌then◌else◌,
}
use nms.Prelude.Result.{Error, Result, ok, err, invalid_transition, invalid_status}
use nms.Config.{Os, env_or_file}
use nms.Sql.{Conn, zoom}
use nms.Incident.Tables.{Db, Incident}
use nms.Incident.Itsm.{apply_itsm_inbound_update}
use nms.Itsm.Mapping.{ItsmMapping, ItsmDb, resolve_itsm_inbound_mapping}

pub record InboundInput : Type 0 where
  pub incident_id : ℕ
  pub provider : String
  pub status : String
  pub priority : String
  pub owner : String
  pub assignee : String
  pub comment : String
  pub changed_by : String

-- `body` is none where the JSON does not decode.
pub record InboundRequest : Type 0 where
  pub method : String
  pub authorization : String
  pub x_itsm_token : String
  pub body : Option InboundInput

pub record InboundResolved : Type 0 where
  pub input : InboundInput
  pub provider : String
  pub status : String
  pub assignee : String
  pub applied_mapping_id : ℕ

-- A status code with its message, or the code 200.
pub data Inbound : Type 0 where
  refused : ℕ → String → Inbound
  accepted : InboundResolved → Inbound

unfoldable pub normalize_inbound_incident_status : String → String
normalize_inbound_incident_status v =
    let s = to_lower (trim_space v) in
    if str_eq s "new" || str_eq s "open"
    then "new"
    else if str_eq s "acknowledged" || str_eq s "ack" || str_eq s "acknowledge"
    then "acknowledged"
    else if str_eq s "in_progress"
        || str_eq s "in-progress"
        || str_eq s "inprogress"
        || str_eq s "working"
    then "in_progress"
    else if str_eq s "resolved" || str_eq s "resolve"
    then "resolved"
    else if str_eq s "closed" || str_eq s "close"
    then "closed"
    else s

unfoldable pub inbound_itsm_token : Os → String
inbound_itsm_token os = trim_space (env_or_file os "NMS_ITSM_INBOUND_TOKEN")

unfoldable pub inbound_itsm_provider_default : Os → String
inbound_itsm_provider_default os =
    let inbound = trim_space (env_or_file os "NMS_ITSM_INBOUND_PROVIDER") in
    let outbound = trim_space (env_or_file os "NMS_ITSM_PROVIDER") in
    if not (str_eq inbound "")
    then inbound
    else if not (str_eq outbound "")
    then outbound
    else "generic"

unfoldable pub apply_itsm_inbound_mapping : String → String → Option ItsmMapping → String × String
apply_itsm_inbound_mapping status assignee none = (status, assignee)
apply_itsm_inbound_mapping status assignee (some m) = (
  if str_eq status "" then normalize_inbound_incident_status m.mapped_status else status,
  if str_eq (trim_space assignee) "" then trim_space m.mapped_assignee else assignee,
)

-- `text[n:]`, for ASCII.
-- `if HasPrefix(ToLower(v), "bearer ") { TrimSpace(v[7:]) }`.
unfoldable pub bearer_or : String → String → String
unfolding text_drop
bearer_or v other = if has_prefix (to_lower v) "bearer " then trim_space (text_drop 7 v) else other

unfoldable pub request_itsm_token : InboundRequest → String
request_itsm_token r = bearer_or (trim_space r.authorization) (trim_space r.x_itsm_token)

unfoldable pub constant_time_token_equal : (String → String) → String → String → Bool
constant_time_token_equal sha256 a b =
    if str_eq (trim_space a) "" || str_eq (trim_space b) ""
    then false
    else str_eq (sha256 (trim_space a)) (sha256 (trim_space b))

abbrev mapping_id : Option ItsmMapping → ℕ
mapping_id none = 0
mapping_id (some m) = m.id

abbrev given_provider : Os → String → String
given_provider os provider =
    if str_eq (trim_space provider) ""
    then inbound_itsm_provider_default os
    else trim_space provider

-- From the mapping's answer. The driver's message is "database" here.
unfoldable pub with_mapping :
    Os → InboundInput → Result (Option ItsmMapping) × Conn ItsmDb → Inbound × Conn ItsmDb
with_mapping os input (err e, c) = (refused 500 "database", c)
with_mapping os input (ok mapping, c) =
    let (status, assignee) =
      apply_itsm_inbound_mapping (normalize_inbound_incident_status input.status)
        (trim_space input.assignee) mapping in
    if str_eq status "" && str_eq assignee ""
    then (refused 400 "at least one of status or assignee is required (directly or via mapping)", c)
    else (
      accepted (record {
        input = input;
        provider = given_provider os input.provider;
        status = status;
        assignee = assignee;
        applied_mapping_id = mapping_id mapping;
      }),
      c,
    )

-- From the decoded body.
unfoldable pub resolve_body : Os → Option InboundInput → Conn ItsmDb → Inbound × Conn ItsmDb
resolve_body os none c = (refused 400 "invalid json body", c)
resolve_body os (some input) c =
    if input.incident_id == 0
    then (refused 400 "incident_id is required", c)
    else with_mapping os input (
        resolve_itsm_inbound_mapping (given_provider os input.provider) input.status input.priority
          input.owner c)

unfoldable pub decode_and_resolve_itsm_inbound :
    Os → (String → String) → InboundRequest → Conn ItsmDb → Inbound × Conn ItsmDb
decode_and_resolve_itsm_inbound os sha256 r c =
    let want = inbound_itsm_token os in
    if str_eq want ""
    then (refused 503 "itsm inbound is not configured", c)
    else if not (constant_time_token_equal sha256 (request_itsm_token r) want)
    then (refused 401 "unauthorized", c)
    else resolve_body os r.body c

-- What a handler answers: a code, and the notices that it sends to the ticket system.
pub record Answer : Type 0 where
  pub code : ℕ
  pub message : String
  pub notices : List String
  pub resolved : Option InboundResolved

abbrev pub plain : ℕ → String → Answer
plain code message = record { code = code; message = message; notices = []; resolved = none }

abbrev pub tables_of : ItsmDb → Db
tables_of s = s.tables

abbrev pub with_tables : Db → ItsmDb → ItsmDb
with_tables db s = record s { tables = db }

-- `strings.Contains(err.Error(), "invalid status transition")`: an invalid status is quoted in its
-- message. A message of the driver is taken not to contain it.
abbrev error_message : Error → String
error_message (invalid_transition from to) = "invalid incident status transition"
error_message (invalid_status v) =
    if contains v "invalid status transition"
    then "invalid incident status transition"
    else "invalid incident assignment change"
error_message _ = "invalid incident assignment change"

abbrev notice : Bool → String → List String
notice sent name = if sent then name ∷ [] else []

-- From the answer of ApplyITSMInboundUpdate.
unfoldable pub inbound_answer :
    InboundResolved → Result (Option Incident × Bool × Bool) × Conn ItsmDb → Answer × Conn ItsmDb
inbound_answer resolved (err e, c) = (plain 400 (error_message e), c)
inbound_answer resolved (ok (none, status_changed, assignee_changed), c) =
    (plain 404 "incident not found", c)
inbound_answer resolved (ok (some item, status_changed, assignee_changed), c) = (
  record {
    code = 200;
    message = "ok";
    notices =
        notice status_changed "incident.status_changed"
        ++ notice assignee_changed "incident.assignment_changed";
    resolved = some resolved;
  },
  c,
)

abbrev changed_by_or_inbound : String → String
changed_by_or_inbound by = if str_eq (trim_space by) "" then "itsm-inbound" else trim_space by

unfoldable pub apply_resolved : Inbound × Conn ItsmDb → Answer × Conn ItsmDb
apply_resolved (refused code message, c) = (plain code message, c)
apply_resolved (accepted x, c) = inbound_answer x (
    zoom tables_of with_tables
      (apply_itsm_inbound_update x.input.incident_id x.status x.assignee
        (changed_by_or_inbound x.input.changed_by) (trim_space x.input.comment))
      c)

unfoldable pub itsm_inbound_webhook :
    Os → (String → String) → InboundRequest → Conn ItsmDb → Answer × Conn ItsmDb
itsm_inbound_webhook os sha256 r c =
    if not (str_eq r.method "POST")
    then (plain 405 "method not allowed", c)
    else apply_resolved (decode_and_resolve_itsm_inbound os sha256 r c)

unfoldable pub dry_answer : Inbound × Conn ItsmDb → Answer × Conn ItsmDb
dry_answer (refused code message, c) = (plain code message, c)
dry_answer (accepted x, c) =
    (record { code = 200; message = "ok"; notices = []; resolved = some x }, c)

unfoldable pub itsm_inbound_dry_run :
    Os → (String → String) → InboundRequest → Conn ItsmDb → Answer × Conn ItsmDb
itsm_inbound_dry_run os sha256 r c =
    if not (str_eq r.method "POST")
    then (plain 405 "method not allowed", c)
    else dry_answer (decode_and_resolve_itsm_inbound os sha256 r c)
