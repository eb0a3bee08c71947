-- ===== src/Alert/Webhook.antt =====
-- The limit per minute, the suppression of repeated alerts, and the handler of
-- internal/delivery/http/alert_webhook.go. strconv.Atoi, time.ParseDuration, SHA-256 with JSON, and
-- the sending of a mail are parameters, `Services`.
use nms.Prelude.{
  ℕ, ◌+◌, ◌-◌, ◌*◌, ◌/◌, Bool, true, false, not, ◌||◌, List, [], ◌∷◌, String, Option, none, some,
  ◌==◌, str_eq, trim_space, to_lower, ltb, leb, if◌then◌else◌,
}
use nms.Prelude.Assoc.{GoMap, lookup, insert, sweep}
use nms.Config.{Os, env_or_file, positive_or}
use nms.Incident.Tables.{second}
use nms.Itsm.Webhook.{bearer_or, constant_time_token_equal}

-- An alert: its fields as JSON, of which the code reads the status.
pub record Alert : Type 0 where
  pub status : String
  pub json : String

pub record Services : Type 0 where
  pub os : Os
  -- A number that is not positive reads as 0 or none, and so does a duration.
  pub atoi : String → Option ℕ
  pub parse_duration : String → Option ℕ
  pub sha256 : String → String
  -- `none` when no mail is configured; `true` when the mail was sent.
  pub mail : Option (Alert → Bool)

abbrev pub minute : ℕ
minute = 60 * second

-- The zero time is 0.
pub record WebhookRateState : Type 0 where
  pub window_start : ℕ
  pub count : ℕ

unfoldable pub alert_webhook_rate_limit_per_minute : Services → ℕ
alert_webhook_rate_limit_per_minute sv =
    let v = trim_space (env_or_file sv.os "NMS_ALERT_WEBHOOK_RATE_LIMIT_PER_MIN") in
    if str_eq v "" then 60 else positive_or 60 (sv.atoi v)

abbrev pub rate_key : String → String
rate_key ip = let key = trim_space ip in if str_eq key "" then "unknown" else key

-- `m[key]`, and a new window when there is none or a minute is over.
abbrev pub window_at : ℕ → Option WebhookRateState → WebhookRateState
window_at now none = record { window_start = now; count = 0 }
window_at now (some st) =
    if st.window_start == 0 || leb minute (now - st.window_start)
    then record { window_start = now; count = 0 }
    else st

unfoldable pub admit : ℕ → String → ℕ → GoMap WebhookRateState → (Bool × ℕ) × GoMap WebhookRateState
admit limit key now m =
    let st = window_at now (lookup key m) in
    if leb limit st.count
    then ((false, st.window_start + minute - now), m)
    else ((true, 0), insert key (record st { count = st.count + 1 }) m)

unfoldable pub allow_alert_webhook_request :
    Services → String → ℕ → GoMap WebhookRateState → (Bool × ℕ) × GoMap WebhookRateState
allow_alert_webhook_request sv ip now m =
    let limit = alert_webhook_rate_limit_per_minute sv in
    if limit == 0 then ((true, 0), m) else admit limit (rate_key ip) now m

unfoldable pub alert_webhook_idempotency_ttl : Services → ℕ
alert_webhook_idempotency_ttl sv =
    let v = trim_space (env_or_file sv.os "NMS_ALERT_WEBHOOK_IDEMPOTENCY_TTL") in
    if str_eq v "" then 2 * minute else positive_or (2 * minute) (sv.parse_duration v)

unfoldable pub alert_fingerprint : Services → Alert → String
alert_fingerprint sv a = sv.sha256 a.json

abbrev pub is_repeated : ℕ → Option ℕ → Bool
is_repeated now none = false
is_repeated now (some exp) = ltb now exp

unfoldable pub process_once : ℕ → String → ℕ → GoMap ℕ → Bool × GoMap ℕ
process_once ttl fp now m =
    let live = sweep (λ exp. ltb exp now) m in
    if is_repeated now (lookup fp live) then (false, live) else (true, insert fp (now + ttl) live)

unfoldable pub should_process_alert_fingerprint : Services → String → ℕ → GoMap ℕ → Bool × GoMap ℕ
should_process_alert_fingerprint sv fp now m =
    let ttl = alert_webhook_idempotency_ttl sv in
    if ttl == 0 || str_eq fp "" then (true, m) else process_once ttl fp now m

-- `stored` is what GetSecretSetting answers, none with an error.
unfoldable pub alert_webhook_token : Os → Option String → String
alert_webhook_token os none = trim_space (env_or_file os "NMS_ALERT_WEBHOOK_TOKEN")
alert_webhook_token os (some stored) =
    if str_eq (trim_space stored) ""
    then trim_space (env_or_file os "NMS_ALERT_WEBHOOK_TOKEN")
    else trim_space stored

unfoldable pub alert_webhook_authorized : Services → Option String → String → Bool
alert_webhook_authorized sv stored authorization =
    let want = alert_webhook_token sv.os stored in
    let got = trim_space authorization in
    if str_eq want "" then false else constant_time_token_equal sv.sha256 (bearer_or got got) want

pub record Counts : Type 0 where
  pub sent : ℕ
  pub skipped : ℕ
  pub suppressed : ℕ

abbrev mailed : Option (Alert → Bool) → Alert → Counts → Counts
mailed none a n = record n { skipped = n.skipped + 1 }
mailed (some send) a n = if send a then record n { sent = n.sent + 1 } else n

abbrev if_new : Services → Alert → Counts → Bool → Counts
if_new sv a n true = mailed sv.mail a n
if_new sv a n false = record n { suppressed = n.suppressed + 1 }

-- One round of the loop: an alert that is not firing is passed over.
unfoldable pub process_alert : Services → Alert → ℕ → Counts → GoMap ℕ → Counts × GoMap ℕ
process_alert sv a now n m =
    if str_eq (to_lower (trim_space a.status)) "firing"
    then (let (fresh, m') = should_process_alert_fingerprint sv (alert_fingerprint sv a) now m in
        (if_new sv a n fresh, m'))
    else (n, m)

-- The loop, each alert with the time at which its turn comes.
unfoldable pub process_alerts : Services → List (Alert × ℕ) → Counts → GoMap ℕ → Counts × GoMap ℕ
process_alerts sv [] n m = (n, m)
process_alerts sv ((a, now) ∷ alerts) n m =
    let (n', m') = process_alert sv a now n m in process_alerts sv alerts n' m'

pub record AlertRequest : Type 0 where
  pub method : String
  pub authorization : String
  pub client_ip : String
  pub at : ℕ
  -- none where the JSON does not decode.
  pub alerts : Option (List (Alert × ℕ))

-- The variables of the process.
pub record AlertState : Type 0 where
  pub rates : GoMap WebhookRateState
  pub seen : GoMap ℕ

pub data AlertAnswer : Type 0 where
  status_code : ℕ → AlertAnswer
  too_many : ℕ → AlertAnswer
  processed : ℕ → Counts → AlertAnswer

abbrev no_counts : Counts
no_counts = record { sent = 0; skipped = 0; suppressed = 0 }

abbrev count_alerts : List (Alert × ℕ) → ℕ
count_alerts [] = 0
count_alerts (a ∷ alerts) = 1 + count_alerts alerts

unfoldable pub process_body :
    Services → Option (List (Alert × ℕ)) → AlertState → AlertAnswer × AlertState
process_body sv none s = (status_code 400, s)
process_body sv (some []) s = (status_code 204, s)
process_body sv (some (a ∷ alerts)) s =
    let (n, seen) = process_alerts sv (a ∷ alerts) no_counts s.seen in
    (processed (count_alerts (a ∷ alerts)) n, record s { seen = seen })

unfoldable pub alert_webhook :
    Services → Option String → AlertRequest → AlertState → AlertAnswer × AlertState
alert_webhook sv stored r s =
    if not (str_eq r.method "POST")
    then (status_code 405, s)
    else if not (alert_webhook_authorized sv stored r.authorization)
    then (status_code 401, s)
    else let ((allowed, wait), rates) = allow_alert_webhook_request sv r.client_ip r.at s.rates in
      if allowed
      then process_body sv r.alerts (record s { rates = rates })
      else (too_many (wait / second + 1), s)
