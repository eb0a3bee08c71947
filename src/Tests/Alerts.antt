-- ===== src/Tests/Alerts.antt =====
-- Alertmanager's requests.
use nms.Prelude.{
  ℕ, ◌*◌, ◌≤◌, ◌≡◌, refl, true, List, [], ◌∷◌, String, none, some, arith, str_eq, trim_space,
  if◌then◌else◌,
}
use nms.Prelude.Assoc.{sweep, lookup, insert}
use nms.Config.{env_or_file}
use nms.Alert.Webhook.{
  Services, alert_webhook_rate_limit_per_minute, alert_webhook_idempotency_ttl,
  should_process_alert_fingerprint, process_once,
}
use nms.Alert.Rate.{passed, passed_in_a_minute}
use nms.Alert.Once.{handled, repeated_is_suppressed}

-- At most two requests a minute, and a secret.
abbrev services : Services
services = record {
  os = record {
    getenv = λ name.
        if str_eq name "NMS_ALERT_WEBHOOK_RATE_LIMIT_PER_MIN"
        then "2"
        else if str_eq name "NMS_ALERT_WEBHOOK_TOKEN"
        then "alarm"
        else "";
    read_file = λ name. none;
  };
  atoi = λ text. if str_eq text "2" then some 2 else none;
  parse_duration = λ text. none;
  sha256 = λ text. text;
  mail = some (λ a. true);
}

abbrev burst : List (String × ℕ)
burst = ("10.0.0.9", 5000) ∷ ("10.0.0.9", 6000) ∷ ("10.0.0.8", 6500) ∷ ("10.0.0.9", 7000) ∷ []

passed_in_a_minute_example :
    passed services "10.0.0.9" burst [] ≤ 2 * alert_webhook_rate_limit_per_minute services
passed_in_a_minute_example = passed_in_a_minute services "10.0.0.9" burst [] 5000 (omega arith) (
  (omega arith, omega arith),
  ((omega arith, omega arith), ((omega arith, omega arith), ((omega arith, omega arith), tt))),
)

is_first : (should_process_alert_fingerprint services "ab" 1000 []).0 ≡ true
unfolding should_process_alert_fingerprint process_once alert_webhook_idempotency_ttl env_or_file
    trim_space sweep lookup insert
is_first = refl

ttl_default : alert_webhook_idempotency_ttl services ≡ 120000000000
unfolding alert_webhook_idempotency_ttl env_or_file trim_space
ttl_default = refl

repeated_is_suppressed_example :
    handled services "ab"
      (("cd", 2000) ∷ ("ab", 3000) ∷ [])
      (should_process_alert_fingerprint services "ab" 1000 []).1
    ≡ 0
repeated_is_suppressed_example =
    let ttl = ttl_default in
    repeated_is_suppressed services "ab" 1000 [] (("cd", 2000) ∷ ("ab", 3000) ∷ []) refl is_first
      (omega arith, (omega arith, tt))
