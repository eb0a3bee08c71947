-- ===== src/Alert/Rate.antt =====
-- How many requests of one address pass in a minute.
use nms.Prelude.{
  ℕ, ◌+◌, ◌-◌, ◌*◌, ◌≤◌, ◌<◌, ◌≡◌, refl, Bool, true, false, List, [], ◌∷◌, String, Option, none,
  some, ◌==◌, arith, str_eq, eq_iff, leb, Bool-cases, inl, inr, if◌then◌else◌, All, trim_space,
}
use nms.Prelude.Assoc.{GoMap, lookup, lookup-insert}
use nms.Config.{env_or_file, positive_or}
use nms.Alert.Webhook.{
  Services, minute, WebhookRateState, alert_webhook_rate_limit_per_minute, rate_key, window_at,
  admit, allow_alert_webhook_request,
}

-- The requests that pass, of those with a key.
abbrev tally : String → String → Bool → ℕ
tally key own true = if str_eq key own then 1 else 0
tally key own false = 0

unfoldable pub passed : Services → String → List (String × ℕ) → GoMap WebhookRateState → ℕ
passed sv key [] m = 0
passed sv key ((ip, now) ∷ rest) m =
    let r = allow_alert_webhook_request sv ip now m in
    tally key (rate_key ip) r.0.0 + passed sv key rest r.1

-- What a key may still pass before `start + minute`.
abbrev budget : ℕ → ℕ → Option WebhookRateState → ℕ
budget limit start none = limit
budget limit start (some st) =
    if leb start st.window_start then limit - st.count else limit - st.count + limit

positive : (o : Option ℕ) → (positive_or 60 o == 0) ≡ false
positive none = refl
positive (some v) = ground arith

limit_positive : (sv : Services) → (alert_webhook_rate_limit_per_minute sv == 0) ≡ false
unfolding alert_webhook_rate_limit_per_minute
limit_positive sv =
    elim (Bool-cases
      (str_eq (trim_space (env_or_file sv.os "NMS_ALERT_WEBHOOK_RATE_LIMIT_PER_MIN")) "")) [
        | inl unset ↦ rw unset refl
        | inr set ↦ rw set (
            positive
              (sv.atoi (trim_space (env_or_file sv.os "NMS_ALERT_WEBHOOK_RATE_LIMIT_PER_MIN"))))
      ]

-- One request of the key spends from the budget.
spend :
    (limit start now : ℕ) (o : Option WebhookRateState)
    → 0 < start
    → start ≤ now
    → now < start + minute
    → leb limit (window_at now o).count ≡ false
    → 1
        + budget limit start
            (some (record (window_at now o) { count = (window_at now o).count + 1 }))
      ≤ budget limit start o
spend limit start now none p a b h = ground arith
spend limit start now (some st) p a b h = ground arith

admitted :
    (limit start : ℕ) (key own : String) (now : ℕ) (m : GoMap WebhookRateState)
    → 0 < start
    → start ≤ now
    → now < start + minute
    → tally key own (admit limit own now m).0.0
        + budget limit start (lookup key (admit limit own now m).1)
      ≤ budget limit start (lookup key m)
unfolding admit
admitted limit start key own now m p a b =
    elim (Bool-cases (leb limit (window_at now (lookup own m)).count)) [
      | inl over ↦ rw over (omega arith)
      | inr free ↦
          let st = window_at now (lookup own m) in
          rw (free, lookup-insert own key (record st { count = st.count + 1 }) m)
            (elim (Bool-cases (str_eq own key)) [
              | inl same ↦
                  let e : own ≡ key = (eq_iff own key).0 same in
                  rw (← e, (eq_iff own own).1 refl)
                    (spend limit start now (lookup own m) p a b free)
              | inr other ↦
                  let apart : str_eq key own ≡ false =
                    ground (arith, eq_iff own key, eq_iff key own) in
                  rw (apart, other) (omega arith)
            ])
    ]

budget_bound : (limit start : ℕ) (o : Option WebhookRateState) → budget limit start o ≤ 2 * limit
budget_bound limit start none = omega arith
budget_bound limit start (some st) = ground arith

passed_in_budget :
    (sv : Services) (key : String) (requests : List (String × ℕ)) (m : GoMap WebhookRateState)
    (start : ℕ)
    → 0 < start
    → All (λ r. (start ≤ r.1) × (r.1 < start + minute)) requests
    → passed sv key requests m
      ≤ budget (alert_webhook_rate_limit_per_minute sv) start (lookup key m)
unfolding passed allow_alert_webhook_request
passed_in_budget sv key [] m start p h = omega arith
passed_in_budget sv key ((ip, now) ∷ rest) m start p h =
    let limit = alert_webhook_rate_limit_per_minute sv in
    let one = admitted limit start key (rate_key ip) now m p h.0.0 h.0.1 in
    rw (limit_positive sv) (
      let later = passed_in_budget sv key rest (admit limit (rate_key ip) now m).1 start p h.1 in
      omega arith)

-- From any state of the limiter, of any requests that come within one minute in any order, and from
-- any addresses, at most twice the limit pass for one address: those that the window of the
-- minute before has left, and those of a new window. The first time is not the zero time.
pub passed_in_a_minute :
    (sv : Services) (key : String) (requests : List (String × ℕ)) (m : GoMap WebhookRateState)
    (start : ℕ)
    → 0 < start
    → All (λ r. (start ≤ r.1) × (r.1 < start + minute)) requests
    → passed sv key requests m ≤ 2 * alert_webhook_rate_limit_per_minute sv
passed_in_a_minute sv key requests m start p h =
    let spent = passed_in_budget sv key requests m start p h in
    let most = budget_bound (alert_webhook_rate_limit_per_minute sv) start (lookup key m) in
    omega arith
