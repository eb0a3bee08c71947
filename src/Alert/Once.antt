-- ===== src/Alert/Once.antt =====
-- An alert is handled once while its fingerprint lives.
use nms.Prelude.{
  ℕ, ◌+◌, ◌*◌, ◌<◌, ◌≡◌, refl, Bool, true, false, List, [], ◌∷◌, String, Option, none, some, ◌==◌,
  arith, str_eq, eq_iff, ltb, Bool-cases, inl, inr, if◌then◌else◌, All, trim_space,
}
use nms.Prelude.Assoc.{GoMap, lookup, sweep, lookup-insert, lookup-sweep_stays}
use nms.Config.{env_or_file, positive_or}
use nms.Alert.Webhook.{
  Services, minute, alert_webhook_idempotency_ttl, is_repeated, process_once,
  should_process_alert_fingerprint,
}

abbrev counted : String → String → Bool → ℕ
counted fp own true = if str_eq fp own then 1 else 0
counted fp own false = 0

-- How many of the calls with a fingerprint are told to go on.
unfoldable pub handled : Services → String → List (String × ℕ) → GoMap ℕ → ℕ
handled sv fp [] m = 0
handled sv fp ((own, now) ∷ rest) m =
    let r = should_process_alert_fingerprint sv own now m in
    counted fp own r.0 + handled sv fp rest r.1

positive : (o : Option ℕ) → (positive_or (2 * minute) o == 0) ≡ false
positive none = refl
positive (some v) = ground arith

ttl_positive : (sv : Services) → (alert_webhook_idempotency_ttl sv == 0) ≡ false
unfolding alert_webhook_idempotency_ttl
ttl_positive sv =
    elim (Bool-cases
      (str_eq (trim_space (env_or_file sv.os "NMS_ALERT_WEBHOOK_IDEMPOTENCY_TTL")) "")) [
        | inl unset ↦ rw unset refl
        | inr set ↦ rw set (
            positive (
              sv.parse_duration
                (trim_space (env_or_file sv.os "NMS_ALERT_WEBHOOK_IDEMPOTENCY_TTL"))))
      ]

-- One call leaves a fingerprint that lives, and does not handle it again.
stays :
    (ttl : ℕ) (fp own : String) (now e : ℕ) (m : GoMap ℕ)
    → lookup fp m ≡ some e
    → now < e
    → (counted fp own (process_once ttl own now m).0 ≡ 0)
      × (lookup fp (process_once ttl own now m).1 ≡ some e)
unfolding process_once
stays ttl fp own now e m h lt =
    let kept = lookup-sweep_stays (λ exp. ltb exp now) fp m e h (ground arith) in
    elim (Bool-cases (str_eq fp own)) [
      | inl same ↦
          let eq : fp ≡ own = (eq_iff fp own).0 same in
          let alive : ltb now e ≡ true = ground arith in rw (← eq, kept, alive) (refl, kept)
      | inr other ↦
          elim (Bool-cases (is_repeated now (lookup own (sweep (λ exp. ltb exp now) m)))) [
            | inl repeated ↦ rw repeated (refl, kept)
            | inr fresh ↦
                let apart : str_eq own fp ≡ false = ground (arith, eq_iff own fp, eq_iff fp own) in
                rw
                  (
                    fresh,
                    other,
                    lookup-insert own fp (now + ttl) (sweep (λ exp. ltb exp now) m),
                    apart,
                  )
                  (refl, kept)
          ]
    ]

none_handled :
    (sv : Services) (fp : String) (calls : List (String × ℕ)) (m : GoMap ℕ) (e : ℕ)
    → str_eq fp "" ≡ false
    → lookup fp m ≡ some e
    → All (λ c. c.1 < e) calls
    → handled sv fp calls m ≡ 0
unfolding handled should_process_alert_fingerprint
none_handled sv fp [] m e ne h lt = refl
none_handled sv fp ((own, now) ∷ rest) m e ne h lt = elim (Bool-cases (str_eq own "")) [
  | inl blank ↦
      let e' : own ≡ "" = (eq_iff own "").0 blank in
      let apart : str_eq fp own ≡ false = rw e' ne in
      let later = none_handled sv fp rest m e ne h lt.1 in
      rw (ttl_positive sv, blank, apart) (omega arith)
  | inr set ↦
      let (none_now, kept) = stays (alert_webhook_idempotency_ttl sv) fp own now e m h lt.0 in
      let later =
        none_handled sv fp rest (process_once (alert_webhook_idempotency_ttl sv) own now m).1 e ne
          kept lt.1 in
      rw (ttl_positive sv, set, none_now) (omega arith)
]

first_lives :
    (ttl : ℕ) (fp : String) (now : ℕ) (m : GoMap ℕ)
    → (process_once ttl fp now m).0 ≡ true
    → lookup fp (process_once ttl fp now m).1 ≡ some (now + ttl)
unfolding process_once
first_lives ttl fp now m h =
    elim (Bool-cases (is_repeated now (lookup fp (sweep (λ exp. ltb exp now) m)))) [
      | inl repeated ↦ let bad : ◌≡◌ {A = Bool} false true = rw repeated at h in cc
      | inr fresh ↦
          rw
            (
              fresh,
              lookup-insert fp fp (now + ttl) (sweep (λ exp. ltb exp now) m),
              (eq_iff fp fp).1 refl,
            )
            refl
    ]

-- Once an alert is told to go on, no call with its fingerprint is, of any calls that come before its
-- time to live is over, in any order and among any others.
pub repeated_is_suppressed :
    (sv : Services) (fp : String) (now : ℕ) (m : GoMap ℕ) (calls : List (String × ℕ))
    → str_eq fp "" ≡ false
    → (should_process_alert_fingerprint sv fp now m).0 ≡ true
    → All (λ c. c.1 < now + alert_webhook_idempotency_ttl sv) calls
    → handled sv fp calls (should_process_alert_fingerprint sv fp now m).1 ≡ 0
unfolding should_process_alert_fingerprint
repeated_is_suppressed sv fp now m calls ne first h =
    let once : (process_once (alert_webhook_idempotency_ttl sv) fp now m).0 ≡ true =
      rw (ttl_positive sv, ne) at first in
    rw (ttl_positive sv, ne)
      (none_handled sv fp calls (process_once (alert_webhook_idempotency_ttl sv) fp now m).1
        (now + alert_webhook_idempotency_ttl sv) ne
        (first_lives (alert_webhook_idempotency_ttl sv) fp now m once) h)
