-- ===== src/Login/Handler.antt =====
-- loginLimiterCheck, loginLimiterFailure and loginLimiterSuccess of
-- internal/delivery/http/login_rate_limit.go: the shared limiter first, the one in memory where
-- there is no database or it fails.
use nms.Prelude.{ℕ, String, Option, none, some, if◌then◌else◌}
use nms.Prelude.Result.{Result, ok, err}
use nms.Sql.{Conn}
use nms.Login.Local.{
  LoginLimiter, Verdict, allow, check, on_failure, on_success, login_window, login_lockout_duration,
  login_max_attempts_ip, login_max_attempts_user,
}
use nms.Login.Shared.{
  AttemptDb, login_rate_limit_check, login_rate_limit_on_failure, login_rate_limit_on_success,
}

-- The process's limiter, and the connection of `h.repo` (`none` when there is none).
pub record Limiters : Type 0 where
  pub memory : LoginLimiter
  pub repo : Option (Conn AttemptDb)

abbrev pub fall_back : LoginLimiter → Conn AttemptDb → String → String → ℕ → Verdict × Limiters
fall_back l c ip user now =
    let (v, l') = check l ip user now in (v, record { memory = l'; repo = some c })

unfoldable pub user_verdict :
    LoginLimiter → String → String → ℕ → Result Verdict × Conn AttemptDb → Verdict × Limiters
user_verdict l ip user now (ok v, c) =
    (if v.allowed then allow else v, record { memory = l; repo = some c })
user_verdict l ip user now (err e, c) = fall_back l c ip user now

unfoldable pub ip_verdict :
    LoginLimiter → String → String → ℕ → Result Verdict × Conn AttemptDb → Verdict × Limiters
ip_verdict l ip user now (ok v, c) =
    if v.allowed
    then user_verdict l ip user now (
        login_rate_limit_check "user" user now login_window login_lockout_duration
          login_max_attempts_user c)
    else (v, record { memory = l; repo = some c })
ip_verdict l ip user now (err e, c) = fall_back l c ip user now

unfoldable pub check_with :
    LoginLimiter → Option (Conn AttemptDb) → String → String → ℕ → Verdict × Limiters
check_with l none ip user now =
    let (v, l') = check l ip user now in (v, record { memory = l'; repo = none })
check_with l (some c) ip user now =
    ip_verdict l ip user now (
      login_rate_limit_check "ip" ip now login_window login_lockout_duration login_max_attempts_ip
        c)

unfoldable pub login_limiter_check : Limiters → String → String → ℕ → Verdict × Limiters
login_limiter_check s ip user now = check_with s.memory s.repo ip user now

-- An error of either statement is only written to the log.
unfoldable pub fail_shared : Option (Conn AttemptDb) → String → String → ℕ → Option (Conn AttemptDb)
fail_shared none ip user now = none
fail_shared (some c) ip user now =
    let after_ip =
      (login_rate_limit_on_failure "ip" ip now login_window login_lockout_duration
        login_max_attempts_ip c).1 in
    some
      (login_rate_limit_on_failure "user" user now login_window login_lockout_duration
        login_max_attempts_user after_ip).1

unfoldable pub login_limiter_failure : Limiters → String → String → ℕ → Limiters
login_limiter_failure s ip user now = record {
  memory = on_failure s.memory ip user now;
  repo = fail_shared s.repo ip user now;
}

unfoldable pub succeed_shared : Option (Conn AttemptDb) → String → String → Option (Conn AttemptDb)
succeed_shared none ip user = none
succeed_shared (some c) ip user = some (login_rate_limit_on_success ip user c).1

unfoldable pub login_limiter_success : Limiters → String → String → Limiters
login_limiter_success s ip user = record {
  memory = on_success s.memory ip user;
  repo = succeed_shared s.repo ip user;
}
