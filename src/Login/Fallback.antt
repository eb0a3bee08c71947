-- ===== src/Login/Fallback.antt =====
-- The limiter in memory stands in for the shared one when the database fails.
use nms.Prelude.{
  ℕ, ◌+◌, ◌≤◌, ◌<◌, ◌≡◌, refl, ap, ◌∙◌, Bool, true, false, List, [], ◌∷◌, String, none, some, All,
  length, str_eq, trim_space,
}
use nms.Prelude.Assoc.{lookup}
use nms.Sql.{execute}
use nms.Login.Local.{
  LoginLimiter, check, login_window, login_lockout_duration, login_max_attempts_user,
}
use nms.Login.Shared.{AttemptDb, login_rate_limit_check}
use nms.Login.Handler.{Limiters, ip_verdict, check_with, login_limiter_check, login_limiter_failure}
use nms.Login.Lockout.{on_failures, last, failures_lock}

-- Where the driver refuses the next statement and the address is not blank, the handler's check
-- answers as the limiter in memory does.
pub refused_falls_back :
    (l : LoginLimiter) (db : AttemptDb) (faults : List Bool) (ip user : String) (now : ℕ)
    → str_eq (trim_space ip) "" ≡ false
    → (login_limiter_check
        (record { memory = l; repo = some (record { db = db; faults = true ∷ faults }) })
        ip
        user
        now).0
      ≡ (check l ip user now).0
unfolding login_limiter_check check_with login_rate_limit_check ip_verdict execute trim_space
refused_falls_back l db faults ip user now given = rw given refl

-- Failures that the handler is told of, at the given times.
unfoldable pub fail_all : Limiters → String → String → List ℕ → Limiters
fail_all s ip user [] = s
fail_all s ip user (t ∷ ts) = fail_all (login_limiter_failure s ip user t) ip user ts

fail_all-memory :
    (s : Limiters) (ip user : String) (ts : List ℕ)
    → (fail_all s ip user ts).memory ≡ on_failures s.memory ip user ts
unfolding fail_all on_failures login_limiter_failure
fail_all-memory s ip user [] = refl
fail_all-memory s ip user (t ∷ ts) = fail_all-memory (login_limiter_failure s ip user t) ip user ts

-- A user who is not in the map fails from an address that is not blank at `f` (not zero), at `t` and
-- at every time of `ts`, ten times at least, the later ones within ten minutes of `f`. Whatever the
-- database answered to that, if the driver refuses its statement at an attempt before fifteen minutes
-- after the last failure, the handler denies the attempt.
pub lock_outlasts_database :
    (s : Limiters) (ip user : String) (f t : ℕ) (ts : List ℕ) (now : ℕ) (db : AttemptDb)
    (faults : List Bool)
    → str_eq (trim_space ip) "" ≡ false
    → 0 < f
    → lookup user s.memory.by_user ≡ none
    → All (λ u. (f ≤ u) × (u ≤ f + login_window)) (t ∷ ts)
    → login_max_attempts_user ≤ length (f ∷ t ∷ ts)
    → now < last t ts + login_lockout_duration
    → (login_limiter_check
        (record {
          memory = (fail_all s ip user (f ∷ t ∷ ts)).memory;
          repo = some (record { db = db; faults = true ∷ faults });
        })
        ip
        user
        now).0.allowed
      ≡ false
lock_outlasts_database s ip user f t ts now db faults given pos fresh window many before =
    ap (λ v. v.allowed)
      (refused_falls_back (fail_all s ip user (f ∷ t ∷ ts)).memory db faults ip user now given
        ∙ ap (λ (l : LoginLimiter). (check l ip user now).0)
            (fail_all-memory s ip user (f ∷ t ∷ ts)))
    ∙ failures_lock s.memory ip user f t ts now pos fresh window many before
