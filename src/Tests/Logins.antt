-- ===== src/Tests/Logins.antt =====
-- The limiters of login attempts.
use nms.Prelude.{◌*◌, ◌/◌, none, ℕ, ◌≡◌, refl, false, List, [], ◌∷◌, some, arith, trim_space}
use nms.Prelude.Assoc.{lookup}
use nms.Prelude.Result.{ok}
use nms.Login.Local.{LoginAttemptState, LoginLimiter, check, allow}
use nms.Login.Shared.{AttemptRow, AttemptDb, login_rate_limit_check}
use nms.Login.Handler.{Limiters}
use nms.Login.Lockout.{on_failures, failures_lock}
use nms.Login.Agreement.{shared_forgets_lock}

abbrev locked_state : LoginAttemptState
locked_state = record { count = 10; first_fail_at = 100; locked_until = 5000 }

abbrev one_locked : LoginLimiter
one_locked = record { by_ip = []; by_user = ("ann", locked_state) ∷ []; last_gc = 0 }

abbrev nine : List ℕ
nine = 2 ∷ 3 ∷ 4 ∷ 5 ∷ 6 ∷ 7 ∷ 8 ∷ 9 ∷ []

abbrev fresh : LoginLimiter
fresh = record { by_ip = []; by_user = []; last_gc = 0 }

failures_lock_example :
    (check (on_failures fresh "10.0.0.1" "ann" (1 ∷ 2 ∷ nine)) "10.0.0.1" "ann" 100).0.allowed
    ≡ false
unfolding lookup
failures_lock_example =
    failures_lock fresh "10.0.0.1" "ann" 1 2 nine 100 (omega arith) refl (omega arith) (omega arith)
      (omega arith)

abbrev ann_row : AttemptRow
ann_row = record {
  scope = "user";
  subject = "ann";
  fail_count = 9;
  first_fail_at = some 100000;
  locked_until = some 5000000000000;
  updated_at = 200000;
}

abbrev ann_db : AttemptDb
ann_db = record { rows = ann_row ∷ []; now = 700000000000; stamp = λ t. t / 1000 * 1000 }

-- Locked until 5000 s, with the first failure at 0 s: at 700 s the attempt is allowed.
shared_forgets_lock_example :
    (login_rate_limit_check "user" "ann" 700000000000 600000000000 900000000000 10
      (record { db = ann_db; faults = [] })).0
    ≡ ok allow
unfolding trim_space
shared_forgets_lock_example =
    shared_forgets_lock "user" "ann" ann_db 700000000000 600000000000 900000000000 10 100000
      5000000000000 ann_row refl refl refl refl (omega arith) (omega arith) (omega arith)

abbrev before_failures : Limiters
before_failures = record { memory = fresh; repo = none }
