-- ===== src/Login/Agreement.antt =====
-- The shared limiter: its keys do not disturb each other, and where it does not lock as the one in
-- memory does.
use nms.Prelude.{
  ℕ, ◌+◌, ◌-◌, ◌≤◌, ◌<◌, ◌≡◌, refl, Bool, true, false, ◌&&◌, ◌||◌, List, [], ◌∷◌, String, some,
  arith, ◌==◌, ltb, str_eq, eq_iff, trim_space, find, delete_where,
}
use nms.Prelude.Result.{ok}
use nms.Sql.{execute}
use nms.Login.Local.{allow}
use nms.Login.Shared.{
  AttemptRow, AttemptDb, is_key, whole_seconds, is_expired_row, failed_again, decide_row,
  upsert_failure, login_rate_limit_check,
}

-- A failure that is counted for one key leaves the rows of the other keys alone.
pub upsert-others :
    (scope subject s t : String) (now w l max : ℕ) (rs : List AttemptRow)
    → (str_eq scope s && str_eq subject t) ≡ false
    → find (is_key s t) (upsert_failure scope subject now w l max rs) ≡ find (is_key s t) rs
unfolding upsert_failure failed_again
upsert-others scope subject s t now w l max [] ne = ground (arith, eq_iff scope s, eq_iff subject t)
upsert-others scope subject s t now w l max (r ∷ rs) ne = ground (
  arith,
  eq_iff scope s,
  eq_iff subject t,
  eq_iff r.scope scope,
  eq_iff r.scope s,
  eq_iff r.subject subject,
  eq_iff r.subject t,
  upsert-others scope subject s t now w l max rs ne,
)

find-delete_where :
    (p q : AttemptRow → Bool) (rs : List AttemptRow) (r : AttemptRow)
    → find p rs ≡ some r
    → q r ≡ false
    → find p (delete_where q rs) ≡ some r
find-delete_where p q [] r h n = cc
find-delete_where p q (x ∷ xs) r h n = ground (arith, find-delete_where p q xs r)

not_expired :
    (w now : ℕ) (r : AttemptRow) (u : ℕ)
    → r.locked_until ≡ some u
    → now ≤ u
    → is_expired_row w now r ≡ false
unfolding is_expired_row
not_expired w now r u e le = ground arith

-- For a scope and a subject that are not blank and a limit that is not 0, when the driver refuses
-- nothing: once the window since the first failure is over, the shared limiter allows the attempt
-- although the row says that it is locked.
pub shared_forgets_lock :
    (scope subject : String) (db : AttemptDb) (now window lockout max f u : ℕ) (r : AttemptRow)
    → (str_eq (trim_space scope) "" || str_eq (trim_space subject) "" || max == 0) ≡ false
    → find (is_key (trim_space scope) (trim_space subject)) db.rows ≡ some r
    → r.first_fail_at ≡ some f
    → r.locked_until ≡ some u
    → db.now ≤ u
    → f + window < now
    → now < u
    → (login_rate_limit_check scope subject now window lockout max
        (record { db = db; faults = [] })).0
      ≡ ok allow
unfolding login_rate_limit_check decide_row execute
shared_forgets_lock scope subject db now window lockout max f u r named found began locked late over
      held =
    let kept =
      find-delete_where _ (is_expired_row (whole_seconds window) db.now) db.rows r found
        (not_expired (whole_seconds window) db.now r u locked late) in
    let test : ltb window (now - f) ≡ true = ground arith in rw (named, kept, began, test) refl
