-- ===== src/Login/Shared.antt =====
-- The limiter that the servers share, in the table `login_attempt_limits`.
use nms.Prelude.{
  ℕ, ◌+◌, ◌-◌, ◌*◌, ◌/◌, Bool, true, false, ◌&&◌, ◌||◌, List, [], ◌∷◌, String, Option, none, some,
  ◌==◌, ltb, leb, str_eq, trim_space, find, update_where, delete_where, if◌then◌else◌,
}
use nms.Sql.{Sql, pure, ◌>>=◌, ◌>>◌, query, exec}
use nms.Incident.Tables.{second}
use nms.Login.Local.{Verdict, deny, allow}

pub record AttemptRow : Type 0 where
  pub scope : String
  pub subject : String
  pub fail_count : ℕ
  pub first_fail_at : Option ℕ
  pub locked_until : Option ℕ
  pub updated_at : ℕ

pub record AttemptDb : Type 0 where
  pub rows : List AttemptRow
  pub now : ℕ  -- what NOW() answers
  pub stamp : ℕ → ℕ  -- what a TIMESTAMPTZ keeps of a time: whole microseconds, by the driver

abbrev pub is_key : String → String → AttemptRow → Bool
is_key scope subject r = str_eq r.scope scope && str_eq r.subject subject

-- `int(d.Seconds())`, and 1 where that is not positive.
unfoldable pub whole_seconds : ℕ → ℕ
whole_seconds d = let n = d / second in if n == 0 then 1 else n

abbrev pub before_or_null : Option ℕ → ℕ → Bool
before_or_null none now = true
before_or_null (some t) now = ltb t now

-- The cleanup statement; `updated_at < NOW() - …` is written with a sum.
unfoldable pub is_expired_row : ℕ → ℕ → AttemptRow → Bool
is_expired_row window_secs now r =
    before_or_null r.locked_until now && ltb (r.updated_at + 2 * window_secs * second) now

-- The statement's times are those that the driver passes on.
abbrev pub change_rows :
    (AttemptRow → Bool) → ((ℕ → ℕ) → AttemptRow → AttemptRow) → AttemptDb → AttemptDb
change_rows p f db = record db { rows = update_where p (f db.stamp) db.rows }

abbrev pub window_over : Option ℕ → ℕ → ℕ → Bool
window_over none now window = false
window_over (some f) now window = ltb window (now - f)

abbrev pub locked_for : Option ℕ → ℕ → Option ℕ
locked_for none now = none
locked_for (some u) now = if ltb now u then some (u - now) else none

-- The tests on the row that was found, after the one on the window.
unfoldable pub decide_locked :
    String → String → ℕ → ℕ → ℕ → AttemptRow → Option ℕ → Sql AttemptDb Verdict
decide_locked scope subject now lockout max r (some retry) = pure (deny retry)
decide_locked scope subject now lockout max r none =
    if leb max r.fail_count
    then (do
      exec (
          change_rows (is_key scope subject) (λ stamp x. record x {
            locked_until = some (stamp (now + lockout));
            updated_at = stamp now;
          }))
      pure (deny lockout))
    else pure allow

unfoldable pub decide_row :
    String → String → ℕ → ℕ → ℕ → ℕ → Option AttemptRow → Sql AttemptDb Verdict
decide_row scope subject now window lockout max none = pure allow
decide_row scope subject now window lockout max (some r) =
    if window_over r.first_fail_at now window
    then (do
      exec (
          change_rows (is_key scope subject) (λ stamp x. record x {
            fail_count = 0;
            first_fail_at = none;
            locked_until = none;
            updated_at = stamp now;
          }))
      pure allow)
    else decide_locked scope subject now lockout max r (locked_for r.locked_until now)

unfoldable pub login_rate_limit_check : String → String → ℕ → ℕ → ℕ → ℕ → Sql AttemptDb Verdict
login_rate_limit_check scope_raw subject_raw now window lockout max =
    let scope = trim_space scope_raw in
    let subject = trim_space subject_raw in
    if str_eq scope "" || str_eq subject "" || max == 0 then pure allow else do
      exec (λ db. record db {
        rows = delete_where (is_expired_row (whole_seconds window) db.now) db.rows;
      })
      row ← query (λ db. find (is_key scope subject) db.rows)
      decide_row scope subject now window lockout max row

-- `first_fail_at IS NULL OR $3 - first_fail_at > make_interval(secs => $4)`.
abbrev pub starts_over : Option ℕ → ℕ → ℕ → Bool
starts_over none now window_secs = true
starts_over (some f) now window_secs = ltb (window_secs * second) (now - f)

-- The `DO UPDATE SET` of the upsert. `now` is the parameter `$3`, a time as the column keeps it.
unfoldable pub failed_again : ℕ → ℕ → ℕ → ℕ → AttemptRow → AttemptRow
failed_again now window_secs lockout_secs max r =
    let over = starts_over r.first_fail_at now window_secs in
    record r {
      first_fail_at = if over then some now else r.first_fail_at;
      fail_count = if over then 1 else r.fail_count + 1;
      locked_until =
          if over
          then none
          else if leb max (r.fail_count + 1)
          then some (now + lockout_secs * second)
          else r.locked_until;
      updated_at = now;
    }

abbrev pub first_row : String → String → ℕ → AttemptRow
first_row scope subject now = record {
  scope = scope;
  subject = subject;
  fail_count = 1;
  first_fail_at = some now;
  locked_until = none;
  updated_at = now;
}

unfoldable pub upsert_failure : String → String → ℕ → ℕ → ℕ → ℕ → List AttemptRow → List AttemptRow
upsert_failure scope subject now window_secs lockout_secs max [] = first_row scope subject now ∷ []
upsert_failure scope subject now window_secs lockout_secs max (r ∷ rs) =
    if is_key scope subject r
    then failed_again now window_secs lockout_secs max r ∷ rs
    else r ∷ upsert_failure scope subject now window_secs lockout_secs max rs

unfoldable pub login_rate_limit_on_failure :
    String → String → ℕ → ℕ → ℕ → ℕ → Sql AttemptDb (Unit {0})
login_rate_limit_on_failure scope_raw subject_raw now window lockout max =
    let scope = trim_space scope_raw in
    let subject = trim_space subject_raw in
    if str_eq scope "" || str_eq subject "" || max == 0
    then pure tt
    else exec (λ db. record db {
      rows =
          upsert_failure scope subject (db.stamp now) (whole_seconds window) (whole_seconds lockout)
            max db.rows;
    })

unfoldable pub login_rate_limit_on_success : String → String → Sql AttemptDb (Unit {0})
login_rate_limit_on_success ip user = exec (λ db. record db {
  rows =
      delete_where (λ r. is_key "ip" (trim_space ip) r || is_key "user" (trim_space user) r)
        db.rows;
})
