-- ===== src/Login/Local.antt =====
-- The limiter in memory. A time is a number of nanoseconds since Go's zero time, so 0 is
-- `time.Time{}`; `now.Sub(t) > d` is written with the truncated difference, which is 0 where Go's is
-- negative. Each method runs under the limiter's mutex, so it is one step.
use nms.Prelude.{
  ℕ, ◌+◌, ◌-◌, ◌*◌, Bool, true, false, not, ◌&&◌, ◌||◌, List, [], String, Option, none, some, ◌==◌,
  ltb, leb, if◌then◌else◌,
}
use nms.Prelude.Assoc.{lookup, insert, delete, sweep}

abbrev pub minute : ℕ
minute = 60000000000

abbrev pub login_window : ℕ
login_window = 10 * minute

abbrev pub login_max_attempts_ip : ℕ
login_max_attempts_ip = 30

abbrev pub login_max_attempts_user : ℕ
login_max_attempts_user = 10

abbrev pub login_lockout_duration : ℕ
login_lockout_duration = 15 * minute

pub record LoginAttemptState : Type 0 where
  pub count : ℕ
  pub first_fail_at : ℕ
  pub locked_until : ℕ

abbrev pub zero_state : LoginAttemptState
zero_state = record { count = 0; first_fail_at = 0; locked_until = 0 }

abbrev pub Attempts : Type 0
Attempts = List (String × LoginAttemptState)

pub record LoginLimiter : Type 0 where
  pub by_ip : Attempts
  pub by_user : Attempts
  pub last_gc : ℕ

unfoldable pub new_login_limiter : LoginLimiter
new_login_limiter = record { by_ip = []; by_user = []; last_gc = 0 }

abbrev or_zero : Option LoginAttemptState → LoginAttemptState
or_zero none = zero_state
or_zero (some st) = st

-- `m[k]`, the zero value for a missing key.
abbrev pub state_of : String → Attempts → LoginAttemptState
state_of k m = or_zero (lookup k m)

unfoldable pub reset_window_if_expired : LoginAttemptState → ℕ → LoginAttemptState
reset_window_if_expired st now =
    if st.first_fail_at == 0 || ltb login_window (now - st.first_fail_at)
    then record st { count = 0; first_fail_at = 0 }
    else st

-- An entry that the garbage collection drops.
unfoldable pub is_stale : ℕ → LoginAttemptState → Bool
is_stale now st =
    ltb st.locked_until now
    && (st.first_fail_at == 0 || ltb st.first_fail_at (now - 2 * login_window))

unfoldable pub gc_locked : LoginLimiter → ℕ → LoginLimiter
gc_locked l now = if not (l.last_gc == 0) && ltb (now - l.last_gc) minute then l else record {
  by_ip = sweep (is_stale now) l.by_ip;
  by_user = sweep (is_stale now) l.by_user;
  last_gc = now;
}

pub record Verdict : Type 0 where
  pub allowed : Bool
  pub retry_after : ℕ

abbrev pub deny : ℕ → Verdict
deny retry = record { allowed = false; retry_after = retry }

abbrev pub allow : Verdict
allow = record { allowed = true; retry_after = 0 }

-- The tests of `check`, on the states of the address and of the user.
unfoldable pub decide_login :
    LoginLimiter
    → String
    → String
    → ℕ
    → LoginAttemptState
    → LoginAttemptState
    → Verdict × LoginLimiter
decide_login l ip user now ip_st user_st =
    if ltb now ip_st.locked_until
    then (deny (ip_st.locked_until - now), l)
    else if ltb now user_st.locked_until
    then (deny (user_st.locked_until - now), l)
    else if leb login_max_attempts_ip ip_st.count
    then (
      deny login_lockout_duration,
      record l {
        by_ip = insert ip (record ip_st { locked_until = now + login_lockout_duration }) l.by_ip;
      },
    )
    else if leb login_max_attempts_user user_st.count
    then (
      deny login_lockout_duration,
      record l {
        by_user =
            insert user (record user_st { locked_until = now + login_lockout_duration }) l.by_user;
      },
    )
    else (allow, l)

unfoldable pub check : LoginLimiter → String → String → ℕ → Verdict × LoginLimiter
check l ip user now =
    let g = gc_locked l now in
    decide_login g ip user now (reset_window_if_expired (state_of ip g.by_ip) now)
      (reset_window_if_expired (state_of user g.by_user) now)

-- What one failure does to the state of an address or a user.
abbrev first_failure : LoginAttemptState → ℕ → LoginAttemptState
first_failure st now = if st.first_fail_at == 0 then record st { first_fail_at = now } else st

abbrev counted : LoginAttemptState → LoginAttemptState
counted st = record st { count = st.count + 1 }

abbrev lock_at : ℕ → LoginAttemptState → ℕ → LoginAttemptState
lock_at max st now =
    if leb max st.count then record st { locked_until = now + login_lockout_duration } else st

unfoldable pub fail_once : ℕ → LoginAttemptState → ℕ → LoginAttemptState
fail_once max st now =
    lock_at max (counted (first_failure (reset_window_if_expired st now) now)) now

unfoldable pub on_failure : LoginLimiter → String → String → ℕ → LoginLimiter
on_failure l ip user now =
    let g = gc_locked l now in
    record g {
      by_ip = insert ip (fail_once login_max_attempts_ip (state_of ip g.by_ip) now) g.by_ip;
      by_user =
          insert user (fail_once login_max_attempts_user (state_of user g.by_user) now) g.by_user;
    }

unfoldable pub on_success : LoginLimiter → String → String → LoginLimiter
on_success l ip user = record l { by_ip = delete ip l.by_ip; by_user = delete user l.by_user }
