-- ===== src/Login/Lockout.antt =====
-- The limiter in memory: failures lock, a lock lasts, a success clears.
use native.Mathlib.Nat.{add-zero}
use text.Mathlib.TextPositions.{eq_refl}
use nms.Prelude.{
  ℕ, suc, ◌+◌, ◌≤◌, ◌<◌, ◌≡◌, ◌⊎◌, inl, inr, refl, ap, false, List, [], ◌∷◌, String, none, some,
  arith, leb, length, All, str_eq, if◌then◌else◌,
}
use nms.Prelude.Assoc.{
  lookup, delete, lookup-insert, lookup-delete, lookup-sweep_stays, lookup-sweep-none,
}
use nms.Login.Local.{
  LoginAttemptState, Attempts, LoginLimiter, zero_state, login_window, login_max_attempts_user,
  login_lockout_duration, reset_window_if_expired, is_stale, allow, gc_locked, decide_login, check,
  fail_once, on_failure, on_success,
}

-- The garbage collection leaves an entry that is not stale.
gc-by_user :
    (l : LoginLimiter) (user : String) (now : ℕ) (st : LoginAttemptState)
    → lookup user l.by_user ≡ some st
    → is_stale now st ≡ false
    → lookup user (gc_locked l now).by_user ≡ some st
unfolding gc_locked
gc-by_user l user now st h fresh =
    ground (arith, lookup-sweep_stays (is_stale now) user l.by_user st)

gc-by_ip :
    (l : LoginLimiter) (ip : String) (now : ℕ) (st : LoginAttemptState)
    → lookup ip l.by_ip ≡ some st
    → is_stale now st ≡ false
    → lookup ip (gc_locked l now).by_ip ≡ some st
unfolding gc_locked
gc-by_ip l ip now st h fresh = ground (arith, lookup-sweep_stays (is_stale now) ip l.by_ip st)

locked-fresh : (st : LoginAttemptState) (now : ℕ) → now < st.locked_until → is_stale now st ≡ false
unfolding is_stale
locked-fresh st now h = ground arith

reset-locked_until :
    (st : LoginAttemptState) (now : ℕ)
    → (reset_window_if_expired st now).locked_until ≡ st.locked_until
unfolding reset_window_if_expired
reset-locked_until st now = ground arith

decide_denies :
    (l : LoginLimiter) (ip user : String) (now : ℕ) (a b : LoginAttemptState)
    → (now < a.locked_until) ⊎ (now < b.locked_until)
    → (decide_login l ip user now a b).0.allowed ≡ false
unfolding decide_login
decide_denies l ip user now a b h = ground arith

-- While the entry of the address or of the user is locked, `check` denies, whatever the window and
-- the garbage collection do.
pub locked_is_denied :
    (l : LoginLimiter) (ip user : String) (now : ℕ) (st : LoginAttemptState)
    → (lookup ip l.by_ip ≡ some st) ⊎ (lookup user l.by_user ≡ some st)
    → now < st.locked_until
    → (check l ip user now).0.allowed ≡ false
unfolding check
locked_is_denied l ip user now st (inl h) locked =
    let kept = gc-by_ip l ip now st h (locked-fresh st now locked) in
    decide_denies _ ip user now _ _ (inl (rw (kept, reset-locked_until) locked))
locked_is_denied l ip user now st (inr h) locked =
    let kept = gc-by_user l user now st h (locked-fresh st now locked) in
    decide_denies _ ip user now _ _ (inr (rw (kept, reset-locked_until) locked))

-- The entry of a user after `k` failures in the window that began at `f`.
pub record IsCounting (user : String) (f k u : ℕ) (m : Attempts) : Type 0 where
  pub entry : LoginAttemptState
  pub found : lookup user m ≡ some entry
  pub began : entry.first_fail_at ≡ f
  pub counted : entry.count ≡ k
  pub locked : entry.locked_until ≡ u

abbrev lock_after : ℕ → ℕ → ℕ → ℕ
lock_after k t u = if leb login_max_attempts_user k then t + login_lockout_duration else u

fail_once-counts :
    (st : LoginAttemptState) (f t : ℕ)
    → 0 < f
    → st.first_fail_at ≡ f
    → f ≤ t
    → t ≤ f + login_window
    → fail_once login_max_attempts_user st t ≡ record {
      count = st.count + 1;
      first_fail_at = f;
      locked_until = lock_after (st.count + 1) t st.locked_until;
    }
unfolding fail_once reset_window_if_expired
fail_once-counts st f t pos e from to = ground arith

in_window-fresh :
    (st : LoginAttemptState) (f t : ℕ)
    → 0 < f
    → st.first_fail_at ≡ f
    → t ≤ f + login_window
    → is_stale t st ≡ false
unfolding is_stale
in_window-fresh st f t pos e to = ground arith

failure-IsCounting :
    (l : LoginLimiter) (ip user : String) (f k u t : ℕ)
    → 0 < f
    → f ≤ t
    → t ≤ f + login_window
    → IsCounting user f k u l.by_user
    → IsCounting user f (k + 1) (lock_after (k + 1) t u) (on_failure l ip user t).by_user
unfolding on_failure
failure-IsCounting l ip user f k u t pos from to h =
    let kept = gc-by_user l user t h.entry h.found (in_window-fresh h.entry f t pos h.began to) in
    record {
      entry = record {
        count = h.entry.count + 1;
        first_fail_at = f;
        locked_until = lock_after (h.entry.count + 1) t h.entry.locked_until;
      };
      found =
          rw (lookup-insert, eq_refl, kept, fail_once-counts h.entry f t pos h.began from to) refl;
      began = refl;
      counted = ap (λ (n : ℕ). n + 1) h.counted;
      locked = rw (h.counted, h.locked) refl;
    }

gc-none :
    (l : LoginLimiter) (user : String) (now : ℕ)
    → lookup user l.by_user ≡ none
    → lookup user (gc_locked l now).by_user ≡ none
unfolding gc_locked
gc-none l user now h = ground (arith, lookup-sweep-none (is_stale now) user l.by_user)

fail_once-first :
    (f : ℕ)
    → 0 < f
    → fail_once login_max_attempts_user zero_state f
      ≡ record { count = 1; first_fail_at = f; locked_until = 0 }
unfolding fail_once reset_window_if_expired
fail_once-first f pos = ground arith

first-IsCounting :
    (l : LoginLimiter) (ip user : String) (f : ℕ)
    → 0 < f
    → lookup user l.by_user ≡ none
    → IsCounting user f 1 0 (on_failure l ip user f).by_user
unfolding on_failure
first-IsCounting l ip user f pos h = record {
  entry = record { count = 1; first_fail_at = f; locked_until = 0 };
  found = rw (lookup-insert, eq_refl, gc-none l user f h, fail_once-first f pos) refl;
  began = refl;
  counted = refl;
  locked = refl;
}

-- Failures of one user from one address, at the given times.
unfoldable pub on_failures : LoginLimiter → String → String → List ℕ → LoginLimiter
on_failures l ip user [] = l
on_failures l ip user (t ∷ ts) = on_failures (on_failure l ip user t) ip user ts

abbrev pub last : ℕ → List ℕ → ℕ
last t [] = t
last t (s ∷ ss) = last s ss

abbrev lock_through : ℕ → ℕ → List ℕ → ℕ
lock_through k u [] = u
lock_through k u (t ∷ ts) = lock_through (k + 1) (lock_after (k + 1) t u) ts

abbrev InWindow : ℕ → ℕ → Type 0
InWindow f t = (f ≤ t) × (t ≤ f + login_window)

failures-IsCounting :
    (l : LoginLimiter) (ip user : String) (f k u : ℕ) (ts : List ℕ)
    → 0 < f
    → All (InWindow f) ts
    → IsCounting user f k u l.by_user
    → IsCounting user f (k + length ts) (lock_through k u ts) (on_failures l ip user ts).by_user
unfolding on_failures
failures-IsCounting l ip user f k u [] pos w h = rw add-zero h
failures-IsCounting l ip user f k u (t ∷ ts) pos w h =
    let next = failure-IsCounting l ip user f k u t pos w.0.0 w.0.1 h in
    let all = failures-IsCounting (on_failure l ip user t) ip user f (k + 1) _ ts pos w.1 next in
    let same : k + 1 + length ts ≡ k + suc (length ts) = omega arith in rw same at all

-- The lock dates from the last failure, once there are enough of them.
lock_through-last :
    (k u t : ℕ) (ts : List ℕ)
    → login_max_attempts_user ≤ k + 1 + length ts
    → lock_through k u (t ∷ ts) ≡ last t ts + login_lockout_duration
lock_through-last k u t [] h = ground arith
lock_through-last k u t (s ∷ ts) h = lock_through-last (k + 1) _ s ts (omega arith)

-- A user who is not in the table fails from one address at `f` (not zero), at `t` and at every time
-- of `ts`, ten times at least, the later ones within ten minutes of `f`: before fifteen minutes after
-- the last failure every attempt from there is denied.
pub failures_lock :
    (l : LoginLimiter) (ip user : String) (f t : ℕ) (ts : List ℕ) (now : ℕ)
    → 0 < f
    → lookup user l.by_user ≡ none
    → All (λ s. (f ≤ s) × (s ≤ f + login_window)) (t ∷ ts)
    → login_max_attempts_user ≤ length (f ∷ t ∷ ts)
    → now < last t ts + login_lockout_duration
    → (check (on_failures l ip user (f ∷ t ∷ ts)) ip user now).0.allowed ≡ false
unfolding on_failures
failures_lock l ip user f t ts now pos fresh w many before =
    let one = first-IsCounting l ip user f pos fresh in
    let h = failures-IsCounting (on_failure l ip user f) ip user f 1 0 (t ∷ ts) pos w one in
    let long = lock_through-last 1 0 t ts (omega arith) in
    locked_is_denied _ ip user now h.entry (inr h.found) (rw (h.locked, long) before)

gc-none_ip :
    (l : LoginLimiter) (ip : String) (now : ℕ)
    → lookup ip l.by_ip ≡ none
    → lookup ip (gc_locked l now).by_ip ≡ none
unfolding gc_locked
gc-none_ip l ip now h = ground (arith, lookup-sweep-none (is_stale now) ip l.by_ip)

reset-zero : (now : ℕ) → reset_window_if_expired zero_state now ≡ zero_state
unfolding reset_window_if_expired
reset-zero now = refl

-- After a success of a user from an address, an attempt of the user from there is allowed, if it is
-- the next thing that happens.
pub success_clears :
    (l : LoginLimiter) (ip user : String) (now : ℕ)
    → (check (on_success l ip user) ip user now).0 ≡ allow
unfolding check on_success decide_login
success_clears l ip user now =
    let d = on_success l ip user in
    let a : lookup ip (delete ip l.by_ip) ≡ none = rw (lookup-delete, eq_refl) refl in
    let b : lookup user (delete user l.by_user) ≡ none = rw (lookup-delete, eq_refl) refl in
    rw (gc-none_ip d ip now a, gc-none d user now b, reset-zero) (ground arith)

-- A failure of one user from one address leaves the entries of another address and another user as
-- the garbage collection leaves them.
pub failure_isolated :
    (l : LoginLimiter) (ip user other_ip other : String) (now : ℕ)
    → str_eq ip other_ip ≡ false
    → str_eq user other ≡ false
    → (lookup other_ip (on_failure l ip user now).by_ip ≡ lookup other_ip (gc_locked l now).by_ip)
      × (lookup other (on_failure l ip user now).by_user ≡ lookup other (gc_locked l now).by_user)
unfolding on_failure
failure_isolated l ip user other_ip other now p q =
    (rw (lookup-insert, p) refl, rw (lookup-insert, q) refl)
