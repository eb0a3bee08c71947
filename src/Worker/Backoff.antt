-- ===== src/Worker/Backoff.antt =====
-- How long a device that failed is left alone. A time is a number of nanoseconds since Go's zero time.
-- Each method runs under the mutex, so it is one step.
use nms.Prelude.{
  ℕ, ◌+◌, ◌-◌, ◌*◌, ◌^◌, Bool, true, false, not, ◌||◌, [], String, Option, none, some, ◌==◌, ltb,
  if◌then◌else◌,
}
use nms.Prelude.Assoc.{GoMap, lookup, insert, delete}
use nms.Login.Local.{minute}

pub record BackoffState : Type 0 where
  pub failures : ℕ
  pub next_try : ℕ
  pub last_err : String

pub record DeviceBackoff : Type 0 where
  pub by_ip : GoMap BackoffState
  pub max_gap : ℕ

unfoldable pub new_device_backoff : DeviceBackoff
new_device_backoff = record { by_ip = []; max_gap = 15 * minute }

-- `true` with the time that is left.
abbrev pub skip_until : Option BackoffState → ℕ → Bool × ℕ
skip_until none now = (false, 0)
skip_until (some st) now =
    if st.next_try == 0 || not (ltb now st.next_try) then (false, 0) else (true, st.next_try - now)

unfoldable pub should_skip : String → ℕ → DeviceBackoff → Bool × ℕ
should_skip ip now b = skip_until (lookup ip b.by_ip) now

abbrev pub failures_before : Option BackoffState → ℕ
failures_before none = 0
failures_before (some st) = st.failures

unfoldable pub at_most_five : ℕ → ℕ
at_most_five n = if ltb 5 n then 5 else n

-- The shift is below 0 for no number, and the truncated difference is 0 there.
unfoldable pub delay_after : ℕ → ℕ → ℕ
delay_after max_gap failures =
    let shift = if ltb 30 (failures - 1) then 30 else failures - 1 in
    let delay = minute * 2 ^ shift in if ltb max_gap delay then max_gap else delay

unfoldable pub back_off : String → String → ℕ → DeviceBackoff → ℕ × DeviceBackoff
back_off ip error_text now b =
    let failures = at_most_five (failures_before (lookup ip b.by_ip) + 1) in
    let delay = delay_after b.max_gap failures in
    (
      delay,
      record b {
        by_ip =
            insert ip
              (record { failures = failures; next_try = now + delay; last_err = error_text })
              b.by_ip;
      },
    )

unfoldable pub resume : String → DeviceBackoff → DeviceBackoff
resume ip b = record b { by_ip = delete ip b.by_ip }
