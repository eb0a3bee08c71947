-- ===== src/Worker/Waiting.antt =====
-- How long the worker waits after failures in a row.
use native.Mathlib.Nat.{add-zero}
use text.Mathlib.TextPositions.{eq_refl}
use nms.Prelude.{
  ℕ, zero, suc, ◌+◌, ◌-◌, ◌*◌, ◌<◌, ◌≡◌, ◌∙◌, refl, sym, ap, true, false, List, [], ◌∷◌, String,
  none, some, arith, ◌==◌, ltb, leb, length, if◌then◌else◌, inl, inr, Bool-cases,
}
use nms.Prelude.Assoc.{lookup, lookup-insert}
use nms.Login.Local.{minute}
use nms.Login.Lockout.{last}
use nms.Worker.Backoff.{
  BackoffState, DeviceBackoff, should_skip, at_most_five, delay_after, back_off,
}

-- The table of the waits: 1, 2, 4, 8, and from the fifth failure on 15 minutes.
abbrev pub wait : ℕ → ℕ
wait n =
    if leb n 1
    then minute
    else if leb n 2
    then 2 * minute
    else if leb n 3
    then 4 * minute
    else if leb n 4
    then 8 * minute
    else 15 * minute

five : (k : ℕ) → at_most_five (suc (suc (suc (suc (suc k))))) ≡ 5
unfolding at_most_five
five k = ground arith

late : (k : ℕ) → wait (suc (suc (suc (suc (suc k))))) ≡ 15 * minute
late k = ground arith

delay_of_five : delay_after (15 * minute) 5 ≡ 15 * minute
unfolding delay_after
delay_of_five = refl

long_delay :
    (k : ℕ)
    → delay_after (15 * minute) (at_most_five (suc (suc (suc (suc (suc k))))))
      ≡ wait (suc (suc (suc (suc (suc k)))))
long_delay k = ap (delay_after (15 * minute)) (five k) ∙ delay_of_five ∙ sym (late k)

one_more : (n : ℕ) → at_most_five (at_most_five n + 1) ≡ at_most_five (suc n)
unfolding at_most_five
one_more n = ground arith

delay-wait : (n : ℕ) → delay_after (15 * minute) (at_most_five (suc n)) ≡ wait (suc n)
unfolding delay_after at_most_five
delay-wait zero = refl
delay-wait (suc zero) = refl
delay-wait (suc (suc zero)) = refl
delay-wait (suc (suc (suc zero))) = refl
delay-wait (suc (suc (suc (suc k)))) = long_delay k

-- Failed polls of one device, with their error and time.
unfoldable pub back_off_all : String → String → List ℕ → DeviceBackoff → DeviceBackoff
back_off_all ip error_text [] b = b
back_off_all ip error_text (t ∷ ts) b = back_off_all ip error_text ts (back_off ip error_text t b).1

-- The device has failed `n` times in a row, last at `t`.
record IsWaiting (ip : String) (n t : ℕ) (b : DeviceBackoff) : Type 0 where
  entry : BackoffState
  found : lookup ip b.by_ip ≡ some entry
  counted : entry.failures ≡ at_most_five n
  until : entry.next_try ≡ t + wait n
  gap : b.max_gap ≡ 15 * minute

first-IsWaiting :
    (ip error_text : String) (t : ℕ) (b : DeviceBackoff)
    → b.max_gap ≡ 15 * minute
    → lookup ip b.by_ip ≡ none
    → IsWaiting ip 1 t (back_off ip error_text t b).1
unfolding back_off
first-IsWaiting ip error_text t b gap fresh = record {
  entry = record { failures = at_most_five 1; next_try = t + wait 1; last_err = error_text };
  found = rw (lookup-insert, eq_refl, fresh, gap, delay-wait 0) refl;
  counted = refl;
  until = refl;
  gap = gap;
}

next-IsWaiting :
    (ip error_text : String) (n t u : ℕ) (b : DeviceBackoff)
    → IsWaiting ip n t b
    → IsWaiting ip (suc n) u (back_off ip error_text u b).1
unfolding back_off
next-IsWaiting ip error_text n t u b h = record {
  entry = record {
    failures = at_most_five (suc n);
    next_try = u + wait (suc n);
    last_err = error_text;
  };
  found = rw (lookup-insert, eq_refl, h.found, h.gap, h.counted, one_more n, delay-wait n) refl;
  counted = refl;
  until = refl;
  gap = h.gap;
}

all-IsWaiting :
    (ip error_text : String) (n t : ℕ) (ts : List ℕ) (b : DeviceBackoff)
    → IsWaiting ip n t b
    → IsWaiting ip (n + length ts) (last t ts) (back_off_all ip error_text ts b)
unfolding back_off_all
all-IsWaiting ip error_text n t [] b h = rw add-zero h
all-IsWaiting ip error_text n t (u ∷ ts) b h =
    let same : suc n + length ts ≡ n + suc (length ts) = omega arith in
    rw same at (
      all-IsWaiting ip error_text (suc n) u ts (back_off ip error_text u b).1
        (next-IsWaiting ip error_text n t u b h))

wait_pos : (n : ℕ) → 0 < wait n
wait_pos n = ground arith

waiting_skips :
    (ip : String) (n t now : ℕ) (b : DeviceBackoff)
    → IsWaiting ip n t b
    → should_skip ip now b ≡ (if ltb now (t + wait n) then (true, t + wait n - now) else (false, 0))
unfolding should_skip
waiting_skips ip n t now b h =
    let some_wait : (t + wait n == 0) ≡ false = ground (arith, wait_pos n) in
    elim (Bool-cases (ltb now (t + wait n))) [
      | inl early ↦ rw (h.found, h.until, some_wait, early) refl
      | inr over ↦ rw (h.found, h.until, some_wait, over) refl
    ]

-- With the worker's gap of 15 minutes: a device that has no entry fails at `t` and then at every time
-- of `ts`. It is skipped before the wait after the last failure is over, with the time that is left,
-- and not from then on; the wait is 1, 2, 4 and 8 minutes after the first four failures and 15 from
-- the fifth on.
pub failures_wait :
    (ip error_text : String) (t : ℕ) (ts : List ℕ) (now : ℕ) (b : DeviceBackoff)
    → b.max_gap ≡ 15 * minute
    → lookup ip b.by_ip ≡ none
    → should_skip ip now (back_off_all ip error_text (t ∷ ts) b) ≡ (
        if ltb now (last t ts + wait (1 + length ts))
        then (true, last t ts + wait (1 + length ts) - now)
        else (false, 0))
unfolding back_off_all
failures_wait ip error_text t ts now b gap fresh =
    waiting_skips ip (1 + length ts) (last t ts) now _ (
      all-IsWaiting ip error_text 1 t ts (back_off ip error_text t b).1
        (first-IsWaiting ip error_text t b gap fresh))
