-- ===== src/Tests/Backoffs.antt =====
-- A device that fails three times.
use nms.Prelude.{◌*◌, ◌≡◌, refl, true, [], ◌∷◌}
use nms.Prelude.Assoc.{lookup}
use nms.Login.Local.{minute}
use nms.Worker.Backoff.{new_device_backoff, should_skip}
use nms.Worker.Waiting.{back_off_all, failures_wait}

failures_wait_example :
    should_skip "10.0.0.7"
      (6 * minute)
      (back_off_all "10.0.0.7" "timeout" (minute ∷ 2 * minute ∷ 4 * minute ∷ []) new_device_backoff)
    ≡ (true, 2 * minute)
unfolding new_device_backoff lookup
failures_wait_example =
    failures_wait "10.0.0.7" "timeout" minute (2 * minute ∷ 4 * minute ∷ []) (6 * minute)
      new_device_backoff refl refl
