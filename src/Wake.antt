-- ===== src/Wake.antt =====
-- app/src/wake.c and wake.h: what ends a battery sleep.
pub mod Reason
use Prim.Native.String.{String}
use hologram_nrf9151_gps_tra.Common.{Bool, true, false, List, [], ◌∷◌, if◌then◌else◌}

-- `enum tracker_wake_reason`.
pub data WakeReason : Type 0 where
  boot timer vbus motion : WakeReason

-- `wake_sem` is a binary semaphore: its count is 0 or 1.
pub record Wake : Type 0 where
  pub wake_sem : Bool
  pub pending : WakeReason

abbrev pub wake_at_boot : Wake
wake_at_boot = record { wake_sem = false; pending = timer }

unfoldable pub wake_signal : WakeReason → Wake → Wake
wake_signal reason w = record w { pending = reason; wake_sem = true }

-- Calls of `wake_signal` from the work queue, the first one first.
unfoldable pub wake_signals : List WakeReason → Wake → Wake
unfolding wake_signal
wake_signals [] w = w
wake_signals (r ∷ rs) w = wake_signals rs (wake_signal r w)

-- `atomic_set` and `k_sem_reset`, with the signals that come between the two.
unfoldable pub drain : List WakeReason → Wake → Wake
unfolding wake_signals
drain early w = record (wake_signals early (record w { pending = timer })) { wake_sem = false }

-- `k_sem_take` when it returns, and the signals between its return and `atomic_get` (`late`). The
-- take has timed out if the semaphore was not given.
unfoldable pub end_wait : List WakeReason → Wake → WakeReason × Wake
unfolding wake_signals
end_wait late w =
    let taken = wake_signals late (record w { wake_sem = false }) in
    if w.wake_sem then (taken.pending, taken) else (timer, wake_signals late w)

-- The signals that come while the caller waits, between `atomic_set` and `k_sem_reset` (`early`),
-- during `k_sem_take` (`during`) and after it (`late`).
unfoldable pub wake_wait : (early during late : List WakeReason) → Wake → WakeReason × Wake
unfolding drain end_wait
wake_wait early during late w = end_wait late (wake_signals during (drain early w))

unfoldable pub wake_reason_name : WakeReason → String
wake_reason_name boot = "boot"
wake_reason_name vbus = "vbus"
wake_reason_name motion = "motion"
wake_reason_name timer = "timer"
