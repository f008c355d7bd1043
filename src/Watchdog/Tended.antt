-- ===== src/Watchdog/Tended.antt =====
-- How long app/src/watchdog.c leaves the hardware watchdog unfed.
use hologram_nrf9151_gps_tra.Common.{
  ℕ, ◌+◌, ◌-◌, ◌≤◌, ◌≡◌, true, false, is_neg, arith, div_round_up,
}
use hologram_nrf9151_gps_tra.Watchdog.{
  Watchdog, elapse, watchdog_feed, guard_period, guard_expiry, watchdog_guard_start,
  watchdog_guard_stop,
}

-- The watchdog was never unfed for longer than `bound`, and is not unfed for longer than `n`. It does
-- not count before it is set up.
abbrev pub IsTended : (bound n : ℕ) → Watchdog → Type 0
IsTended bound n w =
    (w.longest_ms ≤ bound) × (w.unfed_ms ≤ n) × (is_neg w.wdt_channel ≡ true → w.unfed_ms ≡ 0)

pub elapse-IsTended :
    (bound n e : ℕ) (w : Watchdog)
    → n + e ≤ bound
    → IsTended bound n w
    → IsTended bound (n + e) (elapse e w)
unfolding elapse
elapse-IsTended bound n e w b i = ground (arith, b, i)

pub feed-IsTended :
    (bound n : ℕ) (w : Watchdog) → IsTended bound n w → IsTended bound 0 (watchdog_feed w)
unfolding watchdog_feed
feed-IsTended bound n w i = ground (arith, i)

pub period-IsTended :
    (bound n : ℕ) (w : Watchdog) → IsTended bound n w → IsTended bound n (guard_period w)
unfolding guard_period guard_expiry
period-IsTended bound n w i =
    ground
      (arith, i, feed-IsTended bound n (record w { guard_feeds_left = w.guard_feeds_left - 1 }) i)

pub guard_start-IsTended :
    (bound n budget_s : ℕ) (w : Watchdog)
    → IsTended bound n w
    → IsTended bound 0 (watchdog_guard_start budget_s w)
unfolding watchdog_guard_start
guard_start-IsTended bound n budget_s w i =
    ground
      (arith, feed-IsTended bound n (record w { guard_feeds_left = div_round_up budget_s 29 }) i)

pub guard_stop-IsTended :
    (bound n : ℕ) (w : Watchdog) → IsTended bound n w → IsTended bound 0 (watchdog_guard_stop w)
unfolding watchdog_guard_stop
guard_stop-IsTended bound n w i = feed-IsTended bound n (record w { guard_running = false }) i
