-- ===== src/Watchdog/Guard.antt =====
-- The budget of the guard in app/src/watchdog.c.
use Prim.Native.Nat.{min}
use hologram_nrf9151_gps_tra.Common.{
  ℕ, zero, suc, ◌+◌, ◌/◌, ◌^◌, ◌<◌, ◌≡◌, refl, true, false, is_neg, arith, leb,
}
use hologram_nrf9151_gps_tra.Watchdog.{
  Watchdog, guard_period, watchdog_guard_start, watchdog_guard_stop,
}

-- `n` periods of the guard's timer.
pub guard_periods : ℕ → Watchdog → Watchdog
guard_periods zero w = w
guard_periods (suc n) w = guard_periods n (guard_period w)

guard_periods_stopped : (n : ℕ) (w : Watchdog) → w.guard_running ≡ false → guard_periods n w ≡ w
unfolding guard_periods guard_period
guard_periods_stopped zero w h = refl
guard_periods_stopped (suc n) w h = ground (arith, guard_periods_stopped n w h)

guard_periods_feeds :
    (n : ℕ) (w : Watchdog)
    → is_neg w.wdt_channel ≡ false
    → w.guard_running ≡ true
    → ((guard_periods n w).feeds ≡ w.feeds + min n w.guard_feeds_left)
      × ((guard_periods n w).guard_running ≡ leb n w.guard_feeds_left)
unfolding guard_periods guard_period
guard_periods_feeds zero w c r = ground arith
guard_periods_feeds (suc n) w c r =
    ground (arith, guard_periods_feeds n (guard_period w), guard_periods_stopped n (guard_period w))

-- With the channel set up and a budget that fits 32 bits when it is rounded up: the guard feeds once at
-- the start and then once a period for the budget rounded up to whole
-- periods, and no more: after that its timer is stopped, and a blocked call gets the device reset.
pub guard_budget :
    (budget n : ℕ) (w : Watchdog)
    → is_neg w.wdt_channel ≡ false
    → budget + 29 < 2 ^ 32
    → ((guard_periods n (watchdog_guard_start budget w)).feeds
        ≡ w.feeds + 1 + min n ((budget + 29) / 30))
      × ((guard_periods n (watchdog_guard_start budget w)).guard_running
          ≡ leb n ((budget + 29) / 30))
unfolding watchdog_guard_start
guard_budget budget n w c h = ground (arith, guard_periods_feeds n (watchdog_guard_start budget w))

-- After `watchdog_guard_stop` no period of the timer feeds the watchdog.
pub guard_stopped :
    (n : ℕ) (w : Watchdog) → guard_periods n (watchdog_guard_stop w) ≡ watchdog_guard_stop w
unfolding watchdog_guard_stop
guard_stopped n w = guard_periods_stopped n (watchdog_guard_stop w) (ground arith)
