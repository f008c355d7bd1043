-- ===== src/Watchdog/Start.antt =====
-- What `watchdog_init` of app/src/watchdog.c leaves behind on each of its returns.
use hologram_nrf9151_gps_tra.Common.{
  ℕ, ◌+◌, ◌*◌, ◌<◌, ◌^◌, ◌≡◌, ◌↔◌, false, ok, is_neg, is_err, arith, if◌then◌else◌,
}
use hologram_nrf9151_gps_tra.Config.{Config}
use hologram_nrf9151_gps_tra.Watchdog.{StartAnswers, startup, watchdog_init, watchdog_feed}

-- Started by the C startup, `watchdog_init` returns 0 exactly when later calls of `watchdog_feed`
-- reach the hardware; and then the installed timeout is the sleep and the margin in milliseconds,
-- if that fits 32 bits.
watchdog_init_outcome :
    (c : Config) (a : StartAnswers) (magic current : ℕ)
    → (c.sleep_seconds + c.watchdog_margin_seconds) * 1000 < 2 ^ 32
    → let (err, w) = watchdog_init c a (startup magic current) in
      ((err ≡ ok) ↔ (is_neg w.wdt_channel ≡ false))
      × ((watchdog_feed w).feeds ≡ (if is_err err then 0 else 1))
      × (err ≡ ok → w.window_max ≡ (c.sleep_seconds + c.watchdog_margin_seconds) * 1000)
unfolding watchdog_init startup watchdog_feed
watchdog_init_outcome c a magic current h = ground arith
