-- ===== src/Watchdog/Retained.antt =====
-- The phase marker of app/src/watchdog.c across a reset.
use hologram_nrf9151_gps_tra.Common.{ℕ, ◌≡◌, ◌≢◌, refl, arith}
use hologram_nrf9151_gps_tra.Config.{Config}
use hologram_nrf9151_gps_tra.Watchdog.{
  Watchdog, Phase, phase_code, magic_value, StartAnswers, startup, after_reset, watchdog_init,
  watchdog_phase, watchdog_reset_phase, watchdog_feed, watchdog_guard_start, watchdog_guard_stop,
  guard_expiry,
}

-- The operations that a run makes between `watchdog_init` and a reset.
pub data Run (w : Watchdog) : Watchdog → Type 0 where
  begin : Run w w
  feed : {v : Watchdog} → Run w v → Run w (watchdog_feed v)
  expire : {v : Watchdog} → Run w v → Run w (guard_expiry v)
  guard : {v : Watchdog} (budget : ℕ) → Run w v → Run w (watchdog_guard_start budget v)
  unguard : {v : Watchdog} → Run w v → Run w (watchdog_guard_stop v)
  mark : {v : Watchdog} (p : Phase) → Run w v → Run w (watchdog_phase p v)

-- The last phase that a run marked.
abbrev pub last_phase : {w v : Watchdog} → Run w v → ℕ
last_phase begin = 0
last_phase (feed r) = last_phase r
last_phase (expire r) = last_phase r
last_phase (guard _ r) = last_phase r
last_phase (unguard r) = last_phase r
last_phase (mark p r) = phase_code p

abbrev Trail : Watchdog → ℕ → Type 0
Trail w p = (w.phase_magic ≡ magic_value) × (w.phase_current ≡ p)

watchdog_init-Trail :
    (c : Config) (a : StartAnswers) (w : Watchdog) → Trail (watchdog_init c a w).1 0
unfolding watchdog_init
watchdog_init-Trail c a w = ground arith

watchdog_feed-Trail : (w : Watchdog) (p : ℕ) → Trail w p → Trail (watchdog_feed w) p
unfolding watchdog_feed
watchdog_feed-Trail w p t = ground arith

guard_expiry-Trail : (w : Watchdog) (p : ℕ) → Trail w p → Trail (guard_expiry w) p
unfolding guard_expiry
guard_expiry-Trail w p t = ground arith

guard_start-Trail : (b : ℕ) (w : Watchdog) (p : ℕ) → Trail w p → Trail (watchdog_guard_start b w) p
unfolding watchdog_guard_start
guard_start-Trail b w p t = ground arith

guard_stop-Trail : (w : Watchdog) (p : ℕ) → Trail w p → Trail (watchdog_guard_stop w) p
unfolding watchdog_guard_stop
guard_stop-Trail w p t = ground arith

Run-Trail : {w v : Watchdog} (r : Run w v) → Trail w 0 → Trail v (last_phase r)
unfolding watchdog_phase
Run-Trail begin t = t
Run-Trail (feed {v} r) t = watchdog_feed-Trail v (last_phase r) (Run-Trail r t)
Run-Trail (expire {v} r) t = guard_expiry-Trail v (last_phase r) (Run-Trail r t)
Run-Trail (guard {v} b r) t = guard_start-Trail b v (last_phase r) (Run-Trail r t)
Run-Trail (unguard {v} r) t = guard_stop-Trail v (last_phase r) (Run-Trail r t)
Run-Trail (mark p r) t = ((Run-Trail r t).0, refl)

-- Whatever a run did after its `watchdog_init`, and whatever the driver answered then or answers
-- after the reset: the next `watchdog_init` reports the last phase that the run had marked.
pub reset_phase_retained :
    (c : Config) (a b : StartAnswers) (w : Watchdog) {v : Watchdog}
    (r : Run (watchdog_init c a w).1 v)
    → watchdog_reset_phase (watchdog_init c b (after_reset v)).1 ≡ last_phase r
unfolding watchdog_init after_reset watchdog_reset_phase
reset_phase_retained c a b w r = ground (arith, Run-Trail r (watchdog_init-Trail c a w))

-- Where `.noinit` does not hold the magic number, as after a power-on, no phase is reported.
pub reset_phase_cold :
    (c : Config) (a : StartAnswers) (magic current : ℕ)
    → magic ≢ magic_value
    → watchdog_reset_phase (watchdog_init c a (startup magic current)).1 ≡ 0
unfolding watchdog_init startup watchdog_reset_phase
reset_phase_cold c a magic current h = ground arith
