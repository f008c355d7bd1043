-- ===== src/CloudNrf/ModemTime.antt =====
-- The wait for network time in app/src/cloud_nrf.c.
use hologram_nrf9151_gps_tra.Common.{
  ℕ, zero, suc, ◌+◌, ◌-◌, ◌*◌, ◌/◌, ◌<◌, ◌≡◌, refl, true, ℤ, is_err, arith, if◌then◌else◌,
}
use hologram_nrf9151_gps_tra.Config.{Config}
use hologram_nrf9151_gps_tra.Watchdog.{Watchdog, watchdog_feed}
use hologram_nrf9151_gps_tra.Watchdog.Tended.{IsTended, feed-IsTended}
use hologram_nrf9151_gps_tra.CloudNrf.{Cloud, time_loop, modem_time_wait}

-- At most `n` polls from number `k` on: the first one that is answered ends them, and each one that
-- is not feeds the watchdog.
pub polls : (n k : ℕ) → (ℕ → ℤ) → Cloud × Watchdog → Cloud × Watchdog
polls zero k at_cmd s = s
polls (suc n) k at_cmd (s, w) =
    let next = polls n (k + 1) at_cmd (s, watchdog_feed w) in
    if is_err (at_cmd k) then next else (record s { modem_time_ready = true }, w)

time_loop-polls :
    (fuel n wait waited k : ℕ) (at_cmd : ℕ → ℤ) (s : Cloud) (w : Watchdog)
    → wait < waited + 3 * fuel
    → n ≡ (wait + 2 - waited) / 3
    → time_loop fuel wait waited k at_cmd (s, w) ≡ polls n k at_cmd (s, w)
unfolding time_loop polls
time_loop-polls zero zero wait waited k at_cmd s w h e = refl
time_loop-polls zero (suc n) wait waited k at_cmd s w h e = absurd (omega arith)
time_loop-polls (suc f) zero wait waited k at_cmd s w h e = ground arith
time_loop-polls (suc f) (suc n) wait waited k at_cmd s w h e = ground (
  arith,
  time_loop-polls f n wait (waited + 3) (k + 1) at_cmd s (watchdog_feed w) (omega arith)
      (omega arith),
)

-- `modem_time_wait` does nothing once the modem had the time. Otherwise it asks at most once per
-- started 3 seconds of the configured wait, in order, feeding the watchdog after each refusal, and
-- stops at the first answer; the fuel never cuts it short.
pub modem_time_wait-polls :
    (c : Config) (at_cmd : ℕ → ℤ) (s : Cloud) (w : Watchdog)
    → modem_time_wait c at_cmd (s, w) ≡ (
        if s.modem_time_ready
        then (s, w)
        else polls ((c.modem_time_wait_seconds + 2) / 3) 0 at_cmd (s, w))
unfolding modem_time_wait
modem_time_wait-polls c at_cmd s w = ground (
  arith,
  time_loop-polls (c.modem_time_wait_seconds + 1) ((c.modem_time_wait_seconds + 2) / 3)
      c.modem_time_wait_seconds 0 0 at_cmd s w (omega arith),
)

abbrev Same : Cloud → Cloud → Type 0
Same s t = (t.link_state ≡ s.link_state) × (t.creds_ok ≡ s.creds_ok) × (t.calls ≡ s.calls)

polls-Same :
    (n k : ℕ) (at_cmd : ℕ → ℤ) (s : Cloud) (w : Watchdog) → Same s (polls n k at_cmd (s, w)).0
unfolding polls
polls-Same zero k at_cmd s w = (refl, refl, refl)
polls-Same (suc n) k at_cmd s w = ground (arith, polls-Same n (k + 1) at_cmd s (watchdog_feed w))

pub modem_time_wait-Same :
    (c : Config) (at_cmd : ℕ → ℤ) (s : Cloud) (w : Watchdog)
    → Same s (modem_time_wait c at_cmd (s, w)).0
modem_time_wait-Same c at_cmd s w =
    rw (modem_time_wait-polls c at_cmd s w)
      (ground (arith, polls-Same ((c.modem_time_wait_seconds + 2) / 3) 0 at_cmd s w))

polls-IsTended :
    (bound n m k : ℕ) (at_cmd : ℕ → ℤ) (s : Cloud) (w : Watchdog)
    → IsTended bound n w
    → IsTended bound n (polls m k at_cmd (s, w)).1
unfolding polls
polls-IsTended bound n zero k at_cmd s w t = t
polls-IsTended bound n (suc m) k at_cmd s w t =
    let f = feed-IsTended bound n w t in
    ground
      (arith, t, polls-IsTended bound n m (k + 1) at_cmd s (watchdog_feed w) (ground (arith, f)))

-- The wait does nothing to the watchdog but feed it.
pub modem_time_wait-IsTended :
    (c : Config) (bound n : ℕ) (at_cmd : ℕ → ℤ) (s : Cloud) (w : Watchdog)
    → IsTended bound n w
    → IsTended bound n (modem_time_wait c at_cmd (s, w)).1
modem_time_wait-IsTended c bound n at_cmd s w t =
    rw (modem_time_wait-polls c at_cmd s w) (
      ground
        (arith, t, polls-IsTended bound n ((c.modem_time_wait_seconds + 2) / 3) 0 at_cmd s w t))
