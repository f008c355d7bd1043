-- ===== src/Main/Boot/Timed.antt =====
-- How long the start of `main` of app/src/main.c lasts and leaves the watchdog unfed.
use hologram_nrf9151_gps_tra.Common.{
  ℕ, ◌+◌, ◌*◌, ◌≤◌, ◌≡◌, is_err, is_neg, true, false, arith, List, [], ◌∷◌, refl,
}
use hologram_nrf9151_gps_tra.Config.{Config}
use hologram_nrf9151_gps_tra.Watchdog.{
  Watchdog, StartAnswers, phase_init, watchdog_init, watchdog_feed, guard_expiry, guard_period,
  elapse,
}
use hologram_nrf9151_gps_tra.Watchdog.Tended.{IsTended}
use hologram_nrf9151_gps_tra.Transport.Contract.{Contract}
use hologram_nrf9151_gps_tra.Board.{
  Platform, Board, Sys, Span, brief, Interrupt, interrupt, interrupts, later, advance, ◌>>=◌, ◌>>◌,
  pure, call,
}
use hologram_nrf9151_gps_tra.Board.Timed.{
  Lasts, Limits, limit, advance-Takes, Tended, more-Tended, either_branch, bind-Takes, then-Takes,
  if-Takes, pure-Takes, more-Takes,
}
use hologram_nrf9151_gps_tra.Board.Timed.Calls.{still_call, timed, timed_then, outside_call-Takes}
use hologram_nrf9151_gps_tra.Main.{status_led_report}
use hologram_nrf9151_gps_tra.Main.Timed.{status_led_report-Takes}
use hologram_nrf9151_gps_tra.Main.Boot.{
  BootAnswers, start_watchdog, start_power, start_motion, start_led, init_gnss, init_cloud,
  start_radio, start_drivers, bring_up, main_start,
}
use hologram_nrf9151_gps_tra.Main.Cycle.Timed.{stretch_ms}

-- The driver is not set up, so that the watchdog does not run.
abbrev pub IsUnset : Watchdog → Type 0
IsUnset w = (is_neg w.wdt_channel ≡ true) × (w.unfed_ms ≡ 0) × (w.longest_ms ≡ 0)

init-IsTended :
    (c : Config) (a : StartAnswers) (bound : ℕ) (w : Watchdog)
    → IsUnset w
    → IsTended bound 0 (watchdog_init c a w).1
unfolding watchdog_init phase_init
init-IsTended c a bound w i = ground (arith, i)

period-IsUnset : (w : Watchdog) → IsUnset w → IsUnset (guard_period w)
unfolding guard_period guard_expiry watchdog_feed
period-IsUnset w i = ground (arith, i)

module _ {p : Platform} where
  open p use {D, F, config, script, transport}

  interrupts-IsUnset :
      (is : List (Interrupt D F)) (b : Board p)
      → IsUnset b.watchdog
      → IsUnset (interrupts p is b).watchdog
  unfolding interrupts interrupt
  interrupts-IsUnset [] b i = i
  interrupts-IsUnset (x ∷ is) b i =
      interrupts-IsUnset is (interrupt p x b) (ground (arith, i, period-IsUnset b.watchdog i))

  advance-IsUnset :
      (span : Span) (s : Sys p)
      → IsUnset s.board.watchdog
      → IsUnset (advance p span s).1.board.watchdog
  unfolding advance elapse
  advance-IsUnset span s i =
      let w = script s.board.tick in
      interrupts-IsUnset w.interrupts (later p (w.elapsed_ms span) s.board) (ground (arith, i))

  start_watchdog-Tended :
      (a : BootAnswers) (bound : ℕ) (s : Sys p)
      → IsUnset s.board.watchdog
      → Tended p bound 0 (start_watchdog p a s).1
  unfolding start_watchdog ◌>>◌ call
  start_watchdog-Tended a bound s i =
      let s1 = (advance p brief s).1 in
      init-IsTended config a.watchdog bound s1.board.watchdog (advance-IsUnset brief s i)

module _ {p : Platform} {bound : ℕ} (l : Limits)
    (timely : (n : ℕ) (span : Span) → (p.script n).elapsed_ms span ≤ limit l span) where
  open p use {D, F, config, transport}

  start_power-Takes : (a : BootAnswers) → Lasts p bound l.brief_ms (start_power p a)
  unfolding start_power
  start_power-Takes a = timed l timely brief (λ w. still_call _ (λ b. (refl, refl)))

  start_motion-Takes : (a : BootAnswers) → Lasts p bound l.brief_ms (start_motion p a)
  unfolding start_motion
  start_motion-Takes a = timed_then l timely brief (still_call _ (λ b. (refl, refl)))

  start_led-Takes : (a : BootAnswers) → Lasts p bound l.brief_ms (start_led p a)
  unfolding start_led
  start_led-Takes a = timed_then l timely brief (still_call _ (λ b. (refl, refl)))

  init_gnss-Takes : (a : BootAnswers) → Lasts p bound l.brief_ms (init_gnss p a)
  unfolding init_gnss
  init_gnss-Takes a = timed_then l timely brief (still_call _ (λ b. (refl, refl)))

  init_cloud-Takes : (a : BootAnswers) → Lasts p bound l.brief_ms (init_cloud p a)
  unfolding init_cloud
  init_cloud-Takes a = timed l timely brief (λ w. still_call _ (λ b. (refl, refl)))

  start_radio-Takes : (a : BootAnswers) → Lasts p bound l.brief_ms (start_radio p a)
  unfolding start_radio
  start_radio-Takes a =
      more-Takes (omega arith) (omega arith) (omega arith)
        (bind-Takes (outside_call-Takes l timely brief) (λ err. pure-Takes _))

  -- Behind `watchdog_init`.
  drivers-Takes : (a : BootAnswers) → Lasts p bound (6 * l.brief_ms) (start_drivers p a)
  unfolding start_drivers
  drivers-Takes a = more-Takes (omega arith) (omega arith) (omega arith) (
      then-Takes (outside_call-Takes l timely brief) (
        then-Takes (start_power-Takes a) (
          then-Takes (start_motion-Takes a) (
            then-Takes (start_led-Takes a) (
              bind-Takes (init_gnss-Takes a)
                (λ err. if-Takes (is_err err) (pure-Takes _) (start_radio-Takes a)))))))

  module _ (k : Contract transport) (fits : stretch_ms config l ≤ bound) where
    bring_up-Tended :
        (a : BootAnswers) (s : Sys p)
        → IsUnset s.board.watchdog
        → Tended p bound (6 * l.brief_ms) (bring_up p a s).1
    unfolding bring_up ◌>>◌
    bring_up-Tended a s i =
        let s1 = (start_watchdog p a s).1 in
        let t1 =
          (drivers-Takes a).takes 0 s1 (omega (arith, fits)) (start_watchdog-Tended a bound s i) in
        more-Tended p bound (0 + 6 * l.brief_ms) (6 * l.brief_ms) (start_drivers p a s1).1
          (omega arith) t1

    pub main_start-Tended :
        (a : BootAnswers) (s : Sys p)
        → IsUnset s.board.watchdog
        → Tended p bound bound (main_start p a s).1
    unfolding main_start ◌>>=◌ ◌>>◌ pure
    main_start-Tended a s i =
        let s1 = (advance p brief s).1 in
        let i1 = advance-IsUnset brief s i in
        let (radio_err, s2) = bring_up p a s1 in
        let t2 = bring_up-Tended a s1 i1 in
        let s3 = (init_cloud p a s2).1 in
        let t3 = (init_cloud-Takes a).takes (6 * l.brief_ms) s2 (omega (arith, fits)) t2 in
        let t4 = (status_led_report-Takes l timely false).takes _ s3 (omega (arith, fits)) t3 in
        let t5 =
          either_branch (Tended p bound bound) (is_err radio_err) _ _ s2
            (more-Tended p bound (6 * l.brief_ms) bound s2 (omega (arith, fits)) t2)
            (more-Tended p bound (6 * l.brief_ms + l.brief_ms + 5 * l.brief_ms) bound
              (status_led_report p false s3).1 (omega (arith, fits)) t4) in
        either_branch (Tended p bound bound) (is_err a.modem_lib_err) _ _ s1 (ground (arith, i1)) t5

module _ {p : Platform} (l : Limits)
    (timely : (n : ℕ) (span : Span) → (p.script n).elapsed_ms span ≤ limit l span) where
  pub main_start-lasts :
      (a : BootAnswers) (s : Sys p)
      → (main_start p a s).1.board.now_ms ≤ s.board.now_ms + 14 * l.brief_ms
  unfolding main_start bring_up start_watchdog call ◌>>=◌ ◌>>◌ pure
  main_start-lasts a s =
      let s1 = (advance p brief s).1 in
      let s2 = (start_watchdog p a s1).1 in
      let (radio_err, s3) = start_drivers p a s2 in
      let s4 = (init_cloud p a s3).1 in
      let tick = advance-Takes {p = p} {bound = 0} l timely brief in
      let within = λ (t : Sys p). t.board.now_ms ≤ s.board.now_ms + 14 * l.brief_ms in
      let t1 = tick.lasts s in
      let t2 = tick.lasts s1 in
      let t3 = (drivers-Takes {bound = 0} l timely a).lasts s2 in
      let t4 = (init_cloud-Takes {bound = 0} l timely a).lasts s3 in
      let t5 = (status_led_report-Takes {bound = 0} l timely false).lasts s4 in
      either_branch within (is_err a.modem_lib_err) _ _ s1 (omega (arith, t1)) (
        either_branch within (is_err radio_err) _ _ s3 (omega (arith, t1, t2, t3))
          (omega (arith, t1, t2, t3, t4, t5)))
