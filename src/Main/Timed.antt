-- ===== src/Main/Timed.antt =====
-- How long the helpers of app/src/main.c leave the watchdog unfed.
use hologram_nrf9151_gps_tra.Common.{
  ℕ, ◌+◌, ◌-◌, ◌*◌, ◌/◌, ◌≤◌, Bool, not, ◌&&◌, ◌||◌, true, false, Option, none, some, ℤ,
  einprogress, is_err, is_neg, eqb_ℤ, ltb, leb, arith, Bytes,
}
use hologram_nrf9151_gps_tra.Wake.{WakeReason}
use hologram_nrf9151_gps_tra.Gnss.Fix.{TrackerFix}
use hologram_nrf9151_gps_tra.Telemetry.{telemetry_build_json}
use hologram_nrf9151_gps_tra.Transport.Contract.{Contract}
use hologram_nrf9151_gps_tra.Board.{Platform, Span, offline, normal, brief, sleep_ms}
use hologram_nrf9151_gps_tra.Board.Ops.{cloud_is_ready, uptime}
use hologram_nrf9151_gps_tra.Board.Timed.{
  Lasts, Limits, limit, wait_ms, Takes, bind-Takes, then-Takes, if-Takes, pure-Takes, free-Takes,
  gets-Takes, more-Takes, bind-Feeds, then-Feeds, Feeds-bind, Feeds-then, Feeds-Takes,
}
use hologram_nrf9151_gps_tra.Board.Timed.Calls.{
  func_mode_set-Takes, last_jolt-Takes, lte_is_registered-Takes, led_set-Takes, led_show-Takes,
  vbus_present-Takes, read_power-Takes, cloud_send_telemetry-Takes, cloud_send_location-Takes,
  rsrp_get-Takes, mark-Takes, feed-Feeds, outside_call-Takes, lte_sem_reset-Takes,
  lte_sem_take-Takes, led_sleep-Takes, arm_motion-Takes, sleep_until_wake-Takes,
}
use hologram_nrf9151_gps_tra.Board.Timed.Guarded.{guarded_resume-Feeds}
use hologram_nrf9151_gps_tra.Main.{
  surge_active, agnss_wanted, led_pattern, status_led_report, send_again, note_sent, send_report,
  show_location, report_fix, set_bounced, bounce_modem, recover_if_silent, lte_ensure_connected,
  count_sleep, battery_sleep, awake_seconds, telemetry_of,
}

-- A report with the power and the signal asked, the link renewed, and the location sent.
abbrev pub report_ms : Limits → ℕ
report_ms l = 2 * l.brief_ms + l.connection_ms + 3 * l.message_ms

module _ {p : Platform} {bound : ℕ} where
  open p use {config}

  uptime-Takes : Lasts p bound 0 (uptime p)
  unfolding uptime
  uptime-Takes = gets-Takes _

  pub surge_active-Takes : (motion_cycle : Bool) → Lasts p bound 0 (surge_active p motion_cycle)
  unfolding surge_active
  surge_active-Takes motion_cycle = more-Takes (omega arith) (omega arith) (omega arith) (
      if-Takes (not motion_cycle || not config.motion_wake) (pure-Takes _)
        (bind-Takes last_jolt-Takes (λ last. bind-Takes uptime-Takes (λ now. pure-Takes _))))

  pub agnss_wanted-Takes : Lasts p bound 0 (agnss_wanted p)
  unfolding agnss_wanted cloud_is_ready
  agnss_wanted-Takes =
      more-Takes (omega arith) (omega arith) (omega arith)
        (bind-Takes (gets-Takes _) (λ source. bind-Takes (gets-Takes _) (λ ready. pure-Takes _)))

  note_sent-Takes : (err : ℤ) → Lasts p bound 0 (note_sent p err)
  unfolding note_sent
  note_sent-Takes err = free-Takes _ (λ s. (ground arith, ground arith))

  set_bounced-Takes : (b : Bool) → Lasts p bound 0 (set_bounced p b)
  unfolding set_bounced
  set_bounced-Takes b = free-Takes _ (λ s. (ground arith, ground arith))

  count_sleep-Takes : (arm : Bool) → Lasts p bound 0 (count_sleep p arm)
  unfolding count_sleep
  count_sleep-Takes arm = free-Takes _ (λ s. (ground arith, ground arith))

module _ {p : Platform} {bound : ℕ} (l : Limits)
    (timely : (n : ℕ) (span : Span) → (p.script n).elapsed_ms span ≤ limit l span) where
  open p use {D, F, config, outside}

  led_pattern-Takes : Lasts p bound (2 * l.brief_ms) (led_pattern p)
  unfolding led_pattern
  led_pattern-Takes = more-Takes (omega arith) (omega arith) (omega arith) (
      if-Takes (not config.status_led) (pure-Takes _) (
        bind-Takes (vbus_present-Takes l timely) (λ present.
          if-Takes (not present) (pure-Takes _)
            (bind-Takes (read_power-Takes l timely _) (λ reading. pure-Takes _)))))

  pub status_led_report-Takes :
      (have_fix : Bool) → Lasts p bound (5 * l.brief_ms) (status_led_report p have_fix)
  unfolding status_led_report
  status_led_report-Takes have_fix = more-Takes (omega arith) (omega arith) (omega arith) (
      bind-Takes (if-Takes config.skip_lte (pure-Takes _) (lte_is_registered-Takes l timely))
        (λ lte.
          then-Takes (led_set-Takes l timely _)
            (bind-Takes led_pattern-Takes (λ shown. led_show-Takes l timely shown))))

  show_location-Takes :
      (err : ℤ) (fix : Option (TrackerFix D F))
      → Lasts p bound l.message_ms (show_location p err fix)
  unfolding show_location
  show_location-Takes err none = more-Takes (omega arith) (omega arith) (omega arith) (pure-Takes _)
  show_location-Takes err (some fix) = more-Takes (omega arith) (omega arith) (omega arith) (
      if-Takes (is_err err) (pure-Takes _)
        (then-Takes (cloud_send_location-Takes l timely fix) (pure-Takes _)))

  pub recover_if_silent-Takes : Lasts p bound (1000 + 3 * l.brief_ms) (recover_if_silent p)
  unfolding recover_if_silent bounce_modem
  recover_if_silent-Takes = more-Takes (omega arith) (omega arith) (omega arith) (
      bind-Takes uptime-Takes (λ now. bind-Takes (gets-Takes _) (λ last.
        bind-Takes (gets-Takes _) (λ bounced.
          let quiet_min = (now - last) / 60000 in
          if-Takes (ltb quiet_min config.modem_recovery_minutes)
            (then-Takes (set_bounced-Takes false) (pure-Takes _))
            (if-Takes (leb config.reboot_minutes quiet_min)
              (then-Takes (mark-Takes _)
                (then-Takes (outside_call-Takes l timely (sleep_ms 200)) (pure-Takes _)))
              (if-Takes bounced (pure-Takes _) (
                then-Takes
                  (then-Takes (set_bounced-Takes true) (
                    then-Takes (func_mode_set-Takes l timely offline) (
                      then-Takes (outside_call-Takes l timely (sleep_ms 1000))
                        (then-Takes (func_mode_set-Takes l timely normal) (pure-Takes _)))))
                  (pure-Takes _))))))))

  pub lte_ensure_connected-Takes :
      Lasts p bound
        (2 * l.brief_ms + wait_ms l config.lte_connect_timeout_seconds)
        (lte_ensure_connected p)
  unfolding lte_ensure_connected
  lte_ensure_connected-Takes = more-Takes (omega arith) (omega arith) (omega arith) (
      bind-Takes (lte_is_registered-Takes l timely) (λ registered.
        if-Takes registered (pure-Takes _) (
          then-Takes lte_sem_reset-Takes (
            bind-Takes (outside_call-Takes l timely brief) (λ err.
              if-Takes (is_err err && not (eqb_ℤ err einprogress)) (pure-Takes _)
                (bind-Takes (lte_sem_take-Takes l timely) (λ given. pure-Takes _)))))))

  pub battery_sleep-Takes :
      Lasts p bound (2 * l.brief_ms + wait_ms l config.sleep_seconds) (battery_sleep p)
  unfolding battery_sleep
  battery_sleep-Takes = more-Takes (omega arith) (omega arith) (omega arith) (
      bind-Takes (gets-Takes _) (λ sleeps. then-Takes (mark-Takes _) (
        then-Takes (led_sleep-Takes l timely) (
          then-Takes (mark-Takes _) (
            then-Takes (arm_motion-Takes l timely _) (
              then-Takes (count_sleep-Takes _)
                (then-Takes (mark-Takes _) (sleep_until_wake-Takes l timely))))))))

  module _ (k : Contract p.transport) (fits : report_ms l ≤ bound) where
    send_again-Takes :
        (payload : Bytes)
        → Takes p bound l.connection_ms l.message_ms
            (l.connection_ms + l.message_ms)
            (send_again p payload)
    unfolding send_again
    send_again-Takes payload =
        Feeds-bind {c = l.message_ms} {d = l.message_ms} {u = l.message_ms}
          (guarded_resume-Feeds l timely k) (omega (arith, fits))
          (λ err.
            more-Takes (omega arith) (omega arith) (omega arith)
              (if-Takes (is_err err) (pure-Takes _) (cloud_send_telemetry-Takes l timely payload)))

    send_report-Takes :
        (payload : Bytes)
        → Takes p bound
            (l.connection_ms + 2 * l.message_ms)
            (2 * l.message_ms)
            (l.connection_ms + 2 * l.message_ms)
            (send_report p payload)
    unfolding send_report
    send_report-Takes payload = more-Takes (omega arith) (omega arith) (omega arith) (
        bind-Takes (cloud_send_telemetry-Takes l timely payload) (λ first.
          bind-Takes (if-Takes _ (send_again-Takes payload) (pure-Takes _))
            (λ err. then-Takes (note_sent-Takes err) (pure-Takes _))))

    -- A report that was built ends with a feed.
    pub report_fix-Takes :
        (fix : Option (TrackerFix D F)) (wake_uptime_ms : ℕ) (reason : WakeReason)
        → Takes p bound
            (report_ms l)
            (2 * l.brief_ms)
            (report_ms l)
            (report_fix p fix wake_uptime_ms reason)
    unfolding report_fix
    report_fix-Takes fix wake_uptime_ms reason =
        more-Takes (omega arith) (omega arith) (omega arith) (
          bind-Takes uptime-Takes (λ now.
            bind-Takes (read_power-Takes l timely _) (λ (power_err, reading).
              bind-Takes (rsrp_get-Takes l timely) (λ (rsrp_err, rsrp). then-Takes (mark-Takes _) (
                bind-Takes (gets-Takes _) (λ phase.
                  let t =
                    telemetry_of p fix (awake_seconds p now wake_uptime_ms) power_err reading
                      rsrp_err rsrp reason in
                  let built = telemetry_build_json outside phase t 256 in
                  if-Takes (is_neg built.0) (pure-Takes _) (
                    Feeds-Takes (
                      bind-Feeds (send_report-Takes built.1) (λ err.
                        then-Feeds (show_location-Takes err fix)
                          (Feeds-then feed-Feeds (pure-Takes _)))))))))))
