-- ===== src/Main/Along.antt =====
-- The helpers of app/src/main.c that leave its static variables alone, put together from their calls.
use hologram_nrf9151_gps_tra.Common.{
  Bool, not, ◌&&◌, ◌||◌, Option, none, some, ℤ, einprogress, is_err, eqb_ℤ, Bytes,
}
use hologram_nrf9151_gps_tra.Board.{Platform}
use hologram_nrf9151_gps_tra.Board.Along.{
  Preorder, Along, bind-Along, then-Along, pure-Along, gets-Along, if-Along,
}
use hologram_nrf9151_gps_tra.Board.Ops.{cloud_is_ready}
use hologram_nrf9151_gps_tra.Board.Calls.{CallsAlong}
use hologram_nrf9151_gps_tra.Gnss.Fix.{TrackerFix}
use hologram_nrf9151_gps_tra.Main.{
  surge_active, agnss_wanted, led_pattern, status_led_report, send_again, show_location,
  lte_ensure_connected, count_sleep, battery_sleep,
}

module _ {p : Platform} {r : Preorder p} (c : CallsAlong p r) where
  open p use {D, F, config, transport}

  pub surge_active-Along : (motion_cycle : Bool) → Along p r (surge_active p motion_cycle)
  unfolding surge_active
  surge_active-Along motion_cycle =
      if-Along (not motion_cycle || not config.motion_wake) (pure-Along _)
        (bind-Along c.last_jolt-Along (λ last. bind-Along c.uptime-Along (λ now. (pure-Along _))))

  pub agnss_wanted-Along : Along p r (agnss_wanted p)
  unfolding agnss_wanted cloud_is_ready
  agnss_wanted-Along =
      bind-Along (gets-Along _) (λ source. bind-Along (gets-Along _) (λ ready. (pure-Along _)))

  led_pattern-Along : Along p r (led_pattern p)
  unfolding led_pattern
  led_pattern-Along = if-Along (not config.status_led) (pure-Along _) (
      bind-Along c.vbus_present-Along (λ present.
        if-Along (not present) (pure-Along _)
          (bind-Along (c.read_power-Along _) (λ reading. (pure-Along _)))))

  pub status_led_report-Along : (have_fix : Bool) → Along p r (status_led_report p have_fix)
  unfolding status_led_report
  status_led_report-Along have_fix =
      bind-Along (if-Along config.skip_lte (pure-Along _) c.lte_is_registered-Along) (λ lte.
        then-Along (c.led_set-Along _)
          (bind-Along led_pattern-Along (λ shown. c.led_show-Along shown)))

  pub send_again-Along : (payload : Bytes) → Along p r (send_again p payload)
  unfolding send_again
  send_again-Along payload =
      bind-Along c.guarded_resume-Along
        (λ err. if-Along (is_err err) (pure-Along _) (c.cloud_send_telemetry-Along payload))

  pub show_location-Along :
      (err : ℤ) (fix : Option (TrackerFix D F)) → Along p r (show_location p err fix)
  unfolding show_location
  show_location-Along err none = (pure-Along _)
  show_location-Along err (some fix) =
      if-Along (is_err err) (pure-Along _)
        (then-Along (c.cloud_send_location-Along fix) (pure-Along _))

  pub lte_ensure_connected-Along : Along p r (lte_ensure_connected p)
  unfolding lte_ensure_connected
  lte_ensure_connected-Along = bind-Along c.lte_is_registered-Along (λ registered.
      if-Along registered (pure-Along _) (
        then-Along c.lte_sem_reset-Along (
          bind-Along (c.outside_call-Along _) (λ err.
            if-Along (is_err err && not (eqb_ℤ err einprogress)) (pure-Along _)
              (bind-Along c.lte_sem_take-Along (λ given. (pure-Along _)))))))

  pub battery_sleep-Along :
      ((arm : Bool) → Along p r (count_sleep p arm)) → Along p r (battery_sleep p)
  unfolding battery_sleep
  battery_sleep-Along count = bind-Along (gets-Along _) (λ sleeps. then-Along (c.mark-Along _) (
      then-Along c.led_sleep-Along (
        then-Along (c.mark-Along _) (
          then-Along (c.arm_motion-Along _)
            (then-Along (count _) (then-Along (c.mark-Along _) c.sleep_until_wake-Along))))))
