-- ===== src/Main/Writes.antt =====
-- The helpers of app/src/main.c that write its static variables, put together from their calls.
use hologram_nrf9151_gps_tra.Common.{
  ℕ, ◌-◌, ◌/◌, Bool, true, false, Option, ℤ, is_neg, ltb, leb, Bytes,
}
use hologram_nrf9151_gps_tra.Board.{Platform, offline, normal}
use hologram_nrf9151_gps_tra.Board.Along.{
  Preorder, Along, bind-Along, then-Along, pure-Along, gets-Along, if-Along,
}
use hologram_nrf9151_gps_tra.Board.Calls.{CallsAlong, func_mode_set-Along}
use hologram_nrf9151_gps_tra.Wake.{WakeReason}
use hologram_nrf9151_gps_tra.Gnss.Fix.{TrackerFix}
use hologram_nrf9151_gps_tra.Telemetry.{telemetry_build_json}
use hologram_nrf9151_gps_tra.Main.{
  note_sent, send_report, report_fix, set_bounced, bounce_modem, recover_if_silent, awake_seconds,
  telemetry_of,
}
use hologram_nrf9151_gps_tra.Main.Along.{send_again-Along, show_location-Along}

-- What the writes of the static variables do.
pub record WritesAlong (p : Platform) (r : Preorder p) : Type 0 where
  pub note_sent-Along : (err : ℤ) → Along p r (note_sent p err)
  pub set_bounced-Along : (bounced : Bool) → Along p r (set_bounced p bounced)

module _ {p : Platform} {r : Preorder p} (c : CallsAlong p r) (a : WritesAlong p r) where
  open p use {D, F, config, transport, outside}

  send_report-Along : (payload : Bytes) → Along p r (send_report p payload)
  unfolding send_report
  send_report-Along payload = bind-Along (c.cloud_send_telemetry-Along payload) (λ first.
      bind-Along (if-Along _ (send_again-Along c payload) (pure-Along _))
        (λ err. then-Along (a.note_sent-Along err) (pure-Along _)))

  pub report_fix-Along :
      (fix : Option (TrackerFix D F)) (wake_uptime_ms : ℕ) (reason : WakeReason)
      → Along p r (report_fix p fix wake_uptime_ms reason)
  unfolding report_fix
  report_fix-Along fix wake_uptime_ms reason = bind-Along c.uptime-Along (λ now.
      bind-Along (c.read_power-Along _) (λ (power_err, reading).
        bind-Along c.rsrp_get-Along (λ (rsrp_err, rsrp). then-Along (c.mark-Along _) (
          bind-Along (gets-Along _) (λ phase.
            let t =
              telemetry_of p fix (awake_seconds p now wake_uptime_ms) power_err reading rsrp_err
                rsrp reason in
            let built = telemetry_build_json outside phase t 256 in
            if-Along (is_neg built.0) (pure-Along _) (
              bind-Along (send_report-Along built.1) (λ err.
                then-Along (show_location-Along c err fix)
                  (then-Along c.feed-Along (pure-Along _)))))))))

  pub recover_if_silent-Along : Along p r (recover_if_silent p)
  unfolding recover_if_silent bounce_modem
  recover_if_silent-Along = bind-Along c.uptime-Along (λ now. bind-Along (gets-Along _) (λ last.
      bind-Along (gets-Along _) (λ bounced.
        let quiet_min = (now - last) / 60000 in
        if-Along (ltb quiet_min config.modem_recovery_minutes)
          (then-Along (a.set_bounced-Along false) (pure-Along _))
          (if-Along (leb config.reboot_minutes quiet_min)
            (then-Along (c.mark-Along _) (then-Along (c.outside_call-Along _) (pure-Along _)))
            (if-Along bounced (pure-Along _) (
              then-Along
                (then-Along (a.set_bounced-Along true) (
                  then-Along (func_mode_set-Along c offline) (
                    then-Along (c.outside_call-Along _)
                      (then-Along (func_mode_set-Along c normal) (pure-Along _)))))
                (pure-Along _)))))))
