-- ===== src/Main/Report.antt =====
-- `report_fix` of app/src/main.c.
pub mod Succeeds
use hologram_nrf9151_gps_tra.Common.{
  ℕ, ◌+◌, ◌-◌, ◌*◌, ◌/◌, ◌^◌, ◌≤◌, ◌<◌, ◌≡◌, ◌≢◌, Option, ℤ, ok, u32, Bytes, arith,
}
use hologram_nrf9151_gps_tra.Board.{Platform, Sys, ◌>>=◌, ◌>>◌, pure, gets}
use hologram_nrf9151_gps_tra.Board.Ops.{uptime, rsrp_get, read_power, mark, cloud_send_telemetry}
use hologram_nrf9151_gps_tra.Board.Calm.{
  rsrp_get-Along, read_power-Along, feed-Along, mark-Along, cloud_send_telemetry-Along,
}
use hologram_nrf9151_gps_tra.Wake.{WakeReason}
use hologram_nrf9151_gps_tra.Gnss.Fix.{TrackerFix}
use hologram_nrf9151_gps_tra.Board.Calm.{calm_calls}
use hologram_nrf9151_gps_tra.Telemetry.{telemetry_build_json}
use hologram_nrf9151_gps_tra.Power.{discharging}
use hologram_nrf9151_gps_tra.Watchdog.{report, watchdog_reset_phase}
use hologram_nrf9151_gps_tra.Main.{
  send_again, note_sent, send_report, show_location, report_fix, awake_seconds, telemetry_of,
}
use hologram_nrf9151_gps_tra.Main.Along.{send_again-Along, show_location-Along}

module _ (p : Platform) where
  open p use {D, F}

  -- While the uptime is below 2^32 s: the time in the report is that since the wake-up in whole seconds if
  -- the uptime at the wake-up is below 2^32 ms, and in general it is too large by 2^32 ms for each time
  -- that the uptime had passed 2^32 ms at the wake-up.
  pub awake_seconds_lem :
      (woken now : ℕ)
      → woken ≤ now
      → now < 2 ^ 32 * 1000
      → (woken < 2 ^ 32 → awake_seconds p now (u32 woken) ≡ (now - woken) / 1000)
        × (awake_seconds p now (u32 woken) ≡ (now - woken + 2 ^ 32 * (woken / 2 ^ 32)) / 1000)
  unfolding awake_seconds
  awake_seconds_lem woken now a b = ground arith

  -- What `last_send_uptime` is after a report that answers `err`.
  abbrev Noted : ℤ → Sys p → Sys p → Type 0
  Noted err s t =
      (err ≡ ok → (s.board.now_ms ≤ t.last_send_uptime) × (t.last_send_uptime ≤ t.board.now_ms))
      × (err ≢ ok → t.last_send_uptime ≡ s.last_send_uptime)
      × (t.battery_sleeps ≡ s.battery_sleeps)
      × (t.modem_bounced ≡ s.modem_bounced)
      × (s.board.now_ms ≤ t.board.now_ms)

  send_report-Noted :
      (payload : Bytes) (s : Sys p) → let (err, t) = send_report p payload s in Noted err s t
  unfolding send_report note_sent ◌>>=◌ ◌>>◌ pure
  send_report-Noted payload s =
      let s1 = (cloud_send_telemetry p payload s).1 in
      let s2 = (send_again p payload s1).1 in
      ground (
        arith,
        (cloud_send_telemetry-Along p payload).along s,
        (send_again-Along (calm_calls p) payload).along s1,
      )

  -- A report that answers 0 sets the time of the last report to an uptime during the call; one that
  -- answers an error, also if the link was renewed and the report sent again, leaves it alone, so that
  -- the silence goes on being counted. The other static variables are never touched.
  pub report_fix_noted :
      (fix : Option (TrackerFix D F)) (wake_uptime_ms : ℕ) (reason : WakeReason) (s : Sys p)
      → let (err, t) = report_fix p fix wake_uptime_ms reason s in
        (err ≡ ok → (s.board.now_ms ≤ t.last_send_uptime) × (t.last_send_uptime ≤ t.board.now_ms))
        × (err ≢ ok → t.last_send_uptime ≡ s.last_send_uptime)
        × (t.battery_sleeps ≡ s.battery_sleeps)
        × (t.modem_bounced ≡ s.modem_bounced)
  unfolding report_fix ◌>>=◌ ◌>>◌ pure gets uptime
  report_fix_noted fix wake_uptime_ms reason s =
      let power = read_power p (record { batt_mv = 0; charge = discharging }) s in
      let s1 = power.1 in
      let rsrp = rsrp_get p s1 in
      let s2 = rsrp.1 in
      let s3 = (mark p report s2).1 in
      let t =
        telemetry_of p fix (awake_seconds p s.board.now_ms wake_uptime_ms) power.0.0 power.0.1
          rsrp.0.0 rsrp.0.1 reason in
      let built = telemetry_build_json p.outside (watchdog_reset_phase s3.board.watchdog) t 256 in
      let sent = send_report p built.1 s3 in
      let s5 = (show_location p sent.0 fix sent.1).1 in
      ground (
        arith,
        (read_power-Along p (record { batt_mv = 0; charge = discharging })).along s,
        (rsrp_get-Along p).along s1,
        (mark-Along p report).along s2,
        send_report-Noted built.1 s3,
        (show_location-Along (calm_calls p) sent.0 fix).along sent.1,
        (feed-Along p).along s5,
      )
