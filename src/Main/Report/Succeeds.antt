-- ===== src/Main/Report/Succeeds.antt =====
-- When `report_fix` of app/src/main.c succeeds.
use hologram_nrf9151_gps_tra.Common.{
  ℕ, ◌+◌, ◌^◌, ◌≤◌, ◌<◌, ◌≡◌, false, Option, ℤ, pos_part, neg_part, ok, is_neg, length,
  length-take-le, arith, Bytes,
}
use hologram_nrf9151_gps_tra.Wake.{WakeReason}
use hologram_nrf9151_gps_tra.Watchdog.{report, watchdog_reset_phase}
use hologram_nrf9151_gps_tra.Power.{discharging, Reading, ChargerAnswers, power_read}
use hologram_nrf9151_gps_tra.Gnss.Fix.{TrackerFix}
use hologram_nrf9151_gps_tra.Telemetry.{Telemetry, payload_text, telemetry_build_json}
use hologram_nrf9151_gps_tra.Telemetry.Payload.{payload_fits}
use hologram_nrf9151_gps_tra.Board.{
  brief, message, Platform, Sys, advance, ◌>>=◌, ◌>>◌, pure, gets, call,
}
use hologram_nrf9151_gps_tra.Board.Ops.{uptime, rsrp_get, read_power, mark, cloud_send_telemetry}
use hologram_nrf9151_gps_tra.Main.{send_report, report_fix, awake_seconds, telemetry_of}

read-range :
    (a : ChargerAnswers) (r : Reading) → r.batt_mv < 2 ^ 16 → (power_read a r).1.batt_mv < 2 ^ 16
unfolding power_read
read-range a r h = ground (arith, h)

module _ (p : Platform) where
  open p use {D, F, transport, outside, script}

  module _
      (accepts : (n : ℕ) (json : Bytes) (s : transport.State)
        → length json ≤ 255
        → (transport.send_telemetry (script n).cloud json s).0 ≡ ok)
      (degrees_width : (d : D) → length (outside.show_6f d) ≤ 11)
      (hdop_width : (f : F) → length (outside.show_2f f) + length outside.hw_revision ≤ 52)
      (stamp_width : length outside.build_stamp ≤ 17)
      (rsrp_range : (n : ℕ)
        → (pos_part (script n).rsrp < 2 ^ 31) × (neg_part (script n).rsrp ≤ 2 ^ 31)) where
    send_report-ok :
        (payload : Bytes) (s : Sys p) → length payload ≤ 255 → (send_report p payload s).0 ≡ ok
    unfolding send_report cloud_send_telemetry ◌>>=◌ ◌>>◌ pure call advance
    send_report-ok payload s h =
        ground (arith, accepts s.board.tick payload (advance p message s).1.board.cloud h)

    built-ok :
        (phase : ℕ) (t : Telemetry D F)
        → t.batt_mv < 2 ^ 16
        → t.awake_s < 2 ^ 32
        → pos_part t.signal_dbm < 2 ^ 31
        → neg_part t.signal_dbm ≤ 2 ^ 31
        → let (err, payload) = telemetry_build_json outside phase t 256 in
          (is_neg err ≡ false) × (length payload ≤ 255)
    unfolding telemetry_build_json
    built-ok phase t batt awake low high = ground (
      arith,
      payload_fits outside phase t (degrees_width t.longitude) (degrees_width t.latitude)
          stamp_width (hdop_width t.hdop) batt awake low high,
      length-take-le 255 (payload_text outside phase t),
    )

    sent-ok :
        (fix : Option (TrackerFix D F)) (phase now wake_uptime_ms : ℕ) (a : ChargerAnswers)
        (rsrp_err : ℤ) (n : ℕ) (reason : WakeReason)
        → let power = power_read a (record { batt_mv = 0; charge = discharging }) in
          let t =
            telemetry_of p fix
              (awake_seconds p now wake_uptime_ms)
              power.0
              power.1
              rsrp_err
              (script n).rsrp
              reason in
          let (err, payload) = telemetry_build_json outside phase t 256 in
          (is_neg err ≡ false) × (length payload ≤ 255)
    unfolding telemetry_of awake_seconds
    sent-ok fix phase now wake_uptime_ms a rsrp_err n reason =
        built-ok phase _
          (ground
            (arith, read-range a (record { batt_mv = 0; charge = discharging }) (omega arith)))
          (omega arith) (ground (arith, rsrp_range n)) (ground (arith, rsrp_range n))

    -- Then every report succeeds.
    pub report_fix-ok :
        (fix : Option (TrackerFix D F)) (wake_uptime_ms : ℕ) (reason : WakeReason) (s : Sys p)
        → (report_fix p fix wake_uptime_ms reason s).0 ≡ ok
    unfolding report_fix ◌>>=◌ ◌>>◌ pure gets uptime read_power rsrp_get awake_seconds advance
    report_fix-ok fix wake_uptime_ms reason s =
        let empty : Reading = record { batt_mv = 0; charge = discharging } in
        let w1 = (advance p brief s).0 in
        let s1 = (advance p brief s).1 in
        let w2 = (advance p brief s1).0 in
        let s2 = (advance p brief s1).1 in
        let s3 = (mark p report s2).1 in
        let power = power_read w1.charger empty in
        let t =
          telemetry_of p fix (awake_seconds p s.board.now_ms wake_uptime_ms) power.0 power.1 w2.err
            w2.rsrp reason in
        let phase = watchdog_reset_phase s3.board.watchdog in
        let built = telemetry_build_json outside phase t 256 in
        let fits =
          sent-ok fix phase s.board.now_ms wake_uptime_ms w1.charger w2.err s1.board.tick reason in
        ground (arith, fits, send_report-ok built.1 s3 fits.1)
