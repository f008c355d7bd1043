-- ===== src/Main/Cycle/Ends.antt =====
-- A pass of the loop of app/src/main.c on battery comes to its end.
use hologram_nrf9151_gps_tra.Common.{ℕ, ◌+◌, ◌*◌, ◌≤◌, ◌<◌, ◌≡◌, ◌≢◌, Bool, true, arith, u32}
use hologram_nrf9151_gps_tra.Wake.{WakeReason}
use hologram_nrf9151_gps_tra.StatusLed.{no_lte}
use hologram_nrf9151_gps_tra.Gnss.Fix.{TrackerFix}
use hologram_nrf9151_gps_tra.Board.{Span, Platform, Sys, ◌>>=◌, ◌>>◌, pure, gets}
use hologram_nrf9151_gps_tra.Board.Quiet.{no_jolts, Quiet, quiet_calls, start_gnss-KeepsQuiet}
use hologram_nrf9151_gps_tra.Board.Ops.{vbus_present, start_gnss, feed, led_set, uptime}
use hologram_nrf9151_gps_tra.Main.Cycle.{
  still_reporting, frequent_wanted, report_frequently, first_fix, settle_fix, publish, tracking,
  sleep_and_wake, finish, give_up, link_up, connected_cycle, network_up, wake_up, cycle, is_motion,
}
use hologram_nrf9151_gps_tra.Main.Cycle.Along.{
  first_fix-Along, settle_fix-Along, publish-Along, link_up-Along, network_up-Along, wake_up-Along,
}
use hologram_nrf9151_gps_tra.Main.Cycle.Frequent.{
  sees_no_power, jolt_time, quiet_track, vbus_lem, wanted_lem, frequent_ends,
}

module _ (p : Platform) where
  open p use {D, F, config, script}

  -- A sleep ends in a wake-up.
  sleep_wakes : (s : Sys p) → (sleep_and_wake p s).0 ≢ still_reporting
  unfolding sleep_and_wake ◌>>=◌ pure
  sleep_wakes s e = ground (arith, e)

  give_up_wakes : (s : Sys p) → (give_up p s).0 ≢ still_reporting
  unfolding give_up ◌>>◌
  give_up_wakes s = sleep_wakes _

  finish_wakes : (s : Sys p) → (finish p s).0 ≢ still_reporting
  unfolding finish ◌>>◌
  finish_wakes s = sleep_wakes _

  module _ (calm : (n : ℕ) → no_jolts (script n).interrupts ≡ true)
      (unpowered : (n : ℕ) → sees_no_power p (script n).charger ≡ true)
      (passing : (n : ℕ) (span : Span) → 1 ≤ (script n).elapsed_ms span) where
    -- The surge is over when so many milliseconds have passed.
    abbrev Enough : ℕ → Sys p → Type 0
    Enough rounds s = jolt_time p s + config.motion_surge_seconds * 1000 < s.board.now_ms + rounds

    later-Enough : (rounds : ℕ) (s t : Sys p) → Quiet p s t → Enough rounds s → Enough rounds t
    later-Enough rounds s t q h = ground (arith, q, h)

    report_frequently_ends :
        (rounds : ℕ) (fix : TrackerFix D F) (wake_uptime_ms : ℕ) (motion_cycle : Bool)
        (reason : WakeReason) (s : Sys p)
        → Enough rounds s
        → 1 ≤ rounds
        → (report_frequently p rounds fix wake_uptime_ms motion_cycle reason s).0 ≡ true
    unfolding report_frequently ◌>>=◌ ◌>>◌ pure
    report_frequently_ends rounds fix wake_uptime_ms motion_cycle reason s h one =
        let s1 = (frequent_wanted p motion_cycle s).1 in
        let s2 = (vbus_present p s1).1 in
        let h1 =
          later-Enough rounds s s1 (wanted_lem p calm unpowered passing motion_cycle s).2 h in
        let h2 = later-Enough rounds s1 s2 (vbus_lem p calm unpowered passing s1).2 h1 in
        ground (
          arith,
          frequent_ends p calm unpowered passing rounds fix wake_uptime_ms motion_cycle reason s2 h2
              one,
        )

    tracking_ends :
        (rounds : ℕ) (fix : TrackerFix D F) (wake_uptime_ms : ℕ) (motion_cycle : Bool)
        (reason : WakeReason) (s : Sys p)
        → Enough rounds s
        → 1 ≤ rounds
        → (tracking p rounds fix wake_uptime_ms motion_cycle reason s).0 ≡ true
    unfolding tracking ◌>>=◌ ◌>>◌
    tracking_ends rounds fix wake_uptime_ms motion_cycle reason s h one =
        let q = quiet_track p calm in
        let (found, s1) = first_fix p fix s in
        let s2 = (feed p s1).1 in
        let (settled, s3) = settle_fix p found s2 in
        let s4 = (publish p settled wake_uptime_ms reason s3).1 in
        let s5 = (feed p s4).1 in
        let h1 = later-Enough rounds s s1 ((first_fix-Along q fix).along s) h in
        let h2 = later-Enough rounds s1 s2 (q.calls.feed-Along.along s1) h1 in
        let h3 = later-Enough rounds s2 s3 ((settle_fix-Along q found.0 found.1).along s2) h2 in
        let h4 =
          later-Enough rounds s3 s4
            ((publish-Along q settled.0 settled.1 wake_uptime_ms reason).along s3) h3 in
        let h5 = later-Enough rounds s4 s5 (q.calls.feed-Along.along s4) h4 in
        report_frequently_ends rounds settled.1 wake_uptime_ms motion_cycle reason s5 h5 one

    connected_cycle_ends :
        (rounds : ℕ) (fix : TrackerFix D F) (wake_uptime_ms : ℕ) (motion_cycle : Bool)
        (reason : WakeReason) (s : Sys p)
        → Enough rounds s
        → 1 ≤ rounds
        → (connected_cycle p rounds fix wake_uptime_ms motion_cycle reason s).0 ≢ still_reporting
    unfolding connected_cycle ◌>>=◌ ◌>>◌ pure
    connected_cycle_ends rounds fix wake_uptime_ms motion_cycle reason s h one =
        let q = quiet_calls p calm in
        let s1 = (link_up p s).1 in
        let s2 = (start_gnss p s1).1 in
        let s3 = (tracking p rounds fix wake_uptime_ms motion_cycle reason s2).1 in
        let h1 = later-Enough rounds s s1 ((link_up-Along q).along s) h in
        let h2 = later-Enough rounds s1 s2 ((start_gnss-KeepsQuiet p calm).along s1) h1 in
        ground (
          arith,
          give_up_wakes s2,
          finish_wakes s3,
          tracking_ends rounds fix wake_uptime_ms motion_cycle reason s2 h2 one,
        )

    -- On battery (the charger can be read and sees no power), with no further jolt and every call taking
    -- at least a millisecond, a pass comes to its end: in a sleep and its wake-up or in a reboot, within
    -- as many rounds of frequent reports as there are milliseconds left of the surge when it starts, and
    -- one.
    pub cycle_ends :
        (rounds : ℕ) (fix : TrackerFix D F) (reason : WakeReason) (s : Sys p)
        → jolt_time p s + config.motion_surge_seconds * 1000 < s.board.now_ms + rounds
        → 1 ≤ rounds
        → (cycle p rounds fix reason s).0 ≢ still_reporting
    unfolding cycle ◌>>=◌ ◌>>◌ pure uptime gets
    cycle_ends rounds fix reason s h one =
        let q = quiet_track p calm in
        let s1 = (wake_up p reason s).1 in
        let s2 = (network_up p s1).1 in
        let s3 = (led_set p no_lte s2).1 in
        let h1 =
          later-Enough rounds s s1
            ((wake_up-Along q.calls q.writes q.restart_count-Along reason).along s) h in
        let h2 = later-Enough rounds s1 s2 ((network_up-Along q.calls).along s1) h1 in
        ground (
          arith,
          sleep_wakes s3,
          connected_cycle_ends rounds fix (u32 s.board.now_ms) (is_motion p reason) reason s2 h2
              one,
        )
