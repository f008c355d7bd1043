-- ===== src/Main/Cycle/Stops.antt =====
-- Every pass of the loop of app/src/main.c leaves the receivers off.
use hologram_nrf9151_gps_tra.Common.{ℕ, ◌≡◌, ◌⊎◌, Bool, true, is_err, arith, u32}
use hologram_nrf9151_gps_tra.Wake.{WakeReason}
use hologram_nrf9151_gps_tra.StatusLed.{no_lte}
use hologram_nrf9151_gps_tra.Watchdog.{gnss_stop, cloud_pause as phase_cloud_pause}
use hologram_nrf9151_gps_tra.Gnss.Fix.{TrackerFix}
use hologram_nrf9151_gps_tra.Gnss.Arbiter.{Obeys, IsStopped, start_outcome}
use hologram_nrf9151_gps_tra.Board.{
  receiver_start, Platform, Sys, M, advance, ◌>>=◌, ◌>>◌, pure, gets, call,
}
use hologram_nrf9151_gps_tra.Board.Along.{Along}
use hologram_nrf9151_gps_tra.Board.Ops.{start_gnss, stop_gnss, cloud_pause, mark, led_set, uptime}
use hologram_nrf9151_gps_tra.Board.Receivers.{advance-Still, KeepsReceivers, still_calls}
use hologram_nrf9151_gps_tra.Main.{battery_sleep}
use hologram_nrf9151_gps_tra.Main.Along.{battery_sleep-Along}
use hologram_nrf9151_gps_tra.Main.Cycle.{
  still_reporting, link_up, tracking, finish, connected_cycle, network_up, wake_up, cycle,
  is_motion,
}
use hologram_nrf9151_gps_tra.Main.Cycle.Along.{
  tracking-Along, link_up-Along, network_up-Along, sleep_and_wake-Along, give_up-Along,
  wake_up-Along,
}
use hologram_nrf9151_gps_tra.Main.Cycle.Receivers.{
  Alone, Stopped, Still-Alone, Still-Stopped, still_writes, restart_count-Still, count_sleep-Still,
  track, stop_gnss-Stopped, answer-Obeys,
}

module _ (p : Platform) where
  open p use {D, F, config, script}

  sleep-KeepsReceivers : Along p (KeepsReceivers p) (battery_sleep p)
  sleep-KeepsReceivers =
      battery_sleep-Along (still_calls p) (λ arm. record { along = count_sleep-Still p arm })

  Stopped-Along :
      {A : Type 0} {m : M p A}
      → Along p (KeepsReceivers p) m
      → (s : Sys p) → Stopped p s
      → Stopped p (m s).1
  Stopped-Along {m} c s h = Still-Stopped p s (m s).1 (c.along s) h

  wake_up-KeepsReceivers : (reason : WakeReason) → Along p (KeepsReceivers p) (wake_up p reason)
  wake_up-KeepsReceivers reason =
      wake_up-Along (still_calls p) (still_writes p) (record { along = restart_count-Still p })
        reason

  module _ (obeys : (n : ℕ) → Obeys (script n).gnss) where
    start_gnss-lem :
        (s : Sys p)
        → Stopped p s
        → let (err, t) = start_gnss p s in Alone p t × (is_err err ≡ true → Stopped p t)
    unfolding start_gnss ◌>>=◌ call
    start_gnss-lem s h =
        let s1 = (advance p receiver_start s).1 in
        let w = (advance p receiver_start s).0 in
        ground (
          arith,
          start_outcome config w.gnss s1.board.gnss
              (Still-Stopped p s s1 (advance-Still p receiver_start s) h)
              (answer-Obeys p obeys receiver_start s),
        )

    finish-Stopped : (s : Sys p) → Alone p s → Stopped p (finish p s).1
    unfolding finish ◌>>◌
    finish-Stopped s i =
        let c = still_calls p in
        let s1 = (mark p gnss_stop s).1 in
        let s2 = (stop_gnss p s1).1 in
        let s3 = (mark p phase_cloud_pause s2).1 in
        let s4 = (cloud_pause p s3).1 in
        Stopped-Along (sleep_and_wake-Along c sleep-KeepsReceivers) s4 (
          Stopped-Along c.cloud_pause-Along s3 (
            Stopped-Along (c.mark-Along phase_cloud_pause) s2 (
              stop_gnss-Stopped p obeys s1
                (Still-Alone p s s1 ((c.mark-Along gnss_stop).along s) i))))

    connected_cycle-Stopped :
        (rounds : ℕ) (fix : TrackerFix D F) (wake_uptime_ms : ℕ) (motion_cycle : Bool)
        (reason : WakeReason) (s : Sys p)
        → Stopped p s
        → let (next, t) = connected_cycle p rounds fix wake_uptime_ms motion_cycle reason s in
          (next ≡ still_reporting) ⊎ Stopped p t
    unfolding connected_cycle ◌>>=◌ ◌>>◌ pure
    connected_cycle-Stopped rounds fix wake_uptime_ms motion_cycle reason s h =
        let c = still_calls p in
        let s1 = (link_up p s).1 in
        let s2 = (start_gnss p s1).1 in
        let s3 = (tracking p rounds fix wake_uptime_ms motion_cycle reason s2).1 in
        let h1 = Still-Stopped p s s1 ((link_up-Along c).along s) h in
        ground (
          arith,
          start_gnss-lem s1 h1,
          (give_up-Along c sleep-KeepsReceivers).along s2,
          (tracking-Along (track p obeys) rounds fix wake_uptime_ms motion_cycle reason).along s2,
          finish-Stopped s3,
        )

    -- Where the modem never refuses a stop, nor the UART a suspend, a pass that starts with both receivers off ends with both
    -- off, whether it ends in a sleep or in a reboot, and whatever else fails: the link, a start, the
    -- fallback or the assistance. Only a pass whose rounds of
    -- frequent reports are used up is not over.
    pub cycle_stops :
        (rounds : ℕ) (fix : TrackerFix D F) (reason : WakeReason) (s : Sys p)
        → IsStopped config s.board.gnss
        → let (next, t) = cycle p rounds fix reason s in
          (next ≡ still_reporting) ⊎ IsStopped config t.board.gnss
    unfolding cycle ◌>>=◌ ◌>>◌ pure uptime gets
    cycle_stops rounds fix reason s h =
        let c = still_calls p in
        let s1 = (wake_up p reason s).1 in
        let h1 = Stopped-Along (wake_up-KeepsReceivers reason) s h in
        let s2 = (network_up p s1).1 in
        let h2 = Stopped-Along (network_up-Along c) s1 h1 in
        let s3 = (led_set p no_lte s2).1 in
        let h3 = Stopped-Along (c.led_set-Along no_lte) s2 h2 in
        ground (
          arith,
          h1,
          Stopped-Along (sleep_and_wake-Along c sleep-KeepsReceivers) s3 h3,
          connected_cycle-Stopped rounds fix (u32 s.board.now_ms) (is_motion p reason) reason s2 h2,
        )
