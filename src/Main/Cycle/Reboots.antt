-- ===== src/Main/Cycle/Reboots.antt =====
-- When a pass of the loop of app/src/main.c reboots the device.
use hologram_nrf9151_gps_tra.Common.{
  ℕ, ◌-◌, ◌/◌, ◌≤◌, ◌≡◌, ◌≢◌, ◌↔◌, refl, Bool, true, false, arith, u32,
}
use hologram_nrf9151_gps_tra.Wake.{WakeReason, boot, timer, vbus, motion}
use hologram_nrf9151_gps_tra.StatusLed.{no_lte}
use hologram_nrf9151_gps_tra.Gnss.Fix.{TrackerFix}
use hologram_nrf9151_gps_tra.Watchdog.{wake}
use hologram_nrf9151_gps_tra.Board.{Platform, Sys, ◌>>=◌, ◌>>◌, pure, gets, on_board}
use hologram_nrf9151_gps_tra.Board.Ops.{start_gnss, feed, mark, led_set, uptime}
use hologram_nrf9151_gps_tra.Main.Recovery.{recover_outcome}
use hologram_nrf9151_gps_tra.Main.Cycle.{
  rebooting, note_wake, restart_count, sleep_and_wake, finish, give_up, tracking, link_up,
  connected_cycle, network_up, wake_up, cycle, is_motion,
}

module _ (p : Platform) where
  open p use {D, F, config}

  sleep_no_reboot : (s : Sys p) → (sleep_and_wake p s).0 ≢ rebooting
  unfolding sleep_and_wake ◌>>=◌ pure
  sleep_no_reboot s e = ground (arith, e)

  give_up_no_reboot : (s : Sys p) → (give_up p s).0 ≢ rebooting
  unfolding give_up ◌>>◌
  give_up_no_reboot s = sleep_no_reboot _

  finish_no_reboot : (s : Sys p) → (finish p s).0 ≢ rebooting
  unfolding finish ◌>>◌
  finish_no_reboot s = sleep_no_reboot _

  connected_no_reboot :
      (rounds : ℕ) (fix : TrackerFix D F) (wake_uptime_ms : ℕ) (motion_cycle : Bool)
      (reason : WakeReason) (s : Sys p)
      → (connected_cycle p rounds fix wake_uptime_ms motion_cycle reason s).0 ≢ rebooting
  unfolding connected_cycle ◌>>=◌ ◌>>◌ pure
  connected_no_reboot rounds fix wake_uptime_ms motion_cycle reason s =
      let s2 = (start_gnss p (link_up p s).1).1 in
      let s3 = (tracking p rounds fix wake_uptime_ms motion_cycle reason s2).1 in
      ground (arith, give_up_no_reboot s2, finish_no_reboot s3)

  note_wake-times :
      (reason : WakeReason) (s : Sys p)
      → let t = (note_wake p reason s).1 in
        (t.last_send_uptime ≡ s.last_send_uptime) × (t.board ≡ s.board)
  unfolding note_wake restart_count pure
  note_wake-times vbus s = (refl, refl)
  note_wake-times boot s = (refl, refl)
  note_wake-times timer s = (refl, refl)
  note_wake-times motion s = (refl, refl)

  wake_up_lem :
      (reason : WakeReason) (s : Sys p)
      → let quiet = (s.board.now_ms - s.last_send_uptime) / 60000 in
        ((wake_up p reason s).0 ≡ true) ↔ (
          (config.skip_lte ≡ false)
          × (config.modem_recovery_minutes ≤ quiet)
          × (config.reboot_minutes ≤ quiet))
  unfolding wake_up mark feed on_board ◌>>=◌ ◌>>◌ pure
  wake_up_lem reason s =
      let s1 = (note_wake p reason s).1 in
      let s2 = (mark p wake s1).1 in
      let s3 = (feed p s2).1 in ground (arith, note_wake-times reason s, recover_outcome p s3)

  -- A pass reboots the device exactly if, in a build that uses the network, the whole minutes since the
  -- last report reach both limits at its start, whatever the outside answers and whichever interrupts
  -- come.
  pub cycle_reboots :
      (rounds : ℕ) (fix : TrackerFix D F) (reason : WakeReason) (s : Sys p)
      → let quiet = (s.board.now_ms - s.last_send_uptime) / 60000 in
        ((cycle p rounds fix reason s).0 ≡ rebooting) ↔ (
          (config.skip_lte ≡ false)
          × (config.modem_recovery_minutes ≤ quiet)
          × (config.reboot_minutes ≤ quiet))
  unfolding cycle ◌>>=◌ ◌>>◌ pure uptime gets
  cycle_reboots rounds fix reason s =
      let s1 = (wake_up p reason s).1 in
      let s2 = (network_up p s1).1 in
      let s3 = (led_set p no_lte s2).1 in
      ground (
        arith,
        wake_up_lem reason s,
        sleep_no_reboot s3,
        connected_no_reboot rounds fix (u32 s.board.now_ms) (is_motion p reason) reason s2,
      )
