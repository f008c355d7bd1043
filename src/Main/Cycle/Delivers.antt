-- ===== src/Main/Cycle/Delivers.antt =====
-- A pass of the loop of app/src/main.c with the network there brings out a report.
use hologram_nrf9151_gps_tra.Common.{
  ℕ, ◌+◌, ◌^◌, ◌≤◌, ◌<◌, ◌≡◌, ◌⊎◌, Bool, true, false, Option, some, none, pos_part, neg_part, ok,
  is_err, length, arith, u32, Bytes,
}
use hologram_nrf9151_gps_tra.Wake.{WakeReason}
use hologram_nrf9151_gps_tra.Watchdog.{lte}
use hologram_nrf9151_gps_tra.Gnss.{Answers, Gnss, gnss_start, start_modem}
use hologram_nrf9151_gps_tra.Gnss.Modem.{gnss_modem_start}
use hologram_nrf9151_gps_tra.Gnss.Ext.{gnss_ext_start}
use hologram_nrf9151_gps_tra.Config.{Config}
use hologram_nrf9151_gps_tra.Gnss.Fix.{TrackerFix, from_external}
use hologram_nrf9151_gps_tra.Board.{
  Platform, Sys, M, is_registered, advance, ◌>>=◌, ◌>>◌, pure, gets, call,
}
use hologram_nrf9151_gps_tra.Board.Along.{Along}
use hologram_nrf9151_gps_tra.Board.Calm.{start_gnss-Along}
use hologram_nrf9151_gps_tra.Board.Ops.{uptime, mark, lte_is_registered, start_gnss, feed}
use hologram_nrf9151_gps_tra.Main.{report_fix, lte_ensure_connected}
use hologram_nrf9151_gps_tra.Main.Along.{status_led_report-Along}
use hologram_nrf9151_gps_tra.Main.Report.{report_fix_noted}
use hologram_nrf9151_gps_tra.Main.Cycle.{
  rebooting, first_fix, settle_fix, publish, tracking, connected_cycle, link_up, network_up,
  wake_up, cycle, is_motion,
}
use hologram_nrf9151_gps_tra.Main.Cycle.Along.{
  first_fix-Along, settle_fix-Along, report_frequently-Along, link_up-Along, network_up-Along,
  wake_up-Along,
}
use hologram_nrf9151_gps_tra.Main.Report.Succeeds.{report_fix-ok}
use hologram_nrf9151_gps_tra.Main.Cycle.Noting.{
  Noting, noting, noting_calls, noting_track, finish-Stays,
}

module _ {D F : Type 0} (c : Config) where
  start_modem-ok : (a : Answers) (g : Gnss D F) → a.modem_err ≡ ok → (start_modem c a g).0 ≡ ok
  unfolding start_modem gnss_modem_start
  start_modem-ok a g e = ground (arith, e)

  start-ok : (a : Answers) (g : Gnss D F) → a.modem_err ≡ ok → (gnss_start c a g).0 ≡ ok
  unfolding gnss_start
  start-ok a g e =
      let x = (gnss_ext_start c a.ext_start g.ext).1 in
      ground (
        arith,
        start_modem-ok a g e,
        start_modem-ok a (record g { active = from_external; ext = x }) e,
      )

module _ (p : Platform) where
  open p use {D, F, config, transport, outside, script}

  pub start_gnss-ok :
      ((n : ℕ) → (script n).gnss.modem_err ≡ ok) → (s : Sys p) → (start_gnss p s).0 ≡ ok
  unfolding start_gnss ◌>>=◌ call advance
  start_gnss-ok receives s = start-ok config _ _ (receives s.board.tick)

  pub network_up-ok :
      ((n : ℕ) → (is_err (script n).reg_err ≡ false) × (is_registered (script n).reg_status ≡ true))
      → (s : Sys p) → (network_up p s).0 ≡ true
  unfolding network_up lte_ensure_connected lte_is_registered ◌>>=◌ ◌>>◌ pure advance
  network_up-ok registered s = ground (arith, registered (mark p lte s).1.board.tick)

  module _
      (accepts : (n : ℕ) (json : Bytes) (s : transport.State)
        → length json ≤ 255
        → (transport.send_telemetry (script n).cloud json s).0 ≡ ok)
      (degrees_width : (d : D) → length (outside.show_6f d) ≤ 11)
      (hdop_width : (f : F) → length (outside.show_2f f) + length outside.hw_revision ≤ 52)
      (stamp_width : length outside.build_stamp ≤ 17)
      (rsrp_range : (n : ℕ)
        → (pos_part (script n).rsrp < 2 ^ 31) × (neg_part (script n).rsrp ≤ 2 ^ 31)) where
    module _ (forced : config.force_publish_without_fix ≡ true) (start : ℕ) where
      -- A report is noted that was made since the uptime `start`.
      abbrev Noted : Sys p → Type 0
      Noted s = (start ≤ s.board.now_ms) × (start ≤ s.last_send_uptime)

      still-Noted :
          {A : Type 0} {m : M p A}
          → Along p (Noting p start) m
          → (s : Sys p) → Noted s
          → Noted (m s).1
      still-Noted c s n = ground (arith, c.along s n.0, n)

      report_fix-Noted :
          (fix : Option (TrackerFix D F)) (wake_uptime_ms : ℕ) (reason : WakeReason) (s : Sys p)
          → start ≤ s.board.now_ms
          → Noted (report_fix p fix wake_uptime_ms reason s).1
      report_fix-Noted fix wake_uptime_ms reason s h = ground (
        arith,
        h,
        report_fix-ok p accepts degrees_width hdop_width stamp_width rsrp_range fix wake_uptime_ms
            reason s,
        report_fix_noted p fix wake_uptime_ms reason s,
      )

      pub publish-Noted :
          (have_fix : Bool) (fix : TrackerFix D F) (wake_uptime_ms : ℕ) (reason : WakeReason)
          (s : Sys p)
          → start ≤ s.board.now_ms
          → Noted (publish p (have_fix, fix) wake_uptime_ms reason s).1
      unfolding publish ◌>>◌
      publish-Noted true fix wake_uptime_ms reason s h =
          still-Noted (status_led_report-Along (noting_calls p start) true) _
            (report_fix-Noted (some fix) wake_uptime_ms reason s h)
      publish-Noted false fix wake_uptime_ms reason s h =
          let n =
            still-Noted (status_led_report-Along (noting_calls p start) false) _
              (report_fix-Noted none wake_uptime_ms reason s h) in
          rw forced n

      tracking-Noted :
          (rounds : ℕ) (fix : TrackerFix D F) (wake_uptime_ms : ℕ) (motion_cycle : Bool)
          (reason : WakeReason) (s : Sys p)
          → start ≤ s.board.now_ms
          → Noted (tracking p rounds fix wake_uptime_ms motion_cycle reason s).1
      unfolding tracking ◌>>=◌ ◌>>◌
      tracking-Noted rounds fix wake_uptime_ms motion_cycle reason s h =
          let q = noting_track p start in
          let (found, s1) = first_fix p fix s in
          let s2 = (feed p s1).1 in
          let (settled, s3) = settle_fix p found s2 in
          let s4 = (publish p settled wake_uptime_ms reason s3).1 in
          let h1 = ((first_fix-Along q fix).along s h).0 in
          let h2 = (q.calls.feed-Along.along s1 h1).0 in
          let h3 = ((settle_fix-Along q found.0 found.1).along s2 h2).0 in
          still-Noted
            (report_frequently-Along q rounds settled.1 wake_uptime_ms motion_cycle reason) _
            (still-Noted q.calls.feed-Along s4
              (publish-Noted settled.0 settled.1 wake_uptime_ms reason s3 h3))

      connected_cycle-Noted :
          (rounds : ℕ) (fix : TrackerFix D F) (wake_uptime_ms : ℕ) (motion_cycle : Bool)
          (reason : WakeReason) (s : Sys p)
          → ((n : ℕ) → (script n).gnss.modem_err ≡ ok)
          → start ≤ s.board.now_ms
          → Noted (connected_cycle p rounds fix wake_uptime_ms motion_cycle reason s).1
      unfolding connected_cycle ◌>>=◌ ◌>>◌ pure
      connected_cycle-Noted rounds fix wake_uptime_ms motion_cycle reason s receives h =
          let c = noting_calls p start in
          let s1 = (link_up p s).1 in
          let s2 = (start_gnss p s1).1 in
          let s3 = (tracking p rounds fix wake_uptime_ms motion_cycle reason s2).1 in
          let h1 = ((link_up-Along c).along s h).0 in
          let h2 = ((noting p start (start_gnss-Along p)).along s1 h1).0 in
          let n = tracking-Noted rounds fix wake_uptime_ms motion_cycle reason s2 h2 in
          ground (arith, start_gnss-ok receives s1, n, still-Noted (finish-Stays p start) s3 n)

    -- With the modem registered whenever it is asked, a receiver of the modem that starts, and a transport
    -- that takes every payload of at most 255 bytes, a build that publishes without a fix too brings out a
    -- report in every pass that is not cut short by a reboot: the time of the last report at its end is
    -- not before its start, whatever else the outside answers, whichever interrupts come, and whether or
    -- not there is a fix, assistance or external power. This holds where a printed coordinate has at most 11
    -- characters, a printed HDOP and the hardware revision at most 52 together, the build stamp at most 17,
    -- and the signal is an `int32_t`.
    pub cycle_delivers :
        config.force_publish_without_fix ≡ true
        → ((n : ℕ)
            → (is_err (script n).reg_err ≡ false) × (is_registered (script n).reg_status ≡ true))
        → ((n : ℕ) → (script n).gnss.modem_err ≡ ok)
        → (rounds : ℕ) (fix : TrackerFix D F) (reason : WakeReason) (s : Sys p)
        → let (next, t) = cycle p rounds fix reason s in
          (next ≡ rebooting) ⊎ (s.board.now_ms ≤ t.last_send_uptime)
    unfolding cycle ◌>>=◌ ◌>>◌ pure uptime gets
    cycle_delivers forced registered receives rounds fix reason s =
        let now = s.board.now_ms in
        let q = noting_track p now in
        let s1 = (wake_up p reason s).1 in
        let s2 = (network_up p s1).1 in
        let h1 =
          ((wake_up-Along q.calls q.writes q.restart_count-Along reason).along s (omega arith)).0 in
        let h2 = ((network_up-Along q.calls).along s1 h1).0 in
        ground (
          arith,
          network_up-ok registered s1,
          connected_cycle-Noted forced now rounds fix (u32 now) (is_motion p reason) reason s2
              receives h2,
        )
