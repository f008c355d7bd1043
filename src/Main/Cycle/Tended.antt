-- ===== src/Main/Cycle/Tended.antt =====
-- How long a pass of the loop of app/src/main.c leaves the watchdog unfed: the stretches from feed to
-- feed.
use hologram_nrf9151_gps_tra.Common.{
  ℕ, zero, suc, ◌+◌, ◌*◌, ◌≤◌, Bool, not, true, false, is_err, arith, u32,
}
use hologram_nrf9151_gps_tra.Wake.{WakeReason}
use hologram_nrf9151_gps_tra.Gnss.Fix.{TrackerFix}
use hologram_nrf9151_gps_tra.Transport.Contract.{Contract}
use hologram_nrf9151_gps_tra.Board.{Platform, Sys, Span, sleep_ms, ◌>>=◌, ◌>>◌, pure, gets}
use hologram_nrf9151_gps_tra.Board.Ops.{
  feed, mark, start_gnss, uptime, led_set, wait_fix, outside_call, vbus_present, guarded_resume,
}
use hologram_nrf9151_gps_tra.StatusLed.{no_lte}
use hologram_nrf9151_gps_tra.Watchdog.{
  frequent as phase_frequent, cloud_resume as phase_cloud_resume, gnss_start as phase_gnss_start,
  wake,
}
use hologram_nrf9151_gps_tra.Board.Timed.{
  Limits, limit, wait_ms, Tended, more-Tended, either_branch, Takes, then-Takes, if-Takes,
  more-Takes,
}
use hologram_nrf9151_gps_tra.Board.Timed.Calls.{
  mark-Takes, wait_fix-Takes, outside_call-Takes, vbus_present-Takes, feed-Feeds, start_gnss-Takes,
  led_set-Takes,
}
use hologram_nrf9151_gps_tra.Board.Timed.Guarded.{guarded_resume-Feeds}
use hologram_nrf9151_gps_tra.Main.{status_led_report}
use hologram_nrf9151_gps_tra.Main.Timed.{report_ms, status_led_report-Takes, report_fix-Takes}
use hologram_nrf9151_gps_tra.Main.Cycle.Timed.{
  search_ms, settle_ms, published_ms, publish_ms, round_ms, battery_ms, network_ms, finish_ms,
  head_ms, stretch_ms, note_wake-Takes, first_fix-Takes, settle_fix-Takes, frequent_wanted-Takes,
  disarm_if_powered-Takes, sleep_and_wake-Takes, network_up-Takes, give_up-Takes, finish-Takes,
  silence-Takes,
}
use hologram_nrf9151_gps_tra.Main.Cycle.{
  first_fix, publish, settle_fix, frequent_wanted, disarm_if_powered, frequent_round, frequent,
  report_frequently, sleep_and_wake, connected_cycle, link_up, tracking, finish, give_up,
  network_up, note_wake, wake_up, cycle, still_reporting, is_motion,
}

module _ {p : Platform} {bound : ℕ} (l : Limits)
    (timely : (n : ℕ) (span : Span) → (p.script n).elapsed_ms span ≤ limit l span) where
  open p use {D, F, config, transport}

  module _ (k : Contract transport) (fits : stretch_ms config l ≤ bound) where
    pub publish-Takes :
        (have_fix : Bool) (fix : TrackerFix D F) (wake_uptime_ms : ℕ) (reason : WakeReason)
        → Takes p bound
            (publish_ms config l)
            (published_ms config l)
            (publish_ms config l)
            (publish p (have_fix, fix) wake_uptime_ms reason)
    unfolding publish
    publish-Takes have_fix fix wake_uptime_ms reason =
        let enough : report_ms l ≤ bound = omega (arith, fits) in
        let r = report_fix-Takes l timely k enough in
        let led = status_led_report-Takes l timely in
        more-Takes (omega arith) (omega arith) (omega arith) (
          if-Takes have_fix (then-Takes (r _ _ _) (led true)) (
            if-Takes config.force_publish_without_fix (then-Takes (r _ _ _) (led false))
              (led false)))

    frequent_round-Tended :
        (fix : TrackerFix D F) (wake_uptime_ms : ℕ) (reason : WakeReason) (s : Sys p)
        → Tended p bound (head_ms config l + l.brief_ms) s
        → Tended p bound (round_ms config l) (frequent_round p fix wake_uptime_ms reason s).1
    unfolding frequent_round ◌>>=◌ ◌>>◌ pure
    frequent_round-Tended fix wake_uptime_ms reason s t =
        let s1 = (mark p phase_frequent s).1 in
        let s2 = (disarm_if_powered p s1).1 in
        let span = sleep_ms (config.charging_interval_seconds * 1000) in
        let s3 = (outside_call p span s2).1 in
        let s4 = (feed p s3).1 in
        let n = head_ms config l + l.brief_ms in
        let t1 = (mark-Takes phase_frequent).takes n s (omega (arith, fits)) t in
        let t2 = (disarm_if_powered-Takes l timely).takes _ s1 (omega (arith, fits)) t1 in
        let t3 = (outside_call-Takes l timely span).takes _ s2 (omega (arith, fits)) t2 in
        let t4 = feed-Feeds.feeds _ s3 (omega (arith, fits)) t3 in
        let found = wait_fix p 10 fix s4 in
        let t5 = (wait_fix-Takes l timely 10 fix).takes 0 s4 (omega (arith, fits)) t4 in
        let t6 =
          (publish-Takes (not (is_err found.0.0)) found.0.1 wake_uptime_ms reason).takes
            (wait_ms l 10) found.1 (omega (arith, fits))
            (more-Tended p bound (0 + wait_ms l 10) _ found.1 (omega arith) t5) in
        more-Tended p bound (wait_ms l 10 + published_ms config l) (round_ms config l)
          (frequent_round p fix wake_uptime_ms reason s).1 (omega arith) t6

    frequent-Tended :
        (rounds : ℕ) (fix : TrackerFix D F) (wake_uptime_ms : ℕ) (motion_cycle : Bool)
        (reason : WakeReason) (s : Sys p)
        → Tended p bound (head_ms config l) s
        → Tended p bound
            (head_ms config l + l.brief_ms)
            (frequent p rounds fix wake_uptime_ms motion_cycle reason s).1
    unfolding frequent ◌>>=◌ pure
    frequent-Tended zero fix wake_uptime_ms motion_cycle reason s t = ground (arith, t)
    frequent-Tended (suc rounds) fix wake_uptime_ms motion_cycle reason s t =
        let s1 = (frequent_wanted p motion_cycle s).1 in
        let t1 = (frequent_wanted-Takes l timely motion_cycle).takes _ s (omega (arith, fits)) t in
        let (fix', s2) = frequent_round p fix wake_uptime_ms reason s1 in
        let t2 = frequent_round-Tended fix wake_uptime_ms reason s1 t1 in
        let t3 =
          frequent-Tended rounds fix' wake_uptime_ms motion_cycle reason s2 (ground (arith, t2)) in
        either_branch (Tended p bound (head_ms config l + l.brief_ms))
          (not (frequent_wanted p motion_cycle s).0) _ _ s1 t1 t3

    report_frequently-Tended :
        (rounds : ℕ) (fix : TrackerFix D F) (wake_uptime_ms : ℕ) (motion_cycle : Bool)
        (reason : WakeReason) (s : Sys p)
        → Tended p bound 0 s
        → Tended p bound
            (head_ms config l + l.brief_ms)
            (report_frequently p rounds fix wake_uptime_ms motion_cycle reason s).1
    unfolding report_frequently ◌>>=◌ ◌>>◌ pure
    report_frequently-Tended rounds fix wake_uptime_ms motion_cycle reason s t =
        let s1 = (frequent_wanted p motion_cycle s).1 in
        let s2 = (vbus_present p s1).1 in
        let t1 = (frequent_wanted-Takes l timely motion_cycle).takes 0 s (omega (arith, fits)) t in
        let t2 = (vbus_present-Takes l timely).takes _ s1 (omega (arith, fits)) t1 in
        let t3 =
          frequent-Tended rounds fix wake_uptime_ms motion_cycle reason s2
            (more-Tended p bound (0 + l.brief_ms + l.brief_ms) _ s2 (omega arith) t2) in
        let t1' =
          more-Tended p bound (0 + l.brief_ms) (head_ms config l + l.brief_ms) s1 (omega arith)
            t1 in
        either_branch (Tended p bound (head_ms config l + l.brief_ms))
          (not (frequent_wanted p motion_cycle s).0) _ _ s1 t1' t3

    tracking-Tended :
        (rounds : ℕ) (fix : TrackerFix D F) (wake_uptime_ms : ℕ) (motion_cycle : Bool)
        (reason : WakeReason) (n : ℕ) (s : Sys p)
        → n + search_ms config l + l.download_ms ≤ bound
        → Tended p bound n s
        → Tended p bound
            (head_ms config l + l.brief_ms)
            (tracking p rounds fix wake_uptime_ms motion_cycle reason s).1
    unfolding tracking ◌>>=◌ ◌>>◌
    tracking-Tended rounds fix wake_uptime_ms motion_cycle reason n s h t =
        let (found, s1) = first_fix p fix s in
        let s2 = (feed p s1).1 in
        let (settled, s3) = settle_fix p found s2 in
        let s4 = (publish p settled wake_uptime_ms reason s3).1 in
        let s5 = (feed p s4).1 in
        let t1 = (first_fix-Takes l timely fix).takes n s (omega (arith, h)) t in
        let t2 = feed-Feeds.feeds (n + search_ms config l) s1 (omega (arith, h)) t1 in
        let t3 = (settle_fix-Takes l timely found.0 found.1).takes 0 s2 (omega (arith, fits)) t2 in
        let t4 =
          (publish-Takes settled.0 settled.1 wake_uptime_ms reason).takes (0 + settle_ms config l)
            s3 (omega (arith, fits)) t3 in
        let t5 =
          feed-Feeds.feeds (0 + settle_ms config l + published_ms config l) s4 (omega (arith, fits))
            t4 in
        report_frequently-Tended rounds settled.1 wake_uptime_ms motion_cycle reason s5 t5

    -- From `cloud_resume` on, through the sleep.
    connected_cycle-Tended :
        (rounds : ℕ) (fix : TrackerFix D F) (wake_uptime_ms : ℕ) (motion_cycle : Bool)
        (reason : WakeReason) (n : ℕ) (s : Sys p)
        → n + l.connection_ms ≤ bound
        → Tended p bound n s
        → Tended p bound bound (connected_cycle p rounds fix wake_uptime_ms motion_cycle reason s).1
    unfolding connected_cycle link_up ◌>>=◌ ◌>>◌ pure
    connected_cycle-Tended rounds fix wake_uptime_ms motion_cycle reason n s h t =
        let s1 = (mark p phase_cloud_resume s).1 in
        let s2 = (guarded_resume p s1).1 in
        let s3 = (status_led_report p false s2).1 in
        let s4 = (mark p phase_gnss_start s3).1 in
        let s5 = (start_gnss p s4).1 in
        let s6 = (tracking p rounds fix wake_uptime_ms motion_cycle reason s5).1 in
        let t1 = (mark-Takes phase_cloud_resume).takes n s (omega (arith, h)) t in
        let t2 = (guarded_resume-Feeds l timely k).feeds (n + 0) s1 (omega (arith, h)) t1 in
        let t3 = (status_led_report-Takes l timely false).takes 0 s2 (omega (arith, fits)) t2 in
        let t4 =
          (mark-Takes phase_gnss_start).takes (0 + 5 * l.brief_ms) s3 (omega (arith, fits)) t3 in
        let t5 =
          (start_gnss-Takes l timely).takes (0 + 5 * l.brief_ms + 0) s4 (omega (arith, fits)) t4 in
        let started = 0 + 5 * l.brief_ms + 0 + l.receiver_start_ms in
        let t6 =
          tracking-Tended rounds fix wake_uptime_ms motion_cycle reason started s5
            (omega (arith, fits)) t5 in
        let t7 = (give_up-Takes l timely).takes started s5 (omega (arith, fits)) t5 in
        let t8 =
          (finish-Takes l timely).takes (head_ms config l + l.brief_ms) s6 (omega (arith, fits))
            t6 in
        let (ended, _) = tracking p rounds fix wake_uptime_ms motion_cycle reason s5 in
        let t9 =
          either_branch (Tended p bound bound) ended (finish p) (pure still_reporting) s6
            (more-Tended p bound (head_ms config l + l.brief_ms + finish_ms config l) bound
              (finish p s6).1 (omega (arith, fits)) t8)
            (more-Tended p bound (head_ms config l + l.brief_ms) bound s6 (omega (arith, fits))
              t6) in
        either_branch (Tended p bound bound) (is_err (start_gnss p s4).0) _ _ s5
          (more-Tended p bound _ bound (give_up p s5).1 (omega (arith, fits)) t7) t9

    wake_up-Tended :
        (reason : WakeReason) (s : Sys p)
        → Tended p bound bound s
        → Tended p bound (1000 + 3 * l.brief_ms) (wake_up p reason s).1
    unfolding wake_up ◌>>=◌ ◌>>◌ pure
    wake_up-Tended reason s t =
        let s1 = (note_wake p reason s).1 in
        let s2 = (mark p wake s1).1 in
        let s3 = (feed p s2).1 in
        let t1 = (note_wake-Takes reason).takes bound s (omega arith) t in
        let t2 = (mark-Takes wake).takes (bound + 0) s1 (omega arith) t1 in
        let t3 = feed-Feeds.feeds (bound + 0 + 0) s2 (omega arith) t2 in
        let t4 = (silence-Takes l timely).takes 0 s3 (omega (arith, fits)) t3 in
        more-Tended p bound (0 + (1000 + 3 * l.brief_ms)) (1000 + 3 * l.brief_ms)
          (wake_up p reason s).1 (omega arith) t4

    -- A pass, from any time unfed within the bound on.
    pub cycle-Tended :
        (rounds : ℕ) (fix : TrackerFix D F) (reason : WakeReason) (s : Sys p)
        → Tended p bound bound s
        → Tended p bound bound (cycle p rounds fix reason s).1
    unfolding cycle ◌>>=◌ ◌>>◌ pure uptime gets
    cycle-Tended rounds fix reason s t =
        let awake = 1000 + 3 * l.brief_ms in
        let s1 = (wake_up p reason s).1 in
        let s2 = (network_up p s1).1 in
        let s3 = (led_set p no_lte s2).1 in
        let t1 = wake_up-Tended reason s t in
        let t2 = (network_up-Takes l timely).takes awake s1 (omega (arith, fits)) t1 in
        let t3 =
          (led_set-Takes l timely no_lte).takes (awake + network_ms config l) s2
            (omega (arith, fits)) t2 in
        let t4 =
          (sleep_and_wake-Takes l timely).takes (awake + network_ms config l + l.brief_ms) s3
            (omega (arith, fits)) t3 in
        let t5 =
          connected_cycle-Tended rounds fix (u32 s.board.now_ms) (is_motion p reason) reason
            (awake + network_ms config l) s2 (omega (arith, fits)) t2 in
        let more = more-Tended p bound in
        let t6 =
          either_branch (Tended p bound bound) (not (network_up p s1).0) _
            (connected_cycle p rounds fix (u32 s.board.now_ms) (is_motion p reason) reason) s2
            (more (awake + network_ms config l + l.brief_ms + battery_ms config l) bound
              (sleep_and_wake p s3).1 (omega (arith, fits)) t4)
            t5 in
        either_branch (Tended p bound bound) (wake_up p reason s).0 _ _ s1
          (more awake bound s1 (omega (arith, fits)) t1) t6
