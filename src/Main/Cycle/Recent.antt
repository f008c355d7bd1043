-- ===== src/Main/Cycle/Recent.antt =====
-- How long ago the last report was at the end of a pass of the loop of app/src/main.c.
use Prim.Native.Nat.{min}
use hologram_nrf9151_gps_tra.Common.{
  ℕ, zero, suc, ◌+◌, ◌*◌, ◌^◌, ◌≤◌, ◌<◌, ◌≡◌, ◌≢◌, Bool, not, true, false, pos_part, neg_part, ok,
  is_err, length, arith, u32, Bytes,
}
use hologram_nrf9151_gps_tra.Config.{Config}
use hologram_nrf9151_gps_tra.Wake.{WakeReason}
use hologram_nrf9151_gps_tra.Gnss.Fix.{TrackerFix}
use hologram_nrf9151_gps_tra.Transport.Contract.{Contract}
use hologram_nrf9151_gps_tra.Board.{Platform, Sys, M, Span, is_registered, ◌>>=◌, ◌>>◌, pure, gets}
use hologram_nrf9151_gps_tra.Board.Along.{Along}
use hologram_nrf9151_gps_tra.Board.Ops.{start_gnss, feed, uptime, vbus_present}
use hologram_nrf9151_gps_tra.Board.Timed.{Limits, limit, Takes, either_branch}
use hologram_nrf9151_gps_tra.Board.Timed.Calls.{feed-Takes, vbus_present-Takes}
use hologram_nrf9151_gps_tra.Main.Cycle.{
  rebooting, still_reporting, first_fix, settle_fix, publish, frequent_wanted, frequent_round,
  frequent, report_frequently, tracking, finish, connected_cycle, link_up, network_up, wake_up,
  cycle, is_motion,
}
use hologram_nrf9151_gps_tra.Main.Cycle.Timed.{
  publish_ms, finish_ms, stretch_ms, frequent_wanted-Takes, finish-Takes,
}
use hologram_nrf9151_gps_tra.Main.Cycle.Tended.{publish-Takes}
use hologram_nrf9151_gps_tra.Main.Cycle.Noting.{Noting, noting_calls, noting_track, finish-Stays}
use hologram_nrf9151_gps_tra.Main.Cycle.Along.{frequent_wanted-Along}
use hologram_nrf9151_gps_tra.Main.Cycle.Delivers.{network_up-ok, start_gnss-ok, publish-Noted}
use hologram_nrf9151_gps_tra.Main.Cycle.Reboots.{cycle_reboots}

-- From the last report of a pass to its end.
abbrev pub after_report_ms : Config → Limits → ℕ
after_report_ms c l = publish_ms c l + 3 * l.brief_ms + finish_ms c l

-- The last report is not longer ago than `age`.
abbrev pub Recent : (p : Platform) → (age : ℕ) → Sys p → Type 0
Recent p age s = s.board.now_ms ≤ s.last_send_uptime + age

module _ {p : Platform} {bound : ℕ} where
  step-Recent :
      {A : Type 0} {m : M p A} {need cost total : ℕ}
      → Takes p bound need cost total m
      → ((start : ℕ) → Along p (Noting p start) m)
      → (age : ℕ) (s : Sys p) → Recent p age s
      → Recent p (age + total) (m s).1
  step-Recent x along age s r =
      let start = min s.board.now_ms s.last_send_uptime in
      let (now, sent) = (along start).along s (omega arith) in
      omega (arith, x.lasts s, r, now, sent (omega arith))

module _ (p : Platform) where
  open p use {D, F, config, transport, outside, script}

  module _
      (accepts : (n : ℕ) (json : Bytes) (s : transport.State)
        → length json ≤ 255
        → (transport.send_telemetry (script n).cloud json s).0 ≡ ok)
      (degrees_width : (d : D) → length (outside.show_6f d) ≤ 11)
      (hdop_width : (f : F) → length (outside.show_2f f) + length outside.hw_revision ≤ 52)
      (stamp_width : length outside.build_stamp ≤ 17)
      (rsrp_range : (n : ℕ)
        → (pos_part (script n).rsrp < 2 ^ 31) × (neg_part (script n).rsrp ≤ 2 ^ 31))
      (forced : config.force_publish_without_fix ≡ true) (k : Contract transport) (l : Limits)
      (timely : (n : ℕ) (span : Span) → (script n).elapsed_ms span ≤ limit l span) where
    publish-Recent :
        (found : Bool × TrackerFix D F) (wake_uptime_ms : ℕ) (reason : WakeReason) (s : Sys p)
        → Recent p (publish_ms config l) (publish p found wake_uptime_ms reason s).1
    publish-Recent (have_fix, fix) wake_uptime_ms reason s =
        let x =
          publish-Takes {p = p} {bound = stretch_ms config l} l timely k (omega arith) have_fix fix
            wake_uptime_ms reason in
        let n =
          publish-Noted p accepts degrees_width hdop_width stamp_width rsrp_range forced
            s.board.now_ms have_fix fix wake_uptime_ms reason s (omega arith) in
        omega (arith, x.lasts s, n)

    frequent_round-Recent :
        (fix : TrackerFix D F) (wake_uptime_ms : ℕ) (reason : WakeReason) (s : Sys p)
        → Recent p (publish_ms config l) (frequent_round p fix wake_uptime_ms reason s).1
    unfolding frequent_round ◌>>=◌ ◌>>◌ pure
    frequent_round-Recent fix wake_uptime_ms reason s = publish-Recent _ wake_uptime_ms reason _

    wanted-Recent :
        (motion_cycle : Bool) (age : ℕ) (s : Sys p)
        → Recent p age s
        → Recent p (age + l.brief_ms) (frequent_wanted p motion_cycle s).1
    wanted-Recent motion_cycle =
        step-Recent {bound = 0} (frequent_wanted-Takes l timely motion_cycle)
          (λ start. frequent_wanted-Along (noting_track p start) motion_cycle)

    frequent-Recent :
        (rounds : ℕ) (fix : TrackerFix D F) (wake_uptime_ms : ℕ) (motion_cycle : Bool)
        (reason : WakeReason) (s : Sys p)
        → Recent p (publish_ms config l + 2 * l.brief_ms) s
        → Recent p
            (publish_ms config l + 3 * l.brief_ms)
            (frequent p rounds fix wake_uptime_ms motion_cycle reason s).1
    unfolding frequent ◌>>=◌ pure
    frequent-Recent zero fix wake_uptime_ms motion_cycle reason s r = omega (arith, r)
    frequent-Recent (suc rounds) fix wake_uptime_ms motion_cycle reason s r =
        let s1 = (frequent_wanted p motion_cycle s).1 in
        let r1 = wanted-Recent motion_cycle _ s r in
        let (fix', s2) = frequent_round p fix wake_uptime_ms reason s1 in
        let r2 = frequent_round-Recent fix wake_uptime_ms reason s1 in
        let r3 =
          frequent-Recent rounds fix' wake_uptime_ms motion_cycle reason s2 (omega (arith, r2)) in
        either_branch (Recent p (publish_ms config l + 3 * l.brief_ms))
          (not (frequent_wanted p motion_cycle s).0) _ _ s1 (omega (arith, r1)) r3

    report_frequently-Recent :
        (rounds : ℕ) (fix : TrackerFix D F) (wake_uptime_ms : ℕ) (motion_cycle : Bool)
        (reason : WakeReason) (s : Sys p)
        → Recent p (publish_ms config l) s
        → Recent p
            (publish_ms config l + 3 * l.brief_ms)
            (report_frequently p rounds fix wake_uptime_ms motion_cycle reason s).1
    unfolding report_frequently ◌>>=◌ ◌>>◌ pure
    report_frequently-Recent rounds fix wake_uptime_ms motion_cycle reason s r =
        let s1 = (frequent_wanted p motion_cycle s).1 in
        let s2 = (vbus_present p s1).1 in
        let r1 = wanted-Recent motion_cycle _ s r in
        let r2 =
          step-Recent {bound = 0} (vbus_present-Takes l timely)
            (λ start. (noting_calls p start).vbus_present-Along) _ s1 r1 in
        let r3 =
          frequent-Recent rounds fix wake_uptime_ms motion_cycle reason s2 (omega (arith, r2)) in
        either_branch (Recent p (publish_ms config l + 3 * l.brief_ms))
          (not (frequent_wanted p motion_cycle s).0) _ _ s1 (omega (arith, r1)) r3

    tracking-Recent :
        (rounds : ℕ) (fix : TrackerFix D F) (wake_uptime_ms : ℕ) (motion_cycle : Bool)
        (reason : WakeReason) (s : Sys p)
        → Recent p
            (publish_ms config l + 3 * l.brief_ms)
            (tracking p rounds fix wake_uptime_ms motion_cycle reason s).1
    unfolding tracking ◌>>=◌ ◌>>◌
    tracking-Recent rounds fix wake_uptime_ms motion_cycle reason s =
        let (found, s1) = first_fix p fix s in
        let s2 = (feed p s1).1 in
        let (settled, s3) = settle_fix p found s2 in
        let s4 = (publish p settled wake_uptime_ms reason s3).1 in
        let s5 = (feed p s4).1 in
        let r4 = publish-Recent settled wake_uptime_ms reason s3 in
        let r5 =
          step-Recent {bound = 0} feed-Takes (λ start. (noting_calls p start).feed-Along) _ s4 r4 in
        report_frequently-Recent rounds settled.1 wake_uptime_ms motion_cycle reason s5
          (omega (arith, r5))

    connected_cycle-Recent :
        (rounds : ℕ) (fix : TrackerFix D F) (wake_uptime_ms : ℕ) (motion_cycle : Bool)
        (reason : WakeReason) (s : Sys p)
        → ((n : ℕ) → (script n).gnss.modem_err ≡ ok)
        → Recent p
            (after_report_ms config l)
            (connected_cycle p rounds fix wake_uptime_ms motion_cycle reason s).1
    unfolding connected_cycle ◌>>=◌ ◌>>◌ pure
    connected_cycle-Recent rounds fix wake_uptime_ms motion_cycle reason s receives =
        let s1 = (link_up p s).1 in
        let (err, s2) = start_gnss p s1 in
        let (ended, s3) = tracking p rounds fix wake_uptime_ms motion_cycle reason s2 in
        let r3 = tracking-Recent rounds fix wake_uptime_ms motion_cycle reason s2 in
        let r4 =
          step-Recent {bound = 0} (finish-Takes l timely) (λ start. finish-Stays p start) _ s3 r3 in
        let r5 =
          either_branch (Recent p (after_report_ms config l)) ended (finish p)
            (pure still_reporting) s3 (omega (arith, r4)) (omega (arith, r3)) in
        ground (arith, start_gnss-ok p receives s1, r5)

    -- A pass of a run that has reported lately.
    pub cycle-Recent :
        ((n : ℕ)
          → (is_err (script n).reg_err ≡ false) × (is_registered (script n).reg_status ≡ true))
        → ((n : ℕ) → (script n).gnss.modem_err ≡ ok)
        → after_report_ms config l < config.reboot_minutes * 60000
        → (rounds : ℕ) (fix : TrackerFix D F) (reason : WakeReason) (s : Sys p)
        → Recent p (after_report_ms config l) s
        → let (next, t) = cycle p rounds fix reason s in
          (next ≢ rebooting) × Recent p (after_report_ms config l) t
    unfolding cycle ◌>>=◌ ◌>>◌ pure uptime gets
    cycle-Recent registered receives often rounds fix reason s r =
        let s1 = (wake_up p reason s).1 in
        let s2 = (network_up p s1).1 in
        ground (
          arith,
          r,
          often,
          cycle_reboots p rounds fix reason s,
          network_up-ok p registered s1,
          connected_cycle-Recent rounds fix (u32 s.board.now_ms) (is_motion p reason) reason s2
              receives,
        )
