-- ===== src/Main/Cycle/Along.antt =====
-- A pass of the loop of app/src/main.c, put together from its calls.
use hologram_nrf9151_gps_tra.Common.{ℕ, zero, suc, Bool, true, false, not, is_err}
use hologram_nrf9151_gps_tra.Board.{Platform}
use hologram_nrf9151_gps_tra.Board.Along.{
  Preorder, Along, bind-Along, then-Along, pure-Along, gets-Along, if-Along,
}
use hologram_nrf9151_gps_tra.Board.Ops.{
  fetch_agnss, fallback_available, await_fix, fix_timeout_seconds, start_gnss, stop_gnss, fall_back,
}
use hologram_nrf9151_gps_tra.Board.Calls.{CallsAlong}
use hologram_nrf9151_gps_tra.Wake.{WakeReason, vbus, boot, timer, motion}
use hologram_nrf9151_gps_tra.Gnss.Fix.{TrackerFix}
use hologram_nrf9151_gps_tra.Main.{battery_sleep}
use hologram_nrf9151_gps_tra.Main.Along.{
  agnss_wanted-Along, surge_active-Along, status_led_report-Along, lte_ensure_connected-Along,
}
use hologram_nrf9151_gps_tra.Main.Writes.{WritesAlong, report_fix-Along, recover_if_silent-Along}
use hologram_nrf9151_gps_tra.Main.Cycle.{
  assist, try_fallback, try_assistance, first_fix, publish, settle_fix, restart_count,
  frequent_wanted, disarm_if_powered, frequent_round, frequent, report_frequently, sleep_and_wake,
  connected_cycle, link_up, tracking, finish, give_up, network_up, note_wake, wake_up, cycle,
}

module _ {p : Platform} {r : Preorder p} (c : CallsAlong p r)
    (fetch : Along p r (fetch_agnss p)) where
  open p use {D, F}

  pub assist-Along : (marked assisted : Bool) → Along p r (assist p marked assisted)
  unfolding assist
  assist-Along marked assisted = bind-Along (agnss_wanted-Along c) (λ wanted.
      if-Along (not wanted) (pure-Along _) (
        bind-Along c.wait_agnss_request-Along (λ err. if-Along (is_err err) (pure-Along _) (
          then-Along (if-Along marked (c.mark-Along _) (pure-Along _))
            (bind-Along fetch (λ fetch_err. pure-Along _))))))

  pub try_assistance-Along :
      (have_fix assisted : Bool) (fix : TrackerFix D F)
      → Along p r (try_assistance p (have_fix, assisted, fix))
  unfolding try_assistance
  try_assistance-Along have_fix assisted fix = bind-Along (agnss_wanted-Along c) (λ wanted.
      if-Along _
        (bind-Along fetch (λ err.
          if-Along (is_err err) (pure-Along _)
            (bind-Along (c.wait_fix-Along _ fix) (λ found. pure-Along _))))
        (pure-Along _))

-- What the part of a pass with a receiver running does.
pub record TrackAlong (p : Platform) (r : Preorder p) : Type 0 where
  pub calls : CallsAlong p r
  pub writes : WritesAlong p r
  pub assist-Along : (marked assisted : Bool) → Along p r (assist p marked assisted)
  pub try_assistance-Along :
      (have_fix assisted : Bool) (fix : TrackerFix p.D p.F)
      → Along p r (try_assistance p (have_fix, assisted, fix))
  pub fall_back-Along : Along p r (fall_back p)
  pub restart_count-Along : Along p r (restart_count p)

module _ {p : Platform} {r : Preorder p} (e : TrackAlong p r) where
  open p use {D, F, config}

  await_fix-Along : (fix : TrackerFix D F) → Along p r (await_fix p fix)
  unfolding await_fix fix_timeout_seconds
  await_fix-Along fix = bind-Along (gets-Along _) (λ timeout. e.calls.wait_fix-Along timeout fix)

  try_fallback-Along :
      (have_fix assisted : Bool) (fix : TrackerFix D F)
      → Along p r (try_fallback p (have_fix, assisted, fix))
  unfolding try_fallback fallback_available
  try_fallback-Along have_fix assisted fix = bind-Along (gets-Along _) (λ available.
      if-Along _
        (bind-Along e.fall_back-Along (λ err. if-Along (is_err err) (pure-Along _) (
          bind-Along (e.assist-Along false assisted)
            (λ assisted'. bind-Along (await_fix-Along fix) (λ found. pure-Along _)))))
        (pure-Along _))

  pub first_fix-Along : (fix : TrackerFix D F) → Along p r (first_fix p fix)
  unfolding first_fix
  first_fix-Along fix = bind-Along (e.assist-Along true false) (λ assisted.
      then-Along (e.calls.mark-Along _) (
        bind-Along (await_fix-Along fix) (λ found.
          bind-Along (try_fallback-Along _ assisted _)
            (λ (have_fix, assisted', fix'). e.try_assistance-Along have_fix assisted' fix'))))

  pub publish-Along :
      (have_fix : Bool) (fix : TrackerFix D F) (wake_uptime_ms : ℕ) (reason : WakeReason)
      → Along p r (publish p (have_fix, fix) wake_uptime_ms reason)
  unfolding publish
  publish-Along have_fix fix wake_uptime_ms reason =
      if-Along have_fix
        (then-Along (report_fix-Along e.calls e.writes _ _ _)
          (status_led_report-Along e.calls true))
        (if-Along config.force_publish_without_fix
          (then-Along (report_fix-Along e.calls e.writes _ _ _)
            (status_led_report-Along e.calls false))
          (status_led_report-Along e.calls false))

  pub settle_fix-Along :
      (have_fix : Bool) (fix : TrackerFix D F) → Along p r (settle_fix p (have_fix, fix))
  unfolding settle_fix
  settle_fix-Along have_fix fix =
      if-Along _
        (then-Along (e.calls.outside_call-Along _)
          (bind-Along (e.calls.wait_fix-Along _ fix) (λ found. pure-Along _)))
        (pure-Along _)

  pub frequent_wanted-Along : (motion_cycle : Bool) → Along p r (frequent_wanted p motion_cycle)
  unfolding frequent_wanted
  frequent_wanted-Along motion_cycle =
      bind-Along e.calls.vbus_present-Along
        (λ present. if-Along present (pure-Along _) (surge_active-Along e.calls motion_cycle))

  disarm_if_powered-Along : Along p r (disarm_if_powered p)
  unfolding disarm_if_powered
  disarm_if_powered-Along = bind-Along e.calls.vbus_present-Along (λ present.
      if-Along present (then-Along (e.calls.arm_motion-Along false) e.restart_count-Along)
        (pure-Along _))

  pub frequent_round-Along :
      (fix : TrackerFix D F) (wake_uptime_ms : ℕ) (reason : WakeReason)
      → Along p r (frequent_round p fix wake_uptime_ms reason)
  unfolding frequent_round
  frequent_round-Along fix wake_uptime_ms reason = then-Along (e.calls.mark-Along _) (
      then-Along disarm_if_powered-Along (
        then-Along (e.calls.outside_call-Along _) (
          then-Along e.calls.feed-Along (
            bind-Along (e.calls.wait_fix-Along _ fix)
              (λ found. then-Along (publish-Along _ _ _ _) (pure-Along _))))))

  frequent-Along :
      (rounds : ℕ) (fix : TrackerFix D F) (wake_uptime_ms : ℕ) (motion_cycle : Bool)
      (reason : WakeReason)
      → Along p r (frequent p rounds fix wake_uptime_ms motion_cycle reason)
  unfolding frequent
  frequent-Along zero fix wake_uptime_ms motion_cycle reason = pure-Along _
  frequent-Along (suc rounds) fix wake_uptime_ms motion_cycle reason =
      bind-Along (frequent_wanted-Along motion_cycle) (λ more. if-Along (not more) (pure-Along _) (
        bind-Along (frequent_round-Along fix wake_uptime_ms reason)
          (λ fix'. frequent-Along rounds fix' wake_uptime_ms motion_cycle reason)))

  pub report_frequently-Along :
      (rounds : ℕ) (fix : TrackerFix D F) (wake_uptime_ms : ℕ) (motion_cycle : Bool)
      (reason : WakeReason)
      → Along p r (report_frequently p rounds fix wake_uptime_ms motion_cycle reason)
  unfolding report_frequently
  report_frequently-Along rounds fix wake_uptime_ms motion_cycle reason =
      bind-Along (frequent_wanted-Along motion_cycle) (λ more. if-Along (not more) (pure-Along _) (
        then-Along e.calls.vbus_present-Along
          (frequent-Along rounds fix wake_uptime_ms motion_cycle reason)))

  pub tracking-Along :
      (rounds : ℕ) (fix : TrackerFix D F) (wake_uptime_ms : ℕ) (motion_cycle : Bool)
      (reason : WakeReason)
      → Along p r (tracking p rounds fix wake_uptime_ms motion_cycle reason)
  unfolding tracking
  tracking-Along rounds fix wake_uptime_ms motion_cycle reason =
      bind-Along (first_fix-Along fix) (λ (have_fix, fix1). then-Along e.calls.feed-Along (
        bind-Along (settle_fix-Along have_fix fix1) (λ (have_fix', fix2).
          then-Along (publish-Along have_fix' fix2 wake_uptime_ms reason) (
            then-Along e.calls.feed-Along
              (report_frequently-Along rounds fix2 wake_uptime_ms motion_cycle reason)))))

module _ {p : Platform} {r : Preorder p} (c : CallsAlong p r) where
  open p use {config}

  pub link_up-Along : Along p r (link_up p)
  unfolding link_up
  link_up-Along = then-Along (c.mark-Along _) (
      then-Along c.guarded_resume-Along
        (then-Along (status_led_report-Along c false) (c.mark-Along _)))

  pub network_up-Along : Along p r (network_up p)
  unfolding network_up
  network_up-Along = if-Along config.skip_lte (pure-Along _) (
      then-Along (c.mark-Along _) (bind-Along (lte_ensure_connected-Along c) (λ err. pure-Along _)))

  module _ (sleep : Along p r (battery_sleep p)) where
    pub sleep_and_wake-Along : Along p r (sleep_and_wake p)
    unfolding sleep_and_wake
    sleep_and_wake-Along = bind-Along sleep (λ reason. pure-Along _)

    pub give_up-Along : Along p r (give_up p)
    unfolding give_up
    give_up-Along = then-Along c.cloud_pause-Along sleep_and_wake-Along

    pub finish-Along : Along p r (stop_gnss p) → Along p r (finish p)
    unfolding finish
    finish-Along stop = then-Along (c.mark-Along _) (
        then-Along stop
          (then-Along (c.mark-Along _) (then-Along c.cloud_pause-Along sleep_and_wake-Along)))

-- What the rest of a pass does.
pub record CycleAlong (p : Platform) (r : Preorder p) : Type 0 where
  pub track : TrackAlong p r
  pub start_gnss-Along : Along p r (start_gnss p)
  pub stop_gnss-Along : Along p r (stop_gnss p)
  pub battery_sleep-Along : Along p r (battery_sleep p)

note_wake-Along :
    {p : Platform} {r : Preorder p}
    → Along p r (restart_count p)
    → (reason : WakeReason) → Along p r (note_wake p reason)
unfolding note_wake
note_wake-Along restart vbus = restart
note_wake-Along restart boot = pure-Along _
note_wake-Along restart timer = pure-Along _
note_wake-Along restart motion = pure-Along _

pub wake_up-Along :
    {p : Platform} {r : Preorder p}
    → CallsAlong p r
    → WritesAlong p r
    → Along p r (restart_count p)
    → (reason : WakeReason) → Along p r (wake_up p reason)
unfolding wake_up
wake_up-Along {p} c w restart reason = then-Along (note_wake-Along restart reason) (
    then-Along (c.mark-Along _) (
      then-Along c.feed-Along
        (if-Along p.config.skip_lte (pure-Along _) (recover_if_silent-Along c w))))

module _ {p : Platform} {r : Preorder p} (e : CycleAlong p r) where
  open p use {D, F, config}

  connected_cycle-Along :
      (rounds : ℕ) (fix : TrackerFix D F) (wake_uptime_ms : ℕ) (motion_cycle : Bool)
      (reason : WakeReason)
      → Along p r (connected_cycle p rounds fix wake_uptime_ms motion_cycle reason)
  unfolding connected_cycle
  connected_cycle-Along rounds fix wake_uptime_ms motion_cycle reason =
      then-Along (link_up-Along e.track.calls) (
        bind-Along e.start_gnss-Along (λ err.
          if-Along (is_err err) (give_up-Along e.track.calls e.battery_sleep-Along) (
            bind-Along (tracking-Along e.track rounds fix wake_uptime_ms motion_cycle reason)
              (λ ended.
                if-Along ended (finish-Along e.track.calls e.battery_sleep-Along e.stop_gnss-Along)
                  (pure-Along _)))))

  pub cycle-Along :
      (rounds : ℕ) (fix : TrackerFix D F) (reason : WakeReason)
      → Along p r (cycle p rounds fix reason)
  unfolding cycle
  cycle-Along rounds fix reason =
      let c = e.track.calls in
      bind-Along c.uptime-Along (λ now.
        bind-Along (wake_up-Along c e.track.writes e.track.restart_count-Along reason) (λ reboot.
          if-Along reboot (pure-Along _) (
            bind-Along (network_up-Along c) (λ up.
              if-Along (not up)
                (then-Along (c.led_set-Along _) (sleep_and_wake-Along c e.battery_sleep-Along))
                (connected_cycle-Along rounds fix _ _ reason)))))
