-- ===== src/Main/Cycle/Timed.antt =====
-- How long a pass of the loop of app/src/main.c leaves the watchdog unfed.
use Prim.Native.Nat.{max}
use hologram_nrf9151_gps_tra.Common.{
  ℕ, ◌+◌, ◌*◌, ◌≤◌, Bool, not, true, false, is_err, arith, if◌then◌else◌,
}
use hologram_nrf9151_gps_tra.Config.{Config}
use hologram_nrf9151_gps_tra.Wake.{WakeReason, boot, timer, vbus, motion}
use hologram_nrf9151_gps_tra.Gnss.Fix.{TrackerFix}
use hologram_nrf9151_gps_tra.Board.{Platform, Span, pure}
use hologram_nrf9151_gps_tra.Board.Ops.{fallback_available}
use hologram_nrf9151_gps_tra.Board.Timed.{
  Lasts, Limits, limit, wait_ms, window_ms, Takes, bind-Takes, then-Takes, if-Takes, pure-Takes,
  free-Takes, gets-Takes, more-Takes,
}
use hologram_nrf9151_gps_tra.Board.Timed.Calls.{
  wait_agnss_request-Takes, mark-Takes, fall_back-Takes, await_fix-Takes, wait_fix-Takes,
  outside_call-Takes, vbus_present-Takes, arm_motion-Takes, stop_gnss-Takes, cloud_pause-Takes,
}
use hologram_nrf9151_gps_tra.Board.Timed.Guarded.{fetch_agnss-Takes}
use hologram_nrf9151_gps_tra.Main.{recover_if_silent}
use hologram_nrf9151_gps_tra.Main.Timed.{
  report_ms, surge_active-Takes, agnss_wanted-Takes, recover_if_silent-Takes,
  lte_ensure_connected-Takes, battery_sleep-Takes,
}
use hologram_nrf9151_gps_tra.Main.Cycle.{
  assist, try_fallback, try_assistance, first_fix, settle_fix, restart_count, frequent_wanted,
  disarm_if_powered, sleep_and_wake, finish, give_up, network_up, note_wake,
}

module _ (c : Config) (l : Limits) where
  -- A-GNSS at a cold start: the wait for the modem's request; the download ends with a feed.
  abbrev pub assist_ms : ℕ
  assist_ms = wait_ms l c.agnss_proactive_wait_seconds + l.brief_ms

  -- The search for the first fix with every fallback, apart from the downloads.
  abbrev pub search_ms : ℕ
  search_ms =
      2 * assist_ms + 2 * window_ms c l + 2 * l.brief_ms + wait_ms l c.agnss_fix_timeout_seconds

  abbrev pub settle_ms : ℕ
  settle_ms = c.gnss_extra_fix_seconds * 1000 + l.brief_ms + wait_ms l 5

  -- What a report and the LED leave behind, and what they may take on the way.
  abbrev pub published_ms : ℕ
  published_ms = 7 * l.brief_ms

  abbrev pub publish_ms : ℕ
  publish_ms = report_ms l + 5 * l.brief_ms

  -- A round of frequent reports behind its feed.
  abbrev pub round_ms : ℕ
  round_ms = wait_ms l 10 + published_ms

  abbrev pub battery_ms : ℕ
  battery_ms = 2 * l.brief_ms + wait_ms l c.sleep_seconds

  abbrev pub network_ms : ℕ
  network_ms = 2 * l.brief_ms + wait_ms l c.lte_connect_timeout_seconds

  abbrev pub fallback_ms : ℕ
  fallback_ms = l.brief_ms + assist_ms + window_ms c l

  abbrev pub finish_ms : ℕ
  finish_ms = l.brief_ms + l.message_ms + battery_ms

  -- At the test of the loop of frequent reports.
  abbrev pub head_ms : ℕ
  head_ms = round_ms + 2 * l.brief_ms

  -- The stretches of a pass between two feeds: without a network, up to the cloud link, from there to
  -- the end of the search or, without a receiver, through the sleep; a report; a round of frequent
  -- reports; and from the last one through the sleep.
  abbrev pub stretch_ms : ℕ
  stretch_ms =
      let awake = 1000 + 3 * l.brief_ms + network_ms in
      let found = 5 * l.brief_ms + l.receiver_start_ms in
      max (awake + l.brief_ms + battery_ms) (
        max (awake + l.connection_ms) (
          max (found + search_ms + l.download_ms) (
            max (found + l.message_ms + battery_ms) (
              max (settle_ms + publish_ms) (
                max (head_ms + 4 * l.brief_ms + c.charging_interval_seconds * 1000)
                  (max (wait_ms l 10 + publish_ms) (head_ms + l.brief_ms + finish_ms)))))))

module _ {p : Platform} {bound : ℕ} where
  pub restart_count-Takes : Lasts p bound 0 (restart_count p)
  unfolding restart_count
  restart_count-Takes = free-Takes _ (λ s. (ground arith, ground arith))

  pub note_wake-Takes : (reason : WakeReason) → Lasts p bound 0 (note_wake p reason)
  unfolding note_wake
  note_wake-Takes vbus = restart_count-Takes
  note_wake-Takes boot = pure-Takes _
  note_wake-Takes timer = pure-Takes _
  note_wake-Takes motion = pure-Takes _

module _ {p : Platform} {bound : ℕ} (l : Limits)
    (timely : (n : ℕ) (span : Span) → (p.script n).elapsed_ms span ≤ limit l span) where
  open p use {D, F, config, transport}

  pub assist-Takes :
      (marked assisted : Bool)
      → Takes p bound
          (assist_ms config l + l.download_ms)
          (assist_ms config l)
          (assist_ms config l + l.download_ms)
          (assist p marked assisted)
  unfolding assist
  assist-Takes marked assisted = more-Takes (omega arith) (omega arith) (omega arith) (
      bind-Takes agnss_wanted-Takes (λ wanted. if-Takes (not wanted) (pure-Takes _) (
        bind-Takes (wait_agnss_request-Takes l timely) (λ err.
          if-Takes (is_err err) (pure-Takes _) (
            then-Takes (if-Takes marked (mark-Takes _) (pure-Takes _))
              (bind-Takes (fetch_agnss-Takes l timely) (λ fetch_err. pure-Takes _)))))))

  pub try_fallback-Takes :
      (have_fix assisted : Bool) (fix : TrackerFix D F)
      → Takes p bound
          (fallback_ms config l + l.download_ms)
          (fallback_ms config l)
          (fallback_ms config l + l.download_ms)
          (try_fallback p (have_fix, assisted, fix))
  unfolding try_fallback fallback_available
  try_fallback-Takes have_fix assisted fix = more-Takes (omega arith) (omega arith) (omega arith) (
      bind-Takes (gets-Takes _) (λ available.
        if-Takes _
          (bind-Takes (fall_back-Takes l timely) (λ err. if-Takes (is_err err) (pure-Takes _) (
            bind-Takes (assist-Takes false assisted)
              (λ assisted'. bind-Takes (await_fix-Takes l timely fix) (λ found. pure-Takes _)))))
          (pure-Takes _)))

  pub try_assistance-Takes :
      (have_fix assisted : Bool) (fix : TrackerFix D F)
      → Takes p bound
          (l.brief_ms + wait_ms l config.agnss_fix_timeout_seconds + l.download_ms)
          (l.brief_ms + wait_ms l config.agnss_fix_timeout_seconds)
          (l.brief_ms + wait_ms l config.agnss_fix_timeout_seconds + l.download_ms)
          (try_assistance p (have_fix, assisted, fix))
  unfolding try_assistance
  try_assistance-Takes have_fix assisted fix =
      more-Takes (omega arith) (omega arith) (omega arith) (
        bind-Takes agnss_wanted-Takes (λ wanted.
          if-Takes _
            (bind-Takes (fetch_agnss-Takes l timely) (λ err.
              if-Takes (is_err err) (pure-Takes _)
                (bind-Takes (wait_fix-Takes l timely _ fix) (λ found. pure-Takes _))))
            (pure-Takes _)))

  pub first_fix-Takes :
      (fix : TrackerFix D F)
      → Takes p bound
          (search_ms config l + l.download_ms)
          (search_ms config l)
          (search_ms config l + 3 * l.download_ms)
          (first_fix p fix)
  unfolding first_fix
  first_fix-Takes fix = more-Takes (omega arith) (omega arith) (omega arith) (
      bind-Takes (assist-Takes true false) (λ assisted. then-Takes (mark-Takes _) (
        bind-Takes (await_fix-Takes l timely fix) (λ found.
          bind-Takes (try_fallback-Takes _ assisted _)
            (λ (have_fix, assisted', fix'). try_assistance-Takes have_fix assisted' fix')))))

  pub settle_fix-Takes :
      (have_fix : Bool) (fix : TrackerFix D F)
      → Lasts p bound (settle_ms config l) (settle_fix p (have_fix, fix))
  unfolding settle_fix
  settle_fix-Takes have_fix fix = more-Takes (omega arith) (omega arith) (omega arith) (
      if-Takes _
        (then-Takes (outside_call-Takes l timely _)
          (bind-Takes (wait_fix-Takes l timely 5 fix) (λ found. pure-Takes _)))
        (pure-Takes _))

  pub frequent_wanted-Takes :
      (motion_cycle : Bool) → Lasts p bound l.brief_ms (frequent_wanted p motion_cycle)
  unfolding frequent_wanted
  frequent_wanted-Takes motion_cycle = more-Takes (omega arith) (omega arith) (omega arith) (
      bind-Takes (vbus_present-Takes l timely)
        (λ present. if-Takes present (pure-Takes _) (surge_active-Takes motion_cycle)))

  pub disarm_if_powered-Takes : Lasts p bound (2 * l.brief_ms) (disarm_if_powered p)
  unfolding disarm_if_powered
  disarm_if_powered-Takes = more-Takes (omega arith) (omega arith) (omega arith) (
      bind-Takes (vbus_present-Takes l timely) (λ present.
        if-Takes present (then-Takes (arm_motion-Takes l timely false) restart_count-Takes)
          (pure-Takes _)))

  pub sleep_and_wake-Takes : Lasts p bound (battery_ms config l) (sleep_and_wake p)
  unfolding sleep_and_wake
  sleep_and_wake-Takes =
      more-Takes (omega arith) (omega arith) (omega arith)
        (bind-Takes (battery_sleep-Takes l timely) (λ reason. pure-Takes _))

  pub network_up-Takes : Lasts p bound (network_ms config l) (network_up p)
  unfolding network_up
  network_up-Takes = more-Takes (omega arith) (omega arith) (omega arith) (
      if-Takes config.skip_lte (pure-Takes _) (
        then-Takes (mark-Takes _)
          (bind-Takes (lte_ensure_connected-Takes l timely) (λ err. pure-Takes _))))

  pub give_up-Takes : Lasts p bound (l.message_ms + battery_ms config l) (give_up p)
  unfolding give_up
  give_up-Takes =
      more-Takes (omega arith) (omega arith) (omega arith)
        (then-Takes (cloud_pause-Takes l timely) sleep_and_wake-Takes)

  pub finish-Takes : Lasts p bound (finish_ms config l) (finish p)
  unfolding finish
  finish-Takes = more-Takes (omega arith) (omega arith) (omega arith) (
      then-Takes (mark-Takes _) (
        then-Takes (stop_gnss-Takes l timely) (
          then-Takes (mark-Takes _)
            (then-Takes (cloud_pause-Takes l timely) sleep_and_wake-Takes))))

  pub silence-Takes :
      Lasts p bound
        (1000 + 3 * l.brief_ms)
        (if config.skip_lte then pure false else recover_if_silent p)
  silence-Takes =
      more-Takes (omega arith) (omega arith) (omega arith)
        (if-Takes config.skip_lte (pure-Takes false) (recover_if_silent-Takes l timely))
