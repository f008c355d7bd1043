-- ===== src/Main/Cycle.antt =====
-- `main` of app/src/main.c: one pass of its endless loop.
pub mod Along
pub mod Frequent
pub mod Delivers
pub mod Ends
pub mod Noting
pub mod Reboots
pub mod Receivers
pub mod Recent
pub mod Sound
pub mod Stops
pub mod Timed
pub mod Tended
use hologram_nrf9151_gps_tra.Common.{
  ℕ, zero, suc, ◌+◌, ◌*◌, Bool, true, false, not, ◌&&◌, ◌||◌, Option, none, some, ℤ, ok, eio,
  is_err, ltb, if◌then◌else◌, u32,
}
use hologram_nrf9151_gps_tra.Wake.{WakeReason, boot, timer, vbus, motion}
use hologram_nrf9151_gps_tra.Motion.{SetupAnswers, motion_init}
use hologram_nrf9151_gps_tra.Power.{power_init}
use hologram_nrf9151_gps_tra.StatusLed.{no_lte, status_led_init}
use hologram_nrf9151_gps_tra.Watchdog.{
  wake, lte, cloud_resume as phase_cloud_resume, gnss_start, agnss, fix as phase_fix,
  frequent as phase_frequent, gnss_stop, cloud_pause as phase_cloud_pause, StartAnswers,
  watchdog_init,
}
use hologram_nrf9151_gps_tra.Gnss.{InitAnswers, gnss_init}
use hologram_nrf9151_gps_tra.Gnss.Fix.{TrackerFix}
use hologram_nrf9151_gps_tra.Board.{
  Platform, Sys, M, sleep_ms, advance, ◌>>=◌, ◌>>◌, pure, gets, call,
}
use hologram_nrf9151_gps_tra.Board.Ops.{
  outside_call, uptime, vbus_present, arm_motion, led_set, feed, mark, start_gnss, stop_gnss,
  fall_back, fallback_available, await_fix, wait_fix, wait_agnss_request, fetch_agnss,
  guarded_resume, cloud_pause,
}
use hologram_nrf9151_gps_tra.Main.{
  lte_ensure_connected, surge_active, agnss_wanted, status_led_report, report_fix,
  recover_if_silent, battery_sleep,
}

-- How a pass ends: woken for the next one, in a reboot, or still in the frequent loop when the rounds
-- allowed for it are used up.
pub data Next : Type 0 where
  woken : WakeReason → Next
  rebooting still_reporting : Next

module _ (p : Platform) where
  open p use {D, F, config, transport}

  -- The `A-GNSS` block behind the two starts of a receiver: `assisted` stays as it was where nothing is
  -- fetched.
  unfoldable pub assist : (marked assisted : Bool) → M p Bool
  assist marked assisted = do
    wanted ← agnss_wanted p
    if not wanted then pure assisted else do
      err ← wait_agnss_request p
      if is_err err then pure assisted else do
        (if marked then mark p agnss else pure tt)
        fetch_err ← fetch_agnss p
        pure (not (is_err fetch_err))

  -- Whether there is a fix, whether assistance was fetched, and the caller's fix.
  abbrev pub Search : Type 0
  Search = Bool × Bool × TrackerFix D F

  unfoldable pub try_fallback : Search → M p Search
  try_fallback (have_fix, assisted, fix) = do
    available ← fallback_available p
    if not have_fix && available
        then (do
          err ← fall_back p
          if is_err err then pure (have_fix, assisted, fix) else do
            assisted' ← assist false assisted
            (fix_err, fix') ← await_fix p fix
            pure (not (is_err fix_err), assisted', fix'))
        else pure (have_fix, assisted, fix)

  unfoldable pub try_assistance : Search → M p (Bool × TrackerFix D F)
  try_assistance (have_fix, assisted, fix) = do
    wanted ← agnss_wanted p
    if not have_fix && (not assisted && wanted)
        then (do
          err ← fetch_agnss p
          if is_err err then pure (have_fix, fix) else do
            (fix_err, fix') ← wait_fix p config.agnss_fix_timeout_seconds fix
            pure (not (is_err fix_err), fix'))
        else pure (have_fix, fix)

  -- From the first A-GNSS block to the last, with the receiver started.
  unfoldable pub first_fix : TrackerFix D F → M p (Bool × TrackerFix D F)
  first_fix fix = do
    assisted ← assist true false
    mark p phase_fix
    (fix_err, fix') ← await_fix p fix
    search ← try_fallback (not (is_err fix_err), assisted, fix')
    try_assistance search

  unfoldable pub publish :
      Bool × TrackerFix D F → (wake_uptime_ms : ℕ) → WakeReason → M p (Unit {0})
  publish (have_fix, fix) wake_uptime_ms reason =
      if have_fix
      then (do report_fix p (some fix) wake_uptime_ms reason; status_led_report p true)
      else if config.force_publish_without_fix
      then (do report_fix p none wake_uptime_ms reason; status_led_report p false)
      else status_led_report p false

  -- A fix is given time to settle, and taken again if a better one comes.
  unfoldable pub settle_fix : Bool × TrackerFix D F → M p (Bool × TrackerFix D F)
  settle_fix (have_fix, fix) =
      if have_fix && ltb 0 config.gnss_extra_fix_seconds
      then (do
        outside_call p (sleep_ms (config.gnss_extra_fix_seconds * 1000))
        (fix_err, fix') ← wait_fix p 5 fix
        pure (have_fix, fix'))
      else pure (have_fix, fix)

  unfoldable pub restart_count : M p (Unit {0})
  restart_count s = (tt, record s { battery_sleeps = 0 })

  unfoldable pub frequent_wanted : (motion_cycle : Bool) → M p Bool
  frequent_wanted motion_cycle = do
    present ← vbus_present p
    if present then pure true else surge_active p motion_cycle

  unfoldable pub disarm_if_powered : M p (Unit {0})
  disarm_if_powered = do
    present ← vbus_present p
    if present then (do arm_motion p false; restart_count) else pure tt

  -- One round of the frequent loop, behind its test.
  unfoldable pub frequent_round :
      TrackerFix D F → (wake_uptime_ms : ℕ) → WakeReason → M p (TrackerFix D F)
  frequent_round fix wake_uptime_ms reason = do
    mark p phase_frequent
    disarm_if_powered
    outside_call p (sleep_ms (config.charging_interval_seconds * 1000))
    feed p
    (fix_err, fix') ← wait_fix p 10 fix
    publish (not (is_err fix_err), fix') wake_uptime_ms reason
    pure fix'

  -- At most `rounds` rounds: whether the loop ended by its test.
  unfoldable pub frequent :
      (rounds : ℕ)
      → TrackerFix D F
      → (wake_uptime_ms : ℕ) → (motion_cycle : Bool) → WakeReason
      → M p Bool
  frequent zero fix wake_uptime_ms motion_cycle reason = pure false
  frequent (suc rounds) fix wake_uptime_ms motion_cycle reason = do
    more ← frequent_wanted motion_cycle
    if not more then pure true else do
      fix' ← frequent_round fix wake_uptime_ms reason
      frequent rounds fix' wake_uptime_ms motion_cycle reason

  -- The call in the log line's argument reads the charger once more.
  unfoldable pub report_frequently :
      (rounds : ℕ)
      → TrackerFix D F
      → (wake_uptime_ms : ℕ) → (motion_cycle : Bool) → WakeReason
      → M p Bool
  report_frequently rounds fix wake_uptime_ms motion_cycle reason = do
    more ← frequent_wanted motion_cycle
    if not more
        then pure true
        else do vbus_present p; frequent rounds fix wake_uptime_ms motion_cycle reason

  unfoldable pub sleep_and_wake : M p Next
  sleep_and_wake = do reason ← battery_sleep p; pure (woken reason)

  -- `cloud_resume`, with the network there (or not wanted), and the LED's report.
  unfoldable pub link_up : M p (Unit {0})
  link_up = do
    mark p phase_cloud_resume
    guarded_resume p
    status_led_report p false
    mark p gnss_start

  -- With the receiver started: the first fix, its report, and the frequent ones.
  unfoldable pub tracking :
      (rounds : ℕ)
      → TrackerFix D F
      → (wake_uptime_ms : ℕ) (motion_cycle : Bool) → WakeReason
      → M p Bool
  tracking rounds fix wake_uptime_ms motion_cycle reason = do
    found ← first_fix fix
    feed p
    settled ← settle_fix found
    publish settled wake_uptime_ms reason
    feed p
    report_frequently rounds settled.1 wake_uptime_ms motion_cycle reason

  unfoldable pub finish : M p Next
  finish = do mark p gnss_stop; stop_gnss p; mark p phase_cloud_pause; cloud_pause p; sleep_and_wake

  unfoldable pub give_up : M p Next
  give_up = do cloud_pause p; sleep_and_wake

  -- From `cloud_resume` on.
  unfoldable pub connected_cycle :
      (rounds : ℕ)
      → TrackerFix D F
      → (wake_uptime_ms : ℕ) (motion_cycle : Bool) → WakeReason
      → M p Next
  connected_cycle rounds fix wake_uptime_ms motion_cycle reason = do
    link_up
    err ← start_gnss p
    if is_err err then give_up else do
      ended ← tracking rounds fix wake_uptime_ms motion_cycle reason
      if ended then finish else pure still_reporting

  unfoldable pub network_up : M p Bool
  network_up =
      if config.skip_lte
      then pure true
      else do mark p lte; err ← lte_ensure_connected p; pure (not (is_err err))

  abbrev pub is_motion : WakeReason → Bool
  is_motion motion = true
  is_motion _ = false

  unfoldable pub note_wake : WakeReason → M p (Unit {0})
  note_wake vbus = restart_count
  note_wake _ = pure tt

  -- What comes before the network: whether the device reboots.
  unfoldable pub wake_up : WakeReason → M p Bool
  wake_up reason = do
    note_wake reason
    mark p wake
    feed p
    if config.skip_lte then pure false else recover_if_silent p

  -- `fix` is what the caller's variable holds, which the code leaves uninitialised.
  unfoldable pub cycle : (rounds : ℕ) → TrackerFix D F → WakeReason → M p Next
  cycle rounds fix reason = do
    now ← uptime p
    reboot ← wake_up reason
    if reboot then pure rebooting else do
      up ← network_up
      if not up
          then (do led_set p no_lte; sleep_and_wake)
          else connected_cycle rounds fix (u32 now) (is_motion reason) reason
