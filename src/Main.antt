-- ===== src/Main.antt =====
-- app/src/main.c: the report loop and its helpers, on the board of Board.antt.
pub mod Along
pub mod Boot
pub mod Cycle
pub mod Network
pub mod Report
pub mod Run
pub mod Recovery
pub mod Sleep
pub mod Sound
pub mod Timed
pub mod Writes
use hologram_nrf9151_gps_tra.Common.{
  ℕ, ◌+◌, ◌-◌, ◌*◌, ◌/◌, Bool, true, false, not, ◌&&◌, ◌||◌, Option, none, some, ℤ, pos, ok,
  einprogress, etimedout, enomem, eacces, enotconn, is_err, is_neg, eqb_ℤ, ltb, leb, ◌==◌,
  if◌then◌else◌, u32, Bytes,
}
use hologram_nrf9151_gps_tra.Wake.{WakeReason}
use hologram_nrf9151_gps_tra.Power.{ChargeState, discharging, charging, full, Reading}
use hologram_nrf9151_gps_tra.StatusLed.{
  Status, no_lte, lte_no_fix, lte_fix, Pattern, solid, charging as led_charging, battery,
}
use hologram_nrf9151_gps_tra.Watchdog.{
  Phase, report, led_sleep as phase_led_sleep, motion_arm, sleep, no_network, watchdog_reset_phase,
}
use hologram_nrf9151_gps_tra.Telemetry.{Telemetry, telemetry_battery_percent, telemetry_build_json}
use hologram_nrf9151_gps_tra.Gnss.{is_external, gnss_active_source}
use hologram_nrf9151_gps_tra.Gnss.Fix.{TrackerFix}
use hologram_nrf9151_gps_tra.Board.{
  Platform, Sys, M, offline, normal, brief, sleep_ms, ◌>>=◌, ◌>>◌, pure, gets,
}
use hologram_nrf9151_gps_tra.Board.Ops.{
  lte_is_registered, outside_call, func_mode_set, lte_sem_take, lte_sem_reset, uptime, rsrp_get,
  vbus_present, read_power, last_jolt, arm_motion, led_set, led_show, led_sleep, feed, mark,
  sleep_until_wake, guarded_resume, cloud_is_ready, cloud_send_telemetry, cloud_send_location,
}

module _ (p : Platform) where
  open p use {D, F, config, outside, zero_d, zero_f, transport}

  unfoldable pub lte_ensure_connected : M p ℤ
  lte_ensure_connected = do
    registered ← lte_is_registered p
    if registered then pure ok else do
      lte_sem_reset p
      err ← outside_call p brief
      if is_err err && not (eqb_ℤ err einprogress)
          then pure err
          else do given ← lte_sem_take p; pure (if given then ok else etimedout)

  -- The test is that of signed numbers: a jolt in the future counts.
  unfoldable pub surge_active : (motion_cycle : Bool) → M p Bool
  surge_active motion_cycle = if not motion_cycle || not config.motion_wake then pure false else do
    last ← last_jolt p
    now ← uptime p
    pure (not (last == 0) && ltb now (last + config.motion_surge_seconds * 1000))

  unfoldable pub agnss_wanted : M p Bool
  agnss_wanted = do
    source ← gets (λ s. gnss_active_source s.board.gnss)
    ready ← cloud_is_ready p
    pure (
        config.agnss
        && (not config.skip_lte
            && (not (is_external source) && (transport.supports_agnss && ready))))

  -- The pattern where the status LED is compiled in, and where it is not.
  unfoldable pub led_pattern : M p Pattern
  led_pattern = if not config.status_led then pure solid else do
    present ← vbus_present p
    if not present then pure battery else do
      (err, r) ← read_power p (record { batt_mv = 0; charge = discharging })
      pure (
          if is_err err then led_charging else elim r.charge [
            | full ↦ solid
            | _ ↦
                if ltb config.led_full_percent (telemetry_battery_percent r.batt_mv)
                then solid
                else led_charging
          ])

  unfoldable pub status_led_report : (have_fix : Bool) → M p (Unit {0})
  status_led_report have_fix = do
    lte ← (if config.skip_lte then pure true else lte_is_registered p)
    led_set p (if not lte then no_lte else if have_fix then lte_fix else lte_no_fix)
    pattern ← led_pattern
    led_show p pattern

  unfoldable pub telemetry_of :
      Option (TrackerFix D F)
      → (awake_s : ℕ) → (power_err : ℤ) → Reading
      → (rsrp_err rsrp : ℤ) → WakeReason
      → Telemetry D F
  telemetry_of fix awake_s power_err r rsrp_err rsrp reason = record {
    longitude = elim fix [ none ↦ zero_d | some f ↦ f.longitude ];
    latitude = elim fix [ none ↦ zero_d | some f ↦ f.latitude ];
    hdop = elim fix [ none ↦ zero_f | some f ↦ f.hdop ];
    batt_mv = if is_err power_err then 0 else r.batt_mv;
    charge = if is_err power_err then discharging else r.charge;
    signal_dbm = if is_err rsrp_err then pos 0 else rsrp;
    awake_s = awake_s;
    wake = reason;
  }

  -- `(uint32_t)((k_uptime_get() - wake_uptime_ms) / 1000)`, where `wake_uptime_ms` is a `uint32_t`.
  unfoldable pub awake_seconds : (now wake_uptime_ms : ℕ) → ℕ
  awake_seconds now wake_uptime_ms = u32 ((now - wake_uptime_ms) / 1000)

  -- The answers after which the link is taken for stale.
  abbrev pub is_stale : ℤ → Bool
  is_stale err = eqb_ℤ err eacces || eqb_ℤ err enotconn

  unfoldable pub send_again : Bytes → M p ℤ
  send_again payload = do
    err ← guarded_resume p
    if is_err err then pure err else cloud_send_telemetry p payload

  unfoldable pub note_sent : ℤ → M p (Unit {0})
  note_sent err s = (tt, if is_err err then s else record s { last_send_uptime = s.board.now_ms })

  unfoldable pub send_report : Bytes → M p ℤ
  send_report payload = do
    first ← cloud_send_telemetry p payload
    err ← (if is_stale first then send_again payload else pure first)
    note_sent err
    pure err

  unfoldable pub show_location : ℤ → Option (TrackerFix D F) → M p (Unit {0})
  show_location err none = pure tt
  show_location err (some fix) =
      if is_err err then pure tt else (do cloud_send_location p fix; pure tt)

  unfoldable pub report_fix : Option (TrackerFix D F) → (wake_uptime_ms : ℕ) → WakeReason → M p ℤ
  report_fix fix wake_uptime_ms reason = do
    now ← uptime p
    (power_err, r) ← read_power p (record { batt_mv = 0; charge = discharging })
    (rsrp_err, rsrp) ← rsrp_get p
    mark p report
    phase ← gets (λ s. watchdog_reset_phase s.board.watchdog)
    let t = telemetry_of fix (awake_seconds now wake_uptime_ms) power_err r rsrp_err rsrp reason
    let built = telemetry_build_json outside phase t 256
    if is_neg built.0
        then pure enomem
        else do err ← send_report built.1; show_location err fix; feed p; pure err

  unfoldable pub set_bounced : Bool → M p (Unit {0})
  set_bounced bounced s = (tt, record s { modem_bounced = bounced })

  -- Offline, a second, and back to normal.
  unfoldable pub bounce_modem : M p (Unit {0})
  bounce_modem = do
    set_bounced true
    func_mode_set p offline
    outside_call p (sleep_ms 1000)
    func_mode_set p normal
    pure tt

  -- Whether `sys_reboot` is called, which does not return.
  unfoldable pub recover_if_silent : M p Bool
  recover_if_silent = do
    now ← uptime p
    last ← gets (λ s. s.last_send_uptime)
    bounced ← gets (λ s. s.modem_bounced)
    let quiet_min = (now - last) / 60000
    if ltb quiet_min config.modem_recovery_minutes
        then (do set_bounced false; pure false)
        else if leb config.reboot_minutes quiet_min
        then (do mark p no_network; outside_call p (sleep_ms 200); pure true)
        else if bounced
        then pure false
        else (do bounce_modem; pure false)

  unfoldable pub count_sleep : Bool → M p (Unit {0})
  count_sleep arm s =
      (tt, if not arm then record s { battery_sleeps = u32 (s.battery_sleeps + 1) } else s)

  unfoldable pub battery_sleep : M p WakeReason
  battery_sleep = do
    sleeps ← gets (λ s. s.battery_sleeps)
    let arm = leb config.motion_settle_cycles sleeps
    mark p phase_led_sleep
    led_sleep p
    mark p motion_arm
    arm_motion p arm
    count_sleep arm
    mark p sleep
    sleep_until_wake p
