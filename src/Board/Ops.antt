-- ===== src/Board/Ops.antt =====
-- The calls that app/src/main.c makes, on the board: an entry of the script, and the component's
-- operation with the answers that it gives.
use hologram_nrf9151_gps_tra.Common.{
  ℕ, Bool, false, not, ◌&&◌, [], ◌∷◌, ℤ, is_err, if◌then◌else◌, Bytes,
}
use hologram_nrf9151_gps_tra.Wake.{WakeReason, drain, end_wait}
use hologram_nrf9151_gps_tra.Power.{Reading, power_vbus_present, power_read}
use hologram_nrf9151_gps_tra.StatusLed.{Status, Pattern}
use hologram_nrf9151_gps_tra.Watchdog.{
  Phase, watchdog_feed, watchdog_phase, watchdog_guard_start, watchdog_guard_stop,
}
use hologram_nrf9151_gps_tra.Gnss.{
  gnss_start, gnss_stop, gnss_wait_fix, gnss_fallback, gnss_fallback_available, gnss_active_source,
  gnss_agnss_request_wait, gnss_fix_timeout_seconds,
}
use hologram_nrf9151_gps_tra.Agnss.{Agnss, rate_limited}
use hologram_nrf9151_gps_tra.Gnss.Fix.{TrackerFix, FixSource}
use hologram_nrf9151_gps_tra.Build.{
  built_motion_set_armed, built_motion_last_event_uptime, built_status_led_set,
  built_status_led_pattern, built_status_led_sleep, built_agnss_fetch,
}
use hologram_nrf9151_gps_tra.Board.{
  Platform, M, Span, FuncMode, brief, take_s, receiver_start, connection, message, download,
  is_registered, advance, ◌>>=◌, ◌>>◌, pure, gets, on_board, call,
}

module _ (p : Platform) where
  open p use {D, F, config, floats, numbers, transport}

  -- The static functions of main.c that only ask the modem.
  unfoldable pub lte_is_registered : M p Bool
  lte_is_registered = do
    w ← advance p brief
    pure (if is_err w.reg_err then false else is_registered w.reg_status)

  -- A call with no state in the sources: `lte_lc_connect_async`, `k_sleep`.
  unfoldable pub outside_call : Span → M p ℤ
  outside_call span = do w ← advance p span; pure w.err

  unfoldable pub note_mode : FuncMode → M p (Unit {0})
  note_mode mode = on_board (λ b. record b { func_modes = mode ∷ b.func_modes })

  -- `lte_lc_func_mode_set`.
  unfoldable pub func_mode_set : FuncMode → M p ℤ
  func_mode_set mode = do note_mode mode; outside_call brief

  -- `k_sem_take` on `lte_connected_sem`: 0 if it is given before the time-out.
  unfoldable pub lte_sem_take : M p Bool
  lte_sem_take = do
    advance p (take_s config.lte_connect_timeout_seconds)
    call (λ b. (b.lte_connected_sem, record b { lte_connected_sem = false }))

  unfoldable pub lte_sem_reset : M p (Unit {0})
  lte_sem_reset = on_board (λ b. record b { lte_connected_sem = false })

  unfoldable pub uptime : M p ℕ
  uptime = gets (λ s. s.board.now_ms)

  unfoldable pub rsrp_get : M p (ℤ × ℤ)
  rsrp_get = do w ← advance p brief; pure (w.err, w.rsrp)

  unfoldable pub vbus_present : M p Bool
  vbus_present = do
    w ← advance p brief
    call (λ b. let (r, q) = power_vbus_present w.charger b.power in (r, record b { power = q }))

  unfoldable pub read_power : Reading → M p (ℤ × Reading)
  read_power r = do w ← advance p brief; pure (power_read w.charger r)

  unfoldable pub last_jolt : M p ℕ
  last_jolt = call (λ b.
      let (t, m) = built_motion_last_event_uptime config [] b.motion in
      (t, record b { motion = m }))

  unfoldable pub arm_motion : Bool → M p (Unit {0})
  arm_motion arm = do
    w ← advance p brief
    on_board (λ b. record b { motion = built_motion_set_armed config arm w.err b.motion })

  unfoldable pub led_set : Status → M p (Unit {0})
  led_set status = do
    advance p brief
    on_board (λ b. record b { led = built_status_led_set config status b.led })

  unfoldable pub led_show : Pattern → M p (Unit {0})
  led_show pattern = do
    advance p brief
    on_board (λ b. record b { led = built_status_led_pattern config pattern b.led })

  unfoldable pub led_sleep : M p (Unit {0})
  led_sleep = do
    advance p brief
    on_board (λ b. record b { led = built_status_led_sleep config b.led })

  unfoldable pub feed : M p (Unit {0})
  feed = on_board (λ b. record b { watchdog = watchdog_feed b.watchdog })

  unfoldable pub mark : Phase → M p (Unit {0})
  mark phase = on_board (λ b. record b { watchdog = watchdog_phase phase b.watchdog })

  unfoldable pub guard_start : ℕ → M p (Unit {0})
  guard_start budget_s =
      on_board (λ b. record b { watchdog = watchdog_guard_start budget_s b.watchdog })

  unfoldable pub guard_stop : M p (Unit {0})
  guard_stop = on_board (λ b. record b { watchdog = watchdog_guard_stop b.watchdog })

  -- The wake-up is drained before the time passes and read after it.
  unfoldable pub sleep_until_wake : M p WakeReason
  sleep_until_wake = do
    on_board (λ b. record b { wake = drain [] b.wake })
    advance p (take_s config.sleep_seconds)
    call (λ b. let (reason, w) = end_wait [] b.wake in (reason, record b { wake = w }))

  unfoldable pub start_gnss : M p ℤ
  start_gnss = do
    w ← advance p receiver_start
    call (λ b. let (err, g) = gnss_start config w.gnss b.gnss in (err, record b { gnss = g }))

  unfoldable pub stop_gnss : M p (Unit {0})
  stop_gnss = do
    w ← advance p brief
    on_board (λ b. record b { gnss = gnss_stop config w.gnss b.gnss })

  unfoldable pub fall_back : M p ℤ
  fall_back = do
    w ← advance p brief
    call (λ b. let (err, g) = gnss_fallback config w.gnss b.gnss in (err, record b { gnss = g }))

  unfoldable pub fallback_available : M p Bool
  fallback_available = gets (λ s. gnss_fallback_available config s.board.gnss)

  unfoldable pub fix_timeout_seconds : M p ℕ
  fix_timeout_seconds = gets (λ s. gnss_fix_timeout_seconds config s.board.gnss)

  unfoldable pub active_source : M p FixSource
  active_source = gets (λ s. gnss_active_source s.board.gnss)

  -- The fix that the caller passes by reference comes back with the result.
  unfoldable pub wait_fix : (timeout_s : ℕ) → TrackerFix D F → M p (ℤ × TrackerFix D F)
  wait_fix timeout_s out = do
    w ← advance p (take_s timeout_s)
    call (λ b.
        let (err, fix, g) =
          gnss_wait_fix config floats w.ext_during w.ext_late w.during w.late out b.gnss in
        ((err, fix), record b { gnss = g }))

  -- The wait for the window of the receiver that has the cycle.
  unfoldable pub await_fix : TrackerFix D F → M p (ℤ × TrackerFix D F)
  await_fix out = do timeout ← fix_timeout_seconds; wait_fix timeout out

  unfoldable pub wait_agnss_request : M p ℤ
  wait_agnss_request = do
    w ← advance p (take_s config.agnss_proactive_wait_seconds)
    call (λ b.
        let (err, g) = gnss_agnss_request_wait w.during b.gnss in (err, record b { gnss = g }))

  -- The uptimes of the fetch are those of the board.
  -- A fetch that the rate forbids, or that is not built in, does not wait.
  abbrev pub fetch_span : (now : ℕ) → Agnss → Span
  fetch_span now fetched =
      if config.agnss && not (rate_limited config now fetched) then download else brief

  unfoldable pub fetch_agnss : M p ℤ
  fetch_agnss = do
    start ← uptime
    fetched ← gets (λ s. s.board.agnss)
    w ← advance p (fetch_span start fetched)
    call (λ b.
        let a = record (w.agnss) { now = start; done = b.now_ms } in
        let (err, m, wd, s) =
          built_agnss_fetch config numbers a (b.gnss.modem, b.watchdog, b.agnss) in
        (err, record b { gnss = record (b.gnss) { modem = m }; watchdog = wd; agnss = s }))

  unfoldable pub cloud_resume : M p ℤ
  cloud_resume = do
    w ← advance p connection
    call (λ b.
        let (err, s, wd) = transport.resume w.cloud (b.cloud, b.watchdog) in
        (err, record b { cloud = s; watchdog = wd }))

  -- `cloud_resume` under the guard, as main.c calls it.
  unfoldable pub guarded_resume : M p ℤ
  guarded_resume = do
    guard_start config.cloud_connect_budget_seconds
    err ← cloud_resume
    guard_stop
    pure err

  unfoldable pub cloud_pause : M p (Unit {0})
  cloud_pause = do
    w ← advance p message
    on_board (λ b. record b { cloud = transport.pause w.cloud b.cloud })

  unfoldable pub cloud_is_ready : M p Bool
  cloud_is_ready = gets (λ s. transport.is_ready s.board.cloud)

  unfoldable pub cloud_send_telemetry : Bytes → M p ℤ
  cloud_send_telemetry json = do
    w ← advance p message
    call (λ b.
        let (err, s) = transport.send_telemetry w.cloud json b.cloud in
        (err, record b { cloud = s }))

  unfoldable pub cloud_send_location : TrackerFix D F → M p ℤ
  cloud_send_location fix = do
    w ← advance p message
    call (λ b.
        let (err, s) = transport.send_location w.cloud fix b.cloud in (err, record b { cloud = s }))
