-- ===== src/Board/Timed/Calls.antt =====
-- How long each call of app/src/main.c takes, and which ones feed the watchdog.
use hologram_nrf9151_gps_tra.Common.{ℕ, ◌≤◌, ◌≡◌, Bool, refl, arith, Bytes}
use hologram_nrf9151_gps_tra.Watchdog.{Phase, watchdog_phase}
use hologram_nrf9151_gps_tra.Watchdog.Tended.{feed-IsTended}
use hologram_nrf9151_gps_tra.Power.{Reading}
use hologram_nrf9151_gps_tra.StatusLed.{Status, Pattern}
use hologram_nrf9151_gps_tra.Gnss.{gnss_fix_timeout_seconds}
use hologram_nrf9151_gps_tra.Gnss.Fix.{TrackerFix}
use hologram_nrf9151_gps_tra.Board.{
  FuncMode, Platform, Board, M, Span, brief, take_s, receiver_start, message, advance, ◌>>=◌, ◌>>◌,
  gets, on_board, call,
}
use hologram_nrf9151_gps_tra.Board.Ops.{
  lte_is_registered, outside_call, note_mode, func_mode_set, lte_sem_take, lte_sem_reset, rsrp_get,
  vbus_present, read_power, last_jolt, arm_motion, led_set, led_show, led_sleep, feed, mark,
  sleep_until_wake, start_gnss, stop_gnss, fall_back, wait_fix, fix_timeout_seconds, await_fix,
  wait_agnss_request, cloud_pause, cloud_send_telemetry, cloud_send_location,
}
use hologram_nrf9151_gps_tra.Board.Timed.{
  Lasts, Limits, limit, wait_ms, window_ms, Feeds, advance-Takes, bind-Takes, then-Takes,
  pure-Takes, free-Takes, Feeds-Takes, more-Takes,
}

module _ {p : Platform} {bound : ℕ} where
  open p use {D, F, config, script, transport}

  -- What leaves the watchdog alone takes no time.
  pub still_call :
      {A : Type 0} (f : Board p → A × Board p)
      → ((b : Board p) → ((f b).1.watchdog ≡ b.watchdog) × ((f b).1.now_ms ≡ b.now_ms))
      → Lasts p bound 0 (call f)
  unfolding call
  still_call f e = free-Takes _ (λ s. e s.board)

  still_board :
      (f : Board p → Board p)
      → ((b : Board p) → ((f b).watchdog ≡ b.watchdog) × ((f b).now_ms ≡ b.now_ms))
      → Lasts p bound 0 (on_board f)
  unfolding on_board
  still_board f e = free-Takes _ (λ s. e s.board)

  pub feed-Feeds : Feeds p bound 0 0 (feed p)
  unfolding feed on_board
  feed-Feeds = record {
    feeds = λ n s h t. feed-IsTended bound n s.board.watchdog t;
    ends = λ s. omega arith;
  }

  pub feed-Takes : Lasts p bound 0 (feed p)
  feed-Takes = Feeds-Takes feed-Feeds

  pub mark-Takes : (phase : Phase) → Lasts p bound 0 (mark p phase)
  unfolding mark watchdog_phase on_board
  mark-Takes phase = record { takes = λ n s h t. ground (arith, t); lasts = λ s. omega arith }

  pub lte_sem_reset-Takes : Lasts p bound 0 (lte_sem_reset p)
  unfolding lte_sem_reset
  lte_sem_reset-Takes = still_board _ (λ b. (refl, refl))

  pub last_jolt-Takes : Lasts p bound 0 (last_jolt p)
  unfolding last_jolt
  last_jolt-Takes = still_call _ (λ b. (refl, refl))

  module _ (l : Limits)
      (timely : (n : ℕ) (span : Span) → (script n).elapsed_ms span ≤ limit l span) where
    -- A call, and what it does apart from the watchdog.
    pub timed :
        {A : Type 0} (span : Span) {f : _ → M p A}
        → ((w : _) → Lasts p bound 0 (f w))
        → Lasts p bound (limit l span) (advance p span >>= f)
    timed span rest =
        more-Takes (omega arith) (omega arith) (omega arith)
          (bind-Takes (advance-Takes l timely span) rest)

    pub lte_is_registered-Takes : Lasts p bound l.brief_ms (lte_is_registered p)
    unfolding lte_is_registered
    lte_is_registered-Takes = timed brief (λ w. pure-Takes _)

    pub outside_call-Takes : (span : Span) → Lasts p bound (limit l span) (outside_call p span)
    unfolding outside_call
    outside_call-Takes span = timed span (λ w. pure-Takes _)

    pub timed_then :
        {A : Type 0} (span : Span) {m : M p A}
        → Lasts p bound 0 m
        → Lasts p bound (limit l span) (advance p span >> m)
    timed_then span rest =
        more-Takes (omega arith) (omega arith) (omega arith)
          (then-Takes (advance-Takes l timely span) rest)

    pub func_mode_set-Takes : (mode : FuncMode) → Lasts p bound l.brief_ms (func_mode_set p mode)
    unfolding func_mode_set note_mode
    func_mode_set-Takes mode =
        more-Takes (omega arith) (omega arith) (omega arith)
          (then-Takes (still_board _ (λ b. (refl, refl))) (outside_call-Takes brief))

    pub lte_sem_take-Takes :
        Lasts p bound (wait_ms l config.lte_connect_timeout_seconds) (lte_sem_take p)
    unfolding lte_sem_take
    lte_sem_take-Takes =
        timed_then (take_s config.lte_connect_timeout_seconds) (still_call _ (λ b. (refl, refl)))

    pub rsrp_get-Takes : Lasts p bound l.brief_ms (rsrp_get p)
    unfolding rsrp_get
    rsrp_get-Takes = timed brief (λ w. pure-Takes _)

    pub vbus_present-Takes : Lasts p bound l.brief_ms (vbus_present p)
    unfolding vbus_present
    vbus_present-Takes = timed brief (λ w. still_call _ (λ b. (refl, refl)))

    pub read_power-Takes : (r : Reading) → Lasts p bound l.brief_ms (read_power p r)
    unfolding read_power
    read_power-Takes r = timed brief (λ w. pure-Takes _)

    pub arm_motion-Takes : (arm : Bool) → Lasts p bound l.brief_ms (arm_motion p arm)
    unfolding arm_motion
    arm_motion-Takes arm = timed brief (λ w. still_board _ (λ b. (refl, refl)))

    pub led_set-Takes : (status : Status) → Lasts p bound l.brief_ms (led_set p status)
    unfolding led_set
    led_set-Takes status = timed_then brief (still_board _ (λ b. (refl, refl)))

    pub led_show-Takes : (shown : Pattern) → Lasts p bound l.brief_ms (led_show p shown)
    unfolding led_show
    led_show-Takes shown = timed_then brief (still_board _ (λ b. (refl, refl)))

    pub led_sleep-Takes : Lasts p bound l.brief_ms (led_sleep p)
    unfolding led_sleep
    led_sleep-Takes = timed_then brief (still_board _ (λ b. (refl, refl)))

    pub sleep_until_wake-Takes : Lasts p bound (wait_ms l config.sleep_seconds) (sleep_until_wake p)
    unfolding sleep_until_wake
    sleep_until_wake-Takes = more-Takes (omega arith) (omega arith) (omega arith) (
        then-Takes (still_board _ (λ b. (refl, refl)))
          (timed_then (take_s config.sleep_seconds) (still_call _ (λ b. (refl, refl)))))

    pub start_gnss-Takes : Lasts p bound l.receiver_start_ms (start_gnss p)
    unfolding start_gnss
    start_gnss-Takes = timed receiver_start (λ w. still_call _ (λ b. (refl, refl)))

    pub stop_gnss-Takes : Lasts p bound l.brief_ms (stop_gnss p)
    unfolding stop_gnss
    stop_gnss-Takes = timed brief (λ w. still_board _ (λ b. (refl, refl)))

    pub fall_back-Takes : Lasts p bound l.brief_ms (fall_back p)
    unfolding fall_back
    fall_back-Takes = timed brief (λ w. still_call _ (λ b. (refl, refl)))

    pub wait_fix-Takes :
        (timeout_s : ℕ) (out : TrackerFix D F)
        → Lasts p bound (wait_ms l timeout_s) (wait_fix p timeout_s out)
    unfolding wait_fix
    wait_fix-Takes timeout_s out = timed (take_s timeout_s) (λ w. still_call _ (λ b. (refl, refl)))

    pub wait_agnss_request-Takes :
        Lasts p bound (wait_ms l config.agnss_proactive_wait_seconds) (wait_agnss_request p)
    unfolding wait_agnss_request
    wait_agnss_request-Takes =
        timed (take_s config.agnss_proactive_wait_seconds) (λ w. still_call _ (λ b. (refl, refl)))

    pub cloud_pause-Takes : Lasts p bound l.message_ms (cloud_pause p)
    unfolding cloud_pause
    cloud_pause-Takes = timed message (λ w. still_board _ (λ b. (refl, refl)))

    pub cloud_send_telemetry-Takes :
        (json : Bytes) → Lasts p bound l.message_ms (cloud_send_telemetry p json)
    unfolding cloud_send_telemetry
    cloud_send_telemetry-Takes json = timed message (λ w. still_call _ (λ b. (refl, refl)))

    pub cloud_send_location-Takes :
        (fix : TrackerFix D F) → Lasts p bound l.message_ms (cloud_send_location p fix)
    unfolding cloud_send_location
    cloud_send_location-Takes fix = timed message (λ w. still_call _ (λ b. (refl, refl)))

    pub await_fix-Takes :
        (out : TrackerFix D F) → Lasts p bound (window_ms config l) (await_fix p out)
    unfolding await_fix fix_timeout_seconds gnss_fix_timeout_seconds gets ◌>>=◌
    await_fix-Takes out = record {
      takes = λ n s h t.
          let seconds = gnss_fix_timeout_seconds config s.board.gnss in
          let i = (wait_fix-Takes seconds out).takes n s (ground (arith, h)) t in ground (arith, i);
      lasts = λ s.
          let seconds = gnss_fix_timeout_seconds config s.board.gnss in
          ground (arith, (wait_fix-Takes seconds out).lasts s);
    }
