-- ===== src/Board/Calm.antt =====
-- The calls of main.c that leave its static variables alone, while the uptime only grows.
use hologram_nrf9151_gps_tra.Common.{ℕ, ◌+◌, ◌≤◌, ◌≡◌, refl, Bool, List, [], ◌∷◌, arith, Bytes}
use hologram_nrf9151_gps_tra.Watchdog.{Phase}
use hologram_nrf9151_gps_tra.Power.{Reading}
use hologram_nrf9151_gps_tra.StatusLed.{Status, Pattern}
use hologram_nrf9151_gps_tra.Gnss.Fix.{TrackerFix}
use hologram_nrf9151_gps_tra.Board.{
  FuncMode, Span, later, Platform, Board, Sys, Interrupt, interrupt, interrupts, advance, ◌>>=◌,
  ◌>>◌, pure, gets, on_board, call,
}
use hologram_nrf9151_gps_tra.Board.Along.{Preorder, Along, bind-Along, then-Along, pure-Along}
use hologram_nrf9151_gps_tra.Board.Calls.{CallsAlong}
use hologram_nrf9151_gps_tra.Board.Ops.{
  lte_is_registered, outside_call, note_mode, lte_sem_take, lte_sem_reset, uptime, rsrp_get,
  vbus_present, read_power, last_jolt, arm_motion, led_set, led_show, led_sleep, feed, mark,
  guard_start, guard_stop, sleep_until_wake, start_gnss, stop_gnss, fall_back, wait_fix,
  wait_agnss_request, fetch_agnss, cloud_resume, guarded_resume, cloud_pause, cloud_send_telemetry,
  cloud_send_location,
}

module _ (p : Platform) where
  open p use {D, F, transport}

  -- `t` is `s` after some time.
  abbrev pub Later : Sys p → Sys p → Type 0
  Later s t =
      (t.last_send_uptime ≡ s.last_send_uptime)
      × (t.modem_bounced ≡ s.modem_bounced)
      × (t.battery_sleeps ≡ s.battery_sleeps)
      × (s.board.now_ms ≤ t.board.now_ms)

  pub Later-refl : (s : Sys p) → Later s s
  Later-refl s = (refl, refl, refl, ground arith)

  pub Later-trans : (s t u : Sys p) → Later s t → Later t u → Later s u
  Later-trans s t u a b = ground (arith, a, b)

  abbrev pub Calmly : Preorder p
  Calmly = record { rel = Later; rel-refl = Later-refl; rel-trans = Later-trans }

  interrupt-now : (i : Interrupt D F) (b : Board p) → (interrupt p i b).now_ms ≡ b.now_ms
  unfolding interrupt
  interrupt-now i b = ground arith

  interrupts-now : (is : List (Interrupt D F)) (b : Board p) → (interrupts p is b).now_ms ≡ b.now_ms
  unfolding interrupts
  interrupts-now [] b = refl
  interrupts-now (i ∷ is) b = ground (arith, interrupts-now is (interrupt p i b), interrupt-now i b)

  pub advance-Later : (span : Span) (s : Sys p) → Later s (advance p span s).1
  unfolding advance
  advance-Later span s =
      let w = p.script s.board.tick in
      let b = later p (w.elapsed_ms span) s.board in ground (arith, interrupts-now w.interrupts b)

  pub advance-now_ms :
      (span : Span) (s : Sys p)
      → (advance p span s).1.board.now_ms ≡ s.board.now_ms + (p.script s.board.tick).elapsed_ms span
  unfolding advance
  advance-now_ms span s =
      let w = p.script s.board.tick in
      let b = later p (w.elapsed_ms span) s.board in interrupts-now w.interrupts b

  pub lte_is_registered-Along : Along p Calmly (lte_is_registered p)
  unfolding lte_is_registered ◌>>=◌ ◌>>◌ pure gets on_board call
  lte_is_registered-Along = record { along = λ s. advance-Later _ s }

  pub outside_call-Along : (span : Span) → Along p Calmly (outside_call p span)
  unfolding outside_call ◌>>=◌ ◌>>◌ pure gets on_board call
  outside_call-Along span = record { along = λ s. advance-Later _ s }

  pub note_mode-Along : (mode : FuncMode) → Along p Calmly (note_mode p mode)
  unfolding note_mode on_board
  note_mode-Along mode = record { along = λ s. ground arith }

  pub lte_sem_take-Along : Along p Calmly (lte_sem_take p)
  unfolding lte_sem_take ◌>>=◌ ◌>>◌ pure gets on_board call
  lte_sem_take-Along = record { along = λ s. advance-Later _ s }

  pub lte_sem_reset-Along : Along p Calmly (lte_sem_reset p)
  unfolding lte_sem_reset ◌>>=◌ ◌>>◌ pure gets on_board call
  lte_sem_reset-Along = record { along = λ s. ground arith }

  pub uptime-Along : Along p Calmly (uptime p)
  unfolding uptime ◌>>=◌ ◌>>◌ pure gets on_board call
  uptime-Along = record { along = λ s. ground arith }

  pub rsrp_get-Along : Along p Calmly (rsrp_get p)
  unfolding rsrp_get ◌>>=◌ ◌>>◌ pure gets on_board call
  rsrp_get-Along = record { along = λ s. advance-Later _ s }

  pub vbus_present-Along : Along p Calmly (vbus_present p)
  unfolding vbus_present ◌>>=◌ ◌>>◌ pure gets on_board call
  vbus_present-Along = record { along = λ s. advance-Later _ s }

  pub read_power-Along : (r : Reading) → Along p Calmly (read_power p r)
  unfolding read_power ◌>>=◌ ◌>>◌ pure gets on_board call
  read_power-Along r = record { along = λ s. advance-Later _ s }

  pub last_jolt-Along : Along p Calmly (last_jolt p)
  unfolding last_jolt ◌>>=◌ ◌>>◌ pure gets on_board call
  last_jolt-Along = record { along = λ s. ground arith }

  pub arm_motion-Along : (arm : Bool) → Along p Calmly (arm_motion p arm)
  unfolding arm_motion ◌>>=◌ ◌>>◌ pure gets on_board call
  arm_motion-Along arm = record { along = λ s. advance-Later _ s }

  pub led_set-Along : (status : Status) → Along p Calmly (led_set p status)
  unfolding led_set ◌>>=◌ ◌>>◌ pure gets on_board call
  led_set-Along status = record { along = λ s. advance-Later _ s }

  pub led_show-Along : (shown : Pattern) → Along p Calmly (led_show p shown)
  unfolding led_show ◌>>=◌ ◌>>◌ pure gets on_board call
  led_show-Along shown = record { along = λ s. advance-Later _ s }

  pub led_sleep-Along : Along p Calmly (led_sleep p)
  unfolding led_sleep ◌>>=◌ ◌>>◌ pure gets on_board call
  led_sleep-Along = record { along = λ s. advance-Later _ s }

  pub feed-Along : Along p Calmly (feed p)
  unfolding feed ◌>>=◌ ◌>>◌ pure gets on_board call
  feed-Along = record { along = λ s. ground arith }

  pub mark-Along : (phase : Phase) → Along p Calmly (mark p phase)
  unfolding mark ◌>>=◌ ◌>>◌ pure gets on_board call
  mark-Along phase = record { along = λ s. ground arith }

  pub guard_start-Along : (n : ℕ) → Along p Calmly (guard_start p n)
  unfolding guard_start ◌>>=◌ ◌>>◌ pure gets on_board call
  guard_start-Along n = record { along = λ s. ground arith }

  pub guard_stop-Along : Along p Calmly (guard_stop p)
  unfolding guard_stop ◌>>=◌ ◌>>◌ pure gets on_board call
  guard_stop-Along = record { along = λ s. ground arith }

  pub sleep_until_wake-Along : Along p Calmly (sleep_until_wake p)
  unfolding sleep_until_wake ◌>>=◌ ◌>>◌ pure gets on_board call
  sleep_until_wake-Along = record { along = λ s. advance-Later _ _ }

  pub start_gnss-Along : Along p Calmly (start_gnss p)
  unfolding start_gnss ◌>>=◌ ◌>>◌ pure gets on_board call
  start_gnss-Along = record { along = λ s. advance-Later _ s }

  pub stop_gnss-Along : Along p Calmly (stop_gnss p)
  unfolding stop_gnss ◌>>=◌ ◌>>◌ pure gets on_board call
  stop_gnss-Along = record { along = λ s. advance-Later _ s }

  pub fall_back-Along : Along p Calmly (fall_back p)
  unfolding fall_back ◌>>=◌ ◌>>◌ pure gets on_board call
  fall_back-Along = record { along = λ s. advance-Later _ s }

  pub wait_fix-Along :
      (timeout_s : ℕ) (out : TrackerFix D F) → Along p Calmly (wait_fix p timeout_s out)
  unfolding wait_fix ◌>>=◌ ◌>>◌ pure gets on_board call
  wait_fix-Along timeout_s out = record { along = λ s. advance-Later _ s }

  pub wait_agnss_request-Along : Along p Calmly (wait_agnss_request p)
  unfolding wait_agnss_request ◌>>=◌ ◌>>◌ pure gets on_board call
  wait_agnss_request-Along = record { along = λ s. advance-Later _ s }

  pub fetch_agnss-Along : Along p Calmly (fetch_agnss p)
  unfolding fetch_agnss uptime ◌>>=◌ ◌>>◌ pure gets on_board call
  fetch_agnss-Along = record { along = λ s. advance-Later _ s }

  pub cloud_resume-Along : Along p Calmly (cloud_resume p)
  unfolding cloud_resume ◌>>=◌ ◌>>◌ pure gets on_board call
  cloud_resume-Along = record { along = λ s. advance-Later _ s }

  pub guarded_resume-Along : Along p Calmly (guarded_resume p)
  unfolding guarded_resume
  guarded_resume-Along =
      then-Along (guard_start-Along _)
        (bind-Along cloud_resume-Along (λ err. then-Along guard_stop-Along (pure-Along _)))

  pub cloud_pause-Along : Along p Calmly (cloud_pause p)
  unfolding cloud_pause ◌>>=◌ ◌>>◌ pure gets on_board call
  cloud_pause-Along = record { along = λ s. advance-Later _ s }

  pub cloud_send_telemetry-Along : (json : Bytes) → Along p Calmly (cloud_send_telemetry p json)
  unfolding cloud_send_telemetry ◌>>=◌ ◌>>◌ pure gets on_board call
  cloud_send_telemetry-Along json = record { along = λ s. advance-Later _ s }

  pub cloud_send_location-Along :
      (fix : TrackerFix D F) → Along p Calmly (cloud_send_location p fix)
  unfolding cloud_send_location ◌>>=◌ ◌>>◌ pure gets on_board call
  cloud_send_location-Along fix = record { along = λ s. advance-Later _ s }

  abbrev pub calm_calls : CallsAlong p Calmly
  calm_calls = record {
    lte_is_registered-Along = lte_is_registered-Along;
    outside_call-Along = outside_call-Along;
    note_mode-Along = note_mode-Along;
    lte_sem_take-Along = lte_sem_take-Along;
    lte_sem_reset-Along = lte_sem_reset-Along;
    uptime-Along = uptime-Along;
    rsrp_get-Along = rsrp_get-Along;
    vbus_present-Along = vbus_present-Along;
    read_power-Along = read_power-Along;
    last_jolt-Along = last_jolt-Along;
    arm_motion-Along = arm_motion-Along;
    led_set-Along = led_set-Along;
    led_show-Along = led_show-Along;
    led_sleep-Along = led_sleep-Along;
    feed-Along = feed-Along;
    mark-Along = mark-Along;
    sleep_until_wake-Along = sleep_until_wake-Along;
    wait_fix-Along = wait_fix-Along;
    wait_agnss_request-Along = wait_agnss_request-Along;
    guarded_resume-Along = guarded_resume-Along;
    cloud_pause-Along = cloud_pause-Along;
    cloud_send_telemetry-Along = cloud_send_telemetry-Along;
    cloud_send_location-Along = cloud_send_location-Along;
  }
