-- ===== src/Board/Receivers.antt =====
-- The calls that leave the receivers of the board as they are: which one is active and which run.
use hologram_nrf9151_gps_tra.Common.{ℕ, refl, Bool, List, [], ◌∷◌, arith, Bytes}
use hologram_nrf9151_gps_tra.Power.{Reading}
use hologram_nrf9151_gps_tra.StatusLed.{Status, Pattern}
use hologram_nrf9151_gps_tra.Watchdog.{Phase}
use hologram_nrf9151_gps_tra.Gnss.{gnss_wait_fix, gnss_agnss_request_wait}
use hologram_nrf9151_gps_tra.Gnss.Fix.{TrackerFix}
use hologram_nrf9151_gps_tra.Gnss.Modem.{deliver, gnss_event_handler}
use hologram_nrf9151_gps_tra.Gnss.Ext.{gnss_data_handler}
use hologram_nrf9151_gps_tra.Board.{
  FuncMode, Span, take_s, later, Platform, Board, Sys, Interrupt, interrupt, interrupts,
  lte_handler, advance, ◌>>=◌, ◌>>◌, pure, gets, on_board, call,
}
use hologram_nrf9151_gps_tra.Board.Along.{Preorder, Along, bind-Along, then-Along, pure-Along}
use hologram_nrf9151_gps_tra.Board.Calls.{CallsAlong}
use hologram_nrf9151_gps_tra.Board.Ops.{
  lte_is_registered, outside_call, note_mode, lte_sem_take, lte_sem_reset, uptime, rsrp_get,
  vbus_present, read_power, last_jolt, arm_motion, led_set, led_show, led_sleep, feed, mark,
  guard_start, guard_stop, sleep_until_wake, wait_fix, wait_agnss_request, cloud_resume,
  guarded_resume, cloud_pause, cloud_send_telemetry, cloud_send_location,
}
use hologram_nrf9151_gps_tra.Gnss.Kept.{
  modem_wait-running, request_wait-running, ext_wait-streaming, SameReceivers,
}

module _ (p : Platform) where
  open p use {D, F, config, floats, transport}

  abbrev pub Still : Sys p → Sys p → Type 0
  Still s t = SameReceivers s.board.gnss t.board.gnss

  one-SameReceivers :
      (i : Interrupt D F) (b : Board p) → SameReceivers b.gnss (interrupt p i b).gnss
  unfolding interrupt lte_handler deliver gnss_event_handler gnss_data_handler
  one-SameReceivers i b = ground arith

  all-SameReceivers :
      (is : List (Interrupt D F)) (b : Board p) → SameReceivers b.gnss (interrupts p is b).gnss
  unfolding interrupts
  all-SameReceivers [] b = (refl, refl, refl, refl)
  all-SameReceivers (i ∷ is) b =
      ground (arith, all-SameReceivers is (interrupt p i b), one-SameReceivers i b)

  pub advance-Still : (span : Span) (s : Sys p) → Still s (advance p span s).1
  unfolding advance
  advance-Still span s =
      let w = p.script s.board.tick in
      all-SameReceivers w.interrupts (later p (w.elapsed_ms span) s.board)

  pub Still-refl : (s : Sys p) → Still s s
  Still-refl s = (refl, refl, refl, refl)

  pub Still-trans : (s t u : Sys p) → Still s t → Still t u → Still s u
  Still-trans s t u a b = ground (arith, a, b)

  abbrev pub KeepsReceivers : Preorder p
  KeepsReceivers = record { rel = Still; rel-refl = Still-refl; rel-trans = Still-trans }

  pub lte_is_registered-KeepsReceivers : Along p KeepsReceivers (lte_is_registered p)
  unfolding lte_is_registered ◌>>=◌ ◌>>◌ pure gets on_board call
  lte_is_registered-KeepsReceivers = record { along = λ s. advance-Still _ s }

  pub outside_call-KeepsReceivers : (span : Span) → Along p KeepsReceivers (outside_call p span)
  unfolding outside_call ◌>>=◌ ◌>>◌ pure gets on_board call
  outside_call-KeepsReceivers span = record { along = λ s. advance-Still _ s }

  pub note_mode-KeepsReceivers : (mode : FuncMode) → Along p KeepsReceivers (note_mode p mode)
  unfolding note_mode on_board
  note_mode-KeepsReceivers mode = record { along = λ s. (refl, refl, refl, refl) }

  pub lte_sem_take-KeepsReceivers : Along p KeepsReceivers (lte_sem_take p)
  unfolding lte_sem_take ◌>>=◌ ◌>>◌ pure gets on_board call
  lte_sem_take-KeepsReceivers = record { along = λ s. advance-Still _ s }

  pub lte_sem_reset-KeepsReceivers : Along p KeepsReceivers (lte_sem_reset p)
  unfolding lte_sem_reset ◌>>=◌ ◌>>◌ pure gets on_board call
  lte_sem_reset-KeepsReceivers = record { along = λ s. (refl, refl, refl, refl) }

  pub uptime-KeepsReceivers : Along p KeepsReceivers (uptime p)
  unfolding uptime ◌>>=◌ ◌>>◌ pure gets on_board call
  uptime-KeepsReceivers = record { along = λ s. (refl, refl, refl, refl) }

  pub rsrp_get-KeepsReceivers : Along p KeepsReceivers (rsrp_get p)
  unfolding rsrp_get ◌>>=◌ ◌>>◌ pure gets on_board call
  rsrp_get-KeepsReceivers = record { along = λ s. advance-Still _ s }

  pub vbus_present-KeepsReceivers : Along p KeepsReceivers (vbus_present p)
  unfolding vbus_present ◌>>=◌ ◌>>◌ pure gets on_board call
  vbus_present-KeepsReceivers = record { along = λ s. advance-Still _ s }

  pub read_power-KeepsReceivers : (r : Reading) → Along p KeepsReceivers (read_power p r)
  unfolding read_power ◌>>=◌ ◌>>◌ pure gets on_board call
  read_power-KeepsReceivers r = record { along = λ s. advance-Still _ s }

  pub last_jolt-KeepsReceivers : Along p KeepsReceivers (last_jolt p)
  unfolding last_jolt ◌>>=◌ ◌>>◌ pure gets on_board call
  last_jolt-KeepsReceivers = record { along = λ s. (refl, refl, refl, refl) }

  pub arm_motion-KeepsReceivers : (arm : Bool) → Along p KeepsReceivers (arm_motion p arm)
  unfolding arm_motion ◌>>=◌ ◌>>◌ pure gets on_board call
  arm_motion-KeepsReceivers arm = record { along = λ s. advance-Still _ s }

  pub led_set-KeepsReceivers : (status : Status) → Along p KeepsReceivers (led_set p status)
  unfolding led_set ◌>>=◌ ◌>>◌ pure gets on_board call
  led_set-KeepsReceivers status = record { along = λ s. advance-Still _ s }

  pub led_show-KeepsReceivers : (shown : Pattern) → Along p KeepsReceivers (led_show p shown)
  unfolding led_show ◌>>=◌ ◌>>◌ pure gets on_board call
  led_show-KeepsReceivers shown = record { along = λ s. advance-Still _ s }

  pub led_sleep-KeepsReceivers : Along p KeepsReceivers (led_sleep p)
  unfolding led_sleep ◌>>=◌ ◌>>◌ pure gets on_board call
  led_sleep-KeepsReceivers = record { along = λ s. advance-Still _ s }

  pub feed-KeepsReceivers : Along p KeepsReceivers (feed p)
  unfolding feed ◌>>=◌ ◌>>◌ pure gets on_board call
  feed-KeepsReceivers = record { along = λ s. (refl, refl, refl, refl) }

  pub mark-KeepsReceivers : (phase : Phase) → Along p KeepsReceivers (mark p phase)
  unfolding mark ◌>>=◌ ◌>>◌ pure gets on_board call
  mark-KeepsReceivers phase = record { along = λ s. (refl, refl, refl, refl) }

  pub guard_start-KeepsReceivers : (n : ℕ) → Along p KeepsReceivers (guard_start p n)
  unfolding guard_start ◌>>=◌ ◌>>◌ pure gets on_board call
  guard_start-KeepsReceivers n = record { along = λ s. (refl, refl, refl, refl) }

  pub guard_stop-KeepsReceivers : Along p KeepsReceivers (guard_stop p)
  unfolding guard_stop ◌>>=◌ ◌>>◌ pure gets on_board call
  guard_stop-KeepsReceivers = record { along = λ s. (refl, refl, refl, refl) }

  pub sleep_until_wake-KeepsReceivers : Along p KeepsReceivers (sleep_until_wake p)
  unfolding sleep_until_wake ◌>>=◌ ◌>>◌ pure gets on_board call
  sleep_until_wake-KeepsReceivers = record { along = λ s. advance-Still _ _ }

  wait_fix-Still :
      (timeout_s : ℕ) (out : TrackerFix D F) (s : Sys p) → Still s (wait_fix p timeout_s out s).1
  unfolding wait_fix gnss_wait_fix ◌>>=◌ call
  wait_fix-Still timeout_s out s =
      let w = p.script s.board.tick in
      let s1 = (advance p (take_s timeout_s) s).1 in
      let r = (advance p (take_s timeout_s) s).0 in
      ground (
        arith,
        advance-Still (take_s timeout_s) s,
        ext_wait-streaming floats config r.ext_during r.ext_late out s1.board.gnss.ext,
        modem_wait-running r.during r.late out s1.board.gnss.modem,
      )

  pub wait_fix-KeepsReceivers :
      (timeout_s : ℕ) (out : TrackerFix p.D p.F) → Along p KeepsReceivers (wait_fix p timeout_s out)
  wait_fix-KeepsReceivers timeout_s out = record { along = wait_fix-Still timeout_s out }

  wait_agnss_request-Still : (s : Sys p) → Still s (wait_agnss_request p s).1
  unfolding wait_agnss_request gnss_agnss_request_wait ◌>>=◌ call
  wait_agnss_request-Still s =
      let s1 = (advance p (take_s p.config.agnss_proactive_wait_seconds) s).1 in
      let r = (advance p (take_s p.config.agnss_proactive_wait_seconds) s).0 in
      ground (
        arith,
        advance-Still (take_s p.config.agnss_proactive_wait_seconds) s,
        request_wait-running r.during s1.board.gnss.modem,
      )

  pub wait_agnss_request-KeepsReceivers : Along p KeepsReceivers (wait_agnss_request p)
  wait_agnss_request-KeepsReceivers = record { along = wait_agnss_request-Still }

  pub cloud_resume-KeepsReceivers : Along p KeepsReceivers (cloud_resume p)
  unfolding cloud_resume ◌>>=◌ ◌>>◌ pure gets on_board call
  cloud_resume-KeepsReceivers = record { along = λ s. advance-Still _ s }

  pub guarded_resume-KeepsReceivers : Along p KeepsReceivers (guarded_resume p)
  unfolding guarded_resume
  guarded_resume-KeepsReceivers = then-Along (guard_start-KeepsReceivers _) (
      bind-Along cloud_resume-KeepsReceivers
        (λ err. then-Along guard_stop-KeepsReceivers (pure-Along _)))

  pub cloud_pause-KeepsReceivers : Along p KeepsReceivers (cloud_pause p)
  unfolding cloud_pause ◌>>=◌ ◌>>◌ pure gets on_board call
  cloud_pause-KeepsReceivers = record { along = λ s. advance-Still _ s }

  pub cloud_send_telemetry-KeepsReceivers :
      (json : Bytes) → Along p KeepsReceivers (cloud_send_telemetry p json)
  unfolding cloud_send_telemetry ◌>>=◌ ◌>>◌ pure gets on_board call
  cloud_send_telemetry-KeepsReceivers json = record { along = λ s. advance-Still _ s }

  pub cloud_send_location-KeepsReceivers :
      (fix : TrackerFix p.D p.F) → Along p KeepsReceivers (cloud_send_location p fix)
  unfolding cloud_send_location ◌>>=◌ ◌>>◌ pure gets on_board call
  cloud_send_location-KeepsReceivers fix = record { along = λ s. advance-Still _ s }

  abbrev pub still_calls : CallsAlong p KeepsReceivers
  still_calls = record {
    lte_is_registered-Along = lte_is_registered-KeepsReceivers;
    outside_call-Along = outside_call-KeepsReceivers;
    note_mode-Along = note_mode-KeepsReceivers;
    lte_sem_take-Along = lte_sem_take-KeepsReceivers;
    lte_sem_reset-Along = lte_sem_reset-KeepsReceivers;
    uptime-Along = uptime-KeepsReceivers;
    rsrp_get-Along = rsrp_get-KeepsReceivers;
    vbus_present-Along = vbus_present-KeepsReceivers;
    read_power-Along = read_power-KeepsReceivers;
    last_jolt-Along = last_jolt-KeepsReceivers;
    arm_motion-Along = arm_motion-KeepsReceivers;
    led_set-Along = led_set-KeepsReceivers;
    led_show-Along = led_show-KeepsReceivers;
    led_sleep-Along = led_sleep-KeepsReceivers;
    feed-Along = feed-KeepsReceivers;
    mark-Along = mark-KeepsReceivers;
    sleep_until_wake-Along = sleep_until_wake-KeepsReceivers;
    wait_fix-Along = wait_fix-KeepsReceivers;
    wait_agnss_request-Along = wait_agnss_request-KeepsReceivers;
    guarded_resume-Along = guarded_resume-KeepsReceivers;
    cloud_pause-Along = cloud_pause-KeepsReceivers;
    cloud_send_telemetry-Along = cloud_send_telemetry-KeepsReceivers;
    cloud_send_location-Along = cloud_send_location-KeepsReceivers;
  }
