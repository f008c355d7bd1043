-- ===== src/Board/Quiet.antt =====
-- The calls of a device that is not jolted: the time of the last jolt stays, and the uptime grows.
use hologram_nrf9151_gps_tra.Common.{
  ℕ, ◌≤◌, ◌≡◌, ◌&&◌, refl, Bool, true, false, List, [], ◌∷◌, arith, Bytes,
}
use hologram_nrf9151_gps_tra.Power.{Reading}
use hologram_nrf9151_gps_tra.Build.{built_motion_set_armed, built_motion_last_event_uptime}
use hologram_nrf9151_gps_tra.Motion.{motion_last_event_uptime, motion_set_armed, store_events}
use hologram_nrf9151_gps_tra.StatusLed.{Status, Pattern}
use hologram_nrf9151_gps_tra.Watchdog.{Phase}
use hologram_nrf9151_gps_tra.Gnss.Fix.{TrackerFix}
use hologram_nrf9151_gps_tra.Board.{
  FuncMode, Span, brief, later, Platform, Board, Sys, Interrupt, jolt, interrupt, interrupts,
  lte_handler, advance, ◌>>=◌, ◌>>◌, pure, gets, on_board, call,
}
use hologram_nrf9151_gps_tra.Board.Along.{Preorder, Along, bind-Along, then-Along, pure-Along}
use hologram_nrf9151_gps_tra.Board.Calls.{CallsAlong}
use hologram_nrf9151_gps_tra.Board.Calm.{advance-Later}
use hologram_nrf9151_gps_tra.Board.Ops.{
  lte_is_registered, outside_call, note_mode, lte_sem_take, lte_sem_reset, uptime, rsrp_get,
  vbus_present, read_power, last_jolt, arm_motion, led_set, led_show, led_sleep, feed, mark,
  guard_start, guard_stop, sleep_until_wake, wait_fix, wait_agnss_request, cloud_resume,
  guarded_resume, cloud_pause, cloud_send_telemetry, cloud_send_location, fetch_agnss, start_gnss,
  fall_back,
}

module _ {D F : Type 0} where
  abbrev is_still : Interrupt D F → Bool
  is_still jolt = false
  is_still _ = true

  abbrev pub no_jolts : List (Interrupt D F) → Bool
  no_jolts [] = true
  no_jolts (i ∷ is) = is_still i && no_jolts is

module _ (p : Platform) where
  open p use {D, F, script}

  abbrev pub Quiet : Sys p → Sys p → Type 0
  Quiet s t =
      (t.board.motion.last_event_ms_hi ≡ s.board.motion.last_event_ms_hi)
      × (t.board.motion.last_event_ms_lo ≡ s.board.motion.last_event_ms_lo)
      × (s.board.now_ms ≤ t.board.now_ms)

  abbrev SameJolt : Board p → Board p → Type 0
  SameJolt a b =
      (b.motion.last_event_ms_hi ≡ a.motion.last_event_ms_hi)
      × (b.motion.last_event_ms_lo ≡ a.motion.last_event_ms_lo)

  one-SameJolt :
      (i : Interrupt D F) (b : Board p) → is_still i ≡ true → SameJolt b (interrupt p i b)
  unfolding interrupt lte_handler
  one-SameJolt i b h = ground arith

  all-SameJolt :
      (is : List (Interrupt D F)) (b : Board p)
      → no_jolts is ≡ true
      → SameJolt b (interrupts p is b)
  unfolding interrupts
  all-SameJolt [] b h = (refl, refl)
  all-SameJolt (i ∷ is) b h = ground (arith, h, all-SameJolt is (interrupt p i b), one-SameJolt i b)

  pub Quiet-refl : (s : Sys p) → Quiet s s
  Quiet-refl s = (refl, refl, omega arith)

  pub Quiet-trans : (s t u : Sys p) → Quiet s t → Quiet t u → Quiet s u
  Quiet-trans s t u a b = ground (arith, a, b)

  abbrev pub KeepsQuiet : Preorder p
  KeepsQuiet = record { rel = Quiet; rel-refl = Quiet-refl; rel-trans = Quiet-trans }

  module _ (calm : (n : ℕ) → no_jolts (script n).interrupts ≡ true) where
    advance-SameJolt : (span : Span) (s : Sys p) → SameJolt s.board (advance p span s).1.board
    unfolding advance
    advance-SameJolt span s =
        let w = script s.board.tick in
        all-SameJolt w.interrupts (later p (w.elapsed_ms span) s.board) (calm s.board.tick)

    pub advance-Quiet : (span : Span) (s : Sys p) → Quiet s (advance p span s).1
    advance-Quiet span s = ground (arith, advance-SameJolt span s, advance-Later p span s)

    arm_motion-Quiet : (arm : Bool) (s : Sys p) → Quiet s (arm_motion p arm s).1
    unfolding arm_motion built_motion_set_armed motion_set_armed ◌>>=◌ on_board
    arm_motion-Quiet arm s = ground (arith, advance-Quiet brief s)

    last_jolt-Quiet : (s : Sys p) → Quiet s (last_jolt p s).1
    unfolding last_jolt built_motion_last_event_uptime motion_last_event_uptime store_events call
    last_jolt-Quiet s = ground arith

    pub lte_is_registered-KeepsQuiet : Along p KeepsQuiet (lte_is_registered p)
    unfolding lte_is_registered ◌>>=◌ ◌>>◌ pure gets on_board call
    lte_is_registered-KeepsQuiet = record { along = λ s. advance-Quiet _ s }

    pub outside_call-KeepsQuiet : (span : Span) → Along p KeepsQuiet (outside_call p span)
    unfolding outside_call ◌>>=◌ ◌>>◌ pure gets on_board call
    outside_call-KeepsQuiet span = record { along = λ s. advance-Quiet _ s }

    pub note_mode-KeepsQuiet : (mode : FuncMode) → Along p KeepsQuiet (note_mode p mode)
    unfolding note_mode on_board
    note_mode-KeepsQuiet mode = record { along = λ s. (refl, refl, omega arith) }

    pub lte_sem_take-KeepsQuiet : Along p KeepsQuiet (lte_sem_take p)
    unfolding lte_sem_take ◌>>=◌ ◌>>◌ pure gets on_board call
    lte_sem_take-KeepsQuiet = record { along = λ s. advance-Quiet _ s }

    pub lte_sem_reset-KeepsQuiet : Along p KeepsQuiet (lte_sem_reset p)
    unfolding lte_sem_reset ◌>>=◌ ◌>>◌ pure gets on_board call
    lte_sem_reset-KeepsQuiet = record { along = λ s. (refl, refl, omega arith) }

    pub uptime-KeepsQuiet : Along p KeepsQuiet (uptime p)
    unfolding uptime ◌>>=◌ ◌>>◌ pure gets on_board call
    uptime-KeepsQuiet = record { along = λ s. (refl, refl, omega arith) }

    pub rsrp_get-KeepsQuiet : Along p KeepsQuiet (rsrp_get p)
    unfolding rsrp_get ◌>>=◌ ◌>>◌ pure gets on_board call
    rsrp_get-KeepsQuiet = record { along = λ s. advance-Quiet _ s }

    pub vbus_present-KeepsQuiet : Along p KeepsQuiet (vbus_present p)
    unfolding vbus_present ◌>>=◌ ◌>>◌ pure gets on_board call
    vbus_present-KeepsQuiet = record { along = λ s. advance-Quiet _ s }

    pub read_power-KeepsQuiet : (r : Reading) → Along p KeepsQuiet (read_power p r)
    unfolding read_power ◌>>=◌ ◌>>◌ pure gets on_board call
    read_power-KeepsQuiet r = record { along = λ s. advance-Quiet _ s }

    pub last_jolt-KeepsQuiet : Along p KeepsQuiet (last_jolt p)
    last_jolt-KeepsQuiet = record { along = last_jolt-Quiet }

    pub arm_motion-KeepsQuiet : (arm : Bool) → Along p KeepsQuiet (arm_motion p arm)
    arm_motion-KeepsQuiet arm = record { along = arm_motion-Quiet arm }

    pub led_set-KeepsQuiet : (status : Status) → Along p KeepsQuiet (led_set p status)
    unfolding led_set ◌>>=◌ ◌>>◌ pure gets on_board call
    led_set-KeepsQuiet status = record { along = λ s. advance-Quiet _ s }

    pub led_show-KeepsQuiet : (shown : Pattern) → Along p KeepsQuiet (led_show p shown)
    unfolding led_show ◌>>=◌ ◌>>◌ pure gets on_board call
    led_show-KeepsQuiet shown = record { along = λ s. advance-Quiet _ s }

    pub led_sleep-KeepsQuiet : Along p KeepsQuiet (led_sleep p)
    unfolding led_sleep ◌>>=◌ ◌>>◌ pure gets on_board call
    led_sleep-KeepsQuiet = record { along = λ s. advance-Quiet _ s }

    pub feed-KeepsQuiet : Along p KeepsQuiet (feed p)
    unfolding feed ◌>>=◌ ◌>>◌ pure gets on_board call
    feed-KeepsQuiet = record { along = λ s. (refl, refl, omega arith) }

    pub mark-KeepsQuiet : (phase : Phase) → Along p KeepsQuiet (mark p phase)
    unfolding mark ◌>>=◌ ◌>>◌ pure gets on_board call
    mark-KeepsQuiet phase = record { along = λ s. (refl, refl, omega arith) }

    pub guard_start-KeepsQuiet : (n : ℕ) → Along p KeepsQuiet (guard_start p n)
    unfolding guard_start ◌>>=◌ ◌>>◌ pure gets on_board call
    guard_start-KeepsQuiet n = record { along = λ s. (refl, refl, omega arith) }

    pub guard_stop-KeepsQuiet : Along p KeepsQuiet (guard_stop p)
    unfolding guard_stop ◌>>=◌ ◌>>◌ pure gets on_board call
    guard_stop-KeepsQuiet = record { along = λ s. (refl, refl, omega arith) }

    pub sleep_until_wake-KeepsQuiet : Along p KeepsQuiet (sleep_until_wake p)
    unfolding sleep_until_wake ◌>>=◌ ◌>>◌ pure gets on_board call
    sleep_until_wake-KeepsQuiet = record { along = λ s. advance-Quiet _ _ }

    pub wait_fix-KeepsQuiet :
        (timeout_s : ℕ) (out : TrackerFix p.D p.F) → Along p KeepsQuiet (wait_fix p timeout_s out)
    unfolding wait_fix ◌>>=◌ ◌>>◌ pure gets on_board call
    wait_fix-KeepsQuiet timeout_s out = record { along = λ s. advance-Quiet _ s }

    pub wait_agnss_request-KeepsQuiet : Along p KeepsQuiet (wait_agnss_request p)
    unfolding wait_agnss_request ◌>>=◌ ◌>>◌ pure gets on_board call
    wait_agnss_request-KeepsQuiet = record { along = λ s. advance-Quiet _ s }

    pub cloud_resume-KeepsQuiet : Along p KeepsQuiet (cloud_resume p)
    unfolding cloud_resume ◌>>=◌ ◌>>◌ pure gets on_board call
    cloud_resume-KeepsQuiet = record { along = λ s. advance-Quiet _ s }

    pub guarded_resume-KeepsQuiet : Along p KeepsQuiet (guarded_resume p)
    unfolding guarded_resume
    guarded_resume-KeepsQuiet = then-Along (guard_start-KeepsQuiet _) (
        bind-Along cloud_resume-KeepsQuiet (λ err. then-Along guard_stop-KeepsQuiet (pure-Along _)))

    pub cloud_pause-KeepsQuiet : Along p KeepsQuiet (cloud_pause p)
    unfolding cloud_pause ◌>>=◌ ◌>>◌ pure gets on_board call
    cloud_pause-KeepsQuiet = record { along = λ s. advance-Quiet _ s }

    pub cloud_send_telemetry-KeepsQuiet :
        (json : Bytes) → Along p KeepsQuiet (cloud_send_telemetry p json)
    unfolding cloud_send_telemetry ◌>>=◌ ◌>>◌ pure gets on_board call
    cloud_send_telemetry-KeepsQuiet json = record { along = λ s. advance-Quiet _ s }

    pub cloud_send_location-KeepsQuiet :
        (fix : TrackerFix p.D p.F) → Along p KeepsQuiet (cloud_send_location p fix)
    unfolding cloud_send_location ◌>>=◌ ◌>>◌ pure gets on_board call
    cloud_send_location-KeepsQuiet fix = record { along = λ s. advance-Quiet _ s }

    pub fetch_agnss-KeepsQuiet : Along p KeepsQuiet (fetch_agnss p)
    unfolding fetch_agnss uptime ◌>>=◌ ◌>>◌ pure gets on_board call
    fetch_agnss-KeepsQuiet = record { along = λ s. advance-Quiet _ s }

    pub start_gnss-KeepsQuiet : Along p KeepsQuiet (start_gnss p)
    unfolding start_gnss ◌>>=◌ ◌>>◌ pure gets on_board call
    start_gnss-KeepsQuiet = record { along = λ s. advance-Quiet _ s }

    pub fall_back-KeepsQuiet : Along p KeepsQuiet (fall_back p)
    unfolding fall_back ◌>>=◌ ◌>>◌ pure gets on_board call
    fall_back-KeepsQuiet = record { along = λ s. advance-Quiet _ s }

    abbrev pub quiet_calls : CallsAlong p KeepsQuiet
    quiet_calls = record {
      lte_is_registered-Along = lte_is_registered-KeepsQuiet;
      outside_call-Along = outside_call-KeepsQuiet;
      note_mode-Along = note_mode-KeepsQuiet;
      lte_sem_take-Along = lte_sem_take-KeepsQuiet;
      lte_sem_reset-Along = lte_sem_reset-KeepsQuiet;
      uptime-Along = uptime-KeepsQuiet;
      rsrp_get-Along = rsrp_get-KeepsQuiet;
      vbus_present-Along = vbus_present-KeepsQuiet;
      read_power-Along = read_power-KeepsQuiet;
      last_jolt-Along = last_jolt-KeepsQuiet;
      arm_motion-Along = arm_motion-KeepsQuiet;
      led_set-Along = led_set-KeepsQuiet;
      led_show-Along = led_show-KeepsQuiet;
      led_sleep-Along = led_sleep-KeepsQuiet;
      feed-Along = feed-KeepsQuiet;
      mark-Along = mark-KeepsQuiet;
      sleep_until_wake-Along = sleep_until_wake-KeepsQuiet;
      wait_fix-Along = wait_fix-KeepsQuiet;
      wait_agnss_request-Along = wait_agnss_request-KeepsQuiet;
      guarded_resume-Along = guarded_resume-KeepsQuiet;
      cloud_pause-Along = cloud_pause-KeepsQuiet;
      cloud_send_telemetry-Along = cloud_send_telemetry-KeepsQuiet;
      cloud_send_location-Along = cloud_send_location-KeepsQuiet;
    }
