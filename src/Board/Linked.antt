-- ===== src/Board/Linked.antt =====
-- The calls of app/src/main.c and its guard and its cloud link: between two calls of the loop no guard
-- is armed, and the link is one that the transport's contract allows.
use hologram_nrf9151_gps_tra.Common.{ℕ, ◌≡◌, refl, ◌∙◌, Bool, false, List, [], ◌∷◌, arith, Bytes}
use hologram_nrf9151_gps_tra.Watchdog.{
  Watchdog, Phase, elapse, guard_period, watchdog_feed, watchdog_phase, watchdog_guard_start,
  watchdog_guard_stop,
}
use hologram_nrf9151_gps_tra.Power.{Reading}
use hologram_nrf9151_gps_tra.StatusLed.{Status, Pattern}
use hologram_nrf9151_gps_tra.Gnss.Fix.{TrackerFix}
use hologram_nrf9151_gps_tra.Agnss
use hologram_nrf9151_gps_tra.Agnss.{Agnss, ModemNumbers, agnss_fetch_and_inject}
use hologram_nrf9151_gps_tra.Build.{built_agnss_fetch}
use hologram_nrf9151_gps_tra.Config.{Config}
use hologram_nrf9151_gps_tra.Gnss.Modem.{ModemGnss}
use hologram_nrf9151_gps_tra.Transport.Contract.{Contract}
use hologram_nrf9151_gps_tra.Board.{
  FuncMode, Span, Platform, Board, Sys, Interrupt, interrupt, interrupts, lte_handler, advance,
  ◌>>=◌, ◌>>◌, pure, on_board, call,
}
use hologram_nrf9151_gps_tra.Board.Along.{
  Preorder, Along, bind-Along, then-Along, pure-Along, gets-Along,
}
use hologram_nrf9151_gps_tra.Board.Calls.{CallsAlong}
use hologram_nrf9151_gps_tra.Board.Ops.{
  lte_is_registered, outside_call, note_mode, lte_sem_take, lte_sem_reset, uptime, rsrp_get,
  vbus_present, read_power, last_jolt, arm_motion, led_set, led_show, led_sleep, feed, mark,
  guard_start, guard_stop, sleep_until_wake, wait_fix, wait_agnss_request, cloud_resume,
  guarded_resume, cloud_pause, cloud_send_telemetry, cloud_send_location, start_gnss, stop_gnss,
  fall_back, fetch_agnss,
}

-- A fetch leaves no guard armed where none was.
fetch-guard :
    {D F : Type 0} (c : Config) (n : ModemNumbers) (a : Agnss.Answers) (m : ModemGnss D F)
    (w : Watchdog) (s : Agnss)
    → w.guard_running ≡ false
    → (built_agnss_fetch c n a (m, w, s)).2.guard_running ≡ false
unfolding built_agnss_fetch agnss_fetch_and_inject watchdog_guard_start watchdog_guard_stop
fetch-guard c n a m w s g = ground (arith, g)

module _ (p : Platform) (k : Contract p.transport) where
  open p use {D, F, config, numbers, transport, script}

  -- No guard is armed, and the contract's invariant holds of the link.
  abbrev pub OnBoard : Board p → Type 0
  OnBoard b = k.Inv b.cloud × (b.watchdog.guard_running ≡ false)

  abbrev pub Linked : Sys p → Type 0
  Linked s = OnBoard s.board

  pub Linked-refl : (s : Sys p) → Linked s → Linked s
  Linked-refl s i = i

  pub Linked-trans :
      (s t u : Sys p) → (Linked s → Linked t) → (Linked t → Linked u) → Linked s → Linked u
  Linked-trans s t u f g i = g (f i)

  abbrev pub KeepsLinked : Preorder p
  KeepsLinked = record {
    rel = λ s t. Linked s → Linked t;
    rel-refl = Linked-refl;
    rel-trans = Linked-trans;
  }

  one-guard :
      (i : Interrupt D F) (b : Board p)
      → b.watchdog.guard_running ≡ false
      → (interrupt p i b).watchdog.guard_running ≡ false
  unfolding interrupt lte_handler guard_period
  one-guard i b g = ground (arith, g)

  one-cloud : (i : Interrupt D F) (b : Board p) → (interrupt p i b).cloud ≡ b.cloud
  unfolding interrupt lte_handler
  one-cloud i b = ground arith

  all-cloud : (is : List (Interrupt D F)) (b : Board p) → (interrupts p is b).cloud ≡ b.cloud
  unfolding interrupts
  all-cloud [] b = refl
  all-cloud (i ∷ is) b = all-cloud is (interrupt p i b) ∙ one-cloud i b

  all-guard :
      (is : List (Interrupt D F)) (b : Board p)
      → b.watchdog.guard_running ≡ false
      → (interrupts p is b).watchdog.guard_running ≡ false
  unfolding interrupts
  all-guard [] b g = g
  all-guard (i ∷ is) b g = all-guard is (interrupt p i b) (one-guard i b g)

  pub advance-cloud : (span : Span) (s : Sys p) → (advance p span s).1.board.cloud ≡ s.board.cloud
  unfolding advance
  advance-cloud span s = all-cloud (script s.board.tick).interrupts _

  elapse-guard :
      (e : ℕ) (w : Watchdog) → w.guard_running ≡ false → (elapse e w).guard_running ≡ false
  unfolding elapse
  elapse-guard e w g = ground (arith, g)

  pub advance-guard :
      (span : Span) (s : Sys p)
      → s.board.watchdog.guard_running ≡ false
      → (advance p span s).1.board.watchdog.guard_running ≡ false
  unfolding advance
  advance-guard span s g =
      all-guard (script s.board.tick).interrupts _
        (elapse-guard ((script s.board.tick).elapsed_ms span) s.board.watchdog g)

  advance-Linked : (span : Span) (s : Sys p) → Linked s → Linked (advance p span s).1
  advance-Linked span s (i, g) = (rw (advance-cloud span s) i, advance-guard span s g)

  tick : (span : Span) → Along p KeepsLinked (advance p span)
  tick span = record { along = advance-Linked span }

  call-Linked :
      {A : Type 0} (f : Board p → A × Board p)
      → ((b : Board p) → OnBoard b → OnBoard (f b).1)
      → Along p KeepsLinked (call f)
  unfolding call
  call-Linked f h = record { along = λ s. h s.board }

  on_board-Linked :
      (f : Board p → Board p)
      → ((b : Board p) → OnBoard b → OnBoard (f b))
      → Along p KeepsLinked (on_board f)
  unfolding on_board
  on_board-Linked f h = record { along = λ s. h s.board }

  lte_is_registered-Linked : Along p KeepsLinked (lte_is_registered p)
  unfolding lte_is_registered
  lte_is_registered-Linked = bind-Along (tick _) (λ w. pure-Along _)

  pub outside_call-Linked : (span : Span) → Along p KeepsLinked (outside_call p span)
  unfolding outside_call
  outside_call-Linked span = bind-Along (tick _) (λ w. pure-Along _)

  note_mode-Linked : (mode : FuncMode) → Along p KeepsLinked (note_mode p mode)
  unfolding note_mode
  note_mode-Linked mode = on_board-Linked _ (λ b h. h)

  lte_sem_take-Linked : Along p KeepsLinked (lte_sem_take p)
  unfolding lte_sem_take
  lte_sem_take-Linked = then-Along (tick _) (call-Linked _ (λ b j. j))

  lte_sem_reset-Linked : Along p KeepsLinked (lte_sem_reset p)
  unfolding lte_sem_reset
  lte_sem_reset-Linked = on_board-Linked _ (λ b j. j)

  pub uptime-Linked : Along p KeepsLinked (uptime p)
  unfolding uptime
  uptime-Linked = gets-Along _

  rsrp_get-Linked : Along p KeepsLinked (rsrp_get p)
  unfolding rsrp_get
  rsrp_get-Linked = bind-Along (tick _) (λ w. pure-Along _)

  vbus_present-Linked : Along p KeepsLinked (vbus_present p)
  unfolding vbus_present
  vbus_present-Linked = bind-Along (tick _) (λ w. call-Linked _ (λ b j. j))

  read_power-Linked : (r : Reading) → Along p KeepsLinked (read_power p r)
  unfolding read_power
  read_power-Linked r = bind-Along (tick _) (λ w. pure-Along _)

  last_jolt-Linked : Along p KeepsLinked (last_jolt p)
  unfolding last_jolt
  last_jolt-Linked = call-Linked _ (λ b j. j)

  pub arm_motion-Linked : (arm : Bool) → Along p KeepsLinked (arm_motion p arm)
  unfolding arm_motion
  arm_motion-Linked arm = bind-Along (tick _) (λ w. on_board-Linked _ (λ b j. j))

  led_set-Linked : (status : Status) → Along p KeepsLinked (led_set p status)
  unfolding led_set
  led_set-Linked status = then-Along (tick _) (on_board-Linked _ (λ b j. j))

  led_show-Linked : (shown : Pattern) → Along p KeepsLinked (led_show p shown)
  unfolding led_show
  led_show-Linked shown = then-Along (tick _) (on_board-Linked _ (λ b j. j))

  pub led_sleep-Linked : Along p KeepsLinked (led_sleep p)
  unfolding led_sleep
  led_sleep-Linked = then-Along (tick _) (on_board-Linked _ (λ b j. j))

  pub sleep_until_wake-Linked : Along p KeepsLinked (sleep_until_wake p)
  unfolding sleep_until_wake
  sleep_until_wake-Linked =
      then-Along (on_board-Linked _ (λ b j. j)) (then-Along (tick _) (call-Linked _ (λ b j. j)))

  pub start_gnss-Linked : Along p KeepsLinked (start_gnss p)
  unfolding start_gnss
  start_gnss-Linked = bind-Along (tick _) (λ w. call-Linked _ (λ b j. j))

  pub stop_gnss-Linked : Along p KeepsLinked (stop_gnss p)
  unfolding stop_gnss
  stop_gnss-Linked = bind-Along (tick _) (λ w. on_board-Linked _ (λ b j. j))

  pub fall_back-Linked : Along p KeepsLinked (fall_back p)
  unfolding fall_back
  fall_back-Linked = bind-Along (tick _) (λ w. call-Linked _ (λ b j. j))

  wait_fix-Linked :
      (timeout_s : ℕ) (out : TrackerFix D F) → Along p KeepsLinked (wait_fix p timeout_s out)
  unfolding wait_fix
  wait_fix-Linked timeout_s out = bind-Along (tick _) (λ w. call-Linked _ (λ b j. j))

  wait_agnss_request-Linked : Along p KeepsLinked (wait_agnss_request p)
  unfolding wait_agnss_request
  wait_agnss_request-Linked = bind-Along (tick _) (λ w. call-Linked _ (λ b j. j))

  feed-Linked : Along p KeepsLinked (feed p)
  unfolding feed watchdog_feed
  feed-Linked = on_board-Linked _ (λ b j. ground (arith, j))

  pub mark-Linked : (phase : Phase) → Along p KeepsLinked (mark p phase)
  unfolding mark watchdog_phase
  mark-Linked phase = on_board-Linked _ (λ b j. j)

  -- Under the guard the link comes up or not; the guard is disarmed at the end.
  stop-guard : (w : Watchdog) → (watchdog_guard_stop w).guard_running ≡ false
  unfolding watchdog_guard_stop watchdog_feed
  stop-guard w = ground arith

  guarded_resume-lem : (s : Sys p) → Linked s → Linked (guarded_resume p s).1
  unfolding guarded_resume guard_start guard_stop cloud_resume ◌>>=◌ ◌>>◌ pure on_board call
  guarded_resume-lem s (i, g) = (k.resume-Inv _ _ _ (rw (advance-cloud _ _) i), stop-guard _)

  guarded_resume-Linked : Along p KeepsLinked (guarded_resume p)
  guarded_resume-Linked = record { along = guarded_resume-lem }

  pub fetch_agnss-Linked : Along p KeepsLinked (fetch_agnss p)
  unfolding fetch_agnss uptime
  fetch_agnss-Linked = bind-Along (gets-Along _) (λ start. bind-Along (gets-Along _) (λ fetched.
      bind-Along (tick _) (λ w. call-Linked _ (λ b (i, g). (
        i,
        fetch-guard config numbers (record (w.agnss) { now = start; done = b.now_ms }) b.gnss.modem
            b.watchdog b.agnss g,
      )))))

  pub cloud_pause-Linked : Along p KeepsLinked (cloud_pause p)
  unfolding cloud_pause
  cloud_pause-Linked =
      bind-Along (tick _) (λ w. on_board-Linked _ (λ b (i, g). (k.pause-Inv w.cloud b.cloud i, g)))

  cloud_send_telemetry-Linked : (json : Bytes) → Along p KeepsLinked (cloud_send_telemetry p json)
  unfolding cloud_send_telemetry
  cloud_send_telemetry-Linked json =
      bind-Along (tick _)
        (λ w. call-Linked _ (λ b (i, g). (k.send_telemetry-Inv w.cloud json b.cloud i, g)))

  cloud_send_location-Linked :
      (fix : TrackerFix D F) → Along p KeepsLinked (cloud_send_location p fix)
  unfolding cloud_send_location
  cloud_send_location-Linked fix =
      bind-Along (tick _)
        (λ w. call-Linked _ (λ b (i, g). (k.send_location-Inv w.cloud fix b.cloud i, g)))

  pub linked_calls : CallsAlong p KeepsLinked
  linked_calls = record {
    lte_is_registered-Along = lte_is_registered-Linked;
    outside_call-Along = outside_call-Linked;
    note_mode-Along = note_mode-Linked;
    lte_sem_take-Along = lte_sem_take-Linked;
    lte_sem_reset-Along = lte_sem_reset-Linked;
    uptime-Along = uptime-Linked;
    rsrp_get-Along = rsrp_get-Linked;
    vbus_present-Along = vbus_present-Linked;
    read_power-Along = read_power-Linked;
    last_jolt-Along = last_jolt-Linked;
    arm_motion-Along = arm_motion-Linked;
    led_set-Along = led_set-Linked;
    led_show-Along = led_show-Linked;
    led_sleep-Along = led_sleep-Linked;
    feed-Along = feed-Linked;
    mark-Along = mark-Linked;
    sleep_until_wake-Along = sleep_until_wake-Linked;
    wait_fix-Along = wait_fix-Linked;
    wait_agnss_request-Along = wait_agnss_request-Linked;
    guarded_resume-Along = guarded_resume-Linked;
    cloud_pause-Along = cloud_pause-Linked;
    cloud_send_telemetry-Along = cloud_send_telemetry-Linked;
    cloud_send_location-Along = cloud_send_location-Linked;
  }
