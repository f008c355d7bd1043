-- ===== src/StatusLed/Threads/Calls.antt =====
-- The calls of app/src/status_led.c as runs of its two threads.
use hologram_nrf9151_gps_tra.Common.{ℕ, ◌≡◌, refl, Bool, true, false, not, some, if◌then◌else◌}
use hologram_nrf9151_gps_tra.Config.{Config}
use hologram_nrf9151_gps_tra.StatusLed.Blink
use hologram_nrf9151_gps_tra.StatusLed.{
  Led, Status, off, no_lte, lte_no_fix, lte_fix, Pattern, solid, charging, battery, msec, apply,
  reschedule as k_work_reschedule, status_led_set, status_led_init, status_led_pattern,
  status_led_sleep, blink_work_handler, phase_delay,
}
use hologram_nrf9151_gps_tra.StatusLed.Threads.{
  Ending, reschedules, away, lighting, ending, Worker, resting, Reach, init, darken, turn_off, set,
  pattern, start, stop, cancel, light, look, red, green, test, reschedule, return, run,
  work_toggles, work_lights, work_looks, work_red, work_green, work_delays, work_reschedules, boot,
  step,
}

-- The calls of StatusLed.antt are what a call does when the work queue does not run meanwhile.
module _ {c : Config} where
  apply_alone :
      {l : Led} {w : Worker} {e : Ending}
      → Reach c l (lighting e) w
      → Reach c (apply c true l) (ending e) w
  unfolding apply
  apply_alone r = step (step (step (step r light) look) (red _ _)) (green _)

  test_alone :
      {l : Led} {w : Worker} (blinking : Bool)
      → Reach c l (if blinking then ending reschedules else away) w
      → Reach c
          (if blinking then k_work_reschedule c (phase_delay c l.current_pattern true) l else l)
          away
          w
  unfolding k_work_reschedule
  test_alone true r = step r reschedule
  test_alone false r = r

  -- Nothing happens before the driver was found.
  guarded :
      (available : Bool) {l m : Led}
      → Reach c l away resting
      → (available ≡ true → Reach c m away resting)
      → Reach c (if not available then l else m) away resting
  guarded true r f = f refl
  guarded false r f = r

  set_alone :
      (s : Status) (l : Led) → Reach c l away resting → Reach c (status_led_set c s l) away resting
  unfolding status_led_set
  set_alone off l r =
      guarded l.available r
        (λ a. step (apply_alone (step (step (step r (set off a)) stop) cancel)) test)
  set_alone no_lte l r =
      guarded l.available r
        (λ a. test_alone l.blinking (step (apply_alone (step r (set no_lte a))) test))
  set_alone lte_no_fix l r =
      guarded l.available r
        (λ a. test_alone l.blinking (step (apply_alone (step r (set lte_no_fix a))) test))
  set_alone lte_fix l r =
      guarded l.available r
        (λ a. test_alone l.blinking (step (apply_alone (step r (set lte_fix a))) test))

  unless :
      (same : Bool) {l m : Led}
      → Reach c l away resting
      → (same ≡ false → Reach c m away resting)
      → Reach c (if same then l else m) away resting
  unless true r f = r
  unless false r f = f refl

  either :
      (test : Bool) {l m : Led}
      → Reach c l away resting
      → Reach c m away resting
      → Reach c (if test then l else m) away resting
  either true r q = r
  either false r q = q

  pattern_alone :
      (p : Pattern) (l : Led)
      → Reach c l away resting
      → Reach c (status_led_pattern c p l) away resting
  unfolding status_led_pattern
  pattern_alone solid l r = guarded l.available r (λ a.
      unless _ r
        (λ e. step (apply_alone (step (step (step r (pattern solid a e)) stop) cancel)) return))
  pattern_alone charging l r = guarded l.available r (λ a.
      unless _ r (λ e. step (apply_alone (step (step r (pattern charging a e)) start)) reschedule))
  pattern_alone battery l r = guarded l.available r (λ a.
      unless _ r (λ e. step (apply_alone (step (step r (pattern battery a e)) start)) reschedule))

  init_alone :
      (ready : Bool) (l : Led)
      → Reach c l away resting
      → Reach c (status_led_init c ready l).1 away resting
  unfolding status_led_init
  init_alone false l r = r
  init_alone true l r =
      step (apply_alone (step (step (step (step (step r init) darken) turn_off) stop) cancel)) test

  sleep_alone : (l : Led) → Reach c l away resting → Reach c (status_led_sleep c l) away resting
  unfolding status_led_sleep
  sleep_alone l r = either (not c.led_on_battery) (set_alone off l r) r

  handler_alone :
      (l : Led) (ms : ℕ)
      → l.blink_work ≡ some (msec ms)
      → Reach c l away resting
      → Reach c (blink_work_handler c l) away resting
  unfolding blink_work_handler
  handler_alone l ms e r =
      step
        (step
          (step
            (step
              (step (step (step (step r (run ms e)) work_toggles) (work_lights _)) (work_looks _))
              (work_red _ _))
            (work_green _))
          work_delays)
        (work_reschedules _)

  -- So every state of StatusLed/Blink.antt, whose calls are not interrupted, is one of the two threads.
  pub whole_calls : {l : Led} → Blink.Reach c l → Reach c l away resting
  whole_calls Blink.start = boot
  whole_calls (Blink.step {l} r (Blink.init b)) = init_alone b l (whole_calls r)
  whole_calls (Blink.step {l} r (Blink.set s)) = set_alone s l (whole_calls r)
  whole_calls (Blink.step {l} r (Blink.pattern p)) = pattern_alone p l (whole_calls r)
  whole_calls (Blink.step {l} r Blink.sleep) = sleep_alone l (whole_calls r)
  whole_calls (Blink.step {l} r (Blink.blink ms e)) = handler_alone l ms e (whole_calls r)
