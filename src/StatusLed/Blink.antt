-- ===== src/StatusLed/Blink.antt =====
-- When the blink work of app/src/status_led.c is pending, where no call is interrupted by a run of it.
use hologram_nrf9151_gps_tra.Common.{ℕ, not, ◌≡◌, ◌≢◌, Bool, true, false, none, some, arith}
use hologram_nrf9151_gps_tra.Config.{Config}
use hologram_nrf9151_gps_tra.StatusLed.{
  Led, Status, Pattern, solid, msec, led_at_boot, blink_work_handler, status_led_set,
  status_led_init, status_led_pattern, status_led_sleep, phase_delay,
}

-- The calls of the main thread, and runs of the work queue, which runs pending work only. In
-- StatusLed/Threads.antt the two take turns within a call.
pub data Step (c : Config) : Led → Led → Type 0 where
  init : {l : Led} (ready : Bool) → Step c l (status_led_init c ready l).1
  set : {l : Led} (s : Status) → Step c l (status_led_set c s l)
  pattern : {l : Led} (p : Pattern) → Step c l (status_led_pattern c p l)
  sleep : {l : Led} → Step c l (status_led_sleep c l)
  blink : {l : Led} (ms : ℕ) → l.blink_work ≡ some (msec ms) → Step c l (blink_work_handler c l)

pub data Reach (c : Config) : Led → Type 0 where
  start : Reach c led_at_boot
  step : {l m : Led} → Reach c l → Step c l m → Reach c m

pub record IsSound (c : Config) (l : Led) : Type 0 where
  pub idle : l.blinking ≡ false → l.blink_work ≡ none
  pub busy : l.blinking ≡ true → l.blink_work ≡ some (phase_delay c l.current_pattern l.lit)
  pub moving : l.blinking ≡ true → l.current_pattern ≢ solid
  pub ready : l.blinking ≡ true → l.available ≡ true

Step-IsSound : {c : Config} {l m : Led} → Step c l m → IsSound c l → IsSound c m
Step-IsSound {c} (init {l} r) s = unfold status_led_init in ground arith
Step-IsSound {c} (set {l} t) s = unfold status_led_set in ground arith
Step-IsSound {c} (pattern {l} p) s = unfold status_led_pattern in ground arith
Step-IsSound {c} (sleep {l}) s = unfold status_led_sleep in ground arith
Step-IsSound {c} (blink {l} ms e) s = unfold blink_work_handler in ground arith

-- Whatever the main thread calls, with runs of the work queue between whole calls: the blink work is pending exactly
-- while the LED is blinking, with the delay of the phase that it is in; it blinks in no solid
-- pattern, and not at all before `status_led_init` has found the driver.
pub Reach-IsSound : {c : Config} {l : Led} → Reach c l → IsSound c l
Reach-IsSound start = ground arith
Reach-IsSound (step r s) = Step-IsSound s (Reach-IsSound r)

-- In no reachable state does a run of the blink work find the LED in a solid pattern, where it would
-- wait forever: it toggles the LED and is pending again with the delay of the phase just entered.
pub blink_toggles :
    {c : Config} {l : Led} (ms : ℕ)
    → Reach c l
    → l.blink_work ≡ some (msec ms)
    → let m = blink_work_handler c l in
      (m.lit ≡ not l.lit)
      × (m.current_pattern ≢ solid)
      × (m.blink_work ≡ some (phase_delay c l.current_pattern (not l.lit)))
unfolding blink_work_handler
blink_toggles {c} {l} ms r e = ground (arith, Reach-IsSound r)
