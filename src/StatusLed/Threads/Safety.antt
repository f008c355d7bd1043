-- ===== src/StatusLed/Threads/Safety.antt =====
-- What holds of the LED whenever app/src/status_led.c and the work queue take turns.
use hologram_nrf9151_gps_tra.Common.{
  ◌≡◌, ◌≢◌, ◌⊎◌, Bool, true, false, ◌&&◌, Option, none, some, arith,
}
use hologram_nrf9151_gps_tra.Config.{Config}
use hologram_nrf9151_gps_tra.StatusLed.{
  Led, solid, Timeout, msec, forever, is_solid, set_channel, phase_delay,
}
use hologram_nrf9151_gps_tra.StatusLed.Threads.{
  Ending, reschedules, Caller, away, starting, stopping, cancelling, lighting, looking, ending,
  reddening, greening, Worker, resting, rescheduling, Step, Reach, init, darken, turn_off, set,
  pattern, start, stop, cancel, light, look, red, green, test, reschedule, return, run,
  work_toggles, work_lights, work_looks, work_red, work_green, work_delays, work_reschedules, boot,
  step,
}

-- The caller is on its way to the end of the blink, or to the start of one.
abbrev stops : Caller → Bool
stops (stopping e) = true
stops (cancelling e) = true
stops _ = false

abbrev cancels : Caller → Bool
cancels (cancelling e) = true
cancels _ = false

abbrev starts : Caller → Bool
starts starting = true
starts _ = false

abbrev is_rescheduling : Ending → Bool
is_rescheduling reschedules = true
is_rescheduling _ = false

abbrev restarts : Caller → Bool
restarts (lighting e) = is_rescheduling e
restarts (looking e) = is_rescheduling e
restarts (reddening r g e) = is_rescheduling e
restarts (greening g e) = is_rescheduling e
restarts (ending e) = is_rescheduling e
restarts _ = false

abbrev restarts_later : Caller → Bool
restarts_later (stopping e) = is_rescheduling e
restarts_later (cancelling e) = is_rescheduling e
restarts_later _ = false

abbrev is_resting : Worker → Bool
is_resting resting = true
is_resting _ = false

-- No run of the handler is going on or to come.
abbrev is_quiet : Option Timeout → Worker → Bool
is_quiet none w = is_resting w
is_quiet (some t) w = false

abbrev is_finite : Timeout → Bool
is_finite (msec n) = true
is_finite forever = false

-- No run is put off forever.
abbrev moves : Option Timeout → Worker → Bool
moves none (rescheduling t) = is_finite t
moves none w = true
moves (some d) (rescheduling t) = is_finite t && is_finite d
moves (some d) w = is_finite d

record IsSafe (l : Led) (m : Caller) (w : Worker) : Type 0 where
  idle : l.blinking ≡ false → cancels m ≡ false → is_quiet l.blink_work w ≡ true
  busy : l.blinking ≡ true → restarts m ≡ false → is_quiet l.blink_work w ≡ false
  still : is_solid l.current_pattern ≡ true → stops m ≡ false → is_quiet l.blink_work w ≡ true
  moving : l.blinking ≡ true → stops m ≡ false → is_solid l.current_pattern ≡ false
  cancelled : cancels m ≡ true → l.blinking ≡ false
  restarted : restarts m ≡ true → l.blinking ≡ true
  ended : restarts_later m ≡ false
  begun : starts m ≡ true → is_solid l.current_pattern ≡ false
  finite : stops m ≡ false → moves l.blink_work w ≡ true

Step-IsSafe :
    {c : Config} {l l' : Led} {m m' : Caller} {w w' : Worker}
    → Step c l m w l' m' w'
    → IsSafe l m w
    → IsSafe l' m' w'
unfolding set_channel phase_delay
Step-IsSafe (init {l} {w}) s = ground (arith, s)
Step-IsSafe (darken {l} {w}) s = ground (arith, s)
Step-IsSafe (turn_off {l} {w}) s = ground (arith, s)
Step-IsSafe (set {l} {w} t a) s = ground (arith, s)
Step-IsSafe (pattern {l} {w} p a e) s = ground (arith, s)
Step-IsSafe (start {l} {w}) s = ground (arith, s)
Step-IsSafe (stop {l} {w} {e}) s = ground (arith, s)
Step-IsSafe (cancel {l} {e}) s = ground (arith, s)
Step-IsSafe (light {l} {w} {e}) s = ground (arith, s)
Step-IsSafe (look {l} {w} {e}) s = ground (arith, s)
Step-IsSafe (red {l} {w} {e} r g) s = ground (arith, s)
Step-IsSafe (green {l} {w} {e} g) s = ground (arith, s)
Step-IsSafe (test {l} {w}) s = ground (arith, s)
Step-IsSafe (reschedule {l} {w}) s = ground (arith, s)
Step-IsSafe (return {l} {w}) s = ground (arith, s)
Step-IsSafe (run {l} {m} ms e) s = ground (arith, s)
Step-IsSafe (work_toggles {l} {m}) s = ground (arith, s)
Step-IsSafe (work_lights {l} {m} on) s = ground (arith, s)
Step-IsSafe (work_looks {l} {m} on) s = ground (arith, s)
Step-IsSafe (work_red {l} {m} r g) s = ground (arith, s)
Step-IsSafe (work_green {l} {m} g) s = ground (arith, s)
Step-IsSafe (work_delays {l} {m}) s = ground (arith, s)
Step-IsSafe (work_reschedules {l} {m} t) s = ground (arith, s)

Reach-IsSafe : {c : Config} {l : Led} {m : Caller} {w : Worker} → Reach c l m w → IsSafe l m w
Reach-IsSafe boot = ground arith
Reach-IsSafe (step r s) = Step-IsSafe s (Reach-IsSafe r)

-- Whatever is called and whenever the work queue runs, in any order of the single steps of the caller
-- and of the work queue: while the caller is in no call, a LED that is not blinking has no
-- run of the work pending and none going on; a blinking one has one pending or going on and no solid
-- pattern; and no run is put off forever, nor about to be.
pub blink_alive :
    {c : Config} {l : Led} {w : Worker}
    → Reach c l away w
    → (l.blinking ≡ false → (l.blink_work ≡ none) × (w ≡ resting))
      × (l.blinking ≡ true → (l.current_pattern ≢ solid) × ((l.blink_work ≢ none) ⊎ (w ≢ resting)))
      × (l.blink_work ≢ some forever)
      × (w ≢ rescheduling forever)
blink_alive r = ground (arith, Reach-IsSafe r)
