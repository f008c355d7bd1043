-- ===== src/StatusLed/Threads.antt =====
-- app/src/status_led.c as two threads, the caller of its functions and the work queue, that may take
-- turns between any two accesses to what they share.
pub mod Safety
pub mod Calls
use hologram_nrf9151_gps_tra.Common.{
  ℕ, ◌≡◌, ◌≢◌, ◌⊎◌, inl, inr, refl, Bool, true, false, not, ◌&&◌, ◌∷◌, Option, none, some, arith,
  if◌then◌else◌,
}
use hologram_nrf9151_gps_tra.Config.{Config}
use hologram_nrf9151_gps_tra.StatusLed.{
  Led, Status, off, no_lte, lte_no_fix, lte_fix, Pattern, solid, charging, battery, Timeout, msec,
  forever, led_at_boot, is_off, is_solid, pattern_eq, bool_eq, apply,
  reschedule as k_work_reschedule, status_led_set, status_led_init, status_led_pattern,
  status_led_sleep, blink_work_handler, shows_red, shows_green, set_channel, phase_delay,
}

-- What the caller does after `apply(true)`: test `blinking` and reschedule, reschedule, or return.
pub data Ending : Type 0 where
  tests reschedules returns : Ending

-- Where the caller is: in no call, or in front of a write of `blinking` in `stop_blink`, of
-- `k_work_cancel_delayable_sync`, of `blinking = true`, of the blue channel or the write of the status
-- of `status_led_init`, in `apply(true)` of the write of `lit`, the read of the status and the two
-- channels, or of what ends the call.
pub data Caller : Type 0 where
  away starting initialising darkening : Caller
  stopping cancelling lighting looking ending : Ending → Caller
  reddening : (red green : Bool) → Ending → Caller
  greening : (green : Bool) → Ending → Caller

-- Where the work queue is: not in the handler, or in front of the read of `lit`, of its write, of the
-- read of the status, of the two channels, of the read of what `phase_delay` depends on, or of
-- `k_work_reschedule`.
pub data Worker : Type 0 where
  resting toggling delaying : Worker
  lighting looking : (on : Bool) → Worker
  reddening : (red green : Bool) → Worker
  greening : (green : Bool) → Worker
  rescheduling : Timeout → Worker

module _ (c : Config) where
  -- One access of a thread to what they share; what one expression reads is read at once. The caller calls only once `available` is set, but for
  -- `status_led_init`; `status_led_sleep` is `status_led_set` with the dark status, or nothing.
  pub data Step : Led → Caller → Worker → Led → Caller → Worker → Type 0 where
    init : {l : Led} {w : Worker} → Step l away w (record l { available = true }) initialising w
    darken :
        {l : Led} {w : Worker}
        → Step l initialising w (set_channel c c.led_blue_index false l) darkening w
    turn_off :
        {l : Led} {w : Worker}
        → Step l darkening w (record l { current_status = off }) (stopping tests) w
    set :
        {l : Led} {w : Worker} (s : Status)
        → l.available ≡ true
        → Step l away w
            (record l { current_status = s })
            (if is_off s then stopping tests else lighting tests)
            w
    pattern :
        {l : Led} {w : Worker} (p : Pattern)
        → l.available ≡ true
        → pattern_eq p l.current_pattern && bool_eq (not (is_solid p)) l.blinking ≡ false
        → Step l away w
            (record l { current_pattern = p })
            (if is_solid p then stopping returns else starting)
            w
    start :
        {l : Led} {w : Worker}
        → Step l starting w (record l { blinking = true }) (lighting reschedules) w
    stop :
        {l : Led} {w : Worker} {e : Ending}
        → Step l (stopping e) w (record l { blinking = false }) (cancelling e) w
    -- It waits for the end of a run of the handler.
    cancel :
        {l : Led} {e : Ending}
        → Step l (cancelling e) resting (record l { blink_work = none }) (lighting e) resting
    light :
        {l : Led} {w : Worker} {e : Ending}
        → Step l (lighting e) w (record l { lit = true }) (looking e) w
    look :
        {l : Led} {w : Worker} {e : Ending}
        → Step l
            (looking e)
            w
            l
            (reddening (shows_red l.current_status) (shows_green l.current_status) e)
            w
    red :
        {l : Led} {w : Worker} {e : Ending} (r g : Bool)
        → Step l (reddening r g e) w (set_channel c c.led_red_index r l) (greening g e) w
    green :
        {l : Led} {w : Worker} {e : Ending} (g : Bool)
        → Step l (greening g e) w (set_channel c c.led_green_index g l) (ending e) w
    test :
        {l : Led} {w : Worker}
        → Step l (ending tests) w l (if l.blinking then ending reschedules else away) w
    reschedule :
        {l : Led} {w : Worker}
        → Step l
            (ending reschedules)
            w
            (record l { blink_work = some (phase_delay c l.current_pattern true) })
            away
            w
    return : {l : Led} {w : Worker} → Step l (ending returns) w l away w
    -- With K_FOREVER the work is never run.
    run :
        {l : Led} {m : Caller} (ms : ℕ)
        → l.blink_work ≡ some (msec ms)
        → Step l m resting (record l { blink_work = none }) m toggling
    work_toggles : {l : Led} {m : Caller} → Step l m toggling l m (lighting (not l.lit))
    work_lights :
        {l : Led} {m : Caller} (on : Bool)
        → Step l m (lighting on) (record l { lit = on }) m (looking on)
    work_looks :
        {l : Led} {m : Caller} (on : Bool)
        → Step l m
            (looking on)
            l
            m
            (reddening (on && shows_red l.current_status) (on && shows_green l.current_status))
    work_red :
        {l : Led} {m : Caller} (r g : Bool)
        → Step l m (reddening r g) (set_channel c c.led_red_index r l) m (greening g)
    work_green :
        {l : Led} {m : Caller} (g : Bool)
        → Step l m (greening g) (set_channel c c.led_green_index g l) m delaying
    work_delays :
        {l : Led} {m : Caller}
        → Step l m delaying l m (rescheduling (phase_delay c l.current_pattern l.lit))
    work_reschedules :
        {l : Led} {m : Caller} (t : Timeout)
        → Step l m (rescheduling t) (record l { blink_work = some t }) m resting

  pub data Reach : Led → Caller → Worker → Type 0 where
    boot : Reach led_at_boot away resting
    step :
        {l l' : Led} {m m' : Caller} {w w' : Worker}
        → Reach l m w
        → Step l m w l' m' w'
        → Reach l' m' w'
