-- ===== src/StatusLed.antt =====
-- app/src/status_led.c and status_led.h: the status LED, its colour, its patterns and the blink work.
pub mod Blink
pub mod Colour
pub mod Threads
use hologram_nrf9151_gps_tra.Common.{
  ℕ, Bool, true, false, not, ◌&&◌, ◌||◌, List, [], ◌∷◌, Option, none, some, ℤ, ok, enodev,
  if◌then◌else◌,
}
use hologram_nrf9151_gps_tra.Config.{Config}

-- `enum tracker_status`.
pub data Status : Type 0 where
  off no_lte lte_no_fix lte_fix : Status

-- `enum tracker_led_pattern`.
pub data Pattern : Type 0 where
  solid charging battery : Pattern

-- `k_timeout_t`.
pub data Timeout : Type 0 where
  msec : ℕ → Timeout
  forever : Timeout

-- The static variables, with what they drive: the work item `blink_work` (`none` when it is not
-- pending, and its delay otherwise), and the calls of `led_on` and `led_off`, newest first.
pub record Led : Type 0 where
  pub available : Bool
  pub current_status : Status
  pub current_pattern : Pattern
  pub blinking : Bool
  pub lit : Bool
  pub blink_work : Option Timeout
  pub calls : List (ℕ × Bool)

abbrev pub led_at_boot : Led
led_at_boot = record {
  available = false;
  current_status = off;
  current_pattern = solid;
  blinking = false;
  lit = false;
  blink_work = none;
  calls = [];
}

abbrev pub is_off : Status → Bool
is_off off = true
is_off _ = false

abbrev pub is_solid : Pattern → Bool
is_solid solid = true
is_solid _ = false

abbrev pub pattern_eq : Pattern → Pattern → Bool
pattern_eq solid solid = true
pattern_eq charging charging = true
pattern_eq battery battery = true
pattern_eq _ _ = false

abbrev pub bool_eq : Bool → Bool → Bool
bool_eq true b = b
bool_eq false b = not b

-- The red and the green channel of a status.
abbrev pub shows_red : Status → Bool
shows_red no_lte = true
shows_red lte_no_fix = true
shows_red _ = false

abbrev pub shows_green : Status → Bool
shows_green lte_fix = true
shows_green lte_no_fix = true
shows_green _ = false

module _ (c : Config) where
  unfoldable pub phase_delay : Pattern → Bool → Timeout
  phase_delay charging now_lit = msec c.led_blink_ms
  phase_delay battery now_lit = if now_lit then msec c.led_flash_on_ms else msec c.led_flash_off_ms
  phase_delay solid now_lit = forever

  -- A failed call is logged and nothing else.
  unfoldable pub set_channel : ℕ → Bool → Led → Led
  set_channel channel on l = record l { calls = (channel, on) ∷ l.calls }

  unfoldable pub apply : Bool → Led → Led
  unfolding set_channel
  apply on l =
      let red = on && shows_red l.current_status in
      let green = on && shows_green l.current_status in
      set_channel c.led_green_index green (set_channel c.led_red_index red (record l { lit = on }))

  -- `k_work_reschedule`: with K_FOREVER the work is never run.
  unfoldable pub reschedule : Timeout → Led → Led
  reschedule t l = record l { blink_work = some t }

  unfoldable pub blink_work_handler : Led → Led
  unfolding apply reschedule phase_delay
  blink_work_handler l =
      let shown = apply (not l.lit) (record l { blink_work = none }) in
      reschedule (phase_delay shown.current_pattern shown.lit) shown

  unfoldable pub stop_blink : Led → Led
  stop_blink l = record l { blinking = false; blink_work = none }

  -- This and `status_led_pattern` are the calls where the work queue does not run meanwhile;
  -- StatusLed/Threads.antt has the calls access by access.
  unfoldable pub status_led_set : Status → Led → Led
  unfolding stop_blink apply reschedule phase_delay
  status_led_set status l =
      let chosen = record l { current_status = status } in
      let calm = if is_off status then stop_blink chosen else chosen in
      let shown = apply true calm in
      if not l.available
      then l
      else if shown.blinking
      then reschedule (phase_delay shown.current_pattern true) shown
      else shown

  unfoldable pub status_led_init : (ready : Bool) → Led → ℤ × Led
  unfolding set_channel status_led_set
  status_led_init ready l = if not ready then (enodev, l) else (
    ok,
    status_led_set off (set_channel c.led_blue_index false (record l { available = true })),
  )

  unfoldable pub status_led_pattern : Pattern → Led → Led
  unfolding stop_blink apply reschedule phase_delay
  status_led_pattern pattern l =
      let want_blink = not (is_solid pattern) in
      let chosen = record l { current_pattern = pattern } in
      let lit_up = apply true (record chosen { blinking = true }) in
      if not l.available
      then l
      else if pattern_eq pattern l.current_pattern && bool_eq want_blink l.blinking
      then l
      else if is_solid pattern
      then apply true (stop_blink chosen)
      else reschedule (phase_delay pattern true) lit_up

  unfoldable pub status_led_sleep : Led → Led
  unfolding status_led_set
  status_led_sleep l = if not c.led_on_battery then status_led_set off l else l
