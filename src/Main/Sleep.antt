-- ===== src/Main/Sleep.antt =====
-- `battery_sleep` of app/src/main.c: the count of sleeps, and the accelerometer's arming.
use hologram_nrf9151_gps_tra.Common.{
  ℕ, ◌+◌, ◌≤◌, ◌≡◌, ◌≢◌, ◌↔◌, Bool, true, false, none, is_err, leb, if◌then◌else◌, u32, arith, refl,
  ap, ◌∙◌,
}
use hologram_nrf9151_gps_tra.Board.{
  brief, take_s, Platform, Sys, advance, ◌>>=◌, ◌>>◌, gets, on_board, call,
}
use hologram_nrf9151_gps_tra.Board.Ops.{arm_motion, led_sleep, mark, sleep_until_wake}
use hologram_nrf9151_gps_tra.Board.Calm.{
  arm_motion-Along, led_sleep-Along, mark-Along, sleep_until_wake-Along,
}
use hologram_nrf9151_gps_tra.Common.{[]}
use hologram_nrf9151_gps_tra.Wake.{drain, end_wait}
use hologram_nrf9151_gps_tra.Watchdog.{Phase, led_sleep as phase_led_sleep, motion_arm, sleep}
use hologram_nrf9151_gps_tra.Build.{built_motion_set_armed, built_status_led_sleep}
use hologram_nrf9151_gps_tra.Motion.{motion_set_armed}
use hologram_nrf9151_gps_tra.StatusLed.Colour.{channel_on, sleep_dark}
use hologram_nrf9151_gps_tra.Board.Interrupts.{advance_kept}
use hologram_nrf9151_gps_tra.Main.{count_sleep, battery_sleep}

module _ (p : Platform) where
  open p use {D, F, config}

  abbrev pub next_count : ℕ → ℕ
  next_count n = if leb config.motion_settle_cycles n then n else u32 (n + 1)

  -- `battery_sleep` touches one static variable: it counts the sleep exactly if the accelerometer stays
  -- unarmed.
  pub battery_sleep-later :
      (s : Sys p)
      → let t = (battery_sleep p s).1 in
        (t.last_send_uptime ≡ s.last_send_uptime)
        × (t.modem_bounced ≡ s.modem_bounced)
        × (t.battery_sleeps ≡ next_count s.battery_sleeps)
        × (s.board.now_ms ≤ t.board.now_ms)
  unfolding battery_sleep count_sleep ◌>>=◌ ◌>>◌ gets
  battery_sleep-later s =
      let arm = leb config.motion_settle_cycles s.battery_sleeps in
      let s1 = (mark p phase_led_sleep s).1 in
      let s2 = (led_sleep p s1).1 in
      let s3 = (mark p motion_arm s2).1 in
      let s4 = (arm_motion p arm s3).1 in
      let s5 = (count_sleep p arm s4).1 in
      let s6 = (mark p sleep s5).1 in
      ground (
        arith,
        (mark-Along p phase_led_sleep).along s,
        (led_sleep-Along p).along s1,
        (mark-Along p motion_arm).along s2,
        (arm_motion-Along p arm).along s3,
        (mark-Along p sleep).along s5,
        (sleep_until_wake-Along p).along s6,
      )

  -- The accelerometer's side of a state, with the entry of the script that comes next.
  abbrev Sensed : Sys p → Sys p → ℕ → Type 0
  Sensed s t n =
      (t.board.tick ≡ s.board.tick + n)
      × (t.board.motion.usable ≡ s.board.motion.usable)
      × (t.board.motion.armed ≡ s.board.motion.armed)

  marked : (phase : Phase) (s : Sys p) → Sensed s (mark p phase s).1 0
  unfolding mark on_board
  marked phase s = ground arith

  darkened : (s : Sys p) → Sensed s (led_sleep p s).1 1
  unfolding led_sleep ◌>>◌ on_board
  darkened s = ground (arith, advance_kept p brief s)

  slept : (s : Sys p) → Sensed s (sleep_until_wake p s).1 1
  unfolding sleep_until_wake drain end_wait ◌>>=◌ ◌>>◌ on_board call
  slept s =
      let s1 = (on_board {p = p} (λ b. record b { wake = drain [] b.wake }) s).1 in
      ground (arith, advance_kept p (take_s config.sleep_seconds) s1)

  counted : (arm : Bool) (s : Sys p) → Sensed s (count_sleep p arm s).1 0
  unfolding count_sleep
  counted arm s = ground arith

  armed :
      (arm : Bool) (s : Sys p)
      → config.motion_wake ≡ true
      → s.board.motion.usable ≡ true
      → is_err (p.script s.board.tick).err ≡ false
      → (arm_motion p arm s).1.board.motion.armed ≡ arm
  unfolding arm_motion built_motion_set_armed motion_set_armed ◌>>=◌ on_board
  armed arm s k u e = ground (arith, k, u, e, advance_kept p brief s)

  -- The accelerometer is armed for a sleep exactly if enough sleeps were counted before it: whatever
  -- happens during the sleep, in a build that wakes on motion, with motion usable and the request accepted, it is then what it is at
  -- the end.
  pub battery_sleep_arms :
      (s : Sys p)
      → config.motion_wake ≡ true
      → s.board.motion.usable ≡ true
      → is_err (p.script (s.board.tick + 1)).err ≡ false
      → ((battery_sleep p s).1.board.motion.armed ≡ true)
        ↔ (config.motion_settle_cycles ≤ s.battery_sleeps)
  unfolding battery_sleep ◌>>=◌ ◌>>◌ gets
  battery_sleep_arms s k u e =
      let arm = leb config.motion_settle_cycles s.battery_sleeps in
      let s1 = (mark p phase_led_sleep s).1 in
      let s2 = (led_sleep p s1).1 in
      let s3 = (mark p motion_arm s2).1 in
      let s4 = (arm_motion p arm s3).1 in
      let s5 = (count_sleep p arm s4).1 in
      let s6 = (mark p sleep s5).1 in
      ground (
        arith,
        k,
        u,
        e,
        marked phase_led_sleep s,
        darkened s1,
        marked motion_arm s2,
        armed arm s3,
        counted arm s4,
        marked sleep s5,
        slept s6,
      )

  -- The LED's side: it stays as it is while no blink is pending.
  abbrev StaysDark : Sys p → Sys p → Type 0
  StaysDark s t = s.board.led.blink_work ≡ none → t.board.led ≡ s.board.led

  dark_mark : (phase : Phase) (s : Sys p) → (mark p phase s).1.board.led ≡ s.board.led
  unfolding mark on_board
  dark_mark phase s = refl

  dark_arm : (arm : Bool) (s : Sys p) → StaysDark s (arm_motion p arm s).1
  unfolding arm_motion ◌>>=◌ on_board
  dark_arm arm s = ground (arith, advance_kept p brief s)

  dark_count : (arm : Bool) (s : Sys p) → (count_sleep p arm s).1.board.led ≡ s.board.led
  unfolding count_sleep
  dark_count arm s = ground arith

  dark_sleep : (s : Sys p) → StaysDark s (sleep_until_wake p s).1
  unfolding sleep_until_wake ◌>>=◌ ◌>>◌ on_board call
  dark_sleep s =
      let s1 = (on_board {p = p} (λ b. record b { wake = drain [] b.wake }) s).1 in
      ground (arith, advance_kept p (take_s config.sleep_seconds) s1)

  abbrev IsDark : Sys p → Type 0
  IsDark s =
      (channel_on config.led_red_index s.board.led.calls ≡ false)
      × (channel_on config.led_green_index s.board.led.calls ≡ false)
      × (s.board.led.blink_work ≡ none)
      × (s.board.led.blinking ≡ false)

  still_there :
      (s : Sys p) → s.board.led.available ≡ true → (advance p brief s).1.board.led.available ≡ true
  still_there s a = ground (arith, a, advance_kept p brief s)

  led_sleep-IsDark :
      (s : Sys p)
      → config.status_led ≡ true
      → s.board.led.available ≡ true
      → config.led_on_battery ≡ false
      → config.led_red_index ≢ config.led_green_index
      → IsDark (led_sleep p s).1
  unfolding led_sleep built_status_led_sleep ◌>>◌ on_board
  led_sleep-IsDark s l a b d =
      let s1 = (advance p brief s).1 in
      ground (arith, l, sleep_dark config s1.board.led (still_there s a) b d)

  -- With the LED built in and there, on two different channels, unless its flash is kept on battery, both are dark when
  -- `battery_sleep` ends, and no blink is pending, though the work queue runs during the sleep.
  pub battery_sleep_dark :
      (s : Sys p)
      → config.status_led ≡ true
      → s.board.led.available ≡ true
      → config.led_on_battery ≡ false
      → config.led_red_index ≢ config.led_green_index
      → let l = (battery_sleep p s).1.board.led in
        (channel_on config.led_red_index l.calls ≡ false)
        × (channel_on config.led_green_index l.calls ≡ false)
        × (l.blink_work ≡ none)
        × (l.blinking ≡ false)
  unfolding battery_sleep ◌>>=◌ ◌>>◌ gets
  battery_sleep_dark s l a b d =
      let arm = leb config.motion_settle_cycles s.battery_sleeps in
      let s1 = (mark p phase_led_sleep s).1 in
      let s2 = (led_sleep p s1).1 in
      let s3 = (mark p motion_arm s2).1 in
      let s4 = (arm_motion p arm s3).1 in
      let s5 = (count_sleep p arm s4).1 in
      let s6 = (mark p sleep s5).1 in
      ground (
        arith,
        a,
        dark_mark phase_led_sleep s,
        led_sleep-IsDark s1 l (ap (λ l. l.available) (dark_mark phase_led_sleep s) ∙ a) b d,
        dark_mark motion_arm s2,
        dark_arm arm s3,
        dark_count arm s4,
        dark_mark sleep s5,
        dark_sleep s6,
      )
