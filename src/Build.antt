-- ===== src/Build.antt =====
-- What a build has in place of app/src/motion.c, app/src/status_led.c and app/src/agnss.c where they are
-- left out: the inline functions of app/src/motion.h, app/src/status_led.h and app/src/agnss.h.
use hologram_nrf9151_gps_tra.Common.{ℕ, Bool, List, ℤ, ok, enotsup, if◌then◌else◌}
use hologram_nrf9151_gps_tra.Config.{Config}
use hologram_nrf9151_gps_tra.Watchdog.{Watchdog}
use hologram_nrf9151_gps_tra.Motion.{
  Motion, SetupAnswers, motion_init, motion_set_armed, motion_last_event_uptime,
}
use hologram_nrf9151_gps_tra.StatusLed.{
  Led, Status, Pattern, status_led_init, status_led_set, status_led_pattern, status_led_sleep,
}
use hologram_nrf9151_gps_tra.Gnss.Modem.{ModemGnss}
use hologram_nrf9151_gps_tra.Agnss
use hologram_nrf9151_gps_tra.Agnss.{Agnss, ModemNumbers, agnss_fetch_and_inject}

module _ (c : Config) where
  unfoldable pub built_motion_init : SetupAnswers → Motion → ℤ × Motion
  built_motion_init a m = if c.motion_wake then motion_init c a m else (ok, m)

  unfoldable pub built_motion_set_armed : Bool → ℤ → Motion → Motion
  built_motion_set_armed arm err m = if c.motion_wake then motion_set_armed arm err m else m

  unfoldable pub built_motion_last_event_uptime : (between : List ℕ) → Motion → ℕ × Motion
  built_motion_last_event_uptime between m =
      if c.motion_wake then motion_last_event_uptime between m else (0, m)

  unfoldable pub built_status_led_init : (ready : Bool) → Led → ℤ × Led
  built_status_led_init ready l = if c.status_led then status_led_init c ready l else (ok, l)

  unfoldable pub built_status_led_set : Status → Led → Led
  built_status_led_set status l = if c.status_led then status_led_set c status l else l

  unfoldable pub built_status_led_pattern : Pattern → Led → Led
  built_status_led_pattern pattern l = if c.status_led then status_led_pattern c pattern l else l

  unfoldable pub built_status_led_sleep : Led → Led
  built_status_led_sleep l = if c.status_led then status_led_sleep c l else l

  unfoldable pub built_agnss_fetch :
      {D F : Type 0} (n : ModemNumbers)
      → Agnss.Answers
      → ModemGnss D F × Watchdog × Agnss
      → ℤ × ModemGnss D F × Watchdog × Agnss
  built_agnss_fetch n a (m, w, s) =
      if c.agnss then agnss_fetch_and_inject c n a (m, w, s) else (enotsup, m, w, s)
