-- ===== src/StatusLed/Colour.antt =====
-- What app/src/status_led.c shows: colours, the dark sleep and the blink after it.
use hologram_nrf9151_gps_tra.Common.{
  ℕ, ◌==◌, ◌≡◌, ◌≢◌, Bool, true, false, List, [], ◌∷◌, none, arith, if◌then◌else◌,
}
use hologram_nrf9151_gps_tra.Config.{Config}
use hologram_nrf9151_gps_tra.StatusLed.{Led, status_led_sleep}

-- What the last call made of a channel: `led_on` or `led_off`.
abbrev pub channel_on : ℕ → List (ℕ × Bool) → Bool
channel_on k [] = false
channel_on k ((j, on) ∷ calls) = if j == k then on else channel_on k calls

-- With the driver there and two different channels, unless the flash is kept on battery,
-- `status_led_sleep` leaves both channels dark and the work
-- cancelled, so that no run of the work queue lights one during the sleep.
pub sleep_dark :
    (c : Config) (l : Led)
    → l.available ≡ true
    → c.led_on_battery ≡ false
    → c.led_red_index ≢ c.led_green_index
    → let m = status_led_sleep c l in
      (channel_on c.led_red_index m.calls ≡ false)
      × (channel_on c.led_green_index m.calls ≡ false)
      × (m.blink_work ≡ none)
      × (m.blinking ≡ false)
unfolding status_led_sleep
sleep_dark c l a b d = ground arith
