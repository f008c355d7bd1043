-- ===== src/Power/Vbus.antt =====
-- External power in app/src/power.c: what the events leave, and what a failed read answers.
use hologram_nrf9151_gps_tra.Common.{
  ℕ, ◌≡◌, refl, Bool, true, false, ◌||◌, List, [], ◌∷◌, is_err, test_bit, arith, if◌then◌else◌,
}
use hologram_nrf9151_gps_tra.Wake.{Wake, vbus, wake_signal}
use hologram_nrf9151_gps_tra.Power.{
  Power, ChargerAnswers, EventBits, event_callback, read_vbus_present, power_vbus_present,
}

-- Callbacks, the first one first.
callbacks : EventBits → List ℕ → Power × Wake → Power × Wake
callbacks e [] s = s
callbacks e (pins ∷ rest) s = callbacks e rest (event_callback e pins s)

-- The supply as the events tell it: a removal wins over a detection in one callback.
abbrev pub supply : EventBits → List ℕ → Bool → Bool
supply e [] b = b
supply e (pins ∷ rest) b =
    supply e rest
      (if test_bit pins e.removed then false else if test_bit pins e.detected then true else b)

abbrev pub any_detected : EventBits → List ℕ → Bool
any_detected e [] = false
any_detected e (pins ∷ rest) = test_bit pins e.detected || any_detected e rest

callbacks-supply :
    (e : EventBits) (events : List ℕ) (p : Power) (w : Wake)
    → ((callbacks e events (p, w)).0.vbus_connected ≡ supply e events p.vbus_connected)
      × ((callbacks e events (p, w)).1 ≡ (if any_detected e events then wake_signal vbus w else w))
unfolding callbacks event_callback wake_signal
callbacks-supply e [] p w = (refl, refl)
callbacks-supply e (pins ∷ rest) p w = ground (
  arith,
  callbacks-supply e rest (event_callback e pins (p, w)).0 (event_callback e pins (p, w)).1,
)

-- After any callbacks, `power_vbus_present` stores what it returns; it returns the supply that the
-- last detection or removal tells (the removal, where one callback brings both) if the charger cannot
-- be read, and bit 0 of its status otherwise. The callbacks have raised the wake-up for external
-- power exactly if one of them was a detection.
vbus_after_events :
    (e : EventBits) (events : List ℕ) (p : Power) (w : Wake) (a : ChargerAnswers)
    → let s = callbacks e events (p, w) in
      let (present, q) = power_vbus_present a s.0 in
      (present ≡ q.vbus_connected)
      × (present ≡ (
          if is_err a.fetch_err || is_err a.vbus_err
          then supply e events p.vbus_connected
          else test_bit a.vbus_status 0))
      × (s.1 ≡ (if any_detected e events then wake_signal vbus w else w))
unfolding power_vbus_present read_vbus_present
vbus_after_events e events p w a = ground (arith, callbacks-supply e events p w)
