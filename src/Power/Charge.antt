-- ===== src/Power/Charge.antt =====
-- The charge state and the battery reading of app/src/power.c.
use hologram_nrf9151_gps_tra.Common.{
  ℕ, ◌+◌, ◌*◌, ◌/◌, ◌%◌, ◌<◌, ◌≤◌, ◌≡◌, ◌≢◌, ◌↔◌, ◌⊎◌, true, false, ◌||◌, pos, ok, is_err, arith,
}
use hologram_nrf9151_gps_tra.Power.{
  discharging, charging, full, ChargerAnswers, Reading, charge_state_from_status,
  power_charge_state, power_read,
}

-- The charge state read off a status register: full exactly if bit 1 (completed) is set, whatever the
-- others say; discharging exactly if bits 1 to 4 are all clear; charging exactly if bit 1 is clear and
-- one of bits 2 to 4 (trickle, CC, CV) is set.
pub charge_state_classified :
    (status : ℕ)
    → ((charge_state_from_status status ≡ discharging) ↔ (status / 2 % 16 ≡ 0))
      × ((charge_state_from_status status ≡ full) ↔ (status / 2 % 2 ≡ 1))
      × ((charge_state_from_status status ≡ charging)
          ↔ ((status / 2 % 2 ≡ 0) × (status / 4 % 8 ≢ 0)))
unfolding charge_state_from_status
charge_state_classified status = ground arith

-- For a voltage below 65 V, `power_read` succeeds exactly if the charger and the voltage can be read,
-- with the voltage in whole millivolts and the charge state that `power_charge_state` tells from the
-- same answers; and otherwise it returns an error and writes nothing.
pub power_read_outcome :
    (a : ChargerAnswers) (r : Reading) (volts micro : ℕ)
    → a.volt_val1 ≡ pos volts
    → a.volt_val2 ≡ pos micro
    → volts ≤ 64
    → micro < 1000000
    → let (err, s) = power_read a r in
      ((err ≡ ok)
        × (is_err a.fetch_err || is_err a.volt_err ≡ false)
        × (s.batt_mv ≡ (volts * 1000000 + micro) / 1000)
        × (s.charge ≡ power_charge_state a))
      ⊎ ((err ≢ ok) × (s ≡ r) × (is_err a.fetch_err || is_err a.volt_err ≡ true))
unfolding power_read power_charge_state
power_read_outcome a r volts micro e1 e2 h1 h2 = ground arith
