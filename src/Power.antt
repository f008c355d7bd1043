-- ===== src/Power.antt =====
-- app/src/power.c and power.h: battery, charger and external power through the nPM1300.
pub mod Charge
pub mod Vbus
use hologram_nrf9151_gps_tra.Common.{
  ℕ, ◌+◌, ◌-◌, ◌*◌, ◌/◌, ◌%◌, ◌^◌, Bool, true, false, not, ◌||◌, List, [], ◌∷◌, ℤ, pos, negsuc, ok,
  enodev, is_err, ◌+ℤ◌, ◌==◌, ltb, if◌then◌else◌, u16, test_bit,
}
use hologram_nrf9151_gps_tra.Wake.{Wake, vbus, wake_signal}

-- `enum tracker_charge_state`.
pub data ChargeState : Type 0 where
  discharging charging full : ChargeState

abbrev pub charge_code : ChargeState → ℕ
charge_code discharging = 0
charge_code charging = 1
charge_code full = 2

-- `registered` is whether the PMIC has the callback.
pub record Power : Type 0 where
  pub vbus_connected : Bool
  pub registered : Bool

abbrev pub power_at_boot : Power
power_at_boot = record { vbus_connected = false; registered = false }

-- What the charger answers: `sensor_sample_fetch`, then `sensor_channel_get` for each channel with
-- its error and its value. Status registers are bit patterns.
pub record ChargerAnswers : Type 0 where
  pub fetch_err : ℤ
  pub volt_err : ℤ
  pub volt_val1 : ℤ
  pub volt_val2 : ℤ
  pub status_err : ℤ
  pub status : ℕ
  pub vbus_err : ℤ
  pub vbus_status : ℕ

-- `NPM13XX_EVENT_VBUS_DETECTED` and `NPM13XX_EVENT_VBUS_REMOVED`, numbers of the PMIC's driver.
pub record EventBits : Type 0 where
  pub detected : ℕ
  pub removed : ℕ

unfoldable pub read_vbus_present : ChargerAnswers → Power → Bool
read_vbus_present a p =
    if is_err a.fetch_err
    then p.vbus_connected
    else if is_err a.vbus_err
    then p.vbus_connected
    else test_bit a.vbus_status 0

unfoldable pub event_callback : EventBits → ℕ → Power × Wake → Power × Wake
event_callback e pins (p, w) =
    let (p1, w1) =
      if test_bit pins e.detected
      then (record p { vbus_connected = true }, wake_signal vbus w)
      else (p, w) in
    (if test_bit pins e.removed then record p1 { vbus_connected = false } else p1, w1)

unfoldable pub power_init :
    (pmic_ready charger_ready : Bool) (callback_err : ℤ) → ChargerAnswers → Power → ℤ × Power
unfolding read_vbus_present
power_init pmic_ready charger_ready callback_err a p =
    if not pmic_ready || not charger_ready
    then (enodev, p)
    else if is_err callback_err
    then (callback_err, p)
    else let q = record p { registered = true } in
      (ok, record q { vbus_connected = read_vbus_present a q })

unfoldable pub power_vbus_present : ChargerAnswers → Power → Bool × Power
unfolding read_vbus_present
power_vbus_present a p =
    let present = read_vbus_present a p in (present, record p { vbus_connected = present })

-- CHG_STAT_COMPLETED is bit 1; trickle, CC and CV are bits 2, 3 and 4.
unfoldable pub charge_state_from_status : ℕ → ChargeState
charge_state_from_status status =
    if test_bit status 1
    then full
    else if test_bit status 2 || test_bit status 3 || test_bit status 4
    then charging
    else discharging

unfoldable pub power_charge_state : ChargerAnswers → ChargeState
unfolding charge_state_from_status
power_charge_state a =
    if is_err a.fetch_err
    then discharging
    else if is_err a.status_err
    then discharging
    else charge_state_from_status a.status

-- What the out-parameters of `power_read` point to.
pub record Reading : Type 0 where
  pub batt_mv : ℕ
  pub charge : ChargeState

-- C's division by a positive number truncates towards 0.
abbrev pub div_trunc : ℤ → ℕ → ℤ
div_trunc (pos n) d = pos (n / d)
div_trunc (negsuc n) d = let q = (n + 1) / d in if q == 0 then pos 0 else negsuc (q - 1)

abbrev pub mul_pos : ℤ → ℕ → ℤ
mul_pos (pos n) k = pos (n * k)
mul_pos (negsuc n) k = negsuc ((n + 1) * k - 1)

-- `(uint16_t)` of an `int`.
abbrev pub to_u16 : ℤ → ℕ
to_u16 (pos n) = u16 n
to_u16 (negsuc n) = 65535 - n % 65536

unfoldable pub power_read : ChargerAnswers → Reading → ℤ × Reading
unfolding charge_state_from_status
power_read a r =
    if is_err a.fetch_err
    then (a.fetch_err, r)
    else if is_err a.volt_err
    then (a.volt_err, r)
    else let mv = to_u16 (mul_pos a.volt_val1 1000 +ℤ div_trunc a.volt_val2 1000) in
      if is_err a.status_err
      then (ok, record { batt_mv = mv; charge = discharging })
      else (ok, record { batt_mv = mv; charge = charge_state_from_status a.status })
