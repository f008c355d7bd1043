-- ===== src/Telemetry/Payload.antt =====
-- The payload of app/src/telemetry.c fits its buffer, and the key of the post-mortem phase.
use hologram_nrf9151_gps_tra.Common.{
  ℕ, ◌+◌, ◌^◌, ◌≤◌, ◌<◌, ◌≡◌, ◌↔◌, [], ◌++◌, ℤ, pos, negsuc, pos_part, neg_part, arith,
  if◌then◌else◌, ◌==◌, codes, show_nat, show_int, length, length-append, length-take-le, take-all,
  length-show_nat-le,
}
use hologram_nrf9151_gps_tra.Wake.{WakeReason, boot, timer, vbus, motion, wake_reason_name}
use hologram_nrf9151_gps_tra.Power.{ChargeState, charge_code}
use hologram_nrf9151_gps_tra.Telemetry.{
  Telemetry, Outside, wdt_field, payload_text, telemetry_build_json, telemetry_battery_percent,
}
use hologram_nrf9151_gps_tra.Telemetry.Battery.{battery_percent_mono}

-- For a phase of at most six digits the 16 bytes hold the whole key; it is left out for phase 0 only.
pub wdt_field_whole :
    (phase : ℕ)
    → phase < 10 ^ 6
    → (wdt_field phase
        ≡ (if phase == 0 then [] else codes "\"wdt\": " ++ show_nat phase ++ codes ", "))
      × ((wdt_field phase ≡ []) ↔ (phase ≡ 0))
unfolding wdt_field
wdt_field_whole phase h = ground (
  arith,
  length-show_nat-le 5 phase,
  length-append (show_nat phase) (codes ", "),
  take-all 15 (codes "\"wdt\": " ++ show_nat phase ++ codes ", "),
)

length-wdt_field-le : (phase : ℕ) → length (wdt_field phase) ≤ 15
unfolding wdt_field
length-wdt_field-le phase =
    ground (arith, length-take-le 15 (codes "\"wdt\": " ++ show_nat phase ++ codes ", "))

length-reason-le : (r : WakeReason) → length (codes (wake_reason_name r)) ≤ 6
unfolding wake_reason_name
length-reason-le boot = omega arith
length-reason-le timer = omega arith
length-reason-le vbus = omega arith
length-reason-le motion = omega arith

length-charge-le : (s : ChargeState) → length (show_nat (charge_code s)) ≤ 1
length-charge-le s = length-show_nat-le 0 (charge_code s) (ground arith)

-- An `int32_t`.
length-show_int-le : (z : ℤ) → pos_part z < 2 ^ 31 → neg_part z ≤ 2 ^ 31 → length (show_int z) ≤ 11
unfolding show_int
length-show_int-le (pos n) h k = omega (arith, length-show_nat-le 9 n (omega arith))
length-show_int-le (negsuc n) h k = omega (arith, length-show_nat-le 9 (n + 1) (omega arith))

module _ {D F : Type 0} (o : Outside D F) (phase : ℕ) (t : Telemetry D F) where
  length-payload :
      length (payload_text o phase t)
      ≡ 113
        + length (o.show_6f t.longitude)
        + length (o.show_6f t.latitude)
        + length (o.show_2f t.hdop)
        + length (show_nat (telemetry_battery_percent t.batt_mv))
        + length (show_nat t.batt_mv)
        + length (show_nat (charge_code t.charge))
        + length (show_int t.signal_dbm)
        + length (show_nat t.awake_s)
        + length (codes (wake_reason_name t.wake))
        + length (wdt_field phase)
        + length o.build_stamp
        + length o.hw_revision
  unfolding payload_text
  length-payload = omega (arith, length-append {0})

  -- With coordinates of at most 11 characters (`-180.000000`), a build stamp of 17 (minutes in UTC),
  -- and 52 characters for the HDOP and the hardware revision together, and the other fields in the
  -- ranges of their C types, the 256 bytes that the report loop hands over are enough: the call
  -- returns the length, and the buffer holds the whole text.
  pub payload_fits :
      length (o.show_6f t.longitude) ≤ 11
      → length (o.show_6f t.latitude) ≤ 11
      → length o.build_stamp ≤ 17
      → length (o.show_2f t.hdop) + length o.hw_revision ≤ 52
      → t.batt_mv < 2 ^ 16
      → t.awake_s < 2 ^ 32
      → pos_part t.signal_dbm < 2 ^ 31
      → neg_part t.signal_dbm ≤ 2 ^ 31
      → telemetry_build_json o phase t 256
        ≡ (pos (length (payload_text o phase t)), payload_text o phase t)
  unfolding telemetry_build_json
  payload_fits lon lat stamp rest batt awake low high =
      ground (arith, short, take-all 255 (payload_text o phase t))
    where
      short : length (payload_text o phase t) ≤ 255
      short = omega (
        arith,
        length-payload,
        length-show_nat-le 2 (telemetry_battery_percent t.batt_mv)
            (omega (arith, battery_percent_mono 0 t.batt_mv (omega arith))),
        length-show_nat-le 4 t.batt_mv (omega arith),
        length-charge-le t.charge,
        length-show_int-le t.signal_dbm low high,
        length-show_nat-le 9 t.awake_s (omega arith),
        length-reason-le t.wake,
        length-wdt_field-le phase,
      )
