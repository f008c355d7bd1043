-- ===== src/Motion/Arming.antt =====
-- Arming in app/src/motion.c touches the sensor on a real change only.
use hologram_nrf9151_gps_tra.Common.{
  ◌+◌, ◌≡◌, Bool, false, ℤ, is_err, arith, if◌then◌else◌, ◌&&◌, not,
}
use hologram_nrf9151_gps_tra.Motion.{Motion, same, motion_set_armed}

-- `armed` is what the sensor has.
abbrev pub InStep : Motion → Type 0
InStep m = m.armed ≡ m.triggered

-- Where `armed` is what the sensor has, `motion_set_armed` keeps it so; it calls the driver exactly
-- once if motion is usable and the request is a change, and not at all otherwise; an accepted request
-- takes effect and a refused one leaves `armed` alone; and a request repeated after an answer
-- without error changes nothing.
pub set_armed_lem :
    (arm : Bool) (err : ℤ) (m : Motion)
    → InStep m
    → let n = motion_set_armed arm err m in
      InStep n
      × (n.trigger_sets ≡ m.trigger_sets + (if m.usable && not (same arm m.armed) then 1 else 0))
      × (n.armed ≡ (if m.usable && not (is_err err) then arm else m.armed))
      × (is_err err ≡ false → motion_set_armed arm err n ≡ n)
unfolding motion_set_armed
set_armed_lem arm err m s = ground arith
