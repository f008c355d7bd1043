-- ===== src/Motion.antt =====
-- app/src/motion.c and motion.h: wake on motion by the accelerometer.
pub mod Uptime
pub mod Arming
pub mod Setup
use Prim.Native.Nat.{bit_or}
use hologram_nrf9151_gps_tra.Common.{
  ℕ, ◌+◌, ◌-◌, ◌*◌, ◌/◌, ◌%◌, ◌^◌, Bool, true, false, not, ◌||◌, List, [], ◌∷◌, ℤ, pos, negsuc, ok,
  eio, enodev, is_err, ltb, if◌then◌else◌, u32,
}
use hologram_nrf9151_gps_tra.Config.{Config}
use hologram_nrf9151_gps_tra.Wake.{Wake, motion, wake_signal}

-- `struct sensor_value`, whose fields are `int32_t`.
pub record SensorValue : Type 0 where
  pub val1 : ℤ
  pub val2 : ℤ

-- The attributes of the accelerometer that are set.
pub data Attr : Type 0 where
  full_scale sampling_frequency configuration slope_th slope_dur : Attr

-- The static variables; with what the sensor holds: the attributes that it took, newest first,
-- whether its trigger has the handler, and how often `sensor_trigger_set` was called.
pub record Motion : Type 0 where
  pub usable : Bool
  pub armed : Bool
  pub last_event_ms_hi : ℕ
  pub last_event_ms_lo : ℕ
  pub attrs : List (Attr × SensorValue)
  pub triggered : Bool
  pub trigger_sets : ℕ

abbrev pub motion_at_boot : Motion
motion_at_boot = record {
  usable = false;
  armed = false;
  last_event_ms_hi = 0;
  last_event_ms_lo = 0;
  attrs = [];
  triggered = false;
  trigger_sets = 0;
}

-- `(int32_t)` of a number that is not negative.
abbrev pub int32 : ℕ → ℤ
int32 n = if ltb (u32 n) (2 ^ 31) then pos (u32 n) else negsuc (2 ^ 32 - u32 n - 1)

-- HPIS2 is bit 1, the cutoff stands in bits 5:4.
unfoldable pub ctrl2_value : Config → ℕ
ctrl2_value c = bit_or 2 (c.motion_hp_cutoff * 2 ^ 4)

-- The stores of `motion_handler`, high word first.
unfoldable pub store_event : ℕ → Motion → Motion
store_event now m =
    let hi = record m { last_event_ms_hi = u32 (now / 2 ^ 32) } in
    record hi { last_event_ms_lo = u32 (now % 2 ^ 32) }

unfoldable pub motion_handler : ℕ → Motion × Wake → Motion × Wake
unfolding store_event
motion_handler now (m, w) = (store_event now m, wake_signal motion w)

unfoldable pub set_attr : Attr → SensorValue → ℤ → Motion → ℤ × Motion
set_attr attr val err m =
    (err, if is_err err then m else record m { attrs = (attr, val) ∷ m.attrs })

-- The driver's answers: `device_is_ready`, the value of `sensor_g_to_ms2(2)`, and the five results
-- of `sensor_attr_set`.
pub record SetupAnswers : Type 0 where
  pub ready : Bool
  pub two_g : SensorValue
  pub scale_err : ℤ
  pub odr_err : ℤ
  pub filter_err : ℤ
  pub threshold_err : ℤ
  pub duration_err : ℤ

unfoldable pub threshold_value : Config → SensorValue
threshold_value c =
    let ums2 = c.motion_threshold_mg * 980665 / 100 in
    record { val1 = int32 (ums2 / 1000000); val2 = int32 (ums2 % 1000000) }

abbrev pub plain : ℕ → SensorValue
plain n = record { val1 = int32 n; val2 = pos 0 }

unfoldable pub motion_init : Config → SetupAnswers → Motion → ℤ × Motion
unfolding set_attr threshold_value ctrl2_value
motion_init c a m =
    if not a.ready
    then (enodev, m)
    else let (e1, m1) = set_attr full_scale a.two_g a.scale_err m in
      if is_err e1
      then (eio, m1)
      else let (e2, m2) = set_attr sampling_frequency (plain c.motion_odr_hz) a.odr_err m1 in
        if is_err e2
        then (eio, m2)
        else let (e3, m3) = set_attr configuration (plain (ctrl2_value c)) a.filter_err m2 in
          if is_err e3
          then (eio, m3)
          else let (e4, m4) = set_attr slope_th (threshold_value c) a.threshold_err m3 in
            if is_err e4
            then (eio, m4)
            else let (e5, m5) =
                set_attr slope_dur (plain c.motion_duration_samples) a.duration_err m4 in
              if is_err e5 then (eio, m5) else (ok, record m5 { usable = true })

abbrev pub same : Bool → Bool → Bool
same true b = b
same false b = not b

-- `err` is what `sensor_trigger_set` answers, if it is called.
unfoldable pub motion_set_armed : Bool → ℤ → Motion → Motion
motion_set_armed arm err m =
    if not m.usable || same arm m.armed
    then m
    else let called = record m { trigger_sets = m.trigger_sets + 1 } in
      if is_err err then called else record called { armed = arm; triggered = arm }

-- Runs of the handler, the first one first.
unfoldable pub store_events : List ℕ → Motion → Motion
unfolding store_event
store_events [] m = m
store_events (t ∷ ts) m = store_events ts (store_event t m)

-- The low word is read, then the high word; `between` are the runs of the handler between the two.
unfoldable pub motion_last_event_uptime : (between : List ℕ) → Motion → ℕ × Motion
unfolding store_events
motion_last_event_uptime between m =
    let lo = u32 m.last_event_ms_lo in
    let later = store_events between m in (u32 later.last_event_ms_hi * 2 ^ 32 + lo, later)
