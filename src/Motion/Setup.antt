-- ===== src/Motion/Setup.antt =====
-- What `motion_init` of app/src/motion.c leaves behind.
use hologram_nrf9151_gps_tra.Common.{
  ℕ, ◌+◌, ◌*◌, ◌/◌, ◌%◌, ◌≤◌, ◌<◌, ◌≡◌, ◌↔◌, true, false, pos, ok, arith, [], ◌∷◌, length,
}
use hologram_nrf9151_gps_tra.Config.{Config}
use hologram_nrf9151_gps_tra.Motion.{
  full_scale, sampling_frequency, configuration, slope_th, slope_dur, SetupAnswers, plain,
  motion_at_boot, motion_init, threshold_value, ctrl2_value,
}

-- `motion_init` returns 0 exactly when motion is usable afterwards, and exactly when the sensor has
-- taken all five attributes, in which case they went in full scale first and duration last, with the
-- configured values. On every return the trigger is left disarmed.
pub motion_init_outcome :
    (c : Config) (a : SetupAnswers)
    → let (err, m) = motion_init c a motion_at_boot in
      ((err ≡ ok) ↔ (m.usable ≡ true))
      × ((m.usable ≡ true) ↔ (length m.attrs ≡ 5))
      × (err ≡ ok
          → m.attrs
            ≡ (slope_dur, plain c.motion_duration_samples)
              ∷ (slope_th, threshold_value c)
              ∷ (configuration, plain (ctrl2_value c))
              ∷ (sampling_frequency, plain c.motion_odr_hz)
              ∷ (full_scale, a.two_g)
              ∷ [])
      × (m.armed ≡ false)
      × (m.triggered ≡ false)
unfolding motion_init
motion_init_outcome c a = ground arith

-- In the range that app/Kconfig allows, the threshold in milli-g becomes whole metres per second
-- squared and a remainder in millionths, and the two lose nothing of the micrometre value.
pub threshold_exact :
    (c : Config)
    → c.motion_threshold_mg ≤ 2000
    → (mm um : ℕ) × ((threshold_value c).val1 ≡ pos mm)
      × ((threshold_value c).val2 ≡ pos um)
      × (um < 1000000)
      × (mm ≤ 19)
      × (mm * 1000000 + um ≡ c.motion_threshold_mg * 980665 / 100)
unfolding threshold_value
threshold_exact c h =
    let ums2 = c.motion_threshold_mg * 980665 / 100 in
    (
      ums2 / 1000000,
      ums2 % 1000000,
      ground arith,
      ground arith,
      omega arith,
      omega arith,
      omega arith,
    )
