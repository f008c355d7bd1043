-- ===== src/Tests/Drivers.antt =====
-- Runs of the drivers' models: the wake-up, the watchdog, motion, power, the battery and the LED.
use hologram_nrf9151_gps_tra.Common.{
  ◌/◌, ◌%◌, ◌^◌, ◌≤◌, ◌<◌, ◌≡◌, ◌≢◌, ◌↔◌, ◌⊎◌, refl, true, false, [], ◌∷◌, none, some, pos, ok,
  arith, length,
}
use hologram_nrf9151_gps_tra.Config.{defaults}
use hologram_nrf9151_gps_tra.Wake.{vbus, motion, wake_wait}
use hologram_nrf9151_gps_tra.Wake.Reason.{wake_wait-answer}
use hologram_nrf9151_gps_tra.Watchdog.{
  Watchdog, startup, after_reset, fix, watchdog_init, watchdog_guard_start, watchdog_feed,
  watchdog_reset_phase, watchdog_phase,
}
use hologram_nrf9151_gps_tra.Watchdog
use hologram_nrf9151_gps_tra.Watchdog.Guard.{guard_periods, guard_budget}
use hologram_nrf9151_gps_tra.Motion.{
  motion_at_boot, store_events, motion_last_event_uptime, motion_set_armed, motion_init, full_scale,
  sampling_frequency, configuration, slope_th, slope_dur, plain, threshold_value, ctrl2_value,
}
use hologram_nrf9151_gps_tra.Motion.Uptime.{uptime_torn}
use hologram_nrf9151_gps_tra.Motion.Arming.{InStep, set_armed_lem}
use hologram_nrf9151_gps_tra.Motion.Setup.{motion_init_outcome}
use hologram_nrf9151_gps_tra.Power.{discharging, power_read, power_charge_state}
use hologram_nrf9151_gps_tra.Power.Charge.{power_read_outcome}
use hologram_nrf9151_gps_tra.Telemetry.{
  point, lipo_curve, level_on, telemetry_battery_percent, telemetry_build_json, payload_text,
}
use hologram_nrf9151_gps_tra.Telemetry.Battery.{curve_below, level_on_curve, battery_percent_mono}
use hologram_nrf9151_gps_tra.Telemetry.Payload.{payload_fits}
use hologram_nrf9151_gps_tra.StatusLed.{
  Led, led_at_boot, lte_fix, charging as led_charging, status_led_init, status_led_set,
  status_led_pattern, forever, solid,
}
use hologram_nrf9151_gps_tra.StatusLed.Blink.{Reach, start, step, init, set, pattern}
use hologram_nrf9151_gps_tra.StatusLed.Threads
use hologram_nrf9151_gps_tra.StatusLed.Threads.{resting, toggling, rescheduling}
use hologram_nrf9151_gps_tra.StatusLed.Threads.Safety.{blink_alive}
use hologram_nrf9151_gps_tra.StatusLed.Threads.Calls.{whole_calls}
use hologram_nrf9151_gps_tra.Tests.Data.{
  idle_wake, running_watchdog, charger, sensor_answers, outside, telemetry,
}

wake_wait-answer_example : (wake_wait [] (motion ∷ vbus ∷ []) [] idle_wake).0 ≡ vbus
wake_wait-answer_example = wake_wait-answer [] (motion ∷ vbus ∷ []) [] idle_wake

guard_budget_example :
    ((guard_periods 20 (watchdog_guard_start 240 running_watchdog)).feeds ≡ 9)
    × ((guard_periods 20 (watchdog_guard_start 240 running_watchdog)).guard_running ≡ false)
unfolding startup
guard_budget_example = guard_budget 240 20 running_watchdog refl (omega arith)

abbrev started : Watchdog.StartAnswers
started = record { ready = true; install = pos 0; setup = ok }

-- A jolt at 2^32 - 1 ms, and another one that interrupts the read, at 2^32 ms.
uptime_torn_example :
    let m = store_events (4294967295 ∷ []) motion_at_boot in
    let seen = (motion_last_event_uptime (4294967296 ∷ []) m).0 in
    (4294967296 / 2 ^ 32 ≡ 4294967295 / 2 ^ 32 → seen ≡ 4294967295)
    × ((4294967296 < seen) ↔ (4294967296 % 2 ^ 32 < 4294967295 % 2 ^ 32))
uptime_torn_example =
    uptime_torn (4294967296 ∷ []) 4294967295 (store_events (4294967295 ∷ []) motion_at_boot)
      (omega arith) (unfold store_events in omega arith) (omega arith)

set_armed_lem_example :
    let m = record motion_at_boot { usable = true } in
    let n = motion_set_armed true ok m in
    InStep n
    × (n.trigger_sets ≡ 1)
    × (n.armed ≡ true)
    × (false ≡ false → motion_set_armed true ok n ≡ n)
set_armed_lem_example = set_armed_lem true ok (record motion_at_boot { usable = true }) refl

motion_init_outcome_example :
    let (err, m) = motion_init defaults sensor_answers motion_at_boot in
    ((err ≡ ok) ↔ (m.usable ≡ true))
    × ((m.usable ≡ true) ↔ (length m.attrs ≡ 5))
    × (err ≡ ok
        → m.attrs
          ≡ (slope_dur, plain 2)
            ∷ (slope_th, threshold_value defaults)
            ∷ (configuration, plain (ctrl2_value defaults))
            ∷ (sampling_frequency, plain 50)
            ∷ (full_scale, sensor_answers.two_g)
            ∷ [])
    × (m.armed ≡ false)
    × (m.triggered ≡ false)
motion_init_outcome_example = motion_init_outcome defaults sensor_answers

power_read_outcome_example :
    let (err, s) = power_read charger (record { batt_mv = 0; charge = discharging }) in
    ((err ≡ ok) × (false ≡ false) × (s.batt_mv ≡ 3812) × (s.charge ≡ power_charge_state charger))
    ⊎ ((err ≢ ok) × (s ≡ record { batt_mv = 0; charge = discharging }) × (false ≡ true))
power_read_outcome_example =
    power_read_outcome charger (record { batt_mv = 0; charge = discharging }) 3 812500 refl refl
      (omega arith) (omega arith)

level_on_curve_example : level_on lipo_curve 3800 ≡ some 5833
unfolding curve_below
level_on_curve_example =
    level_on_curve (point 10000 4200)
      (point 9000 4050
        ∷ point 7500 3900
        ∷ point 5000 3750
        ∷ point 2500 3600
        ∷ point 1000 3450
        ∷ point 0 3200
        ∷ [])
      3800 (omega arith) (omega arith)

battery_percent_mono_example :
    (telemetry_battery_percent 3100 ≤ telemetry_battery_percent 4300)
    × (telemetry_battery_percent 4300 ≤ 100)
    × (4200 ≤ 4300 → telemetry_battery_percent 4300 ≡ 100)
    × (3100 ≤ 3200 → telemetry_battery_percent 3100 ≡ 0)
battery_percent_mono_example = battery_percent_mono 3100 4300 (omega arith)

payload_fits_example :
    telemetry_build_json outside 13 telemetry 256
    ≡ (pos (length (payload_text outside 13 telemetry)), payload_text outside 13 telemetry)
payload_fits_example =
    payload_fits outside 13 telemetry (omega arith) (omega arith) (omega arith) (omega arith)
      (omega arith) (omega arith) (omega arith) (omega arith)

abbrev blinking_led : Led
blinking_led =
    status_led_pattern defaults led_charging
      (status_led_set defaults lte_fix (status_led_init defaults true led_at_boot).1)

abbrev blinking_reached : Reach defaults blinking_led
blinking_reached = step (step (step start (init true)) (set lte_fix)) (pattern led_charging)

-- A run of the handler has begun.
blink_alive_example :
    let l = record blinking_led { blink_work = none } in
    (l.blinking ≡ false → (l.blink_work ≡ none) × (toggling ≡ resting))
    × (l.blinking ≡ true
        → (l.current_pattern ≢ solid) × ((l.blink_work ≢ none) ⊎ (toggling ≢ resting)))
    × (l.blink_work ≢ some forever)
    × (toggling ≢ rescheduling forever)
unfolding status_led_pattern status_led_init
blink_alive_example =
    blink_alive (Threads.step (whole_calls blinking_reached) (Threads.run 500 refl))
