-- ===== src/Board/Calls.antt =====
-- What each call of app/src/main.c does to the state, as one interface: all but the start and stop of a
-- receiver, the fallback and the fetch of assistance. A relation that has it passes to the helpers of
-- main.c in Main/Along.antt and to a pass of its loop in Main/Cycle/Along.antt.
use hologram_nrf9151_gps_tra.Common.{ℕ, Bool, Bytes}
use hologram_nrf9151_gps_tra.Watchdog.{Phase}
use hologram_nrf9151_gps_tra.Power.{Reading}
use hologram_nrf9151_gps_tra.StatusLed.{Status, Pattern}
use hologram_nrf9151_gps_tra.Gnss.Fix.{TrackerFix}
use hologram_nrf9151_gps_tra.Board.{Platform, Sys, Span, FuncMode}
use hologram_nrf9151_gps_tra.Board.Ops.{
  lte_is_registered, outside_call, note_mode, func_mode_set, lte_sem_take, lte_sem_reset, uptime,
  rsrp_get, vbus_present, read_power, last_jolt, arm_motion, led_set, led_show, led_sleep, feed,
  mark, sleep_until_wake, wait_fix, wait_agnss_request, guarded_resume, cloud_pause,
  cloud_send_telemetry, cloud_send_location,
}
use hologram_nrf9151_gps_tra.Board.Along.{Preorder, Along, widen-Along, then-Along}

pub record CallsAlong (p : Platform) (r : Preorder p) : Type 0 where
  pub lte_is_registered-Along : Along p r (lte_is_registered p)
  pub outside_call-Along : (span : Span) → Along p r (outside_call p span)
  pub note_mode-Along : (mode : FuncMode) → Along p r (note_mode p mode)
  pub lte_sem_take-Along : Along p r (lte_sem_take p)
  pub lte_sem_reset-Along : Along p r (lte_sem_reset p)
  pub uptime-Along : Along p r (uptime p)
  pub rsrp_get-Along : Along p r (rsrp_get p)
  pub vbus_present-Along : Along p r (vbus_present p)
  pub read_power-Along : (reading : Reading) → Along p r (read_power p reading)
  pub last_jolt-Along : Along p r (last_jolt p)
  pub arm_motion-Along : (arm : Bool) → Along p r (arm_motion p arm)
  pub led_set-Along : (status : Status) → Along p r (led_set p status)
  pub led_show-Along : (shown : Pattern) → Along p r (led_show p shown)
  pub led_sleep-Along : Along p r (led_sleep p)
  pub feed-Along : Along p r (feed p)
  pub mark-Along : (phase : Phase) → Along p r (mark p phase)
  pub sleep_until_wake-Along : Along p r (sleep_until_wake p)
  pub wait_fix-Along :
      (timeout_s : ℕ) (out : TrackerFix p.D p.F) → Along p r (wait_fix p timeout_s out)
  pub wait_agnss_request-Along : Along p r (wait_agnss_request p)
  pub guarded_resume-Along : Along p r (guarded_resume p)
  pub cloud_pause-Along : Along p r (cloud_pause p)
  pub cloud_send_telemetry-Along : (json : Bytes) → Along p r (cloud_send_telemetry p json)
  pub cloud_send_location-Along : (fix : TrackerFix p.D p.F) → Along p r (cloud_send_location p fix)

-- From one relation to a wider one.
module _ {p : Platform} {r q : Preorder p} (w : (s t : Sys p) → r.rel s t → q.rel s t) where
  pub widen_calls : CallsAlong p r → CallsAlong p q
  widen_calls c = record {
    lte_is_registered-Along = widen-Along w c.lte_is_registered-Along;
    outside_call-Along = λ a. widen-Along w (c.outside_call-Along a);
    note_mode-Along = λ a. widen-Along w (c.note_mode-Along a);
    lte_sem_take-Along = widen-Along w c.lte_sem_take-Along;
    lte_sem_reset-Along = widen-Along w c.lte_sem_reset-Along;
    uptime-Along = widen-Along w c.uptime-Along;
    rsrp_get-Along = widen-Along w c.rsrp_get-Along;
    vbus_present-Along = widen-Along w c.vbus_present-Along;
    read_power-Along = λ a. widen-Along w (c.read_power-Along a);
    last_jolt-Along = widen-Along w c.last_jolt-Along;
    arm_motion-Along = λ a. widen-Along w (c.arm_motion-Along a);
    led_set-Along = λ a. widen-Along w (c.led_set-Along a);
    led_show-Along = λ a. widen-Along w (c.led_show-Along a);
    led_sleep-Along = widen-Along w c.led_sleep-Along;
    feed-Along = widen-Along w c.feed-Along;
    mark-Along = λ a. widen-Along w (c.mark-Along a);
    sleep_until_wake-Along = widen-Along w c.sleep_until_wake-Along;
    wait_fix-Along = λ n a. widen-Along w (c.wait_fix-Along n a);
    wait_agnss_request-Along = widen-Along w c.wait_agnss_request-Along;
    guarded_resume-Along = widen-Along w c.guarded_resume-Along;
    cloud_pause-Along = widen-Along w c.cloud_pause-Along;
    cloud_send_telemetry-Along = λ a. widen-Along w (c.cloud_send_telemetry-Along a);
    cloud_send_location-Along = λ a. widen-Along w (c.cloud_send_location-Along a);
  }

module _ {p : Platform} {r : Preorder p} where
  pub func_mode_set-Along : CallsAlong p r → (mode : FuncMode) → Along p r (func_mode_set p mode)
  unfolding func_mode_set
  func_mode_set-Along c mode = then-Along (c.note_mode-Along mode) (c.outside_call-Along _)
