-- ===== src/Telemetry/PostMortem.antt =====
-- What the backend learns of a watchdog reset: app/src/watchdog.c over the reset, and the payload of
-- app/src/telemetry.c.
use hologram_nrf9151_gps_tra.Common.{ℕ, ◌≤◌, ◌≡◌, ap, Option, none, some, arith}
use hologram_nrf9151_gps_tra.Config.{Config}
use hologram_nrf9151_gps_tra.Watchdog.{
  Watchdog, Phase, phase_code, StartAnswers, after_reset, watchdog_init, watchdog_reset_phase,
}
use hologram_nrf9151_gps_tra.Watchdog.Retained.{
  Run, begin, feed, expire, guard, unguard, mark, last_phase, reset_phase_retained,
}
use hologram_nrf9151_gps_tra.Telemetry.{Telemetry, Outside, payload_text}
use hologram_nrf9151_gps_tra.Telemetry.ReadBack.{
  Fields, IsReadable, read_payload, read_payload-payload_text,
}

phase_code-le : (p : Phase) → phase_code p ≤ 14
phase_code-le p = ground arith

last_phase-le : {w v : Watchdog} (r : Run w v) → last_phase r ≤ 14
last_phase-le begin = omega arith
last_phase-le (feed r) = last_phase-le r
last_phase-le (expire r) = last_phase-le r
last_phase-le (guard b r) = last_phase-le r
last_phase-le (unguard r) = last_phase-le r
last_phase-le (mark p r) = phase_code-le p

abbrev pub reported : Option Fields → Option ℕ
reported none = none
reported (some f) = some f.wdt

module _ {D F : Type 0} (o : Outside D F) (t : Telemetry D F) where
  -- After a watchdog reset, the payload of a report tells the phase that the run before had marked last,
  -- whatever that run did and the driver answered. Provided that the fields of the report are in the
  -- ranges of their C types, and that the printed longitude and HDOP hold no comma and the latitude no
  -- closing bracket.
  pub post_mortem :
      (c : Config) (a b : StartAnswers) (w : Watchdog) {v : Watchdog}
      (r : Run (watchdog_init c a w).1 v)
      → IsReadable o t
      → let phase = watchdog_reset_phase (watchdog_init c b (after_reset v)).1 in
        reported (read_payload (payload_text o phase t)) ≡ some (last_phase r)
  post_mortem c a b w r i =
      let e = reset_phase_retained c a b w r in
      rw e (
        ap reported
          (read_payload-payload_text o (last_phase r) t i (omega (arith, last_phase-le r))))
