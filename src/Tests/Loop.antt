-- ===== src/Tests/Loop.antt =====
-- Runs of the report loop on the platform of the test data.
use hologram_nrf9151_gps_tra.Common.{
  [], ◌∷◌, ◌^◌, ◌≤◌, ◌<◌, ◌≡◌, ◌≢◌, ◌⊎◌, ◌↔◌, refl, true, false, some, ok, arith, none, u32,
}
use hologram_nrf9151_gps_tra.Wake.{timer, motion}
use hologram_nrf9151_gps_tra.StatusLed.Colour.{channel_on}
use hologram_nrf9151_gps_tra.Main.{
  lte_ensure_connected, recover_if_silent, report_fix, battery_sleep, awake_seconds,
}
use hologram_nrf9151_gps_tra.Board.{offline, normal}
use hologram_nrf9151_gps_tra.Main.Network.{lte_ensure_connected_outcome}
use hologram_nrf9151_gps_tra.Main.Recovery.{recover_outcome}
use hologram_nrf9151_gps_tra.Main.Report.{report_fix_noted, awake_seconds_lem}
use hologram_nrf9151_gps_tra.Main.Sleep.{battery_sleep_arms, battery_sleep_dark}
use hologram_nrf9151_gps_tra.Main.Cycle.{cycle, still_reporting, rebooting}
use hologram_nrf9151_gps_tra.Main.Cycle.Ends.{cycle_ends}
use hologram_nrf9151_gps_tra.Main.Cycle.Delivers.{cycle_delivers}
use hologram_nrf9151_gps_tra.Main.Cycle.Reboots.{cycle_reboots}
use hologram_nrf9151_gps_tra.CloudNrf.Envelope.{telemetry_sent}
use hologram_nrf9151_gps_tra.Config.{defaults}
use hologram_nrf9151_gps_tra.Tests.Data.{
  platform, start, battery_platform, battery_start, a_fix, forced_platform, forced_start, keys,
}

-- 83 minutes after the last report the modem is bounced, and the pass reports.
cycle_delivers_example :
    let (next, t) = cycle forced_platform 3 a_fix timer forced_start in
    (next ≡ rebooting) ⊎ (5000000 ≤ t.last_send_uptime)
cycle_delivers_example =
    cycle_delivers forced_platform
      (λ n json s h.
        (telemetry_sent defaults keys none ok json s (omega arith) (omega arith) h refl).2.1 refl)
      (λ d. omega arith) (λ f. omega arith) (omega arith) (λ n. (omega arith, omega arith)) refl
      (λ n. (refl, refl)) (λ n. refl) 3 a_fix timer forced_start

cycle_reboots_example :
    ((cycle platform 3 a_fix timer start).0 ≡ rebooting)
    ↔ ((false ≡ false) × (30 ≤ 83) × (120 ≤ 83))
cycle_reboots_example = cycle_reboots platform 3 a_fix timer start

-- 10 minutes of surge are long over.
cycle_ends_example : (cycle battery_platform 1 a_fix motion battery_start).0 ≢ still_reporting
cycle_ends_example =
    cycle_ends battery_platform (λ n. refl) (λ n. refl) (λ n span. omega arith) 1 a_fix motion
      battery_start (omega arith) (omega arith)

lte_ensure_connected_outcome_example : (lte_ensure_connected platform start).0 ≡ ok
lte_ensure_connected_outcome_example = lte_ensure_connected_outcome platform start

-- 83 minutes after the last report.
recover_outcome_example :
    let (reboot, t) = recover_if_silent platform start in
    ((reboot ≡ true) ↔ ((30 ≤ 83) × (120 ≤ 83)))
    × (83 < 30 → (t.modem_bounced ≡ false) × (t.board ≡ start.board))
    × (30 ≤ 83
        → 83 < 120
        → (t.modem_bounced ≡ true)
          × (false ≡ true → t.board ≡ start.board)
          × (false ≡ false
              → (t.board.func_modes ≡ normal ∷ offline ∷ [])
                × (t.board.tick ≡ 3)
                × (t.board.now_ms ≡ 5003000)))
    × (reboot ≡ true → t.board.func_modes ≡ [])
    × (t.last_send_uptime ≡ 0)
recover_outcome_example = recover_outcome platform start

report_fix_noted_example :
    let (err, t) = report_fix platform (some a_fix) 4990000 timer start in
    (err ≡ ok → (5000000 ≤ t.last_send_uptime) × (t.last_send_uptime ≤ t.board.now_ms))
    × (err ≢ ok → t.last_send_uptime ≡ 0)
    × (t.battery_sleeps ≡ 1)
    × (t.modem_bounced ≡ false)
report_fix_noted_example = report_fix_noted platform (some a_fix) 4990000 timer start

-- Woken a second after 2^32 ms of uptime, 5 seconds ago.
awake_seconds_lem_example :
    (4294968296 < 2 ^ 32 → awake_seconds platform 4294973296 (u32 4294968296) ≡ 5)
    × (awake_seconds platform 4294973296 (u32 4294968296) ≡ 4294972)
awake_seconds_lem_example =
    awake_seconds_lem platform 4294968296 4294973296 (omega arith) (omega arith)

battery_sleep_arms_example : ((battery_sleep platform start).1.board.motion.armed ≡ true) ↔ (1 ≤ 1)
battery_sleep_arms_example = battery_sleep_arms platform start refl refl refl

battery_sleep_dark_example :
    let l = (battery_sleep platform start).1.board.led in
    (channel_on 0 l.calls ≡ false)
    × (channel_on 1 l.calls ≡ false)
    × (l.blink_work ≡ none)
    × (l.blinking ≡ false)
battery_sleep_dark_example = battery_sleep_dark platform start refl refl refl (omega arith)
