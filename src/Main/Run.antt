-- ===== src/Main/Run.antt =====
-- `main` of app/src/main.c as a whole: its start, and any number of passes of its loop.
pub mod Linked
pub mod Start
pub mod Entry
pub mod Rule
pub mod Kept
pub mod Fed
pub mod Reports
use hologram_nrf9151_gps_tra.Common.{ℕ, zero, suc, ◌≡◌, true, false, Option, none, some, ℤ}
use hologram_nrf9151_gps_tra.Wake.{WakeReason, boot, wake_at_boot}
use hologram_nrf9151_gps_tra.Motion.{motion_at_boot}
use hologram_nrf9151_gps_tra.Power.{power_at_boot}
use hologram_nrf9151_gps_tra.StatusLed.{led_at_boot}
use hologram_nrf9151_gps_tra.Watchdog.{startup}
use hologram_nrf9151_gps_tra.Agnss.{agnss_at_boot}
use hologram_nrf9151_gps_tra.Gnss.Fix.{TrackerFix, from_modem}
use hologram_nrf9151_gps_tra.Board.{Platform, Sys, M, ◌>>=◌, pure}
use hologram_nrf9151_gps_tra.Main.Boot.{BootAnswers, main_start}
use hologram_nrf9151_gps_tra.Main.Cycle.{Next, woken, rebooting, still_reporting, cycle}

-- What the static variables hold when the program starts, and the hardware before any call of it.
-- `.noinit` holds anything.
pub record PoweredOn (p : Platform) (s : Sys p) : Type 0 where
  pub last_send_uptime_at_boot : s.last_send_uptime ≡ 0
  pub modem_bounced_at_boot : s.modem_bounced ≡ false
  pub battery_sleeps_at_boot : s.battery_sleeps ≡ p.config.motion_settle_cycles
  pub lte_connected_sem_at_boot : s.board.lte_connected_sem ≡ false
  pub wake_at_start : s.board.wake ≡ wake_at_boot
  pub motion_at_start : s.board.motion ≡ motion_at_boot
  pub power_at_start : s.board.power ≡ power_at_boot
  pub led_at_start : s.board.led ≡ led_at_boot
  pub noinit : ℕ × ℕ
  pub watchdog_at_start : s.board.watchdog ≡ startup noinit.0 noinit.1
  pub active_at_boot : s.board.gnss.active ≡ from_modem
  pub external_usable_at_boot : s.board.gnss.external_usable ≡ false
  pub streaming_at_boot : s.board.gnss.ext.streaming ≡ false
  pub handler_set_at_boot : s.board.gnss.modem.handler_set ≡ false
  pub running_at_boot : s.board.gnss.modem.running ≡ false
  pub agnss_at_start : s.board.agnss ≡ agnss_at_boot
  pub cloud_at_start : s.board.cloud ≡ p.transport.at_boot

-- How a run ends: by the return of `main`, or in its loop.
pub data Outcome : Type 0 where
  returned : ℤ → Outcome
  in_loop : Next → Outcome

module _ (p : Platform) where
  open p use {D, F}

  -- The next pass, if the last one ended in a wake-up.
  unfoldable pub go_on : (WakeReason → M p Next) → Next → M p Next
  go_on pass (woken reason) = pass reason
  go_on pass rebooting = pure rebooting
  go_on pass still_reporting = pure still_reporting

  -- At most `passes` passes, each with at most `rounds` frequent reports.
  unfoldable pub loop : (passes rounds : ℕ) → TrackerFix D F → WakeReason → M p Next
  loop zero rounds fix reason = pure (woken reason)
  loop (suc passes) rounds fix reason = do
    next ← cycle p rounds fix reason
    go_on (loop passes rounds fix) next

  unfoldable pub enter_loop : (passes rounds : ℕ) → TrackerFix D F → Option ℤ → M p Outcome
  enter_loop passes rounds fix (some err) = pure (returned err)
  enter_loop passes rounds fix none = do next ← loop passes rounds fix boot; pure (in_loop next)

  unfoldable pub main : BootAnswers → (passes rounds : ℕ) → TrackerFix D F → M p Outcome
  main a passes rounds fix = do early ← main_start p a; enter_loop passes rounds fix early
