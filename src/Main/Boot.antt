-- ===== src/Main/Boot.antt =====
-- The start of `main` of app/src/main.c, up to its endless loop.
pub mod Timed
use hologram_nrf9151_gps_tra.Common.{
  Bool, false, Option, none, some, ℤ, ok, eio, ◌&&◌, is_err, if◌then◌else◌,
}
use hologram_nrf9151_gps_tra.Motion.{SetupAnswers}
use hologram_nrf9151_gps_tra.Power.{power_init}
use hologram_nrf9151_gps_tra.Build.{built_motion_init, built_status_led_init}
use hologram_nrf9151_gps_tra.Watchdog.{StartAnswers, watchdog_init}
use hologram_nrf9151_gps_tra.Gnss.{InitAnswers, gnss_init}
use hologram_nrf9151_gps_tra.Board.{Platform, M, brief, advance, ◌>>=◌, ◌>>◌, pure, call}
use hologram_nrf9151_gps_tra.Board.Ops.{outside_call}
use hologram_nrf9151_gps_tra.Main.{status_led_report}

-- What the drivers answer at the start.
pub record BootAnswers : Type 0 where
  pub modem_lib_err : ℤ
  pub watchdog : StartAnswers
  pub pmic_ready : Bool
  pub charger_ready : Bool
  pub callback_err : ℤ
  pub motion : SetupAnswers
  pub leds_ready : Bool
  pub gnss : InitAnswers

module _ (p : Platform) (a : BootAnswers) where
  open p use {D, F, config, transport}

  -- The first errors end the program; those of the sensors, the LED and the cloud do not.
  unfoldable pub start_watchdog : M p ℤ
  start_watchdog = do
    advance p brief
    call (λ b.
        let (err, w) = watchdog_init config a.watchdog b.watchdog in
        (err, record b { watchdog = w }))

  unfoldable pub start_power : M p ℤ
  start_power = do
    w ← advance p brief
    call (λ b.
        let (err, q) = power_init a.pmic_ready a.charger_ready a.callback_err w.charger b.power in
        (err, record b { power = q }))

  unfoldable pub start_motion : M p ℤ
  start_motion = do
    advance p brief
    call (λ b.
        let (err, m) = built_motion_init config a.motion b.motion in (err, record b { motion = m }))

  unfoldable pub start_led : M p ℤ
  start_led = do
    advance p brief
    call (λ b.
        let (err, l) = built_status_led_init config a.leds_ready b.led in
        (err, record b { led = l }))

  unfoldable pub init_gnss : M p ℤ
  init_gnss = do
    advance p brief
    call (λ b. let (err, g) = gnss_init config a.gnss b.gnss in (err, record b { gnss = g }))

  unfoldable pub init_cloud : M p ℤ
  init_cloud = do
    w ← advance p brief
    call (λ b. let (err, c) = transport.init w.cloud b.cloud in (err, record b { cloud = c }))

  unfoldable pub start_radio : M p ℤ
  start_radio = do
    err ← outside_call p brief
    pure (if config.skip_lte && is_err err then eio else ok)

  -- From `modem_info_init`, which has no state in the sources, to the radio.
  unfoldable pub start_drivers : M p ℤ
  start_drivers = do
    outside_call p brief
    start_power
    start_motion
    start_led
    gnss_err ← init_gnss
    if is_err gnss_err then pure eio else start_radio

  -- From `watchdog_init` on: the error that ends the program, or 0.
  unfoldable pub bring_up : M p ℤ
  bring_up = do start_watchdog; start_drivers

  -- What `main` returns before its loop, if it does.
  unfoldable pub main_start : M p (Option ℤ)
  main_start = do
    advance p brief
    if is_err a.modem_lib_err then pure (some a.modem_lib_err) else do
      radio_err ← bring_up
      if is_err radio_err
          then pure (some radio_err)
          else do init_cloud; status_led_report p false; pure none
