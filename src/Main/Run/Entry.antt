-- ===== src/Main/Run/Entry.antt =====
-- When `main` of app/src/main.c enters its loop.
use hologram_nrf9151_gps_tra.Common.{
  ◌+◌, ◌≡◌, ◌↔◌, ◌⊎◌, Bool, true, false, not, ◌&&◌, some, none, ok, eio, is_err, arith,
  if◌then◌else◌,
}
use hologram_nrf9151_gps_tra.Config.{Config}
use hologram_nrf9151_gps_tra.Gnss
use hologram_nrf9151_gps_tra.Gnss.{Gnss, gnss_init}
use hologram_nrf9151_gps_tra.Gnss.Ext.{gnss_ext_init}
use hologram_nrf9151_gps_tra.Gnss.Modem.{gnss_modem_init}
use hologram_nrf9151_gps_tra.Board.{Span, brief, Platform, Sys, advance, ◌>>=◌, ◌>>◌, pure, call}
use hologram_nrf9151_gps_tra.Board.Ops.{outside_call}
use hologram_nrf9151_gps_tra.Board.Interrupts.{advance_kept}
use hologram_nrf9151_gps_tra.Board.Receivers.{advance-Still}
use hologram_nrf9151_gps_tra.Main.Boot.{
  BootAnswers, start_watchdog, start_power, start_motion, start_led, init_gnss, start_radio,
  start_drivers, bring_up, main_start,
}

-- The external module is built in, its devices are there, and its power pin can be set up.
abbrev pub external_ready : Config → Gnss.InitAnswers → Bool
external_ready c a =
    c.gnss_external
    && (a.port_ready && (a.uart_ready && (a.driver_ready && not (is_err a.pin_err))))

gnss_init_lem :
    {D F : Type 0} (c : Config) (a : Gnss.InitAnswers) (g : Gnss D F)
    → g.external_usable ≡ false
    → (is_err (gnss_init c a g).0 ≡ false)
      ↔ ((is_err a.handler_err ≡ false) ⊎ (external_ready c a ≡ true))
unfolding gnss_init gnss_modem_init gnss_ext_init
gnss_init_lem c a g e = ground (arith, e)

module _ (p : Platform) where
  open p use {D, F, config, script}

  -- One entry of the script later, with the external receiver as usable as before.
  abbrev Stepped : Sys p → Sys p → Type 0
  Stepped s t =
      (t.board.tick ≡ s.board.tick + 1)
      × (t.board.gnss.external_usable ≡ s.board.gnss.external_usable)

  advance-Stepped : (span : Span) (s : Sys p) → Stepped s (advance p span s).1
  advance-Stepped span s = ground (arith, advance_kept p span s, advance-Still p span s)

  outside_call-lem :
      (s : Sys p)
      → Stepped s (outside_call p brief s).1
        × ((outside_call p brief s).0 ≡ (script s.board.tick).err)
  unfolding outside_call ◌>>=◌ pure
  outside_call-lem s = ground (arith, advance_kept p brief s, advance-Stepped brief s)

  module _ (a : BootAnswers) where
    start_watchdog-Stepped : (s : Sys p) → Stepped s (start_watchdog p a s).1
    unfolding start_watchdog ◌>>◌ call
    start_watchdog-Stepped s = advance-Stepped brief s

    start_power-Stepped : (s : Sys p) → Stepped s (start_power p a s).1
    unfolding start_power ◌>>=◌ call
    start_power-Stepped s = advance-Stepped brief s

    start_motion-Stepped : (s : Sys p) → Stepped s (start_motion p a s).1
    unfolding start_motion ◌>>◌ call
    start_motion-Stepped s = advance-Stepped brief s

    start_led-Stepped : (s : Sys p) → Stepped s (start_led p a s).1
    unfolding start_led ◌>>◌ call
    start_led-Stepped s = advance-Stepped brief s

    init_gnss-lem :
        (s : Sys p)
        → s.board.gnss.external_usable ≡ false
        → let (err, t) = init_gnss p a s in
          (t.board.tick ≡ s.board.tick + 1)
          × ((is_err err ≡ false)
              ↔ ((is_err a.gnss.handler_err ≡ false) ⊎ (external_ready config a.gnss ≡ true)))
    unfolding init_gnss ◌>>◌ call
    init_gnss-lem s e =
        let s1 = (advance p brief s).1 in
        ground (arith, e, advance-Stepped brief s, gnss_init_lem config a.gnss s1.board.gnss)

    start_radio-lem :
        (s : Sys p)
        → (start_radio p a s).0
          ≡ (if config.skip_lte && is_err (script s.board.tick).err then eio else ok)
    unfolding start_radio ◌>>=◌ pure
    start_radio-lem s = ground (arith, outside_call-lem s)

    bring_up_outcome :
        (s : Sys p)
        → s.board.gnss.external_usable ≡ false
        → let err = (bring_up p a s).0 in
          ((err ≡ ok) ⊎ (err ≡ eio))
          × ((err ≡ ok) ↔ (
              ((is_err a.gnss.handler_err ≡ false) ⊎ (external_ready config a.gnss ≡ true))
              × (config.skip_lte ≡ true → is_err (script (s.board.tick + 6)).err ≡ false)))
    unfolding bring_up start_drivers ◌>>=◌ ◌>>◌ pure
    bring_up_outcome s e =
        let s1 = (start_watchdog p a s).1 in
        let s2 = (outside_call p brief s1).1 in
        let s3 = (start_power p a s2).1 in
        let s4 = (start_motion p a s3).1 in
        let s5 = (start_led p a s4).1 in
        let s6 = (init_gnss p a s5).1 in
        ground (
          arith,
          e,
          start_watchdog-Stepped s,
          outside_call-lem s1,
          start_power-Stepped s2,
          start_motion-Stepped s3,
          start_led-Stepped s4,
          init_gnss-lem s5,
          start_radio-lem s6,
        )

    -- From power-on, `main` enters its loop exactly if the modem's library starts, a receiver is there
    -- (the modem's handler could be registered, or the external module is built in and ready), and, in a
    -- build without the network, the modem takes the functional mode for positioning (entry 7 of the script). What the
    -- watchdog, the charger, the accelerometer, the LED and the cloud answer does not matter. Otherwise
    -- it returns the library's error, or -EIO.
    pub main_start_outcome :
        (s : Sys p)
        → s.board.gnss.external_usable ≡ false
        → let r = (main_start p a s).0 in
          ((r ≡ none) ↔ (
            (is_err a.modem_lib_err ≡ false)
            × ((is_err a.gnss.handler_err ≡ false) ⊎ (external_ready config a.gnss ≡ true))
            × (config.skip_lte ≡ true → is_err (script (s.board.tick + 7)).err ≡ false)))
          × (is_err a.modem_lib_err ≡ true → r ≡ some a.modem_lib_err)
          × (is_err a.modem_lib_err ≡ false → (r ≡ none) ⊎ (r ≡ some eio))
    unfolding main_start ◌>>=◌ ◌>>◌ pure
    main_start_outcome s e =
        let s1 = (advance p brief s).1 in
        ground (arith, e, advance-Stepped brief s, bring_up_outcome s1)
