-- ===== src/Gnss/Arbiter.antt =====
-- Which receiver runs after each call of app/src/gnss.c.
use hologram_nrf9151_gps_tra.Common.{
  ℤ, Bool, false, ◌∷◌, ◌≡◌, ◌≢◌, ◌↔◌, ◌⊎◌, true, false, ok, enotsup, is_err, arith,
}
use hologram_nrf9151_gps_tra.Config.{Config}
use hologram_nrf9151_gps_tra.Gnss.Fix.{from_modem, from_external}
use hologram_nrf9151_gps_tra.Gnss.{
  Gnss, Answers, gnss_start, gnss_stop, gnss_fallback, gnss_fallback_available, start_modem,
}
use hologram_nrf9151_gps_tra.Gnss.Modem.{gnss_modem_start, gnss_modem_stop}
use hologram_nrf9151_gps_tra.Gnss.Ext.{
  pin_set, warm_up, open_stream, power_set, ExtGnss, StartAnswers, refused, gnss_ext_start,
  gnss_ext_stop,
}

open_stream_lem :
    {D F : Type 0} (a : StartAnswers) (x : ExtGnss D F)
    → refused a.suspend_err ≡ false
    → x.streaming ≡ false
    → x.powered ≡ true
    → let (err, y) = open_stream a x in
      (err ≡ ok → (y.streaming ≡ true) × (y.powered ≡ true)) × (err ≢ ok → y.streaming ≡ false)
unfolding open_stream power_set
open_stream_lem a x o e p = ground (arith, o, e, p)

-- The external start is all or nothing.
ext_start_lem :
    {D F : Type 0} (c : Config) (a : StartAnswers) (x : ExtGnss D F)
    → refused a.suspend_err ≡ false
    → x.streaming ≡ false
    → let (err, y) = gnss_ext_start c a x in
      (err ≡ ok → (y.streaming ≡ true) × (y.powered ≡ true)) × (err ≢ ok → y.streaming ≡ false)
unfolding gnss_ext_start power_set
ext_start_lem c a x o e =
    let up = record x { calls = pin_set true ∷ x.calls; powered = true } in
    ground (
      arith,
      o,
      e,
      open_stream_lem a x o e,
      open_stream_lem a (record up { calls = warm_up c.gnss_ext_warmup_ms ∷ up.calls }) o e,
    )

ext_stop_lem :
    {D F : Type 0} (power_off : Bool) (suspend_err off_err : ℤ) (x : ExtGnss D F)
    → refused suspend_err ≡ false
    → let y = gnss_ext_stop power_off suspend_err off_err x in
      (y.streaming ≡ false) × (power_off ≡ true → is_err off_err ≡ false → y.powered ≡ false)
unfolding gnss_ext_stop power_set
ext_stop_lem power_off suspend_err off_err x o = ground (arith, o)

start_modem_lem :
    {D F : Type 0} (c : Config) (a : Answers) (g : Gnss D F)
    → let (err, h) = start_modem c a g in
      (h.active ≡ from_modem)
      × (h.ext ≡ g.ext)
      × (h.external_usable ≡ g.external_usable)
      × (err ≡ ok → h.modem.running ≡ true)
      × (err ≢ ok → h.modem.running ≡ g.modem.running)
unfolding start_modem gnss_modem_start
start_modem_lem c a g = ground arith

-- The modem does not refuse a stop, nor the UART of the external module a suspend.
abbrev pub Obeys : Answers → Type 0
Obeys a =
    (is_err a.stop_err ≡ false)
    × (refused a.suspend_err ≡ false)
    × (refused a.ext_start.suspend_err ≡ false)

module _ {D F : Type 0} (c : Config) where
  -- Only the active receiver runs.
  abbrev pub IsExclusive : Gnss D F → Type 0
  IsExclusive g =
      (g.ext.streaming ≡ true
        → (g.active ≡ from_external) × (g.external_usable ≡ true) × (c.gnss_external ≡ true))
      × (g.modem.running ≡ true → g.active ≡ from_modem)

  abbrev pub IsStopped : Gnss D F → Type 0
  IsStopped g = (g.ext.streaming ≡ false) × (g.modem.running ≡ false)

  -- From a state where neither receiver runs, whichever was active before: if `gnss_start` returns 0,
  -- the active receiver runs (the external one powered), and it is the only one; if it returns an
  -- error, still neither runs, unless the UART refused to be suspended.
  pub start_outcome :
      (a : Answers) (g : Gnss D F)
      → IsStopped g
      → Obeys a
      → let (err, h) = gnss_start c a g in
        IsExclusive h
        × (err ≡ ok
            → ((h.active ≡ from_external) × (h.ext.streaming ≡ true) × (h.ext.powered ≡ true))
              ⊎ ((h.active ≡ from_modem) × (h.modem.running ≡ true)))
        × (err ≢ ok → IsStopped h)
  unfolding gnss_start
  start_outcome a g s o =
      let x = (gnss_ext_start c a.ext_start g.ext).1 in
      ground (
        arith,
        s,
        ext_start_lem c a.ext_start g.ext o.2 s.0,
        start_modem_lem c a g,
        start_modem_lem c a (record g { active = from_external; ext = x }),
      )

  -- Where no fallback is available, `gnss_fallback` returns -ENOTSUP and changes nothing. Where one is,
  -- the modem becomes the active receiver, the external stream is closed, the module's power is off
  -- unless its pin could not be driven, and the call returns 0 exactly if the modem's receiver runs.
  -- Only the active receiver runs afterwards. All this where only the active one ran before and the modem
  -- does not refuse a stop, nor the UART a suspend.
  pub fallback_outcome :
      (a : Answers) (g : Gnss D F)
      → IsExclusive g
      → Obeys a
      → let (err, h) = gnss_fallback c a g in
        (gnss_fallback_available c g ≡ false → (err ≡ enotsup) × (h ≡ g))
        × (gnss_fallback_available c g ≡ true
            → (h.active ≡ from_modem)
              × (h.ext.streaming ≡ false)
              × ((err ≡ ok) ↔ (h.modem.running ≡ true))
              × (is_err a.off_err ≡ false → h.ext.powered ≡ false))
        × IsExclusive h
  unfolding gnss_fallback gnss_fallback_available
  fallback_outcome a g x e =
      let y = gnss_ext_stop true a.suspend_err a.off_err g.ext in
      ground (
        arith,
        x,
        e,
        ext_stop_lem true a.suspend_err a.off_err g.ext e.1,
        start_modem_lem c a (record g { ext = y }),
      )

  -- `gnss_stop` leaves neither receiver running, if only the active one ran and the modem does not
  -- refuse the stop, nor the UART its suspend.
  pub stop_stops :
      (a : Answers) (g : Gnss D F) → IsExclusive g → Obeys a → IsStopped (gnss_stop c a g)
  unfolding gnss_stop gnss_modem_stop
  stop_stops a g x e =
      ground (arith, x, e, ext_stop_lem c.gnss_ext_power_cycle a.suspend_err a.off_err g.ext e.1)
