-- ===== src/Gnss.antt =====
-- app/src/gnss.c and gnss.h: the arbiter between the onboard receiver (Gnss/Modem.antt) and the
-- external one (Gnss/Ext.antt).
pub mod Modem
pub mod Ext
pub mod Fix
pub mod Arbiter
pub mod Kept
pub mod Race
pub mod PowerCut
pub mod Machine
use hologram_nrf9151_gps_tra.Common.{
  ℕ, Bool, true, false, not, ◌&&◌, ◌||◌, List, ℤ, ok, eagain, enotsup, is_err, if◌then◌else◌,
}
use hologram_nrf9151_gps_tra.Config.{Config}
use Fix.{FixSource, from_modem, from_external, TrackerFix, Floats}
use Modem.{
  ModemGnss, AgnssFrame, Event, gnss_modem_init, gnss_modem_start, gnss_modem_stop,
  gnss_modem_wait_fix, gnss_modem_agnss_request_get, gnss_modem_agnss_request_wait,
}
use Ext.{
  ExtGnss, GnssData, StartAnswers, gnss_ext_init, gnss_ext_start, gnss_ext_stop, gnss_ext_wait_fix,
}

-- The static variables of gnss.c and those of the two backends.
pub record Gnss (D F : Type 0) : Type 0 where
  pub active : FixSource
  pub external_usable : Bool
  pub modem : ModemGnss D F
  pub ext : ExtGnss D F

abbrev pub is_external : FixSource → Bool
is_external from_external = true
is_external from_modem = false

-- What the hardware answers to a start, of the external module and of the modem's receiver; and to a
-- stop: the UART to its suspend, the power pin, and the modem.
pub record Answers : Type 0 where
  pub ext_start : StartAnswers
  pub modem_err : ℤ
  pub suspend_err : ℤ
  pub off_err : ℤ
  pub stop_err : ℤ

-- What is ready at `gnss_init`.
pub record InitAnswers : Type 0 where
  pub handler_err : ℤ
  pub port_ready : Bool
  pub uart_ready : Bool
  pub driver_ready : Bool
  pub pin_err : ℤ
  pub suspend_err : ℤ

module _ {D F : Type 0} (c : Config) where
  unfoldable pub gnss_init : InitAnswers → Gnss D F → ℤ × Gnss D F
  unfolding gnss_modem_init gnss_ext_init
  gnss_init a g =
      let (modem_err, m) = gnss_modem_init a.handler_err g.modem in
      let (ext_err, x) =
        gnss_ext_init a.port_ready a.uart_ready a.driver_ready a.pin_err a.suspend_err g.ext in
      let tried = record g { modem = m } in
      let h =
        if c.gnss_external
        then record tried { ext = x; external_usable = not (is_err ext_err) || g.external_usable }
        else tried in
      if not h.external_usable && is_err modem_err
      then (modem_err, h)
      else (ok, record h { active = if h.external_usable then from_external else from_modem })

  -- The receiver of the modem takes the cycle.
  unfoldable pub start_modem : Answers → Gnss D F → ℤ × Gnss D F
  start_modem a g =
      let (err, m) = gnss_modem_start c a.modem_err g.modem in
      (err, record g { active = from_modem; modem = m })

  unfoldable pub gnss_start : Answers → Gnss D F → ℤ × Gnss D F
  gnss_start a g =
      let (ext_err, x) = gnss_ext_start c a.ext_start g.ext in
      let tried = record g { active = from_external; ext = x } in
      if not c.gnss_external || not g.external_usable
      then start_modem a g
      else if is_err ext_err
      then start_modem a tried
      else (ok, tried)

  unfoldable pub gnss_stop : Answers → Gnss D F → Gnss D F
  gnss_stop a g =
      if c.gnss_external && is_external g.active
      then record g { ext = gnss_ext_stop c.gnss_ext_power_cycle a.suspend_err a.off_err g.ext }
      else record g { modem = gnss_modem_stop a.stop_err g.modem }

  unfoldable pub gnss_fix_timeout_seconds : Gnss D F → ℕ
  gnss_fix_timeout_seconds g =
      if c.gnss_external && is_external g.active
      then c.gnss_ext_fix_timeout_seconds
      else c.gnss_fix_timeout_seconds

  unfoldable pub gnss_fallback_available : Gnss D F → Bool
  gnss_fallback_available g = c.gnss_external && (is_external g.active && c.gnss_ext_modem_fallback)

  unfoldable pub gnss_fallback : Answers → Gnss D F → ℤ × Gnss D F
  gnss_fallback a g =
      let cut =
        if c.gnss_external
        then record g { ext = gnss_ext_stop true a.suspend_err a.off_err g.ext }
        else g in
      if not (gnss_fallback_available g) then (enotsup, g) else start_modem a cut

  -- The reports of both receivers while the caller waits, and between the wait and the copy.
  unfoldable pub gnss_wait_fix :
      Floats D F
      → (ext_during ext_late : List GnssData) (during late : List (Event D F)) → TrackerFix D F
      → Gnss D F
      → ℤ × TrackerFix D F × Gnss D F
  unfolding gnss_ext_wait_fix gnss_modem_wait_fix
  gnss_wait_fix f ext_during ext_late during late out g =
      let (e_err, e_out, x) = gnss_ext_wait_fix f c ext_during ext_late out g.ext in
      let (m_err, m_out, m) = gnss_modem_wait_fix during late out g.modem in
      if c.gnss_external && is_external g.active
      then (e_err, e_out, record g { ext = x })
      else (m_err, m_out, record g { modem = m })

module _ {D F : Type 0} where
  unfoldable pub gnss_active_source : Gnss D F → FixSource
  gnss_active_source g = g.active

  unfoldable pub gnss_agnss_request_get : AgnssFrame → Gnss D F → Bool × AgnssFrame
  unfolding gnss_modem_agnss_request_get
  gnss_agnss_request_get out g =
      if is_external g.active then (false, out) else gnss_modem_agnss_request_get out g.modem

  unfoldable pub gnss_agnss_request_wait : (during : List (Event D F)) → Gnss D F → ℤ × Gnss D F
  unfolding gnss_modem_agnss_request_wait
  gnss_agnss_request_wait during g =
      let (err, m) = gnss_modem_agnss_request_wait during g.modem in
      if is_external g.active then (eagain, g) else (err, record g { modem = m })
