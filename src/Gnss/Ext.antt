-- ===== src/Gnss/Ext.antt =====
-- app/src/gnss_ext.c and gnss_ext.h: the external NMEA module.
use hologram_nrf9151_gps_tra.Common.{
  ℕ, Bool, true, false, not, ◌&&◌, ◌||◌, List, [], ◌∷◌, ℤ, pos, ok, eio, eagain, enodev, ealready,
  is_err, eqb_ℤ, if◌then◌else◌,
}
use hologram_nrf9151_gps_tra.Config.{Config}
use hologram_nrf9151_gps_tra.Gnss.Fix.{TrackerFix, Floats, from_external}

-- `struct gnss_data`, as far as the code reads it; `no_fix` is
-- `fix_status == GNSS_FIX_STATUS_NO_FIX`.
pub record GnssData : Type 0 where
  pub no_fix : Bool
  pub hdop : ℤ
  pub satellites_cnt : ℕ
  pub latitude : ℤ
  pub longitude : ℤ
  pub altitude : ℤ
  pub speed : ℤ
  pub bearing : ℤ

-- The calls that reach the hardware.
pub data Call : Type 0 where
  pin_set : Bool → Call
  uart_resume uart_suspend : (accepted : Bool) → Call
  driver_resume : Call
  warm_up : ℕ → Call

-- The static variables, with the hardware calls made, newest first, and whether the UART has been
-- resumed since it was last suspended.
pub record ExtGnss (D F : Type 0) : Type 0 where
  pub last_fix : TrackerFix D F
  pub fix_sem : Bool
  pub powered : Bool
  pub streaming : Bool
  pub calls : List Call

-- What the GPIO port answers to switching on and off, and device power management to resuming the
-- UART and the driver, and to suspending the UART where the driver would not resume.
pub record StartAnswers : Type 0 where
  pub on_err : ℤ
  pub uart_err : ℤ
  pub driver_err : ℤ
  pub suspend_err : ℤ
  pub off_err : ℤ

abbrev pub refused : ℤ → Bool
refused err = is_err err && not (eqb_ℤ err ealready)

module _ {D F : Type 0} where
  abbrev pub log : Call → ExtGnss D F → ExtGnss D F
  log call x = record x { calls = call ∷ x.calls }

  unfoldable pub fix_from : Floats D F → Config → GnssData → TrackerFix D F
  fix_from f c data' =
      let thousandth = λ (n : ℤ). f.float_div (f.float_of n) (f.float_of (pos 1000)) in
      let degrees = λ (n : ℤ). f.double_div (f.double_of n) (f.double_of (pos 1000000000)) in
      record {
        latitude = degrees data'.latitude;
        longitude = degrees data'.longitude;
        altitude = thousandth data'.altitude;
        accuracy = f.float_mul (thousandth data'.hdop) (f.float_of (pos c.gnss_ext_uere_meters));
        speed = thousandth data'.speed;
        heading = thousandth data'.bearing;
        hdop = thousandth data'.hdop;
        satellites = data'.satellites_cnt;
        source = from_external;
      }

  unfoldable pub gnss_data_handler : Floats D F → Config → GnssData → ExtGnss D F → ExtGnss D F
  unfolding fix_from
  gnss_data_handler f c data' x =
      if data'.no_fix then x else record x { last_fix = fix_from f c data'; fix_sem = true }

  -- Reports of the driver, the first one first.
  unfoldable pub gnss_reports : Floats D F → Config → List GnssData → ExtGnss D F → ExtGnss D F
  unfolding gnss_data_handler
  gnss_reports f c [] x = x
  gnss_reports f c (d ∷ ds) x = gnss_reports f c ds (gnss_data_handler f c d x)

  unfoldable pub power_set : Bool → (pin_err : ℤ) → ExtGnss D F → ExtGnss D F
  power_set on pin_err x =
      let called = log (pin_set on) x in
      if is_err pin_err then called else record called { powered = on }

  -- The result is ignored: a UART that refuses the suspend stays as it is.
  abbrev pub suspend_uart : (suspend_err : ℤ) → ExtGnss D F → ExtGnss D F
  suspend_uart suspend_err x =
      let called = log (uart_suspend (not (refused suspend_err))) x in
      record called { streaming = refused suspend_err && x.streaming }

  unfoldable pub gnss_ext_init :
      (port_ready uart_ready gnss_ready : Bool) (pin_err suspend_err : ℤ)
      → ExtGnss D F
      → ℤ × ExtGnss D F
  gnss_ext_init port_ready uart_ready gnss_ready pin_err suspend_err x =
      if not port_ready
      then (enodev, x)
      else if not uart_ready || not gnss_ready
      then (enodev, x)
      else if is_err pin_err
      then (pin_err, x)
      else (ok, suspend_uart suspend_err x)

  -- From the resume of the UART on.
  unfoldable pub open_stream : StartAnswers → ExtGnss D F → ℤ × ExtGnss D F
  unfolding power_set
  open_stream a x =
      let resumed = record (log (uart_resume true) x) { streaming = true } in
      let driven = log driver_resume resumed in
      if refused a.uart_err
      then (a.uart_err, power_set false a.off_err (log (uart_resume false) x))
      else if refused a.driver_err
      then (a.driver_err, power_set false a.off_err (suspend_uart a.suspend_err driven))
      else (ok, record driven { fix_sem = false })

  unfoldable pub gnss_ext_start : Config → StartAnswers → ExtGnss D F → ℤ × ExtGnss D F
  gnss_ext_start c a x =
      let up = power_set true a.on_err x in
      if x.powered
      then open_stream a x
      else if not up.powered
      then (eio, up)
      else open_stream a (log (warm_up c.gnss_ext_warmup_ms) up)

  unfoldable pub gnss_ext_stop :
      (power_off : Bool) (suspend_err off_err : ℤ) → ExtGnss D F → ExtGnss D F
  unfolding power_set
  gnss_ext_stop power_off suspend_err off_err x =
      let suspended = suspend_uart suspend_err x in
      if power_off then power_set false off_err suspended else suspended

  -- The reports while `k_sem_take` waits (`during`) and between its return and the copy (`late`).
  unfoldable pub gnss_ext_wait_fix :
      Floats D F
      → Config
      → (during late : List GnssData) → TrackerFix D F
      → ExtGnss D F
      → ℤ × TrackerFix D F × ExtGnss D F
  gnss_ext_wait_fix f c during late out x =
      let waited = gnss_reports f c during (record x { fix_sem = false }) in
      let copied = gnss_reports f c late (record waited { fix_sem = false }) in
      if waited.fix_sem then (ok, copied.last_fix, copied) else (eagain, out, waited)
