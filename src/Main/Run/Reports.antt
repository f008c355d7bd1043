-- ===== src/Main/Run/Reports.antt =====
-- A run of `main` of app/src/main.c with the network there goes on reporting.
use hologram_nrf9151_gps_tra.Common.{
  ◌^◌, ◌<◌, ◌≢◌, pos_part, neg_part, ok, length, Bytes, ℕ, ◌+◌, ◌*◌, ◌≤◌, ◌≡◌, ℤ, is_err, true,
  false, arith,
}
use hologram_nrf9151_gps_tra.Wake.{WakeReason}
use hologram_nrf9151_gps_tra.Gnss.Fix.{TrackerFix}
use hologram_nrf9151_gps_tra.Transport.Contract.{Contract}
use hologram_nrf9151_gps_tra.Board.{is_registered, Platform, Sys, Span}
use hologram_nrf9151_gps_tra.Board.Timed.{Limits, limit}
use hologram_nrf9151_gps_tra.Main.Boot.{BootAnswers}
use hologram_nrf9151_gps_tra.Main.Cycle.{Next, woken, rebooting}
use hologram_nrf9151_gps_tra.Main.Cycle.Recent.{Recent, after_report_ms, cycle-Recent}
use hologram_nrf9151_gps_tra.Main.Run.Rule.{Rule, main-Reached}
use hologram_nrf9151_gps_tra.Main.Run.{returned, in_loop, main}
use hologram_nrf9151_gps_tra.Main.Boot.Timed.{main_start-lasts}

woken_goes_on : (reason : WakeReason) → woken reason ≢ rebooting
woken_goes_on reason e = ground (arith, e)

returned_goes_on : (err : ℤ) → returned err ≢ in_loop rebooting
returned_goes_on err e = ground (arith, e)

in_loop_goes_on : (next : Next) → next ≢ rebooting → in_loop next ≢ in_loop rebooting
in_loop_goes_on next h e = ground (arith, h, e)

module _ (p : Platform) where
  open p use {D, F, config, transport, outside, script}

  module _
      (accepts : (n : ℕ) (json : Bytes) (s : transport.State)
        → length json ≤ 255
        → (transport.send_telemetry (script n).cloud json s).0 ≡ ok)
      (degrees_width : (d : D) → length (outside.show_6f d) ≤ 11)
      (hdop_width : (f : F) → length (outside.show_2f f) + length outside.hw_revision ≤ 52)
      (stamp_width : length outside.build_stamp ≤ 17)
      (rsrp_range : (n : ℕ)
        → (pos_part (script n).rsrp < 2 ^ 31) × (neg_part (script n).rsrp ≤ 2 ^ 31))
      (forced : config.force_publish_without_fix ≡ true) (k : Contract transport) (l : Limits)
      (timely : (n : ℕ) (span : Span) → (script n).elapsed_ms span ≤ limit l span)
      (registered : (n : ℕ)
        → (is_err (script n).reg_err ≡ false) × (is_registered (script n).reg_status ≡ true))
      (receives : (n : ℕ) → (script n).gnss.modem_err ≡ ok)
      (often : after_report_ms config l < config.reboot_minutes * 60000) where
    abbrev reports_rule : Rule p
    reports_rule = record {
      Before = Recent p (after_report_ms config l);
      After = λ next s. (next ≢ rebooting) × Recent p (after_report_ms config l) s;
      Reached = λ out s. (out ≢ in_loop rebooting) × Recent p (after_report_ms config l) s;
      wakes = λ reason s r. r.1;
      sleeps = λ reason s r. (woken_goes_on reason, r);
      passes =
          cycle-Recent p accepts degrees_width hdop_width stamp_width rsrp_range forced k l timely
            registered receives often;
      returns = λ err s r. (returned_goes_on err, r);
      loops = λ next s r. (in_loop_goes_on next r.0, r.1);
    }

    -- With the modem registered whenever it is asked, a receiver of the modem that starts, a transport that
    -- keeps its contract and takes every payload of at most 255 bytes, a build that publishes without a fix
    -- too, and each call within its limit (`Limits`: a sleep or a wait with a time-out ends `brief_ms` after
    -- its time at the latest): a run of `main` that starts within the sleep time after power-on never
    -- reboots the device, and after any number of passes (or after an early return) the last report
    -- (power-on, before the first one) is not longer ago than the time, by these limits, for a report, its
    -- LED, the end of a pass and the sleep (`after_report_ms`), however many frequent reports a pass makes,
    -- whatever else the outside answers, and whichever interrupts come. This holds where that time is below
    -- the limit of silence at which the device reboots, a printed coordinate has at most 11 characters, a
    -- printed HDOP and the hardware revision at most 52 together, the build stamp at most 17, and the signal
    -- is an `int32_t`.
    pub main_reports :
        (a : BootAnswers) (passes rounds : ℕ) (fix : TrackerFix D F) (s : Sys p)
        → s.board.now_ms ≤ config.sleep_seconds * 1000
        → let (out, t) = main p a passes rounds fix s in
          (out ≢ in_loop rebooting)
          × (t.board.now_ms ≤ t.last_send_uptime + after_report_ms config l)
    main_reports a passes rounds fix s new =
        main-Reached p reports_rule a passes rounds fix s
          (omega (arith, new, main_start-lasts l timely a s))
