-- ===== src/Main/Run/Fed.antt =====
-- How long a run of `main` of app/src/main.c leaves the hardware watchdog unfed.
use hologram_nrf9151_gps_tra.Common.{ℕ, ◌≤◌, arith, ap}
use hologram_nrf9151_gps_tra.Watchdog.{startup, timeout_ms}
use hologram_nrf9151_gps_tra.Gnss.Fix.{TrackerFix}
use hologram_nrf9151_gps_tra.Transport.Contract.{Contract}
use hologram_nrf9151_gps_tra.Board.{Platform, Sys, Span}
use hologram_nrf9151_gps_tra.Board.Timed.{Limits, limit, Tended}
use hologram_nrf9151_gps_tra.Main.Boot.{BootAnswers}
use hologram_nrf9151_gps_tra.Main.Cycle.Timed.{stretch_ms}
use hologram_nrf9151_gps_tra.Main.Cycle.Tended.{cycle-Tended}
use hologram_nrf9151_gps_tra.Main.Boot.Timed.{IsUnset, main_start-Tended}
use hologram_nrf9151_gps_tra.Main.Run.Rule.{Rule, main-Reached}
use hologram_nrf9151_gps_tra.Main.Run.{PoweredOn, main}

PoweredOn-IsUnset : (p : Platform) (s : Sys p) → PoweredOn p s → IsUnset s.board.watchdog
unfolding startup
PoweredOn-IsUnset p s o = ground (
  arith,
  ap (λ w. w.wdt_channel) o.watchdog_at_start,
  ap (λ w. w.unfed_ms) o.watchdog_at_start,
  ap (λ w. w.longest_ms) o.watchdog_at_start,
)

module _ (p : Platform) (k : Contract p.transport) (l : Limits)
    (timely : (n : ℕ) (span : Span) → (p.script n).elapsed_ms span ≤ limit l span)
    (fits : stretch_ms p.config l ≤ timeout_ms p.config) where
  open p use {D, F, config}

  abbrev fed_rule : Rule p
  fed_rule = record {
    Before = Tended p (timeout_ms config) (timeout_ms config);
    After = λ next. Tended p (timeout_ms config) (timeout_ms config);
    Reached = λ out s. s.board.watchdog.longest_ms ≤ timeout_ms config;
    wakes = λ reason s t. t;
    sleeps = λ reason s t. t;
    passes = cycle-Tended l timely k fits;
    returns = λ err s t. t.0;
    loops = λ next s t. t.0;
  }

  -- The watchdog never resets the device: with a transport that keeps its contract, with each call within
  -- its limit (`Limits`: a sleep or a wait with a time-out ends `brief_ms` after its time at the latest),
  -- and with the longest stretch of the code between two feeds, by these limits, within the time-out
  -- installed, a run from power-on, after any number of passes of the loop (or after an early return),
  -- whatever the outside answers and whatever interrupts come, has left the watchdog unfed since its
  -- setup for no longer than that time-out.
  pub main_fed :
      (a : BootAnswers) (passes rounds : ℕ) (fix : TrackerFix D F) (s : Sys p)
      → PoweredOn p s
      → (main p a passes rounds fix s).1.board.watchdog.longest_ms ≤ timeout_ms config
  main_fed a passes rounds fix s o =
      main-Reached p fed_rule a passes rounds fix s
        (main_start-Tended l timely k fits a s (PoweredOn-IsUnset p s o))
