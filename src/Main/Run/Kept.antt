-- ===== src/Main/Run/Kept.antt =====
-- What holds in every state that app/src/main.c reaches at the end of a pass of its loop.
use hologram_nrf9151_gps_tra.Common.{ℕ, ◌^◌, ◌≤◌, ◌<◌, ◌≡◌, ◌⊎◌, inl, inr, false, ℤ, arith}
use hologram_nrf9151_gps_tra.Wake.{WakeReason}
use hologram_nrf9151_gps_tra.Gnss.Fix.{TrackerFix}
use hologram_nrf9151_gps_tra.Gnss.Arbiter.{Obeys, IsStopped}
use hologram_nrf9151_gps_tra.Transport.Contract.{Contract}
use hologram_nrf9151_gps_tra.Board.{Platform, Sys}
use hologram_nrf9151_gps_tra.Board.Linked.{Linked}
use hologram_nrf9151_gps_tra.Main.Sound.{IsSound}
use hologram_nrf9151_gps_tra.Main.Boot.{BootAnswers}
use hologram_nrf9151_gps_tra.Main.Cycle.{Next, woken, still_reporting, cycle}
use hologram_nrf9151_gps_tra.Main.Cycle.Sound.{cycle_sound}
use hologram_nrf9151_gps_tra.Main.Cycle.Stops.{cycle_stops}
use hologram_nrf9151_gps_tra.Main.Cycle.Receivers.{Stopped}
use hologram_nrf9151_gps_tra.Main.Run.Rule.{Rule, main-Reached}
use hologram_nrf9151_gps_tra.Main.Run.{returned, PoweredOn, Outcome, in_loop, main}
use hologram_nrf9151_gps_tra.Main.Run.Linked.{cycle_linked}
use hologram_nrf9151_gps_tra.Main.Run.Start.{Kept, main_start-Kept, PoweredOn-Prepared}

module _ (p : Platform) (k : Contract p.transport) (bound : p.config.motion_settle_cycles < 2 ^ 32)
    (obeys : (n : ℕ) → Obeys (p.script n).gnss) where
  open p use {D, F, config}

  -- After a pass that ended in `next`.
  Ended : Next → Sys p → Type 0
  Ended next s = IsSound p s × Linked p k s × ((next ≡ still_reporting) ⊎ Stopped p s)

  cycle-Ended :
      (rounds : ℕ) (fix : TrackerFix D F) (reason : WakeReason) (s : Sys p)
      → Kept p k s
      → let (next, t) = cycle p rounds fix reason s in Ended next t
  unfolding Ended
  cycle-Ended rounds fix reason s (i, j, h) = (
    cycle_sound p bound rounds fix reason s i.0 i.1,
    cycle_linked p k rounds fix reason s j.0 j.1,
    cycle_stops p obeys rounds fix reason s h,
  )

  woken-Kept : (reason : WakeReason) (s : Sys p) → Ended (woken reason) s → Kept p k s
  unfolding Ended
  woken-Kept reason s (i, j, inl e) = absurd (ground (arith, e))
  woken-Kept reason s (i, j, inr h) = (i, j, h)

  Kept-Ended : (next : Next) (s : Sys p) → Kept p k s → Ended next s
  unfolding Ended
  Kept-Ended next s (i, j, h) = (i, j, inr h)

  -- After a return of `main`, or a pass of its loop.
  Reached : Outcome → Sys p → Type 0
  Reached out s =
      (s.last_send_uptime ≤ s.board.now_ms)
      × (s.battery_sleeps ≤ config.motion_settle_cycles)
      × k.Inv s.board.cloud
      × (s.board.watchdog.guard_running ≡ false)
      × ((out ≡ in_loop still_reporting) ⊎ IsStopped config s.board.gnss)

  in_loop-Reached : (next : Next) (s : Sys p) → Ended next s → Reached (in_loop next) s
  unfolding Ended Reached
  in_loop-Reached next s (i, j, h) = ground (arith, i, j, h)

  returned-Reached : (err : ℤ) (s : Sys p) → Kept p k s → Reached (returned err) s
  unfolding Reached
  returned-Reached err s (i, j, h) = (i.0, i.1, j.0, j.1, inr h)

  abbrev kept_rule : Rule p
  kept_rule = record {
    Before = Kept p k;
    After = Ended;
    Reached = Reached;
    wakes = woken-Kept;
    sleeps = λ reason. Kept-Ended (woken reason);
    passes = cycle-Ended;
    returns = returned-Reached;
    loops = in_loop-Reached;
  }

  -- The whole program, with a transport that keeps its contract, a limit of unarmed sleeps below 2^32,
  -- a modem that never refuses a stop, and a UART of the external module that never refuses a suspend:
  -- from power-on, after any number of passes of the loop (or after an early return), whatever the
  -- outside answers otherwise and whatever interrupts come, the last report does not lie in the future,
  -- the count of unarmed sleeps is within its limit, the link is one that the transport's contract
  -- allows, no guard is armed, and neither receiver runs; only a pass whose rounds of frequent reports
  -- are used up still has its receiver.
  pub main_kept :
      (a : BootAnswers) (passes rounds : ℕ) (fix : TrackerFix D F) (s : Sys p)
      → PoweredOn p s
      → let (out, t) = main p a passes rounds fix s in
        (t.last_send_uptime ≤ t.board.now_ms)
        × (t.battery_sleeps ≤ config.motion_settle_cycles)
        × k.Inv t.board.cloud
        × (t.board.watchdog.guard_running ≡ false)
        × ((out ≡ in_loop still_reporting) ⊎ IsStopped config t.board.gnss)
  unfolding Reached
  main_kept a passes rounds fix s o =
      main-Reached p kept_rule a passes rounds fix s
        (main_start-Kept p k a s (PoweredOn-Prepared p k s o))
