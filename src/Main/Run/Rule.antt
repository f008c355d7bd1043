-- ===== src/Main/Run/Rule.antt =====
-- What is shown of one pass of the loop of app/src/main.c, for a run of any number of passes.
use hologram_nrf9151_gps_tra.Common.{ℕ, zero, suc, Option, none, some, ℤ}
use hologram_nrf9151_gps_tra.Wake.{WakeReason, boot}
use hologram_nrf9151_gps_tra.Gnss.Fix.{TrackerFix}
use hologram_nrf9151_gps_tra.Board.{Platform, Sys, M, ◌>>=◌, pure}
use hologram_nrf9151_gps_tra.Main.Boot.{BootAnswers, main_start}
use hologram_nrf9151_gps_tra.Main.Cycle.{Next, woken, rebooting, still_reporting, cycle}
use hologram_nrf9151_gps_tra.Main.Run.{Outcome, returned, in_loop, go_on, loop, enter_loop, main}

-- What holds before a pass, after one that ended in `next`, and where the run is looked at.
pub record Rule (p : Platform) : Type 1 where
  pub Before : Sys p → Type 0
  pub After : Next → Sys p → Type 0
  pub Reached : Outcome → Sys p → Type 0
  pub wakes : (reason : WakeReason) (s : Sys p) → After (woken reason) s → Before s
  pub sleeps : (reason : WakeReason) (s : Sys p) → Before s → After (woken reason) s
  pub passes :
      (rounds : ℕ) (fix : TrackerFix p.D p.F) (reason : WakeReason) (s : Sys p)
      → Before s
      → let (next, t) = cycle p rounds fix reason s in After next t
  pub returns : (err : ℤ) (s : Sys p) → Before s → Reached (returned err) s
  pub loops : (next : Next) (s : Sys p) → After next s → Reached (in_loop next) s

module _ (p : Platform) (r : Rule p) where
  open p use {D, F}

  go_on-After :
      (pass : WakeReason → M p Next)
      → ((reason : WakeReason) (s : Sys p)
          → r.Before s
          → let (next, t) = pass reason s in r.After next t)
      → (next : Next) (s : Sys p) → r.After next s
      → let (next', t) = go_on p pass next s in r.After next' t
  unfolding go_on pure
  go_on-After pass h (woken reason) s i = h reason s (r.wakes reason s i)
  go_on-After pass h rebooting s i = i
  go_on-After pass h still_reporting s i = i

  loop-After :
      (passes rounds : ℕ) (fix : TrackerFix D F) (reason : WakeReason) (s : Sys p)
      → r.Before s
      → let (next, t) = loop p passes rounds fix reason s in r.After next t
  unfolding loop ◌>>=◌ pure
  loop-After zero rounds fix reason s i = r.sleeps reason s i
  loop-After (suc passes) rounds fix reason s i =
      let (next, t) = cycle p rounds fix reason s in
      go_on-After (loop p passes rounds fix) (loop-After passes rounds fix) next t
        (r.passes rounds fix reason s i)

  enter_loop-Reached :
      (passes rounds : ℕ) (fix : TrackerFix D F) (early : Option ℤ) (s : Sys p)
      → r.Before s
      → let (out, t) = enter_loop p passes rounds fix early s in r.Reached out t
  unfolding enter_loop ◌>>=◌ pure
  enter_loop-Reached passes rounds fix (some err) s i = r.returns err s i
  enter_loop-Reached passes rounds fix none s i =
      let (next, t) = loop p passes rounds fix boot s in
      r.loops next t (loop-After passes rounds fix boot s i)

  -- A run, from its start on.
  pub main-Reached :
      (a : BootAnswers) (passes rounds : ℕ) (fix : TrackerFix D F) (s : Sys p)
      → r.Before (main_start p a s).1
      → let (out, t) = main p a passes rounds fix s in r.Reached out t
  unfolding main ◌>>=◌
  main-Reached a passes rounds fix s i =
      let (early, t) = main_start p a s in enter_loop-Reached passes rounds fix early t i
