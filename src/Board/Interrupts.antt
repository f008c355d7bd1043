-- ===== src/Board/Interrupts.antt =====
-- What the interrupts of the board leave alone, and what they give.
use hologram_nrf9151_gps_tra.Common.{◌+◌, ◌≡◌, Bool, false, ◌||◌, List, [], ◌∷◌, none, arith}
use hologram_nrf9151_gps_tra.StatusLed.{blink_work_handler}
use hologram_nrf9151_gps_tra.Motion.{motion_handler, store_event}
use hologram_nrf9151_gps_tra.Board.{
  Span, later, Platform, Board, Sys, is_registered, Interrupt, lte_status, interrupt, interrupts,
  lte_handler, advance,
}

module _ (p : Platform) where
  open p use {D, F, script}

  -- Whether the interrupts announce a registration.
  abbrev announces_one : Interrupt D F → Bool
  announces_one (lte_status status) = is_registered status
  announces_one _ = false

  abbrev pub announces : List (Interrupt D F) → Bool
  announces [] = false
  announces (i ∷ is) = announces_one i || announces is

  one_kept :
      (i : Interrupt D F) (b : Board p)
      → let a = interrupt p i b in
        (a.tick ≡ b.tick)
        × (a.lte_connected_sem ≡ b.lte_connected_sem || announces_one i)
        × (a.motion.usable ≡ b.motion.usable)
        × (a.motion.armed ≡ b.motion.armed)
        × (a.led.available ≡ b.led.available)
        × (b.led.blink_work ≡ none → a.led ≡ b.led)
  unfolding interrupt lte_handler motion_handler store_event blink_work_handler
  one_kept i b = ground (arith)

  pub interrupts_kept :
      (is : List (Interrupt D F)) (b : Board p)
      → let a = interrupts p is b in
        (a.tick ≡ b.tick)
        × (a.lte_connected_sem ≡ b.lte_connected_sem || announces is)
        × (a.motion.usable ≡ b.motion.usable)
        × (a.motion.armed ≡ b.motion.armed)
        × (a.led.available ≡ b.led.available)
        × (b.led.blink_work ≡ none → a.led ≡ b.led)
  unfolding interrupts
  interrupts_kept [] b = ground arith
  interrupts_kept (i ∷ is) b = ground (arith, one_kept i b, interrupts_kept is (interrupt p i b))

  -- One call of the main thread.
  pub advance_kept :
      (span : Span) (s : Sys p)
      → let w = script s.board.tick in
        let t = (advance p span s).1 in
        ((advance p span s).0 ≡ w)
        × (t.board.tick ≡ s.board.tick + 1)
        × (t.board.lte_connected_sem ≡ s.board.lte_connected_sem || announces w.interrupts)
        × (t.board.motion.usable ≡ s.board.motion.usable)
        × (t.board.motion.armed ≡ s.board.motion.armed)
        × (t.board.led.available ≡ s.board.led.available)
        × (s.board.led.blink_work ≡ none → t.board.led ≡ s.board.led)
  unfolding advance
  advance_kept span s =
      let w = script s.board.tick in
      let b = later p (w.elapsed_ms span) s.board in ground (arith, interrupts_kept w.interrupts b)
