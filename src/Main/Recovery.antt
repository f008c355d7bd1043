-- ===== src/Main/Recovery.antt =====
-- `recover_if_silent` of app/src/main.c.
use hologram_nrf9151_gps_tra.Common.{
  List, [], ◌∷◌, refl, ◌+◌, ◌-◌, ◌/◌, ◌≤◌, ◌<◌, ◌≡◌, ◌↔◌, true, false, arith,
}
use hologram_nrf9151_gps_tra.Board.{
  Span, Board, Interrupt, interrupt, interrupts, later, offline, normal, brief, sleep_ms, Platform,
  Sys, advance, ◌>>=◌, ◌>>◌, pure, gets, on_board,
}
use hologram_nrf9151_gps_tra.Board.Ops.{outside_call, func_mode_set, note_mode, uptime, mark}
use hologram_nrf9151_gps_tra.Board.Calm.{outside_call-Along}
use hologram_nrf9151_gps_tra.Board.Interrupts.{advance_kept}
use hologram_nrf9151_gps_tra.Watchdog.{no_network}
use hologram_nrf9151_gps_tra.Main.{recover_if_silent, bounce_modem, set_bounced}

module _ (p : Platform) where
  open p use {D, F, config, script}

  interrupts-modes :
      (is : List (Interrupt D F)) (b : Board p)
      → ((interrupts p is b).func_modes ≡ b.func_modes) × ((interrupts p is b).now_ms ≡ b.now_ms)
  unfolding interrupts interrupt
  interrupts-modes [] b = (refl, refl)
  interrupts-modes (i ∷ is) b = ground (arith, interrupts-modes is (interrupt p i b))

  advance-modes :
      (span : Span) (s : Sys p)
      → let t = (advance p span s).1 in
        (t.board.tick ≡ s.board.tick + 1)
        × (t.board.func_modes ≡ s.board.func_modes)
        × (t.board.now_ms ≡ s.board.now_ms + (script s.board.tick).elapsed_ms span)
  unfolding advance
  advance-modes span s =
      let w = script s.board.tick in
      ground (
        arith,
        advance_kept p span s,
        interrupts-modes w.interrupts (later p (w.elapsed_ms span) s.board),
      )

  -- The modem is set offline, left there for the second that the third call takes, and set back.
  bounce_modem_outcome :
      (s : Sys p)
      → let k = s.board.tick in
        let t = (bounce_modem p s).1 in
        (t.modem_bounced ≡ true)
        × (t.last_send_uptime ≡ s.last_send_uptime)
        × (t.board.func_modes ≡ normal ∷ offline ∷ s.board.func_modes)
        × (t.board.tick ≡ k + 3)
        × (t.board.now_ms
            ≡ s.board.now_ms
              + (script k).elapsed_ms brief
              + (script (k + 1)).elapsed_ms (sleep_ms 1000)
              + (script (k + 2)).elapsed_ms brief)
  unfolding bounce_modem func_mode_set note_mode set_bounced outside_call ◌>>=◌ ◌>>◌ pure on_board
  bounce_modem_outcome s =
      let b0 = (note_mode p offline (record s { modem_bounced = true })).1 in
      let b1 = (advance p brief b0).1 in
      let b2 = (advance p (sleep_ms 1000) b1).1 in
      let b3 = (note_mode p normal b2).1 in
      ground (
        arith,
        advance-modes brief b0,
        advance-modes (sleep_ms 1000) b1,
        advance-modes brief b3,
        (outside_call-Along p brief).along b0,
        (outside_call-Along p (sleep_ms 1000)).along b1,
        (outside_call-Along p brief).along b3,
      )

  -- With the minutes since the last report (or the start) counted whole: the device is rebooted exactly
  -- if they reach both limits. Below the first limit nothing is called and the bounce is allowed again.
  -- From there on the modem is set offline, left so for a sleep of a second, and set back to normal, in
  -- this order and with no other call, unless this was done already since the last call below the first
  -- limit: then nothing is called. Neither mode is set in any other case. The time of the last report is
  -- left alone.
  pub recover_outcome :
      (s : Sys p)
      → let quiet = (s.board.now_ms - s.last_send_uptime) / 60000 in
        let k = s.board.tick in
        let (reboot, t) = recover_if_silent p s in
        ((reboot ≡ true)
          ↔ ((config.modem_recovery_minutes ≤ quiet) × (config.reboot_minutes ≤ quiet)))
        × (quiet < config.modem_recovery_minutes → (t.modem_bounced ≡ false) × (t.board ≡ s.board))
        × (config.modem_recovery_minutes ≤ quiet
            → quiet < config.reboot_minutes
            → (t.modem_bounced ≡ true)
              × (s.modem_bounced ≡ true → t.board ≡ s.board)
              × (s.modem_bounced ≡ false
                  → (t.board.func_modes ≡ normal ∷ offline ∷ s.board.func_modes)
                    × (t.board.tick ≡ k + 3)
                    × (t.board.now_ms
                        ≡ s.board.now_ms
                          + (script k).elapsed_ms brief
                          + (script (k + 1)).elapsed_ms (sleep_ms 1000)
                          + (script (k + 2)).elapsed_ms brief)))
        × (reboot ≡ true → t.board.func_modes ≡ s.board.func_modes)
        × (t.last_send_uptime ≡ s.last_send_uptime)
  unfolding recover_if_silent set_bounced uptime mark outside_call ◌>>=◌ ◌>>◌ pure gets on_board
  recover_outcome s =
      let m = (mark p no_network s).1 in
      ground (
        arith,
        bounce_modem_outcome s,
        advance-modes (sleep_ms 200) m,
        (outside_call-Along p (sleep_ms 200)).along m,
      )
