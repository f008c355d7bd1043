-- ===== src/Main/Network.antt =====
-- `lte_ensure_connected` of app/src/main.c.
use hologram_nrf9151_gps_tra.Common.{
  ◌+◌, ◌≡◌, false, not, ◌&&◌, ◌||◌, ok, etimedout, einprogress, is_err, eqb_ℤ, if◌then◌else◌, arith,
}
use hologram_nrf9151_gps_tra.Board.{
  brief, take_s, Platform, Sys, is_registered, advance, ◌>>=◌, ◌>>◌, pure, on_board, call,
}
use hologram_nrf9151_gps_tra.Board.Ops.{
  lte_is_registered, outside_call, lte_sem_take, lte_sem_reset,
}
use hologram_nrf9151_gps_tra.Board.Interrupts.{announces, advance_kept}
use hologram_nrf9151_gps_tra.Main.{lte_ensure_connected}

module _ (p : Platform) where
  open p use {config, script}

  -- `lte_ensure_connected` returns 0 at once if the modem is registered; otherwise the error of the
  -- connection attempt, unless that is -EINPROGRESS; otherwise 0 if a registration is announced between
  -- the start of the attempt and the end of the wait, and -ETIMEDOUT if none is. An announcement from
  -- before the attempt does not count.
  pub lte_ensure_connected_outcome :
      (s : Sys p)
      → let k = s.board.tick in
        (lte_ensure_connected p s).0 ≡ (
          if not (is_err (script k).reg_err) && is_registered (script k).reg_status
          then ok
          else if is_err (script (k + 1)).err && not (eqb_ℤ (script (k + 1)).err einprogress)
          then (script (k + 1)).err
          else if announces p (script (k + 1)).interrupts || announces p (script (k + 2)).interrupts
          then ok
          else etimedout)
  unfolding lte_ensure_connected lte_is_registered outside_call lte_sem_take lte_sem_reset ◌>>=◌
      ◌>>◌ pure on_board call
  lte_ensure_connected_outcome s =
      let s1 = (advance p brief s).1 in
      let s2 = record s1 { board = record (s1.board) { lte_connected_sem = false } } in
      let s3 = (advance p brief s2).1 in
      ground (
        arith,
        advance_kept p brief s,
        advance_kept p brief s2,
        advance_kept p (take_s config.lte_connect_timeout_seconds) s3,
      )
