-- ===== src/Main/Sound.antt =====
-- What every pass of app/src/main.c keeps of its static variables.
use hologram_nrf9151_gps_tra.Common.{◌≤◌, Bool, ℤ, arith}
use hologram_nrf9151_gps_tra.Board.{Platform, Sys, M}
use hologram_nrf9151_gps_tra.Board.Along.{Preorder, Along, widen-Along}
use hologram_nrf9151_gps_tra.Board.Calls.{CallsAlong, widen_calls}
use hologram_nrf9151_gps_tra.Board.Calm.{Later, Calmly, calm_calls}
use hologram_nrf9151_gps_tra.Main.{note_sent, set_bounced}
use hologram_nrf9151_gps_tra.Main.Writes.{WritesAlong}

module _ (p : Platform) where
  open p use {D, F, config, transport, outside}

  -- The last report does not lie in the future, and the count of unarmed sleeps stops at its limit.
  abbrev pub IsSound : Sys p → Type 0
  IsSound s =
      (s.last_send_uptime ≤ s.board.now_ms) × (s.battery_sleeps ≤ config.motion_settle_cycles)

  pub IsSound-refl : (s : Sys p) → IsSound s → IsSound s
  IsSound-refl s i = i

  pub IsSound-trans :
      (s t u : Sys p) → (IsSound s → IsSound t) → (IsSound t → IsSound u) → IsSound s → IsSound u
  IsSound-trans s t u f g i = g (f i)

  abbrev pub Soundly : Preorder p
  Soundly = record {
    rel = λ s t. IsSound s → IsSound t;
    rel-refl = IsSound-refl;
    rel-trans = IsSound-trans;
  }

  pub Later-IsSound : (s t : Sys p) → Later p s t → IsSound s → IsSound t
  Later-IsSound s t l i = ground (arith, l, i)

  pub soundly : {A : Type 0} {m : M p A} → Along p (Calmly p) m → Along p Soundly m
  soundly = widen-Along Later-IsSound

  pub note_sent-IsSound : (err : ℤ) (s : Sys p) → IsSound s → IsSound (note_sent p err s).1
  unfolding note_sent
  note_sent-IsSound err s i = ground (arith, i)

  pub set_bounced-IsSound : (b : Bool) (s : Sys p) → IsSound s → IsSound (set_bounced p b s).1
  unfolding set_bounced
  set_bounced-IsSound b s i = i

  abbrev pub sound_writes : WritesAlong p Soundly
  sound_writes = record {
    note_sent-Along = λ err. record { along = note_sent-IsSound err };
    set_bounced-Along = λ b. record { along = set_bounced-IsSound b };
  }

  abbrev pub sound_calls : CallsAlong p Soundly
  sound_calls = widen_calls Later-IsSound (calm_calls p)
