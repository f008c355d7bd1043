-- ===== src/Main/Cycle/Noting.antt =====
-- What a pass of the loop of app/src/main.c does to the time of the last report.
use hologram_nrf9151_gps_tra.Common.{ℕ, ◌≤◌, Bool, ℤ, arith}
use hologram_nrf9151_gps_tra.Board.{Platform, Sys, M}
use hologram_nrf9151_gps_tra.Board.Along.{Preorder, Along, widen-Along}
use hologram_nrf9151_gps_tra.Board.Calls.{CallsAlong, widen_calls}
use hologram_nrf9151_gps_tra.Board.Calm.{
  Later, Calmly, calm_calls, fetch_agnss-Along, stop_gnss-Along, fall_back-Along,
}
use hologram_nrf9151_gps_tra.Main.{note_sent, set_bounced, count_sleep}
use hologram_nrf9151_gps_tra.Main.Along.{battery_sleep-Along}
use hologram_nrf9151_gps_tra.Main.Cycle.{finish, restart_count}
use hologram_nrf9151_gps_tra.Main.Cycle.Along.{
  assist-Along, try_assistance-Along, TrackAlong, finish-Along,
}

module _ (p : Platform) (start : ℕ) where
  open p use {D, F, config}

  -- From the uptime `start` on, a report that was made since then stays noted.
  abbrev pub Stays : Sys p → Sys p → Type 0
  Stays s t =
      start ≤ s.board.now_ms
      → (start ≤ t.board.now_ms) × (start ≤ s.last_send_uptime → start ≤ t.last_send_uptime)

  pub Stays-refl : (s : Sys p) → Stays s s
  Stays-refl s h = (h, λ l. l)

  pub Stays-trans : (s t u : Sys p) → Stays s t → Stays t u → Stays s u
  Stays-trans s t u a b h = ground (arith, a h, b (a h).0)

  abbrev pub Noting : Preorder p
  Noting = record { rel = Stays; rel-refl = Stays-refl; rel-trans = Stays-trans }

  pub Later-Stays : (s t : Sys p) → Later p s t → Stays s t
  Later-Stays s t l h = ground (arith, l, h)

  pub noting : {A : Type 0} {m : M p A} → Along p (Calmly p) m → Along p Noting m
  noting = widen-Along Later-Stays

  pub note_sent-Stays : (err : ℤ) (s : Sys p) → Stays s (note_sent p err s).1
  unfolding note_sent
  note_sent-Stays err s h = ground (arith, h)

  pub set_bounced-Stays : (b : Bool) (s : Sys p) → Stays s (set_bounced p b s).1
  unfolding set_bounced
  set_bounced-Stays b s h = (h, λ l. l)

  pub restart_count-Stays : (s : Sys p) → Stays s (restart_count p s).1
  unfolding restart_count
  restart_count-Stays s h = (h, λ l. l)

  count_sleep-Stays : (arm : Bool) (s : Sys p) → Stays s (count_sleep p arm s).1
  unfolding count_sleep
  count_sleep-Stays arm s h = ground (arith, h)

  abbrev pub noting_calls : CallsAlong p Noting
  noting_calls = widen_calls Later-Stays (calm_calls p)

  abbrev pub noting_track : TrackAlong p Noting
  noting_track = record {
    calls = noting_calls;
    writes = record {
      note_sent-Along = λ err. record { along = note_sent-Stays err };
      set_bounced-Along = λ b. record { along = set_bounced-Stays b };
    };
    assist-Along = assist-Along noting_calls (noting (fetch_agnss-Along p));
    try_assistance-Along = try_assistance-Along noting_calls (noting (fetch_agnss-Along p));
    fall_back-Along = noting (fall_back-Along p);
    restart_count-Along = record { along = restart_count-Stays };
  }

  pub finish-Stays : Along p Noting (finish p)
  finish-Stays =
      finish-Along noting_calls
        (battery_sleep-Along noting_calls (λ arm. record { along = count_sleep-Stays arm }))
        (noting (stop_gnss-Along p))
