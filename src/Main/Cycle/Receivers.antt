-- ===== src/Main/Cycle/Receivers.antt =====
-- Which receiver runs during a pass of the loop of app/src/main.c.
use hologram_nrf9151_gps_tra.Common.{ℕ, ◌≡◌, refl, Bool, true, ℤ, arith}
use hologram_nrf9151_gps_tra.Gnss.{gnss_active_source}
use hologram_nrf9151_gps_tra.Gnss.Fix.{TrackerFix, from_modem}
use hologram_nrf9151_gps_tra.Gnss.Modem.{gnss_modem_start, gnss_modem_stop}
use hologram_nrf9151_gps_tra.Gnss.Arbiter.{
  Obeys, IsExclusive, IsStopped, fallback_outcome, stop_stops,
}
use hologram_nrf9151_gps_tra.Build.{built_agnss_fetch}
use hologram_nrf9151_gps_tra.Agnss.{agnss_fetch_and_inject}
use hologram_nrf9151_gps_tra.Board.{
  Span, brief, Platform, Sys, M, advance, ◌>>=◌, ◌>>◌, pure, gets, on_board, call,
}
use hologram_nrf9151_gps_tra.Board.Along.{Preorder, Along, widen-Along}
use hologram_nrf9151_gps_tra.Board.Calls.{CallsAlong, widen_calls}
use hologram_nrf9151_gps_tra.Board.Ops.{
  fetch_span, stop_gnss, fall_back, fetch_agnss, wait_agnss_request, mark, cloud_is_ready, uptime,
}
use hologram_nrf9151_gps_tra.Board.Receivers.{
  Still, advance-Still, KeepsReceivers, still_calls, wait_agnss_request-KeepsReceivers,
  wait_fix-KeepsReceivers, mark-KeepsReceivers,
}
use hologram_nrf9151_gps_tra.Watchdog.{agnss}
use hologram_nrf9151_gps_tra.Main.{agnss_wanted, note_sent, set_bounced, count_sleep}
use hologram_nrf9151_gps_tra.Main.Writes.{WritesAlong}
use hologram_nrf9151_gps_tra.Main.Cycle.{assist, try_assistance, restart_count}
use hologram_nrf9151_gps_tra.Main.Cycle.Along.{TrackAlong}

module _ (p : Platform) where
  open p use {D, F, config, script}

  abbrev pub Alone : Sys p → Type 0
  Alone s = IsExclusive config s.board.gnss

  abbrev pub Stopped : Sys p → Type 0
  Stopped s = IsStopped config s.board.gnss

  pub Alone-refl : (s : Sys p) → Alone s → Alone s
  Alone-refl s i = i

  pub Alone-trans : (s t u : Sys p) → (Alone s → Alone t) → (Alone t → Alone u) → Alone s → Alone u
  Alone-trans s t u f g i = g (f i)

  abbrev pub KeepsAlone : Preorder p
  KeepsAlone = record {
    rel = λ s t. Alone s → Alone t;
    rel-refl = Alone-refl;
    rel-trans = Alone-trans;
  }

  pub Still-Alone : (s t : Sys p) → Still p s t → Alone s → Alone t
  Still-Alone s t e i = ground (arith, e, i)

  pub Still-Stopped : (s t : Sys p) → Still p s t → Stopped s → Stopped t
  Still-Stopped s t e i = ground (arith, e, i)

  pub alone : {A : Type 0} {m : M p A} → Along p (KeepsReceivers p) m → Along p KeepsAlone m
  alone = widen-Along Still-Alone

  pub note_sent-Still : (err : ℤ) (s : Sys p) → Still p s (note_sent p err s).1
  unfolding note_sent
  note_sent-Still err s = ground arith

  pub set_bounced-Still : (b : Bool) (s : Sys p) → Still p s (set_bounced p b s).1
  unfolding set_bounced
  set_bounced-Still b s = (refl, refl, refl, refl)

  pub restart_count-Still : (s : Sys p) → Still p s (restart_count p s).1
  unfolding restart_count
  restart_count-Still s = (refl, refl, refl, refl)

  pub count_sleep-Still : (arm : Bool) (s : Sys p) → Still p s (count_sleep p arm s).1
  unfolding count_sleep
  count_sleep-Still arm s = ground arith

  abbrev pub still_writes : WritesAlong p (KeepsReceivers p)
  still_writes = record {
    note_sent-Along = λ err. record { along = note_sent-Still err };
    set_bounced-Along = λ b. record { along = set_bounced-Still b };
  }

  abbrev pub alone_calls : CallsAlong p KeepsAlone
  alone_calls = widen_calls Still-Alone (still_calls p)

  -- A fetch while the modem has the cycle.
  fetch-Alone : (s : Sys p) → s.board.gnss.active ≡ from_modem → Alone s → Alone (fetch_agnss p s).1
  unfolding fetch_agnss uptime built_agnss_fetch agnss_fetch_and_inject gnss_modem_start
      gnss_modem_stop ◌>>=◌ gets call
  fetch-Alone s a i =
      ground (arith, a, i, advance-Still p (fetch_span p s.board.now_ms s.board.agnss) s)

  wanted_modem :
      (s : Sys p)
      → ((agnss_wanted p s).1 ≡ s)
        × ((agnss_wanted p s).0 ≡ true → s.board.gnss.active ≡ from_modem)
  unfolding agnss_wanted gnss_active_source cloud_is_ready ◌>>=◌ gets pure
  wanted_modem s = ground arith

  wait_agnss_request-Still : (s : Sys p) → Still p s (wait_agnss_request p s).1
  wait_agnss_request-Still s = (wait_agnss_request-KeepsReceivers p).along s

  pub assist-Alone :
      (marked assisted : Bool) (s : Sys p) → Alone s → Alone (assist p marked assisted s).1
  unfolding assist ◌>>=◌ ◌>>◌ pure
  assist-Alone marked assisted s i =
      let s0 = (agnss_wanted p s).1 in
      let s1 = (wait_agnss_request p s0).1 in
      let s2 = (mark p agnss s1).1 in
      ground (
        arith,
        i,
        wanted_modem s,
        wait_agnss_request-Still s0,
        (mark-KeepsReceivers p agnss).along s1,
        fetch-Alone s1,
        fetch-Alone s2,
      )

  pub try_assistance-Alone :
      (have_fix assisted : Bool) (fix : TrackerFix D F) (s : Sys p)
      → Alone s
      → Alone (try_assistance p (have_fix, assisted, fix) s).1
  unfolding try_assistance ◌>>=◌ ◌>>◌ pure
  try_assistance-Alone have_fix assisted fix s i =
      let s0 = (agnss_wanted p s).1 in
      let s1 = (fetch_agnss p s0).1 in
      ground (
        arith,
        i,
        wanted_modem s,
        fetch-Alone s0,
        (wait_fix-KeepsReceivers p config.agnss_fix_timeout_seconds fix).along s1,
      )

  module _ (obeys : (n : ℕ) → Obeys (script n).gnss) where
    pub answer-Obeys : (span : Span) (s : Sys p) → Obeys (advance p span s).0.gnss
    unfolding advance
    answer-Obeys span s = obeys s.board.tick

    pub fall_back-Alone : (s : Sys p) → Alone s → Alone (fall_back p s).1
    unfolding fall_back ◌>>=◌ call
    fall_back-Alone s i =
        let s1 = (advance p brief s).1 in
        (fallback_outcome config (advance p brief s).0.gnss s1.board.gnss
          (Still-Alone s s1 (advance-Still p brief s) i) (answer-Obeys brief s)).2

    pub stop_gnss-Stopped : (s : Sys p) → Alone s → Stopped (stop_gnss p s).1
    unfolding stop_gnss ◌>>=◌ on_board
    stop_gnss-Stopped s i =
        let s1 = (advance p brief s).1 in
        stop_stops config (advance p brief s).0.gnss s1.board.gnss
          (Still-Alone s s1 (advance-Still p brief s) i) (answer-Obeys brief s)

    abbrev pub track : TrackAlong p KeepsAlone
    track = record {
      calls = alone_calls;
      writes = record {
        note_sent-Along = λ err. alone (still_writes.note_sent-Along err);
        set_bounced-Along = λ b. alone (still_writes.set_bounced-Along b);
      };
      assist-Along = λ marked assisted. record { along = assist-Alone marked assisted };
      try_assistance-Along =
          λ have_fix assisted fix. record { along = try_assistance-Alone have_fix assisted fix };
      fall_back-Along = record { along = fall_back-Alone };
      restart_count-Along = alone (record { along = restart_count-Still });
    }
