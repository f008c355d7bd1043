-- ===== src/Main/Run/Linked.antt =====
-- The guard and the cloud link over a pass of the loop of app/src/main.c.
use hologram_nrf9151_gps_tra.Common.{ℕ, ◌≡◌, Bool, false, ℤ, arith}
use hologram_nrf9151_gps_tra.Wake.{WakeReason}
use hologram_nrf9151_gps_tra.Gnss.Fix.{TrackerFix}
use hologram_nrf9151_gps_tra.Transport.Contract.{Contract}
use hologram_nrf9151_gps_tra.Board.{Platform, Sys}
use hologram_nrf9151_gps_tra.Board.Linked.{
  Linked, KeepsLinked, linked_calls, start_gnss-Linked, stop_gnss-Linked, fall_back-Linked,
  fetch_agnss-Linked,
}
use hologram_nrf9151_gps_tra.Main.{note_sent, set_bounced, count_sleep}
use hologram_nrf9151_gps_tra.Main.Along.{battery_sleep-Along}
use hologram_nrf9151_gps_tra.Main.Cycle.{restart_count, cycle}
use hologram_nrf9151_gps_tra.Main.Cycle.Along.{
  assist-Along, try_assistance-Along, CycleAlong, cycle-Along,
}

module _ (p : Platform) (k : Contract p.transport) where
  open p use {D, F}

  note_sent-Linked : (err : ℤ) (s : Sys p) → Linked p k s → Linked p k (note_sent p err s).1
  unfolding note_sent
  note_sent-Linked err s j = ground (arith, j)

  set_bounced-Linked : (b : Bool) (s : Sys p) → Linked p k s → Linked p k (set_bounced p b s).1
  unfolding set_bounced
  set_bounced-Linked b s j = j

  restart_count-Linked : (s : Sys p) → Linked p k s → Linked p k (restart_count p s).1
  unfolding restart_count
  restart_count-Linked s j = j

  count_sleep-Linked : (arm : Bool) (s : Sys p) → Linked p k s → Linked p k (count_sleep p arm s).1
  unfolding count_sleep
  count_sleep-Linked arm s j = ground (arith, j)

  parts : CycleAlong p (KeepsLinked p k)
  parts =
      let c = linked_calls p k in
      record {
        track = record {
          calls = c;
          writes = record {
            note_sent-Along = λ err. record { along = note_sent-Linked err };
            set_bounced-Along = λ b. record { along = set_bounced-Linked b };
          };
          assist-Along = assist-Along c (fetch_agnss-Linked p k);
          try_assistance-Along = try_assistance-Along c (fetch_agnss-Linked p k);
          fall_back-Along = fall_back-Linked p k;
          restart_count-Along = record { along = restart_count-Linked };
        };
        start_gnss-Along = start_gnss-Linked p k;
        stop_gnss-Along = stop_gnss-Linked p k;
        battery_sleep-Along =
            battery_sleep-Along c (λ arm. record { along = count_sleep-Linked arm });
      }

  -- With a transport that keeps the contract: a pass that starts with no guard armed and the link's
  -- invariant ends so, whatever the outside answers and however the pass ends.
  pub cycle_linked :
      (rounds : ℕ) (fix : TrackerFix D F) (reason : WakeReason) (s : Sys p)
      → k.Inv s.board.cloud
      → s.board.watchdog.guard_running ≡ false
      → let t = (cycle p rounds fix reason s).1 in
        k.Inv t.board.cloud × (t.board.watchdog.guard_running ≡ false)
  cycle_linked rounds fix reason s i g = (cycle-Along parts rounds fix reason).along s (i, g)
