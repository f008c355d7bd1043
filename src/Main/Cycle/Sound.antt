-- ===== src/Main/Cycle/Sound.antt =====
-- What every pass of the loop of app/src/main.c keeps.
use hologram_nrf9151_gps_tra.Common.{ℕ, ◌^◌, ◌≤◌, ◌<◌, arith}
use hologram_nrf9151_gps_tra.Wake.{WakeReason}
use hologram_nrf9151_gps_tra.Gnss.Fix.{TrackerFix}
use hologram_nrf9151_gps_tra.Board.{Platform, Sys}
use hologram_nrf9151_gps_tra.Board.Calm.{
  fetch_agnss-Along, start_gnss-Along, stop_gnss-Along, fall_back-Along,
}
use hologram_nrf9151_gps_tra.Main.{battery_sleep}
use hologram_nrf9151_gps_tra.Main.Sound.{IsSound, Soundly, soundly, sound_calls, sound_writes}
use hologram_nrf9151_gps_tra.Main.Sleep.{next_count, battery_sleep-later}
use hologram_nrf9151_gps_tra.Main.Cycle.{restart_count, cycle}
use hologram_nrf9151_gps_tra.Main.Cycle.Along.{
  assist-Along, try_assistance-Along, CycleAlong, cycle-Along,
}

module _ (p : Platform) where
  open p use {D, F, config}

  restart_count-IsSound : (s : Sys p) → IsSound p s → IsSound p (restart_count p s).1
  unfolding restart_count
  restart_count-IsSound s i = ground (arith, i)

  next_count-bound :
      (n : ℕ)
      → config.motion_settle_cycles < 2 ^ 32
      → n ≤ config.motion_settle_cycles
      → next_count p n ≤ config.motion_settle_cycles
  next_count-bound n b i = ground arith

  battery_sleep-IsSound :
      config.motion_settle_cycles < 2 ^ 32
      → (s : Sys p) → IsSound p s
      → IsSound p (battery_sleep p s).1
  battery_sleep-IsSound b s i =
      ground (arith, i, battery_sleep-later p s, next_count-bound s.battery_sleeps b)

  -- With a limit of unarmed sleeps below 2^32: every pass, however it ends and whatever the outside answers, keeps that the last report does not
  -- lie in the future (so that the time since it is what `recover_if_silent` takes it for) and that the
  -- count of sleeps with the accelerometer unarmed stays within its limit.
  pub cycle_sound :
      config.motion_settle_cycles < 2 ^ 32
      → (rounds : ℕ) (fix : TrackerFix D F) (reason : WakeReason) (s : Sys p)
      → s.last_send_uptime ≤ s.board.now_ms
      → s.battery_sleeps ≤ config.motion_settle_cycles
      → let t = (cycle p rounds fix reason s).1 in
        (t.last_send_uptime ≤ t.board.now_ms) × (t.battery_sleeps ≤ config.motion_settle_cycles)
  cycle_sound b rounds fix reason s l n = (cycle-Along parts rounds fix reason).along s (l, n)
    where
      parts : CycleAlong p (Soundly p)
      parts = record {
        track = record {
          calls = sound_calls p;
          writes = sound_writes p;
          assist-Along = assist-Along (sound_calls p) (soundly p (fetch_agnss-Along p));
          try_assistance-Along =
              try_assistance-Along (sound_calls p) (soundly p (fetch_agnss-Along p));
          fall_back-Along = soundly p (fall_back-Along p);
          restart_count-Along = record { along = restart_count-IsSound };
        };
        start_gnss-Along = soundly p (start_gnss-Along p);
        stop_gnss-Along = soundly p (stop_gnss-Along p);
        battery_sleep-Along = record { along = battery_sleep-IsSound b };
      }
