-- ===== src/Main/Cycle/Frequent.antt =====
-- The loop of frequent reports of app/src/main.c comes to its end.
use hologram_nrf9151_gps_tra.Common.{
  ℕ, zero, suc, ◌+◌, ◌*◌, ◌≤◌, ◌<◌, ◌≡◌, refl, Bool, true, false, not, ◌&&◌, ℤ, is_err, test_bit,
  arith, u32, ◌^◌,
}
use hologram_nrf9151_gps_tra.Wake.{WakeReason}
use hologram_nrf9151_gps_tra.Build.{built_motion_last_event_uptime}
use hologram_nrf9151_gps_tra.Motion.{motion_last_event_uptime, store_events}
use hologram_nrf9151_gps_tra.Power.{ChargerAnswers, power_vbus_present, read_vbus_present}
use hologram_nrf9151_gps_tra.Gnss.Fix.{TrackerFix}
use hologram_nrf9151_gps_tra.Board.{Span, brief, Platform, Sys, advance, ◌>>=◌, pure, gets, call}
use hologram_nrf9151_gps_tra.Board.Calm.{advance-now_ms}
use hologram_nrf9151_gps_tra.Board.Quiet.{
  no_jolts, Quiet, KeepsQuiet, advance-Quiet, quiet_calls, fetch_agnss-KeepsQuiet,
  fall_back-KeepsQuiet,
}
use hologram_nrf9151_gps_tra.Board.Ops.{vbus_present, last_jolt, uptime}
use hologram_nrf9151_gps_tra.Main.{surge_active, note_sent, set_bounced}
use hologram_nrf9151_gps_tra.Main.Along.{surge_active-Along}
use hologram_nrf9151_gps_tra.Main.Cycle.{frequent_wanted, frequent_round, frequent, restart_count}
use hologram_nrf9151_gps_tra.Main.Cycle.Along.{
  assist-Along, try_assistance-Along, TrackAlong, frequent_round-Along,
}

module _ (p : Platform) where
  open p use {D, F, config, script}

  -- A charger that can be read and sees no external power.
  abbrev pub sees_no_power : ChargerAnswers → Bool
  sees_no_power a =
      not (is_err a.fetch_err) && (not (is_err a.vbus_err) && not (test_bit a.vbus_status 0))

  abbrev pub jolt_time : Sys p → ℕ
  jolt_time s = u32 s.board.motion.last_event_ms_hi * 2 ^ 32 + u32 s.board.motion.last_event_ms_lo

  surge_lem :
      (motion_cycle : Bool) (s : Sys p)
      → (surge_active p motion_cycle s).0 ≡ true
      → s.board.now_ms < jolt_time s + config.motion_surge_seconds * 1000
  unfolding surge_active last_jolt uptime built_motion_last_event_uptime motion_last_event_uptime
      store_events ◌>>=◌ pure gets call
  surge_lem motion_cycle s h = ground (arith, h)

  pub note_sent-Quiet : (err : ℤ) (s : Sys p) → Quiet p s (note_sent p err s).1
  unfolding note_sent
  note_sent-Quiet err s = ground arith

  pub set_bounced-Quiet : (b : Bool) (s : Sys p) → Quiet p s (set_bounced p b s).1
  unfolding set_bounced
  set_bounced-Quiet b s = (refl, refl, omega arith)

  pub restart_count-Quiet : (s : Sys p) → Quiet p s (restart_count p s).1
  unfolding restart_count
  restart_count-Quiet s = (refl, refl, omega arith)

  module _ (calm : (n : ℕ) → no_jolts (script n).interrupts ≡ true) where
    abbrev pub quiet_track : TrackAlong p (KeepsQuiet p)
    quiet_track = record {
      calls = quiet_calls p calm;
      writes = record {
        note_sent-Along = λ err. record { along = note_sent-Quiet err };
        set_bounced-Along = λ b. record { along = set_bounced-Quiet b };
      };
      assist-Along = assist-Along (quiet_calls p calm) (fetch_agnss-KeepsQuiet p calm);
      try_assistance-Along =
          try_assistance-Along (quiet_calls p calm) (fetch_agnss-KeepsQuiet p calm);
      fall_back-Along = fall_back-KeepsQuiet p calm;
      restart_count-Along = record { along = restart_count-Quiet };
    }

    module _ (unpowered : (n : ℕ) → sees_no_power (script n).charger ≡ true)
        (passing : (n : ℕ) (span : Span) → 1 ≤ (script n).elapsed_ms span) where
      advance_passes : (s : Sys p) → s.board.now_ms + 1 ≤ (advance p brief s).1.board.now_ms
      advance_passes s = ground (arith, advance-now_ms p brief s, passing s.board.tick brief)

      answer_unpowered : (s : Sys p) → sees_no_power (advance p brief s).0.charger ≡ true
      unfolding advance
      answer_unpowered s = unpowered s.board.tick

      pub vbus_lem :
          (s : Sys p)
          → ((vbus_present p s).0 ≡ false)
            × (s.board.now_ms + 1 ≤ (vbus_present p s).1.board.now_ms)
            × Quiet p s (vbus_present p s).1
      unfolding vbus_present power_vbus_present read_vbus_present ◌>>=◌ call
      vbus_lem s =
          ground (arith, answer_unpowered s, advance_passes s, advance-Quiet p calm brief s)

      pub wanted_lem :
          (motion_cycle : Bool) (s : Sys p)
          → let (more, t) = frequent_wanted p motion_cycle s in
            (more ≡ true → s.board.now_ms + 1 < jolt_time s + config.motion_surge_seconds * 1000)
            × (s.board.now_ms + 1 ≤ t.board.now_ms)
            × Quiet p s t
      unfolding frequent_wanted ◌>>=◌ pure
      wanted_lem motion_cycle s =
          let s1 = (vbus_present p s).1 in
          ground (
            arith,
            vbus_lem s,
            surge_lem motion_cycle s1,
            (surge_active-Along (quiet_calls p calm) motion_cycle).along s1,
          )

      -- On battery, with no further jolt and every call taking at least a millisecond, the loop ends by
      -- its own test within as many rounds as there are milliseconds left of the surge, and one.
      pub frequent_ends :
          (rounds : ℕ) (fix : TrackerFix D F) (wake_uptime_ms : ℕ) (motion_cycle : Bool)
          (reason : WakeReason) (s : Sys p)
          → jolt_time s + config.motion_surge_seconds * 1000 < s.board.now_ms + rounds
          → 1 ≤ rounds
          → (frequent p rounds fix wake_uptime_ms motion_cycle reason s).0 ≡ true
      unfolding frequent ◌>>=◌ pure
      frequent_ends zero fix wake_uptime_ms motion_cycle reason s h one = absurd (omega arith)
      frequent_ends (suc rounds) fix wake_uptime_ms motion_cycle reason s h one =
          let s1 = (frequent_wanted p motion_cycle s).1 in
          let fix' = (frequent_round p fix wake_uptime_ms reason s1).0 in
          let s2 = (frequent_round p fix wake_uptime_ms reason s1).1 in
          ground (
            arith,
            h,
            wanted_lem motion_cycle s,
            (frequent_round-Along quiet_track fix wake_uptime_ms reason).along s1,
            frequent_ends rounds fix' wake_uptime_ms motion_cycle reason s2,
          )
