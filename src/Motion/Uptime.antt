-- ===== src/Motion/Uptime.antt =====
-- The time of the last jolt as app/src/motion.c reads it, in two halves.
use hologram_nrf9151_gps_tra.Common.{ℕ, ◌/◌, ◌%◌, ◌^◌, ◌<◌, ◌≡◌, ◌↔◌, List, [], ◌∷◌, arith, last_or}
use hologram_nrf9151_gps_tra.Motion.{
  Motion, motion_at_boot, store_event, store_events, motion_last_event_uptime,
}

-- The two words hold the time `t`.
abbrev pub Holds : Motion → ℕ → Type 0
Holds m t = (m.last_event_ms_hi ≡ t / 2 ^ 32) × (m.last_event_ms_lo ≡ t % 2 ^ 32)

store_event-Holds : (t : ℕ) (m : Motion) → t < 2 ^ 64 → Holds (store_event t m) t
unfolding store_event
store_event-Holds t m h = omega arith

abbrev pub AllBelow : ℕ → List ℕ → Type 0
AllBelow b [] = Unit {0}
AllBelow b (t ∷ ts) = (t < b) × AllBelow b ts

store_events-Holds :
    (ts : List ℕ) (t : ℕ) (m : Motion)
    → Holds m t
    → AllBelow (2 ^ 64) ts
    → Holds (store_events ts m) (last_or t ts)
unfolding store_events
store_events-Holds [] t m h b = h
store_events-Holds (u ∷ ts) t m h b =
    store_events-Holds ts u (store_event u m) (store_event-Holds u m b.0) b.1

last_or-below : (b t : ℕ) (ts : List ℕ) → t < b → AllBelow b ts → last_or t ts < b
last_or-below b t [] h a = h
last_or-below b t (u ∷ ts) h a = last_or-below b u ts a.0 a.1

-- A read that no run of the handler interrupts gives the time of the last jolt, or 0 before the
-- first one, as long as the times fit 64 bits.
pub uptime_exact :
    (ts : List ℕ)
    → AllBelow (2 ^ 64) ts
    → (motion_last_event_uptime [] (store_events ts motion_at_boot)).0 ≡ last_or 0 ts
unfolding motion_last_event_uptime
uptime_exact ts b = omega (
  arith,
  store_events-Holds ts 0 motion_at_boot (omega arith) b,
  last_or-below (2 ^ 64) 0 ts (omega arith) b,
)

-- A read that runs of the handler interrupt between its halves, the words holding `t` before, all times
-- fitting 64 bits: where
-- the last of these runs, at `u`, has the same high word, it gives the earlier `t`. And it gives a
-- time later than the last jolt exactly where the low word of `u` is below that of `t`.
pub uptime_torn :
    (ts : List ℕ) (t : ℕ) (m : Motion)
    → t < 2 ^ 64
    → Holds m t
    → AllBelow (2 ^ 64) ts
    → let u = last_or t ts in
      let seen = (motion_last_event_uptime ts m).0 in
      (u / 2 ^ 32 ≡ t / 2 ^ 32 → seen ≡ t) × ((u < seen) ↔ (u % 2 ^ 32 < t % 2 ^ 32))
unfolding motion_last_event_uptime
uptime_torn ts t m h hm b =
    omega (arith, store_events-Holds ts t m hm b, last_or-below (2 ^ 64) t ts h b)
