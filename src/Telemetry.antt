-- ===== src/Telemetry.antt =====
-- app/src/telemetry.c and telemetry.h: the battery curve and the JSON payload.
pub mod Battery
pub mod Payload
pub mod ReadBack
pub mod PostMortem
use hologram_nrf9151_gps_tra.Common.{
  ℕ, ◌+◌, ◌-◌, ◌*◌, ◌/◌, ◌%◌, ◌^◌, Bool, true, false, not, ◌&&◌, List, [], ◌∷◌, ◌++◌, Option, none,
  some, ℤ, pos, enomem, leb, ltb, ◌==◌, if◌then◌else◌, u8, u32, Bytes, codes, show_nat, show_int,
  snprintf,
}
use hologram_nrf9151_gps_tra.Wake.{WakeReason, wake_reason_name}
use hologram_nrf9151_gps_tra.Power.{ChargeState, charge_code}

-- `struct battery_level_point`.
pub record Point : Type 0 where
  pub lvl_pptt : ℕ
  pub lvl_mv : ℕ

abbrev pub point : (pptt mv : ℕ) → Point
point pptt mv = record { lvl_pptt = pptt; lvl_mv = mv }

abbrev pub lipo_curve : List Point
lipo_curve =
    point 10000 4200
    ∷ point 9000 4050
    ∷ point 7500 3900
    ∷ point 5000 3750
    ∷ point 2500 3600
    ∷ point 1000 3450
    ∷ point 0 3200
    ∷ []

-- `a - b` on `unsigned int`.
abbrev pub sub32 : ℕ → ℕ → ℕ
sub32 a b = u32 (a + 2 ^ 32 - b)

-- The `while` loop: `pa` and `pb` are the points before and at the pointer, the list what follows.
-- `none` is a read past the end of the table.
pub advance : ℕ → Point → Point → List Point → Option (Point × Point)
advance batt_mv pa pb [] =
    if ltb 0 pb.lvl_pptt && ltb batt_mv pb.lvl_mv then none else some (pa, pb)
advance batt_mv pa pb (p ∷ ps) =
    if ltb 0 pb.lvl_pptt && ltb batt_mv pb.lvl_mv then advance batt_mv pb p ps else some (pa, pb)

pub interpolate : ℕ → Point → Point → ℕ
interpolate batt_mv pa pb =
    if ltb batt_mv pb.lvl_mv
    then pb.lvl_pptt
    else u32 (
        pb.lvl_pptt
        + u32 (sub32 pa.lvl_pptt pb.lvl_pptt * sub32 batt_mv pb.lvl_mv) / sub32 pa.lvl_mv pb.lvl_mv)

pub level_on : List Point → ℕ → Option ℕ
unfolding advance interpolate
level_on [] batt_mv = none
level_on (p ∷ ps) batt_mv =
    if leb p.lvl_mv batt_mv then some p.lvl_pptt else elim (advance batt_mv p p ps) [
      | none ↦ none
      | some (pa, pb) ↦ some (interpolate batt_mv pa pb)
    ]

unfoldable pub battery_level_pptt : ℕ → Option ℕ
unfolding level_on
battery_level_pptt batt_mv = level_on lipo_curve batt_mv

-- 0 stands for a read past the end of the table.
unfoldable pub telemetry_battery_percent : ℕ → ℕ
unfolding battery_level_pptt
telemetry_battery_percent batt_mv = elim (battery_level_pptt batt_mv) [
  | none ↦ 0
  | some pptt ↦ u8 (pptt / 100)
]

-- `struct tracker_telemetry`, over the types of `double` and `float`.
pub record Telemetry (D F : Type 0) : Type 0 where
  pub longitude : D
  pub latitude : D
  pub hdop : F
  pub batt_mv : ℕ
  pub charge : ChargeState
  pub signal_dbm : ℤ
  pub awake_s : ℕ
  pub wake : WakeReason

-- What the payload takes from outside of the sources: printf's `%.6f` of a `double` and `%.2f` of a
-- `float` promoted to one, the stamp that the build generates, and the configured revision.
pub record Outside (D F : Type 0) : Type 0 where
  pub show_6f : D → Bytes
  pub show_2f : F → Bytes
  pub build_stamp : Bytes
  pub hw_revision : Bytes

-- `char wdt[16]`, empty after a clean boot.
unfoldable pub wdt_field : (phase : ℕ) → Bytes
unfolding snprintf
wdt_field phase =
    if phase == 0 then [] else (snprintf 16 (codes "\"wdt\": " ++ show_nat phase ++ codes ", ")).1

module _ {D F : Type 0} (o : Outside D F) where
  -- The text that the format describes.
  unfoldable pub payload_text : (phase : ℕ) → Telemetry D F → Bytes
  payload_text phase t =
      codes "{\"coords\": ["
      ++ (o.show_6f t.longitude
          ++ (codes ", "
              ++ (o.show_6f t.latitude
                  ++ (codes "], \"hdop\": "
                      ++ (o.show_2f t.hdop
                          ++ (codes ", \"batt\": "
                              ++ (show_nat (telemetry_battery_percent t.batt_mv)
                                  ++ (codes ", \"volt\": "
                                      ++ (show_nat t.batt_mv
                                          ++ (codes ", \"charge\": "
                                              ++ (show_nat (charge_code t.charge)
                                                  ++ (codes ", \"signal\": "
                                                      ++ (show_int t.signal_dbm
                                                          ++ (codes ", \"awake\": "
                                                            ++ (show_nat t.awake_s
                                                            ++ (codes ", \"wake\": \""
                                                            ++ (codes (wake_reason_name t.wake)
                                                            ++ (codes "\", "
                                                            ++ (wdt_field phase
                                                            ++ (codes "\"fw\": \""
                                                            ++ (o.build_stamp
                                                            ++ (codes "\", \"hw\": \""
                                                            ++ (o.hw_revision
                                                            ++ codes "\"}")))))))))))))))))))))))

  -- The result and what the buffer of `len` bytes then holds.
  unfoldable pub telemetry_build_json : (phase : ℕ) → Telemetry D F → (len : ℕ) → ℤ × Bytes
  unfolding payload_text snprintf
  telemetry_build_json phase t len =
      let (n, buf) = snprintf len (payload_text phase t) in
      (if leb len n then enomem else pos n, buf)
