-- ===== src/Telemetry/ReadBack.antt =====
-- The payload of app/src/telemetry.c read back by a reader that knows its keys and nothing of how the
-- text was made.
use hologram_nrf9151_gps_tra.Common.{
  ℕ, zero, suc, ◌+◌, ◌-◌, ◌^◌, ◌≤◌, ◌<◌, ◌≡◌, refl, ap, ◌∙◌, true, [], ◌∷◌, ◌++◌, Option, none,
  some, ℤ, pos, negsuc, pos_part, neg_part, ◌==◌, if◌then◌else◌, arith, Bytes, codes, lacks,
  lacks-show_nat, show_nat, show_int, read_digits, read_digits-show_nat,
}
use mathlib.Core.List.{append_assoc}
use hologram_nrf9151_gps_tra.Wake.{WakeReason, boot, timer, vbus, motion, wake_reason_name}
use hologram_nrf9151_gps_tra.Power.{charge_code}
use hologram_nrf9151_gps_tra.Telemetry.Payload.{wdt_field_whole}
use hologram_nrf9151_gps_tra.Telemetry.Battery.{battery_percent_mono}
use hologram_nrf9151_gps_tra.Telemetry.{
  Telemetry, Outside, payload_text, telemetry_battery_percent, wdt_field,
}

-- What follows a text that has to come first.
expect : Bytes → Bytes → Option Bytes
expect [] s = some s
expect (x ∷ xs) [] = none
expect (x ∷ xs) (y ∷ s) = if x == y then expect xs s else none

-- The text before the first `stop`, and the text from it on.
cut : (stop : ℕ) → Bytes → Option (Bytes × Bytes)
cut stop [] = none
cut stop (x ∷ s) =
    if x == stop
    then some ([], x ∷ s)
    else elim (cut stop s) [ none ↦ none | some (a, b) ↦ some (x ∷ a, b) ]

bind : {A B : Type 0} → Option A → (A → Option B) → Option B
bind none f = none
bind (some a) f = f a

-- A key, and what stands between it and the first `stop`.
field : (key : Bytes) (stop : ℕ) → Bytes → Option (Bytes × Bytes)
field key stop s = bind (expect key s) (cut stop)

read_int : Bytes → ℤ
read_int [] = pos 0
read_int (c ∷ s) =
    let n = read_digits 0 s in
    if c == 45 then (if n == 0 then pos 0 else negsuc (n - 1)) else pos (read_digits 0 (c ∷ s))

-- The phase after the quotation mark that ends the reason, or 0 if its key is not there.
number_of : Option (Bytes × Bytes) → ℕ
number_of none = 0
number_of (some (digits, rest)) = read_digits 0 digits

read_wdt : Bytes → ℕ
read_wdt s = number_of (field (codes "\", \"wdt\": ") 44 s)

-- The fields up to the phase before the last watchdog reset; coordinates and HDOP are left as text.
pub record Fields : Type 0 where
  pub longitude : Bytes
  pub latitude : Bytes
  pub hdop : Bytes
  pub batt : ℕ
  pub volt : ℕ
  pub charge : ℕ
  pub signal : ℤ
  pub awake : ℕ
  pub wake : Bytes
  pub wdt : ℕ

-- 44 is a comma, 93 a closing bracket and 34 a quotation mark.
pub read_payload : Bytes → Option Fields
read_payload s = bind (field (codes "{\"coords\": [") 44 s) (λ (lon, s1).
    bind (field (codes ", ") 93 s1) (λ (lat, s2).
      bind (field (codes "], \"hdop\": ") 44 s2) (λ (hdop, s3).
        bind (field (codes ", \"batt\": ") 44 s3) (λ (batt, s4).
          bind (field (codes ", \"volt\": ") 44 s4) (λ (volt, s5).
            bind (field (codes ", \"charge\": ") 44 s5) (λ (charge, s6).
              bind (field (codes ", \"signal\": ") 44 s6) (λ (signal, s7).
                bind (field (codes ", \"awake\": ") 44 s7) (λ (awake, s8).
                  bind (field (codes ", \"wake\": \"") 34 s8) (λ (wake, s9). some (record {
                    longitude = lon;
                    latitude = lat;
                    hdop = hdop;
                    batt = read_digits 0 batt;
                    volt = read_digits 0 volt;
                    charge = read_digits 0 charge;
                    signal = read_int signal;
                    awake = read_digits 0 awake;
                    wake = wake;
                    wdt = read_wdt s9;
                  }))))))))))

bind-some :
    {A B : Type 0} {o : Option A} {a : A} (f : A → Option B) {b : Option B}
    → o ≡ some a
    → f a ≡ b
    → bind o f ≡ b
unfolding bind
bind-some f e h = ap (λ x. bind x f) e ∙ h

expect-append : (key s : Bytes) → expect key (key ++ s) ≡ some s
unfolding expect
expect-append [] s = refl
expect-append (x ∷ xs) s = ground (arith, expect-append xs s)

cut-append :
    (stop : ℕ) (xs s : Bytes)
    → lacks stop xs ≡ true
    → cut stop (xs ++ stop ∷ s) ≡ some (xs, stop ∷ s)
unfolding cut
cut-append stop [] s e = ground arith
cut-append stop (x ∷ xs) s e = ground (arith, cut-append stop xs s)

field-append :
    (key : Bytes) (stop : ℕ) (xs s : Bytes)
    → lacks stop xs ≡ true
    → field key stop (key ++ (xs ++ stop ∷ s)) ≡ some (xs, stop ∷ s)
unfolding field
field-append key stop xs s e =
    bind-some _ (expect-append key (xs ++ stop ∷ s)) (cut-append stop xs s e)

lacks-show_int : (z : ℤ) → lacks 44 (show_int z) ≡ true
unfolding show_int
lacks-show_int (pos n) = lacks-show_nat 44 n (omega arith)
lacks-show_int (negsuc n) = ground (arith, lacks-show_nat 44 (n + 1))

lacks-reason : (r : WakeReason) → lacks 34 (codes (wake_reason_name r)) ≡ true
unfolding wake_reason_name
lacks-reason boot = refl
lacks-reason timer = refl
lacks-reason vbus = refl
lacks-reason motion = refl

read_int_unsigned : (s : Bytes) → lacks 45 s ≡ true → read_int s ≡ pos (read_digits 0 s)
unfolding read_int
read_int_unsigned [] e = refl
read_int_unsigned (c ∷ s) e = ground arith

read_int-show_int : (z : ℤ) → pos_part z < 2 ^ 31 → neg_part z ≤ 2 ^ 31 → read_int (show_int z) ≡ z
unfolding read_int show_int
read_int-show_int (pos n) h k =
    read_int_unsigned (show_nat n) (lacks-show_nat 45 n (omega arith))
    ∙ ap pos (read_digits-show_nat n (omega arith))
read_int-show_int (negsuc n) h k = ground (arith, read_digits-show_nat (n + 1) (omega arith))

number-field :
    (key : Bytes) (n : ℕ) (s : Bytes)
    → field key 44 (key ++ (show_nat n ++ 44 ∷ s)) ≡ some (show_nat n, 44 ∷ s)
number-field key n s = field-append key 44 (show_nat n) s (lacks-show_nat 44 n (omega arith))

same_fields :
    (lon lat hdop wake : Bytes) {batt batt' volt volt' charge charge' awake awake' wdt wdt' : ℕ}
    {signal signal' : ℤ}
    → batt ≡ batt'
    → volt ≡ volt'
    → charge ≡ charge'
    → signal ≡ signal'
    → awake ≡ awake'
    → wdt ≡ wdt'
    → let a : Fields = record {
      longitude = lon;
      latitude = lat;
      hdop = hdop;
      batt = batt;
      volt = volt;
      charge = charge;
      signal = signal;
      awake = awake;
      wake = wake;
      wdt = wdt;
    } in
      let b : Fields = record {
        longitude = lon;
        latitude = lat;
        hdop = hdop;
        batt = batt';
        volt = volt';
        charge = charge';
        signal = signal';
        awake = awake';
        wake = wake;
        wdt = wdt';
      } in
      some a ≡ some b
same_fields lon lat hdop wake b v c s a d = cc

read_wdt-key :
    (n : ℕ) (s : Bytes)
    → n < 10 ^ 20
    → read_wdt (codes "\", \"wdt\": " ++ ((show_nat n ++ codes ", ") ++ s)) ≡ n
unfolding read_wdt number_of
read_wdt-key n s h =
    rw (append_assoc (show_nat n) (codes ", ") s)
      (ap number_of (number-field (codes "\", \"wdt\": ") n (32 ∷ s)) ∙ read_digits-show_nat n h)

wdt_field-suc :
    (n : ℕ)
    → suc n < 10 ^ 6
    → wdt_field (suc n) ≡ codes "\"wdt\": " ++ (show_nat (suc n) ++ codes ", ")
wdt_field-suc n h = ground (arith, wdt_field_whole (suc n) h)

read_wdt-wdt_field :
    (phase : ℕ) (s : Bytes)
    → phase < 10 ^ 6
    → read_wdt (codes "\", " ++ (wdt_field phase ++ (codes "\"fw\": \"" ++ s))) ≡ phase
unfolding read_wdt number_of field bind expect wdt_field
read_wdt-wdt_field zero s h = refl
read_wdt-wdt_field (suc n) s h =
    ap (λ x. read_wdt (codes "\", " ++ (x ++ (codes "\"fw\": \"" ++ s)))) (wdt_field-suc n h)
    ∙ read_wdt-key (suc n) (codes "\"fw\": \"" ++ s) (omega arith)

-- The fields are in the ranges of their C types, and the printed longitude and HDOP hold no comma and
-- the latitude no closing bracket.
pub record IsReadable {D F : Type 0} (o : Outside D F) (t : Telemetry D F) : Type 0 where
  pub longitude_plain : lacks 44 (o.show_6f t.longitude) ≡ true
  pub latitude_plain : lacks 93 (o.show_6f t.latitude) ≡ true
  pub hdop_plain : lacks 44 (o.show_2f t.hdop) ≡ true
  pub volt_bound : t.batt_mv < 2 ^ 16
  pub awake_bound : t.awake_s < 2 ^ 32
  pub signal_below : pos_part t.signal_dbm < 2 ^ 31
  pub signal_above : neg_part t.signal_dbm ≤ 2 ^ 31

module _ {D F : Type 0} (o : Outside D F) (phase : ℕ) (t : Telemetry D F) where
  -- Of the whole text of the payload, the reader makes the values that went into it: coordinates and
  -- HDOP as printed, the percentage, the voltage, the charger's state, the signal, the seconds awake, the
  -- reason of the wake-up, and the phase before the last watchdog reset. Provided that the fields are in
  -- the ranges of their C types, that the phase is below 10^6, and that the printed longitude and HDOP
  -- hold no comma and the latitude no closing bracket.
  pub read_payload-payload_text :
      IsReadable o t
      → phase < 10 ^ 6
      → read_payload (payload_text o phase t)
        ≡ some (record {
          longitude = o.show_6f t.longitude;
          latitude = o.show_6f t.latitude;
          hdop = o.show_2f t.hdop;
          batt = telemetry_battery_percent t.batt_mv;
          volt = t.batt_mv;
          charge = charge_code t.charge;
          signal = t.signal_dbm;
          awake = t.awake_s;
          wake = codes (wake_reason_name t.wake);
          wdt = phase;
        })
  unfolding read_payload payload_text
  read_payload-payload_text i known =
      bind-some _
        (field-append (codes "{\"coords\": [") 44 (o.show_6f t.longitude) _ i.longitude_plain)
        (bind-some _ (field-append (codes ", ") 93 (o.show_6f t.latitude) _ i.latitude_plain) (
          bind-some _ (field-append (codes "], \"hdop\": ") 44 (o.show_2f t.hdop) _ i.hdop_plain) (
            bind-some _ (number-field (codes ", \"batt\": ") _ _) (
              bind-some _ (number-field (codes ", \"volt\": ") _ _) (
                bind-some _ (number-field (codes ", \"charge\": ") _ _) (
                  bind-some _
                    (field-append (codes ", \"signal\": ") 44 (show_int t.signal_dbm) _
                      (lacks-show_int t.signal_dbm))
                    (bind-some _ (number-field (codes ", \"awake\": ") _ _) (
                      bind-some _
                        (field-append (codes ", \"wake\": \"") 34 (codes (wake_reason_name t.wake))
                          _ (lacks-reason t.wake))
                        (same_fields _ _ _ _ (read_digits-show_nat _ percent)
                          (read_digits-show_nat _ (omega (arith, i.volt_bound)))
                          (read_digits-show_nat _ (ground arith))
                          (read_int-show_int t.signal_dbm i.signal_below i.signal_above)
                          (read_digits-show_nat _ (omega (arith, i.awake_bound)))
                          (read_wdt-wdt_field phase _ known))))))))))
    where
      percent : telemetry_battery_percent t.batt_mv < 10 ^ 20
      percent = omega (arith, battery_percent_mono 0 t.batt_mv (omega (arith, i.volt_bound)))
