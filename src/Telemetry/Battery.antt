-- ===== src/Telemetry/Battery.antt =====
-- The battery percentage of app/src/telemetry.c.
use hologram_nrf9151_gps_tra.Common.{
  ℕ, ◌+◌, ◌-◌, ◌*◌, ◌/◌, ◌≤◌, ◌<◌, ◌^◌, ◌≡◌, List, [], ◌∷◌, Option, none, some, arith, leb,
  if◌then◌else◌, Bool-cases, inl, inr,
}
use native.Mathlib.Nat.{mul-le-mul, mul-le-mul_left, div-le_self, div-le_of_le-mul}
use hologram_nrf9151_gps_tra.Telemetry.{
  Point, point, advance, sub32, interpolate, level_on, battery_level_pptt,
  telemetry_battery_percent,
}

-- A discharge curve: the points fall in both coordinates, down to an empty battery.
abbrev pub Falls : Point → List Point → Type 0
Falls p [] = p.lvl_pptt ≡ 0
Falls p (q ∷ r) = (q.lvl_mv < p.lvl_mv) × (q.lvl_pptt < p.lvl_pptt) × Falls q r

abbrev pub IsSmall : Point → Type 0
IsSmall p = (p.lvl_pptt ≤ 10000) × (p.lvl_mv < 65536)

-- Below the first point: the straight line between the neighbours, and empty below the last point.
abbrev pub line : Point → Point → ℕ → ℕ
line p q mv = q.lvl_pptt + (p.lvl_pptt - q.lvl_pptt) * (mv - q.lvl_mv) / (p.lvl_mv - q.lvl_mv)

unfoldable pub curve_below : Point → List Point → ℕ → ℕ
curve_below p [] mv = 0
curve_below p (q ∷ r) mv = if leb q.lvl_mv mv then line p q mv else curve_below q r mv

sub32_exact : (a b : ℕ) → b ≤ a → a < 2 ^ 32 → sub32 a b ≡ a - b
sub32_exact a b h k = omega arith

slope_small :
    (p q : Point) (mv : ℕ)
    → IsSmall p
    → mv < p.lvl_mv
    → (p.lvl_pptt - q.lvl_pptt) * (mv - q.lvl_mv) ≤ 10000 * 65535
slope_small p q mv s h = mul-le-mul {n₂ = 10000} {m₂ = 65535} (omega arith) (omega arith)

interpolate-line :
    (p q : Point) (mv : ℕ)
    → q.lvl_pptt < p.lvl_pptt
    → IsSmall p
    → q.lvl_mv ≤ mv
    → mv < p.lvl_mv
    → interpolate mv p q ≡ line p q mv
unfolding interpolate
interpolate-line p q mv a s c d =
    rw
      (
        sub32_exact p.lvl_pptt q.lvl_pptt (omega arith) (omega arith),
        sub32_exact mv q.lvl_mv c (omega arith),
        sub32_exact p.lvl_mv q.lvl_mv (omega arith) (omega arith),
      )
      (ground (
        arith,
        slope_small p q mv s d,
        div-le_self ((p.lvl_pptt - q.lvl_pptt) * (mv - q.lvl_mv)) (p.lvl_mv - q.lvl_mv),
      ))

abbrev located : ℕ → Option (Point × Point) → Option ℕ
located mv none = none
located mv (some (pa, pb)) = some (interpolate mv pa pb)

advance_there :
    (mv : ℕ) (pa pb : Point) (r : List Point) → pb.lvl_mv ≤ mv → advance mv pa pb r ≡ some (pa, pb)
unfolding advance
advance_there mv pa pb [] h = ground arith
advance_there mv pa pb (q ∷ r) h = ground arith

advance-curve :
    (mv : ℕ) (pa p : Point) (r : List Point)
    → mv < p.lvl_mv
    → IsSmall p
    → Falls p r
    → located mv (advance mv pa p r) ≡ some (curve_below p r mv)
unfolding advance curve_below
advance-curve mv pa p [] h s f = unfold interpolate in ground arith
advance-curve mv pa p (q ∷ r) h s f = elim (Bool-cases (leb q.lvl_mv mv)) [
  | inl there ↦ ground (arith, advance_there mv p q r, interpolate-line p q mv f.1 s)
  | inr below ↦ ground (arith, advance-curve mv p q r (ground arith) (omega arith) f.2)
]

-- On every falling curve of voltages below 65536 mV and levels up to 10000: the loop stops inside the
-- table, and the level is that of the first point from its voltage on, and below it that of the
-- straight line between the two neighbours, rounded down, or 0 below the last point.
pub level_on_curve :
    (p : Point) (r : List Point) (mv : ℕ)
    → IsSmall p
    → Falls p r
    → level_on (p ∷ r) mv ≡ some (if leb p.lvl_mv mv then p.lvl_pptt else curve_below p r mv)
unfolding level_on
level_on_curve p r mv s f = ground (arith, advance-curve mv p p r)

div_mono : (a b k : ℕ) → a ≤ b → a / k ≤ b / k
div_mono a b k h = grind arith

line_mono : (p q : Point) (m n : ℕ) → m ≤ n → line p q m ≤ line p q n
line_mono p q m n h = omega (
  arith,
  div_mono ((p.lvl_pptt - q.lvl_pptt) * (m - q.lvl_mv)) ((p.lvl_pptt - q.lvl_pptt) * (n - q.lvl_mv))
      (p.lvl_mv - q.lvl_mv) (mul-le-mul_left (p.lvl_pptt - q.lvl_pptt) (omega arith)),
)

line-le : (p q : Point) (m : ℕ) → q.lvl_pptt < p.lvl_pptt → m < p.lvl_mv → line p q m ≤ p.lvl_pptt
line-le p q m h k = omega (
  arith,
  div-le_of_le-mul (p.lvl_mv - q.lvl_mv) {m = (p.lvl_pptt - q.lvl_pptt) * (m - q.lvl_mv)}
      {n = p.lvl_pptt - q.lvl_pptt} (grind arith),
)

curve_below-le :
    (p : Point) (r : List Point) (m : ℕ) → Falls p r → m < p.lvl_mv → curve_below p r m ≤ p.lvl_pptt
unfolding curve_below
curve_below-le p [] m f h = omega arith
curve_below-le p (q ∷ r) m f h = elim (Bool-cases (leb q.lvl_mv m)) [
  | inl there ↦ rw there (line-le p q m f.1 h)
  | inr below ↦ rw below (omega (arith, curve_below-le q r m f.2 (ground arith)))
]

curve_below_mono :
    (p : Point) (r : List Point) (m n : ℕ)
    → Falls p r
    → m ≤ n
    → n < p.lvl_mv
    → curve_below p r m ≤ curve_below p r n
unfolding curve_below
curve_below_mono p [] m n f h k = omega arith
curve_below_mono p (q ∷ r) m n f h k =
    ground (arith, line_mono p q m n h, curve_below_mono q r m n f.2 h, curve_below-le q r m f.2)

abbrev lipo_below : List Point
lipo_below =
    point 9000 4050
    ∷ point 7500 3900
    ∷ point 5000 3750
    ∷ point 2500 3600
    ∷ point 1000 3450
    ∷ point 0 3200
    ∷ []

curve_below-empty : (m : ℕ) → m ≤ 3200 → curve_below (point 10000 4200) lipo_below m ≡ 0
unfolding curve_below
curve_below-empty m h = ground arith

percent_closed :
    (mv : ℕ)
    → telemetry_battery_percent mv
      ≡ (if leb 4200 mv then 100 else curve_below (point 10000 4200) lipo_below mv / 100)
unfolding telemetry_battery_percent battery_level_pptt
percent_closed mv = ground (
  arith,
  level_on_curve (point 10000 4200) lipo_below mv (omega arith) (omega arith),
  curve_below-le (point 10000 4200) lipo_below mv (omega arith),
  div_mono (curve_below (point 10000 4200) lipo_below mv) 10000 100,
)

-- The percentage is at most 100, so its `uint8_t` loses nothing, and a higher voltage never shows a
-- lower percentage; it is 100 from 4200 mV on and 0 up to 3200 mV.
pub battery_percent_mono :
    (m n : ℕ)
    → m ≤ n
    → (telemetry_battery_percent m ≤ telemetry_battery_percent n)
      × (telemetry_battery_percent n ≤ 100)
      × (4200 ≤ n → telemetry_battery_percent n ≡ 100)
      × (m ≤ 3200 → telemetry_battery_percent m ≡ 0)
battery_percent_mono m n h = (
  ground (
    arith,
    percent_closed m,
    percent_closed n,
    curve_below-le (point 10000 4200) lipo_below m (omega arith),
    curve_below_mono (point 10000 4200) lipo_below m n (omega arith) h,
    div_mono (curve_below (point 10000 4200) lipo_below m)
        (curve_below (point 10000 4200) lipo_below n) 100,
  ),
  ground (arith, percent_closed n, curve_below-le (point 10000 4200) lipo_below n (omega arith)),
  λ k. ground (arith, percent_closed n),
  λ k. ground (arith, percent_closed m, curve_below-empty m k),
)
