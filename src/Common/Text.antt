-- ===== src/Common/Text.antt =====
-- Text as a list of bytes, `%u` and `%d` of printf, and `snprintf` into a buffer.
use Prim.Native.Char.{code}
use Prim.Native.String.{String}
use Prim.Native.Nat.{ℕ, zero, suc, ◌+◌, ◌-◌, ◌*◌, ◌/◌, ◌%◌, ◌^◌, ◌≤◌, ◌<◌}
use mathlib.Core.Path.{◌≡◌, refl}
use mathlib.Core.Logic.{◌≢◌}
use mathlib.Core.Bool.{Bool, true, not, ◌&&◌}
use mathlib.Core.List.{List, [], ◌∷◌, ◌++◌}
use native.Mathlib.Omega.{arith}
use native.Mathlib.Nat.{pow-suc}
use hologram_nrf9151_gps_tra.Common.Tests.{ltb, ◌==◌, if◌then◌else◌}
use hologram_nrf9151_gps_tra.Common.Int.{ℤ, pos, negsuc}
use hologram_nrf9151_gps_tra.Common.Lists.{length, length-append, take}

abbrev pub Bytes : Type 0
Bytes = List ℕ

abbrev pub codes : String → Bytes
codes String.[] = []
codes (String.◌∷◌ c s) = code c ∷ codes s

-- The decimal digits of a number with at most `fuel` of them.
pub digits : (fuel n : ℕ) → Bytes
digits zero n = []
digits (suc f) n =
    let rest = digits f (n / 10) in if ltb n 10 then (48 + n) ∷ [] else rest ++ (48 + n % 10) ∷ []

-- `%u` and `%lld` of a number below 10 ^ 20.
unfoldable pub show_nat : ℕ → Bytes
unfolding digits
show_nat n = digits 20 n

-- `%d`, with a minus sign (45).
unfoldable pub show_int : ℤ → Bytes
show_int (pos n) = show_nat n
show_int (negsuc n) = 45 ∷ show_nat (n + 1)

-- The number that digits stand for.
abbrev pub read_digits : ℕ → Bytes → ℕ
read_digits acc [] = acc
read_digits acc (d ∷ ds) = read_digits (acc * 10 + (d - 48)) ds

read_digits-append :
    (acc : ℕ) (xs ys : Bytes) → read_digits acc (xs ++ ys) ≡ read_digits (read_digits acc xs) ys
read_digits-append acc [] ys = refl
read_digits-append acc (x ∷ xs) ys = read_digits-append (acc * 10 + (x - 48)) xs ys

div-ten-lt : (f n : ℕ) → n < 10 ^ suc f → n / 10 < 10 ^ f
div-ten-lt f n h = omega (arith, pow-suc 10 f)

pub read_digits-digits : (f n : ℕ) → n < 10 ^ f → read_digits 0 (digits f n) ≡ n
unfolding digits
read_digits-digits zero n h = omega arith
read_digits-digits (suc f) n h = ground (
  arith,
  read_digits-digits f (n / 10) (div-ten-lt f n h),
  read_digits-append 0 (digits f (n / 10)) ((48 + n % 10) ∷ []),
)

pub length-digits-le : (f k n : ℕ) → n < 10 ^ suc k → length (digits f n) ≤ suc k
unfolding digits
length-digits-le zero k n h = omega arith
length-digits-le (suc f) zero n h = ground arith
length-digits-le (suc f) (suc k) n h = ground (
  arith,
  length-digits-le f k (n / 10) (div-ten-lt (suc k) n h),
  length-append (digits f (n / 10)) ((48 + n % 10) ∷ []),
)

-- Text of at most `k + 1` digits.
pub length-show_nat-le : (k n : ℕ) → n < 10 ^ suc k → length (show_nat n) ≤ suc k
unfolding show_nat
length-show_nat-le k n h = length-digits-le 20 k n h

length-digits-max : (f n : ℕ) → length (digits f n) ≤ f
unfolding digits
length-digits-max zero n = omega arith
length-digits-max (suc f) n =
    ground
      (arith, length-digits-max f (n / 10), length-append (digits f (n / 10)) ((48 + n % 10) ∷ []))

pub length-show_nat-max : (n : ℕ) → length (show_nat n) ≤ 20
unfolding show_nat
length-show_nat-max n = length-digits-max 20 n

pub read_digits-show_nat : (n : ℕ) → n < 10 ^ 20 → read_digits 0 (show_nat n) ≡ n
unfolding show_nat
read_digits-show_nat n h = read_digits-digits 20 n h

-- Whether a character does not occur.
abbrev pub lacks : (c : ℕ) → Bytes → Bool
lacks c [] = true
lacks c (x ∷ s) = not (x == c) && lacks c s

lacks-append :
    (c : ℕ) (xs : Bytes) (d : ℕ) → lacks c xs ≡ true → c ≢ d → lacks c (xs ++ d ∷ []) ≡ true
lacks-append c [] d e h = ground arith
lacks-append c (x ∷ xs) d e h = ground (arith, lacks-append c xs d)

lacks-digits : (c f n : ℕ) → c < 48 → lacks c (digits f n) ≡ true
unfolding digits
lacks-digits c zero n h = refl
lacks-digits c (suc f) n h =
    ground (arith, lacks-digits c f (n / 10), lacks-append c (digits f (n / 10)) (48 + n % 10))

-- Characters before the digits.
pub lacks-show_nat : (c n : ℕ) → c < 48 → lacks c (show_nat n) ≡ true
unfolding show_nat
lacks-show_nat c n h = lacks-digits c 20 n h

-- `snprintf`: the length of the whole text, and what the buffer holds before its NUL.
unfoldable pub snprintf : (size : ℕ) → Bytes → ℕ × Bytes
snprintf size text = (length text, take (size - 1) text)
