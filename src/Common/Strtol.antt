-- ===== src/Common/Strtol.antt =====
-- `strtol` of the C library with a 32-bit `long`, and numbers printed at a fixed width.
use Prim.Native.Nat.{ℕ, zero, suc, ◌+◌, ◌-◌, ◌*◌, ◌/◌, ◌%◌, ◌^◌, ◌≤◌, ◌<◌}
use mathlib.Core.Path.{◌≡◌, refl, ap, ◌∙◌}
use mathlib.Core.Bool.{Bool, true, false, ◌&&◌, ◌||◌}
use mathlib.Core.List.{[], ◌∷◌, ◌++◌}
use native.Mathlib.Omega.{arith}
use native.Mathlib.Nat.{pow-zero, pow-suc, mod-lt, div-add-mod', div-lt_iff_lt-mul}
use hologram_nrf9151_gps_tra.Common.Tests.{ltb, leb, ◌==◌, if◌then◌else◌}
use hologram_nrf9151_gps_tra.Common.Int.{ℤ, pos, negsuc}
use hologram_nrf9151_gps_tra.Common.Text.{Bytes}

abbrev is_space : ℕ → Bool
is_space c = c == 32 || (leb 9 c && leb c 13)

-- What a digit or a letter is worth; other characters are worth more than any base.
abbrev digit_value : ℕ → ℕ
digit_value c =
    if leb 48 c && leb c 57
    then c - 48
    else if leb 65 c && leb c 90
    then c - 55
    else if leb 97 c && leb c 122
    then c - 87
    else 99

skip_spaces : Bytes → Bytes
skip_spaces [] = []
skip_spaces (c ∷ s) = if is_space c then skip_spaces s else c ∷ s

-- `0x` before hexadecimal digits.
skip_prefix : (base : ℕ) → Bytes → Bytes
skip_prefix base (z ∷ x ∷ s) =
    if base == 16 && (z == 48 && (x == 88 || x == 120)) then s else z ∷ x ∷ s
skip_prefix base s = s

-- The digits up to the first character that is none, after those worth `acc`.
unfoldable pub digits_value : (base acc : ℕ) → Bytes → ℕ
digits_value base acc [] = acc
digits_value base acc (c ∷ s) =
    let rest = digits_value base (acc * base + digit_value c) s in
    if ltb (digit_value c) base then rest else acc

-- `LONG_MAX` is 2147483647 and `LONG_MIN` is its negation less one.
abbrev saturate : (negative : Bool) → ℕ → ℤ
saturate false n = if ltb n 2147483648 then pos n else pos 2147483647
saturate true n =
    if n == 0 then pos 0 else if ltb n 2147483648 then negsuc (n - 1) else negsuc 2147483647

signed : (base : ℕ) → Bytes → ℤ
unfolding skip_prefix digits_value
signed base [] = pos 0
signed base (c ∷ s) =
    if c == 45
    then saturate true (digits_value base 0 (skip_prefix base s))
    else if c == 43
    then saturate false (digits_value base 0 (skip_prefix base s))
    else saturate false (digits_value base 0 (skip_prefix base (c ∷ s)))

unfoldable pub strtol : (base : ℕ) → Bytes → ℤ
unfolding skip_spaces signed
strtol base s = signed base (skip_spaces s)

abbrev digit_char : ℕ → ℕ
digit_char d = if ltb d 10 then 48 + d else 55 + d

-- The last `width` digits of a number, capital letters after 9.
unfoldable pub fixed : (base width n : ℕ) → Bytes
fixed base zero n = []
fixed base (suc w) n = fixed base w (n / base) ++ digit_char (n % base) ∷ []

abbrev pub all_digits : (base : ℕ) → Bytes → Bool
all_digits base [] = true
all_digits base (c ∷ s) = ltb (digit_value c) base && all_digits base s

module _ (base : ℕ) (l : 2 ≤ base) (u : base ≤ 16) where
  all_digits-append :
      (xs : Bytes) (d : ℕ)
      → all_digits base xs ≡ true
      → d < base
      → all_digits base (xs ++ digit_char d ∷ []) ≡ true
  all_digits-append [] d e h = ground arith
  all_digits-append (x ∷ xs) d e h = ground (arith, all_digits-append xs d)

  pub all_digits-fixed : (w n : ℕ) → all_digits base (fixed base w n) ≡ true
  unfolding fixed
  all_digits-fixed zero n = refl
  all_digits-fixed (suc w) n =
      all_digits-append (fixed base w (n / base)) (n % base) (all_digits-fixed w (n / base))
        (mod-lt n (omega arith))

  digits_value-snoc :
      (acc : ℕ) (xs : Bytes) (d : ℕ)
      → all_digits base xs ≡ true
      → d < base
      → digits_value base acc (xs ++ digit_char d ∷ []) ≡ digits_value base acc xs * base + d
  unfolding digits_value
  digits_value-snoc acc [] d e h = ground arith
  digits_value-snoc acc (x ∷ xs) d e h =
      ground (arith, digits_value-snoc (acc * base + digit_value x) xs d)

  div-fits : (w n : ℕ) → n < base ^ suc w → n / base < base ^ w
  div-fits w n h =
      (div-lt_iff_lt-mul {k = base} {x = n} {y = base ^ w} (omega arith)).1
        (grind (arith, pow-suc base w))

  digits_value-fixed : (w n : ℕ) → n < base ^ w → digits_value base 0 (fixed base w n) ≡ n
  unfolding fixed digits_value
  digits_value-fixed zero n h = omega (arith, pow-zero base)
  digits_value-fixed (suc w) n h =
      digits_value-snoc 0 (fixed base w (n / base)) (n % base) (all_digits-fixed w (n / base))
        (mod-lt n (omega arith))
      ∙ ap (λ q. q * base + n % base) (digits_value-fixed w (n / base) (div-fits w n h))
      ∙ div-add-mod' n base

  signed-digits :
      (xs : Bytes)
      → all_digits base xs ≡ true
      → signed base xs ≡ saturate false (digits_value base 0 xs)
  unfolding signed digits_value skip_prefix
  signed-digits [] e = refl
  signed-digits (c ∷ []) e = ground arith
  signed-digits (c ∷ x ∷ s) e = ground arith

  skip_spaces-digits : (xs : Bytes) → all_digits base xs ≡ true → skip_spaces xs ≡ xs
  unfolding skip_spaces
  skip_spaces-digits [] e = refl
  skip_spaces-digits (c ∷ s) e = ground arith

  strtol-digits :
      (xs : Bytes)
      → all_digits base xs ≡ true
      → strtol base xs ≡ saturate false (digits_value base 0 xs)
  unfolding strtol
  strtol-digits xs e = ap (signed base) (skip_spaces-digits xs e) ∙ signed-digits xs e

  pub strtol-fixed :
      (w n : ℕ) → n < base ^ w → n < 2147483648 → strtol base (fixed base w n) ≡ pos n
  strtol-fixed w n h b =
      ground
        (arith, strtol-digits (fixed base w n) (all_digits-fixed w n), digits_value-fixed w n h)
