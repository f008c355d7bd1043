-- ===== src/Common/Int.antt =====
-- C's `int`, as the integer that it stands for, and the errno values (newlib's) in the negative form
-- in which the code returns them.
use Prim.Native.Nat.{ℕ, suc, ◌+◌, ◌-◌}
use mathlib.Core.Bool.{Bool, true, false, not}
use hologram_nrf9151_gps_tra.Common.Tests.{leb, ltb, ◌==◌, if◌then◌else◌}

-- `negsuc n` is -(n + 1).
pub data ℤ : Type 0 where
  pos : ℕ → ℤ
  negsuc : ℕ → ℤ

abbrev pub pos_part : ℤ → ℕ
pos_part (pos n) = n
pos_part (negsuc n) = 0

abbrev pub neg_part : ℤ → ℕ
neg_part (pos n) = 0
neg_part (negsuc n) = suc n

-- a - b, as an integer.
abbrev pub sub_ℕ : ℕ → ℕ → ℤ
sub_ℕ a b = if leb b a then pos (a - b) else negsuc (b - a - 1)

infixl 65 ◌+ℤ◌
abbrev pub ◌+ℤ◌ : ℤ → ℤ → ℤ
a +ℤ b = sub_ℕ (pos_part a + pos_part b) (neg_part a + neg_part b)

-- `a < b`.
abbrev pub ltb_ℤ : ℤ → ℤ → Bool
ltb_ℤ a b = ltb (pos_part a + neg_part b) (pos_part b + neg_part a)

-- `a == b`.
abbrev pub eqb_ℤ : ℤ → ℤ → Bool
eqb_ℤ (pos a) (pos b) = a == b
eqb_ℤ (negsuc a) (negsuc b) = a == b
eqb_ℤ _ _ = false

-- The truth value of `if (err)`.
abbrev pub is_err : ℤ → Bool
is_err (pos n) = not (n == 0)
is_err (negsuc n) = true

-- `err < 0` and `err > 0`.
abbrev pub is_neg : ℤ → Bool
is_neg (pos n) = false
is_neg (negsuc n) = true

abbrev pub is_pos : ℤ → Bool
is_pos (pos n) = not (n == 0)
is_pos (negsuc n) = false

abbrev pub ok : ℤ
ok = pos 0

-- -EIO
abbrev pub eio : ℤ
eio = negsuc 4

-- -EAGAIN
abbrev pub eagain : ℤ
eagain = negsuc 10

-- -ENOMEM
abbrev pub enomem : ℤ
enomem = negsuc 11

-- -EACCES
abbrev pub eacces : ℤ
eacces = negsuc 12

-- -ENODEV
abbrev pub enodev : ℤ
enodev = negsuc 18

-- -ETIMEDOUT
abbrev pub etimedout : ℤ
etimedout = negsuc 115

-- -EINPROGRESS
abbrev pub einprogress : ℤ
einprogress = negsuc 118

-- -EALREADY
abbrev pub ealready : ℤ
ealready = negsuc 119

-- -ENOTCONN
abbrev pub enotconn : ℤ
enotconn = negsuc 127

-- -ENOTSUP
abbrev pub enotsup : ℤ
enotsup = negsuc 133
