-- ===== src/Gnss/Fix.antt =====
-- app/src/fix.h: a position fix, whichever receiver produced it; over the types of C's `double` and
-- `float`, of which the code uses the operations of `Floats` only.
use Prim.Native.String.{String}
use hologram_nrf9151_gps_tra.Common.{ℕ, ℤ}

-- `enum tracker_fix_source`.
pub data FixSource : Type 0 where
  from_modem from_external : FixSource

-- `struct tracker_fix`.
pub record TrackerFix (D F : Type 0) : Type 0 where
  pub latitude : D
  pub longitude : D
  pub altitude : F
  pub accuracy : F
  pub speed : F
  pub heading : F
  pub hdop : F
  pub satellites : ℕ
  pub source : FixSource

-- Conversions from `int`, divisions, and the product of two floats.
pub record Floats (D F : Type 0) : Type 0 where
  pub double_of : ℤ → D
  pub float_of : ℤ → F
  pub double_div : D → D → D
  pub float_div : F → F → F
  pub float_mul : F → F → F

unfoldable pub tracker_fix_source_name : FixSource → String
tracker_fix_source_name from_external = "external"
tracker_fix_source_name from_modem = "modem"
