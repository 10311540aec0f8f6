-- ===== src/Base/Runtime.antt =====
-- Go's float64 and time.Time. A float is known by its 64 bits and a time by its nanoseconds since
-- 1970; what the hardware and the standard library compute with them is the parameter `Go`.
use Prim.Native.Nat.{ℕ}
use Prim.Native.String.{String}
use mathlib.Core.Bool.{Bool}

abbrev pub Float : Type 0
Float = ℕ

abbrev pub Time : Type 0
Time = ℕ

-- An int64 is the number that it stands for; `negsuc n` is -(n + 1).
pub data Int64 : Type 0 where
  pos : ℕ → Int64
  negsuc : ℕ → Int64

pub record Go : Type 0 where
  -- the comparisons `a < b` and `a <= b`; both are false where an operand is a NaN
  pub lt : Float → Float → Bool
  pub le : Float → Float → Bool
  pub add : Float → Float → Float
  pub sub : Float → Float → Float
  pub mul : Float → Float → Float
  pub div : Float → Float → Float
  pub neg : Float → Float
  -- the float64 of an integer literal
  pub of_nat : ℕ → Float
  -- package math
  pub pi : Float
  pub sin : Float → Float
  pub cos : Float → Float
  pub sqrt : Float → Float
  pub atan2 : Float → Float → Float
  -- now.Format(time.RFC3339)
  pub rfc3339 : Time → String
  -- int64(now.Sub(start).Seconds())
  pub whole_seconds : Time → Time → Int64
