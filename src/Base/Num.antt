-- ===== src/Base/Num.antt =====
-- JavaScript numbers that come from outside: a natural number, a negative integer, or a value that
-- is no integer (a fraction, an infinity or NaN).
use Prim.Native.Nat.{ℕ}
use mathlib.Core.Option.{Option, none, some}
use my.Base.Tests.{leb, if◌then◌else◌}

-- `neg n` is -(n + 1).
pub data Num : Type 0 where
  nat : ℕ → Num
  neg : ℕ → Num
  other : Num

abbrev pub max_safe : ℕ
max_safe = 9007199254740991

-- `Number.isSafeInteger(x) && x >= 0`, with the number.
abbrev pub safe_nat : Num → Option ℕ
safe_nat (nat n) = if leb n max_safe then some n else none
safe_nat (neg n) = none
safe_nat other = none
