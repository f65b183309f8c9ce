-- ===== src/Base/Int.antt =====
-- Python integers that may be negative; the configuration's numbers are such.
use Prim.Native.Nat.{ℕ, max}

-- `negsuc n` is -(n + 1).
pub data ℤ : Type 0 where
  pos : ℕ → ℤ
  negsuc : ℕ → ℤ

-- max(floor, n), for a floor that is not negative.
abbrev pub at_least : ℕ → ℤ → ℕ
at_least floor (pos n) = max floor n
at_least floor (negsuc n) = floor
