-- ===== src/Base/Time.antt =====
-- Times and durations, in milliseconds. The program's `time.time()` is a float of seconds.
use Prim.Native.Nat.{ℕ, ◌*◌}

abbrev pub seconds : ℕ → ℕ
seconds n = 1000 * n
