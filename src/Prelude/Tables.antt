-- ===== src/Prelude/Tables.antt =====
-- Over a small range, a test of every value by evaluation.
use Prim.Native.Nat.{ℕ, zero, suc, ◌<◌}
use mathlib.Core.Path.{◌≡◌}
use mathlib.Core.Bool.{Bool, true, false}
use native.Mathlib.Omega.{arith}
use telegram_rest_gateway.Prelude.Tests.{if◌then◌else◌}

-- The test holds of 0, 1, ... up to the limit.
unfoldable pub table : (ℕ → Bool) → ℕ → Bool
table test zero = true
table test (suc limit) = if test limit then table test limit else false

pub table-at : (test : ℕ → Bool) (limit i : ℕ) → i < limit → table test limit ≡ true → test i ≡ true
unfolding table
table-at test zero i below holds = absurd (omega arith)
table-at test (suc limit) i below holds = ground (arith, table-at test limit i)
