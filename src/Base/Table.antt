-- ===== src/Base/Table.antt =====
-- Facts about small ranges of numbers, by evaluation of every value.
use Prim.Native.Nat.{ℕ, zero, suc, ◌<◌}
use mathlib.Core.Path.{◌≡◌}
use mathlib.Core.Bool.{Bool, true, false}
use native.Mathlib.Omega.{arith}
use zerofido.Base.Tests.{if◌then◌else◌}

-- Whether a test succeeds at every number below a bound.
unfoldable pub holds_below : (ℕ → Bool) → ℕ → Bool
holds_below test zero = true
holds_below test (suc bound) = if test bound then holds_below test bound else false

pub holds_below-at :
    (test : ℕ → Bool) (bound : ℕ) {i : ℕ}
    → i < bound
    → holds_below test bound ≡ true
    → test i ≡ true
unfolding holds_below
holds_below-at test zero below h = absurd (omega arith)
holds_below-at test (suc bound) {i = i} below h = ground (arith, holds_below-at test bound {i = i})
