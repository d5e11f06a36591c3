-- ===== src/Base/Tables.antt =====
-- Statements over a small range, checked by evaluation.
use Prim.Native.Nat.{ℕ, zero, suc, ◌<◌}
use mathlib.Core.Path.{◌≡◌}
use mathlib.Core.Bool.{Bool, true, false}
use native.Mathlib.Omega.{arith}
use lychee_os.Base.Tests.{if◌then◌else◌}

-- The test holds for each number below the bound.
unfoldable pub every_below : (ℕ → Bool) → ℕ → Bool
every_below test zero = true
every_below test (suc top) = let rest = every_below test top in if test top then rest else false

pub every_below_entry :
    (test : ℕ → Bool) (bound x : ℕ) → x < bound → every_below test bound ≡ true → test x ≡ true
unfolding every_below
every_below_entry test zero x below all = absurd (omega arith)
every_below_entry test (suc top) x below all = ground (arith, every_below_entry test top x)
