-- ===== src/Base/Tables.antt =====
-- Tests of every number below a bound, by evaluation.
use Prim.Native.Nat.{ℕ, zero, suc, ◌<◌}
use mathlib.Core.Path.{◌≡◌}
use mathlib.Core.Bool.{Bool, true, ◌&&◌}
use native.Mathlib.Omega.{arith}

unfoldable pub all_below : ℕ → (ℕ → Bool) → Bool
all_below zero p = true
all_below (suc n) p = p n && all_below n p

pub all_below_lem : (n : ℕ) (p : ℕ → Bool) (x : ℕ) → all_below n p ≡ true → x < n → p x ≡ true
unfolding all_below
all_below_lem zero p x h lt = absurd (omega (arith, lt))
all_below_lem (suc n) p x h lt = ground (arith, all_below_lem n p x)
