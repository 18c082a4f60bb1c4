-- ===== src/Prelude/Finite.antt =====
-- A test at all numbers below a bound.
use Prim.Native.Nat.{ℕ, zero, suc, ◌<◌}
use mathlib.Core.Path.{◌≡◌}
use mathlib.Core.Bool.{Bool, true, ◌&&◌}
use mathlib.Core.Logic.{inl, inr}
use native.Mathlib.Omega.{arith}
use goencode.Prelude.Tests.{leb, Bool-cases}

unfoldable pub passes_below : (ℕ → Bool) → ℕ → Bool
passes_below test zero = true
passes_below test (suc last) = passes_below test last && test last

pub passes_below_lem :
    (test : ℕ → Bool) (bound : ℕ)
    → passes_below test bound ≡ true
    → (i : ℕ) → i < bound
    → test i ≡ true
unfolding passes_below
passes_below_lem test zero all i below = absurd (omega arith)
passes_below_lem test (suc last) all i below = elim (Bool-cases (leb last i)) [
  | inl latest ↦ ground (arith, latest)
  | inr earlier ↦ passes_below_lem test last (ground arith) i (ground (arith, earlier))
]
