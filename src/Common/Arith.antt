-- ===== src/Common/Arith.antt =====
-- Powers of two, and tables of small numbers checked by evaluation.
use Prim.Native.Nat.{ℕ, zero, suc, ◌+◌, ◌*◌, ◌<◌, ◌^◌}
use mathlib.Core.Path.{◌≡◌, ap}
use mathlib.Core.Bool.{Bool, true, false}
use native.Mathlib.Decide.{ℕ_discrete}
use mathlib.Core.Logic.{inl, inr}
use clib.Common.Tests.{Bool-cases, if◌then◌else◌}
use native.Mathlib.Nat.{pow-suc, one-le-pow}
use native.Mathlib.Omega.{arith}

pub pow-add : (a b : ℕ) → 2 ^ (a + b) ≡ 2 ^ a * 2 ^ b
pow-add a zero = let e : a + 0 ≡ a = omega arith in rw e (omega arith)
pow-add a (suc b) =
    let e : a + suc b ≡ suc (a + b) = omega arith in
    rw e (omega (arith, pow-suc 2 (a + b), pow-add a b, ap (λ (t : ℕ). 2 ^ a * t) (pow-suc 2 b)))

pub pow-pos : (a : ℕ) → 0 < 2 ^ a
pow-pos a = one-le-pow a 2 (omega arith)

-- Whether a test holds at each number from 0 to `bound - 1`.
unfoldable pub holds_upto : (ℕ → Bool) → ℕ → Bool
holds_upto test zero = true
holds_upto test (suc bound) = if test bound then holds_upto test bound else false

pub holds_upto-apply :
    (test : ℕ → Bool) (bound : ℕ)
    → holds_upto test bound ≡ true
    → (m : ℕ) → m < bound
    → test m ≡ true
unfolding holds_upto
holds_upto-apply test zero all m under = absurd (omega arith)
holds_upto-apply test (suc bound) all m under = elim (Bool-cases (test bound)) [
  | inl e ↦ elim (ℕ_discrete m bound) [
    | yes same ↦ rw same e
    | no other ↦ holds_upto-apply test bound (rw e at all) m (omega arith)
  ]
  | inr e ↦ let c : false ≡ true = rw e at all in cc
]
