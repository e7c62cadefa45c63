-- ===== src/ByteOrder/Bytes.antt =====
-- Loads of what was stored, and `|` of numbers with no digit in common.
use clib.Common.{
  ℕ, zero, suc, ◌+◌, ◌-◌, ◌*◌, ◌/◌, ◌%◌, ◌^◌, ◌<◌, ◌≡◌, refl, ap, ◌∙◌, length, bit_or, arith,
  pow-add, pow-pos, ltb, if◌then◌else◌,
}
use clib.Bits.{bit}
use clib.Bits.Logic.{bit_ext, bit-or, bit_or-lt, bit-beyond}
use clib.Bits.Shift.{bit-shl, bit-mod, bit-shr}
use clib.ByteOrder.{store, load}
use native.Mathlib.Decide.{dec_lt}
use native.Mathlib.Nat.{mul-add-mod_self_right, mod-eq_of_lt, mul-add-div_right, div-eq_of_lt}

pub length-store : (n x : ℕ) → length (store n x) ≡ n
unfolding store
length-store zero x = refl
length-store (suc n) x = ap suc (length-store n (x / 256))

pub load-store : (n x : ℕ) → x < 2 ^ (8 * n) → load (store n x) ≡ x
unfolding store load
load-store zero x h = omega arith
load-store (suc n) x h = omega (arith, load-store n (x / 256) (omega (arith, wide)))
  where
    wide : 2 ^ (8 * suc n) ≡ 256 * 2 ^ (8 * n)
    wide = let e : 8 * suc n ≡ 8 * n + 8 = omega arith in rw (e, pow-add (8 * n) 8) (omega arith)

-- The digits of two numbers side by side.
pub bit-beside :
    (a b k i : ℕ) → b < 2 ^ k → bit (a * 2 ^ k + b) i ≡ (if ltb i k then bit b i else bit a (i - k))
bit-beside a b k i h = elim (dec_lt i k) [
  | yes p ↦ ground (arith, bit-mod k (a * 2 ^ k + b) i, ap (λ (t : ℕ). bit t i) rest)
  | no p ↦ ground (
    arith,
    bit-shr k (a * 2 ^ k + b) (i - k),
    ap (λ (t : ℕ). bit t (i - k)) front,
    ap (λ (t : ℕ). bit (a * 2 ^ k + b) t) (back p),
  )
]
  where
    rest : (a * 2 ^ k + b) % 2 ^ k ≡ b
    rest = mul-add-mod_self_right a (2 ^ k) b ∙ mod-eq_of_lt h

    front : (a * 2 ^ k + b) / 2 ^ k ≡ a
    front = mul-add-div_right (pow-pos k) a b ∙ omega (arith, div-eq_of_lt h)

    back : ¬ (i < k) → k + (i - k) ≡ i
    back p = omega arith

-- `|` of numbers side by side is their sum.
pub or-beside :
    (w a b k : ℕ) → b < 2 ^ k → a * 2 ^ k + b < 2 ^ w → bit_or (a * 2 ^ k) b ≡ a * 2 ^ k + b
or-beside w a b k h lt = bit_ext w _ _ (bit_or-lt w _ _ (omega arith) (omega arith)) lt (λ i hi.
    bit-or (a * 2 ^ k) b i
    ∙ ground (arith, bit-shl k a i, bit-beside a b k i h, bit-beyond k b i h))
