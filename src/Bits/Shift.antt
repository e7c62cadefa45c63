-- ===== src/Bits/Shift.antt =====
-- Shifts, masks, remainders and complements digit by digit.
use native.Mathlib.Nat.{
  pow-suc, one-le-pow, div-div-eq-div-mul, mul_comm, mod-eq_of_lt, add-mul-mod_self_left,
  div-add-mod, mod-lt,
}
use clib.Common.{
  ℕ, zero, suc, ◌+◌, ◌-◌, ◌*◌, ◌/◌, ◌%◌, ◌<◌, ◌^◌, ◌≡◌, refl, not, ◌&&◌, arith, ◌==◌, ltb, ap, ◌∙◌,
}
use clib.Bits.{bit}
use clib.Bits.Logic.{bit-zero_left, bit-double_zero, bit-double_suc}

div-pow-suc : (a k : ℕ) → a / 2 ^ suc k ≡ a / 2 / 2 ^ k
div-pow-suc a k = rw (div-div-eq-div-mul, pow-suc) (ap (λ t. a / t) (mul_comm (2 ^ k) 2))

-- `a >> k`
pub bit-shr : (k a i : ℕ) → bit (a / 2 ^ k) i ≡ bit a (k + i)
unfolding bit
bit-shr zero a i = let p : a / 1 ≡ a = omega arith in let q : 0 + i ≡ i = omega arith in rw (p, q)
bit-shr (suc k) a i =
    let q : suc k + i ≡ suc (k + i) = omega arith in rw (q, div-pow-suc a k) (bit-shr k (a / 2) i)

shl-suc : (k a : ℕ) → a * 2 ^ suc k ≡ a * 2 ^ k * 2 + 0
shl-suc k a = omega (arith, ap (λ (t : ℕ). a * t) (pow-suc 2 k))

-- `a << k`, before the word cuts it off
pub bit-shl : (k a i : ℕ) → bit (a * 2 ^ k) i ≡ (not (ltb i k) && bit a (i - k))
bit-shl zero a i =
    let p : a * 1 ≡ a = omega arith in let q : i - 0 ≡ i = omega arith in rw (p, q) (ground arith)
bit-shl (suc k) a zero =
    rw (shl-suc k a) (bit-double_zero (a * 2 ^ k) 0 (omega arith) ∙ ground arith)
bit-shl (suc k) a (suc i) =
    let q : suc i - suc k ≡ i - k = omega arith in
    rw (shl-suc k a, q)
      (bit-double_suc (a * 2 ^ k) 0 i (omega arith) ∙ bit-shl k a i ∙ ground arith)

pub mod-pow-suc : (w a : ℕ) → a % 2 ^ suc w ≡ a / 2 % 2 ^ w * 2 + a % 2
mod-pow-suc w a =
    ap (λ t. t % 2 ^ suc w) split
    ∙ add-mul-mod_self_left (a / 2 % 2 ^ w * 2 + a % 2) (2 ^ suc w) (a / 2 / 2 ^ w)
    ∙ mod-eq_of_lt small
  where
    split : a ≡ a / 2 % 2 ^ w * 2 + a % 2 + 2 ^ suc w * (a / 2 / 2 ^ w)
    split =
        omega
          (arith, div-add-mod (a / 2) (2 ^ w), ap (λ (t : ℕ). t * (a / 2 / 2 ^ w)) (pow-suc 2 w))

    small : a / 2 % 2 ^ w * 2 + a % 2 < 2 ^ suc w
    small = omega (arith, pow-suc 2 w, mod-lt (a / 2) {m = 2 ^ w} (one-le-pow w 2 (omega arith)))

-- what a word of `w` bits keeps
pub bit-mod : (w a i : ℕ) → bit (a % 2 ^ w) i ≡ (ltb i w && bit a i)
bit-mod zero a i = let p : a % 1 ≡ 0 = omega arith in rw p (bit-zero_left i ∙ ground arith)
bit-mod (suc w) a zero =
    rw mod-pow-suc
      (bit-double_zero (a / 2 % 2 ^ w) (a % 2) (omega arith) ∙ unfold bit in ground arith)
bit-mod (suc w) a (suc i) = rw mod-pow-suc (
    bit-double_suc (a / 2 % 2 ^ w) (a % 2) i (omega arith)
    ∙ bit-mod w (a / 2) i
    ∙ unfold bit in ground arith)

mask-suc : (n : ℕ) → 2 ^ suc n - 1 ≡ (2 ^ n - 1) * 2 + 1
mask-suc n = omega (arith, pow-suc 2 n, one-le-pow n 2)

pow-twice : (n : ℕ) → 2 ^ suc n ≡ 2 ^ n * 2 + 0
pow-twice n = omega (arith, pow-suc 2 n)

pub bit-mask : (n i : ℕ) → bit (2 ^ n - 1) i ≡ ltb i n
bit-mask zero i = bit-zero_left i ∙ ground arith
bit-mask (suc n) zero = rw (mask-suc n) (bit-double_zero (2 ^ n - 1) 1 (omega arith) ∙ ground arith)
bit-mask (suc n) (suc i) =
    rw (mask-suc n) (bit-double_suc (2 ^ n - 1) 1 i (omega arith) ∙ bit-mask n i ∙ ground arith)

pub bit-pow : (n i : ℕ) → bit (2 ^ n) i ≡ (i == n)
unfolding bit
bit-pow zero zero = refl
bit-pow zero (suc i) = bit-zero_left i ∙ ground arith
bit-pow (suc n) zero = rw (pow-twice n) (bit-double_zero (2 ^ n) 0 (omega arith) ∙ ground arith)
bit-pow (suc n) (suc i) =
    rw (pow-twice n) (bit-double_suc (2 ^ n) 0 i (omega arith) ∙ bit-pow n i ∙ ground arith)

not-suc : (w a : ℕ) → a < 2 ^ suc w → 2 ^ suc w - 1 - a ≡ (2 ^ w - 1 - a / 2) * 2 + (1 - a % 2)
not-suc w a h = omega (arith, pow-suc 2 w, one-le-pow w 2)

-- `~a` in a word of `w` bits
pub bit-not : (w a i : ℕ) → a < 2 ^ w → bit (2 ^ w - 1 - a) i ≡ (ltb i w && not (bit a i))
bit-not zero a i h = let p : 1 - 1 - a ≡ 0 = omega arith in rw p (bit-zero_left i ∙ ground arith)
bit-not (suc w) a zero h =
    rw (not-suc w a h)
      (bit-double_zero (2 ^ w - 1 - a / 2) (1 - a % 2) (omega arith) ∙ unfold bit in ground arith)
bit-not (suc w) a (suc i) h = rw (not-suc w a h) (
    bit-double_suc (2 ^ w - 1 - a / 2) (1 - a % 2) i (omega arith)
    ∙ bit-not w (a / 2) i (omega (arith, pow-suc 2 w))
    ∙ unfold bit in ground arith)
