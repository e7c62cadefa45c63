-- ===== src/Bits/Logic.antt =====
-- `bit_and`, `bit_or` and `bit_xor` digit by digit.
use Prim.Native.Nat.{digits, differ, bit_and-bitwise, bit_or-bitwise, bit_xor-bitwise}
use clib.Common.{
  ℕ, zero, suc, ◌+◌, ◌*◌, ◌/◌, ◌%◌, ◌<◌, ◌≤◌, ◌^◌, min, max, bit_and, bit_or, bit_xor, ◌≡◌, refl,
  Bool, false, ◌&&◌, ◌||◌, xor, arith, ◌==◌, ap, sym, ◌∙◌,
}
use native.Mathlib.Nat.{pow-suc, one-le-pow}
use mathlib.Core.Path.{ap₂}
use mathlib.Core.Bool.{not-not}
use clib.Bits.{odd, bit}

pub bit-zero_left : (i : ℕ) → bit 0 i ≡ false
unfolding bit
bit-zero_left zero = refl
bit-zero_left (suc i) = bit-zero_left i

-- The lowest digit put in front.
pub bit-double_zero : (x d : ℕ) → d < 2 → bit (x * 2 + d) 0 ≡ odd d
unfolding bit
bit-double_zero x d h = ap (λ t. t == 1) (omega arith)

pub bit-double_suc : (x d i : ℕ) → d < 2 → bit (x * 2 + d) (suc i) ≡ bit x i
unfolding bit
bit-double_suc x d i h = ap (λ t. bit t i) (omega arith)

pub odd-mod : (a : ℕ) → odd (a % 2) ≡ odd a
odd-mod a = ap (λ t. t == 1) (omega arith)

-- A native operation is a recursion on digits by `f`, with `z` where the first number ends.
module _ (z : ℕ → ℕ) (f : ℕ → ℕ → ℕ) (g : Bool → Bool → Bool)
    (ends : (b i : ℕ) → bit (z b) i ≡ g false (bit b i))
    (fits : (a b : ℕ) → a < 2 → b < 2 → f a b < 2)
    (works : (a b : ℕ) → a < 2 → b < 2 → odd (f a b) ≡ g (odd a) (odd b)) where
  from_zero : (b i : ℕ) → bit (z b) i ≡ g (bit 0 i) (bit b i)
  from_zero b i = rw (bit-zero_left i) (ends b i)

  bit-digits : (n a b i : ℕ) → a ≤ n → bit (digits z f n a b) i ≡ g (bit a i) (bit b i)
  unfolding bit
  bit-digits zero zero b i h = from_zero b i
  bit-digits zero (suc a) b i h = absurd (omega arith)
  bit-digits (suc n) zero b i h = from_zero b i
  bit-digits (suc n) (suc a) b zero h =
      bit-double_zero (digits z f n (suc a / 2) (b / 2)) (f (suc a % 2) (b % 2))
        (fits (suc a % 2) (b % 2) (omega arith) (omega arith))
      ∙ works (suc a % 2) (b % 2) (omega arith) (omega arith)
      ∙ ap₂ g (odd-mod (suc a)) (odd-mod b)
  bit-digits (suc n) (suc a) b (suc i) h =
      bit-double_suc (digits z f n (suc a / 2) (b / 2)) (f (suc a % 2) (b % 2)) i
        (fits (suc a % 2) (b % 2) (omega arith) (omega arith))
      ∙ bit-digits n (suc a / 2) (b / 2) i (omega arith)

-- A fact about two digits is checked at the four pairs.
two_digits {ℓ} :
    (P : ℕ → ℕ → Type ℓ) → P 0 0 × P 0 1 × P 1 0 × P 1 1 → (a b : ℕ) → a < 2 → b < 2 → P a b
two_digits P h zero zero p q = h.0
two_digits P h zero (suc zero) p q = h.1
two_digits P h (suc zero) zero p q = h.2
two_digits P h (suc zero) (suc zero) p q = h.3
two_digits P h (suc (suc a)) b p q = absurd (omega arith)
two_digits P h a (suc (suc b)) p q = absurd (omega arith)

pub bit-and : (a b i : ℕ) → bit (bit_and a b) i ≡ (bit a i && bit b i)
bit-and a b i = rw bit_and-bitwise (
    bit-digits (λ b. 0) min ◌&&◌ (λ b i. bit-zero_left i)
      (two_digits (λ a b. min a b < 2) (omega arith))
      (two_digits (λ a b. odd (min a b) ≡ (odd a && odd b)) (refl, refl, refl, refl)) a a b i
      (omega arith))

pub bit-or : (a b i : ℕ) → bit (bit_or a b) i ≡ (bit a i || bit b i)
bit-or a b i = rw bit_or-bitwise (
    bit-digits (λ b. b) max ◌||◌ (λ b i. refl) (two_digits (λ a b. max a b < 2) (omega arith))
      (two_digits (λ a b. odd (max a b) ≡ (odd a || odd b)) (refl, refl, refl, refl)) a a b i
      (omega arith))

pub bit-xor : (a b i : ℕ) → bit (bit_xor a b) i ≡ xor (bit a i) (bit b i)
unfolding xor
bit-xor a b i = rw bit_xor-bitwise (
    bit-digits (λ b. b) differ xor (λ b i. sym (not-not (bit b i)))
      (two_digits (λ a b. differ a b < 2) (omega arith))
      (two_digits (λ a b. odd (differ a b) ≡ xor (odd a) (odd b)) (refl, refl, refl, refl)) a a b i
      (omega arith))

-- The operations stay within `w` digits.
digits-lt :
    (z : ℕ → ℕ) (f : ℕ → ℕ → ℕ)
    → ((b : ℕ) → z b ≤ b)
    → ((a b : ℕ) → a < 2 → b < 2 → f a b < 2)
    → (n w a b : ℕ) → a < 2 ^ w
    → b < 2 ^ w
    → digits z f n a b < 2 ^ w
digits-lt z f hz hf zero w a b p q = omega (arith, hz b)
digits-lt z f hz hf (suc n) w zero b p q = omega (arith, hz b)
digits-lt z f hz hf (suc n) zero (suc a) b p q = absurd (omega arith)
digits-lt z f hz hf (suc n) (suc w) (suc a) b p q = omega (
  arith,
  pow-suc 2 w,
  hf (suc a % 2) (b % 2) (omega arith) (omega arith),
  digits-lt z f hz hf n w (suc a / 2) (b / 2) (omega (arith, pow-suc 2 w))
      (omega (arith, pow-suc 2 w)),
)

pub bit_and-lt : (w a b : ℕ) → a < 2 ^ w → b < 2 ^ w → bit_and a b < 2 ^ w
bit_and-lt w a b p q = rw bit_and-bitwise (
    digits-lt (λ b. 0) min (λ b. omega arith) (two_digits (λ a b. min a b < 2) (omega arith)) a w a
      b p q)

digits-le : (n a b : ℕ) → digits (λ b. 0) min n a b ≤ b
digits-le zero a b = omega arith
digits-le (suc n) zero b = omega arith
digits-le (suc n) (suc a) b = omega (arith, digits-le n (suc a / 2) (b / 2))

pub bit_and-le : (a b : ℕ) → bit_and a b ≤ b
bit_and-le a b = rw bit_and-bitwise (digits-le a a b)

pub bit_or-lt : (w a b : ℕ) → a < 2 ^ w → b < 2 ^ w → bit_or a b < 2 ^ w
bit_or-lt w a b p q = rw bit_or-bitwise (
    digits-lt (λ b. b) max (λ b. omega arith) (two_digits (λ a b. max a b < 2) (omega arith)) a w a
      b p q)

pub bit_xor-lt : (w a b : ℕ) → a < 2 ^ w → b < 2 ^ w → bit_xor a b < 2 ^ w
bit_xor-lt w a b p q = rw bit_xor-bitwise (
    digits-lt (λ b. b) differ (λ b. omega arith) (two_digits (λ a b. differ a b < 2) (omega arith))
      a w a b p q)

-- Numbers of `w` digits are equal if their digits are.
pub bit_ext : (w a b : ℕ) → a < 2 ^ w → b < 2 ^ w → ((i : ℕ) → i < w → bit a i ≡ bit b i) → a ≡ b
unfolding bit
bit_ext zero a b ha hb h = omega arith
bit_ext (suc w) a b ha hb h = omega (
  arith,
  lowest,
  bit_ext w (a / 2) (b / 2) (omega (arith, pow-suc 2 w)) (omega (arith, pow-suc 2 w))
      (λ i hi. h (suc i) (omega arith)),
)
  where
    lowest : a % 2 ≡ b % 2
    lowest = let e : (a % 2 == 1) ≡ (b % 2 == 1) = h 0 (omega arith) in ground arith

-- Above the leading digit all digits are zero.
pub bit-beyond : (w a i : ℕ) → a < 2 ^ w → w ≤ i → bit a i ≡ false
unfolding bit
bit-beyond zero a i h hi = let e : a ≡ 0 = omega arith in rw e (bit-zero_left i)
bit-beyond (suc w) a zero h hi = absurd (omega arith)
bit-beyond (suc w) a (suc i) h hi =
    bit-beyond w (a / 2) i (omega (arith, pow-suc 2 w)) (omega arith)

-- A number of digits that are zero from `w` on is below `2 ^ w`.
pub lt_of_bits : (v w a : ℕ) → a < 2 ^ v → ((i : ℕ) → w ≤ i → bit a i ≡ false) → a < 2 ^ w
unfolding bit
lt_of_bits zero w a h z = omega (arith, one-le-pow w 2)
lt_of_bits (suc v) zero a h z =
    let e : (a % 2 == 1) ≡ false = z 0 (omega arith) in
    ground (
      arith,
      pow-suc 2 v,
      lt_of_bits v zero (a / 2) (omega (arith, pow-suc 2 v)) (λ i hi. z (suc i) (omega arith)),
    )
lt_of_bits (suc v) (suc w) a h z = omega (
  arith,
  pow-suc 2 w,
  pow-suc 2 v,
  lt_of_bits v w (a / 2) (omega (arith, pow-suc 2 v)) (λ i hi. z (suc i) (omega arith)),
)
