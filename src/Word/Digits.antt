-- ===== src/Word/Digits.antt =====
-- The word operations digit by digit.
use clib.Common.{
  ℕ, ◌+◌, ◌-◌, ◌*◌, ◌<◌, ◌≤◌, ◌^◌, ◌≡◌, not, ◌&&◌, arith, ltb, ◌==◌, ap, ◌∙◌, bit_and, bit_or,
  bit_xor, false,
}
use clib.Bits.{odd, bit}
use clib.Bits.Logic.{bit-and, bit_and-lt, bit_or-lt, bit_xor-lt, bit_ext, bit-beyond, lt_of_bits}
use clib.Bits.Shift.{bit-shr, bit-shl, bit-mod, bit-pow, bit-not}
use clib.Word.{IsWord, complement, shl, shr}
use native.Mathlib.Nat.{div-le_self}

pub bit-shr_word : (a k i : ℕ) → bit (shr a k) i ≡ bit a (k + i)
unfolding shr
bit-shr_word a k i = bit-shr k a i

pub bit-shl_word : (a k i : ℕ) → bit (shl a k) i ≡ (ltb i 64 && (not (ltb i k) && bit a (i - k)))
unfolding shl
bit-shl_word a k i = bit-mod 64 (a * 2 ^ k) i ∙ ap (λ t. ltb i 64 && t) (bit-shl k a i)

pub bit-complement : (a i : ℕ) → IsWord a → bit (complement a) i ≡ (ltb i 64 && not (bit a i))
unfolding complement
bit-complement a i h = bit-not 64 a i h

pub bit-word_beyond : (a i : ℕ) → IsWord a → 64 ≤ i → bit a i ≡ false
bit-word_beyond a i h hi = bit-beyond 64 a i h hi

-- `(uword) 1 << k`
pub bit-one_shl : (k i : ℕ) → k < 64 → bit (shl 1 k) i ≡ (i == k)
unfolding shl
bit-one_shl k i h =
    ap (λ t. bit t i) (omega arith) ∙ bit-mod 64 (2 ^ k) i ∙ rw (bit-pow k i) (ground arith)

-- `((x >> i) & 1) != 0` is digit `i`.
pub bit_test : (a : ℕ) → IsWord a → not (bit_and a 1 == 0) ≡ bit a 0
unfolding bit
bit_test a h = ground (arith, lowest, small)
  where
    small : bit_and a 1 < 2 ^ 1
    small =
        lt_of_bits 64 1 (bit_and a 1) (bit_and-lt 64 a 1 h (omega arith))
          λ i hi. bit-and a 1 i ∙ rw (bit-beyond 1 1 i (omega arith) hi) (ground arith)

    lowest : odd (bit_and a 1) ≡ odd a
    lowest = bit-and a 1 0 ∙ ground arith

pub complement-IsWord : (a : ℕ) → IsWord (complement a)
unfolding complement
complement-IsWord a = omega arith

pub shl-IsWord : (a k : ℕ) → IsWord (shl a k)
unfolding shl
shl-IsWord a k = omega arith

pub shr-IsWord : (a k : ℕ) → IsWord a → IsWord (shr a k)
unfolding shr
shr-IsWord a k h = omega (arith, div-le_self a (2 ^ k))

pub and-IsWord : (a b : ℕ) → IsWord a → IsWord b → IsWord (bit_and a b)
and-IsWord = bit_and-lt 64

pub or-IsWord : (a b : ℕ) → IsWord a → IsWord b → IsWord (bit_or a b)
or-IsWord = bit_or-lt 64

pub xor-IsWord : (a b : ℕ) → IsWord a → IsWord b → IsWord (bit_xor a b)
xor-IsWord = bit_xor-lt 64

-- Words are equal if their 64 digits are.
pub word_ext : (a b : ℕ) → IsWord a → IsWord b → ((i : ℕ) → i < 64 → bit a i ≡ bit b i) → a ≡ b
word_ext = bit_ext 64
