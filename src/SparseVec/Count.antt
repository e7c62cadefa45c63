-- ===== src/SparseVec/Count.antt =====
-- The count of the bits of a word that has at most one bit set.
use clib.Common.{
  ℕ, zero, suc, ◌-◌, ◌^◌, ◌<◌, ◌≡◌, refl, ap, true, not, ◌==◌, bit_and, arith, holds_upto,
  holds_upto-apply, to_ℕ, pow-pos,
}
use clib.Bits.{bit}
use clib.Bits.Logic.{bit-and, bit-beyond, bit-zero_left, lt_of_bits, bit_and-lt}
use clib.Bits.Shift.{bit-pow}
use clib.Word.{IsWord, sub, shr, add}
use clib.Word.Digits.{word_ext}
use clib.Bitops.{is_pow2, count_set_bits, sum_pairs, sum_nibbles, sum_bytes, fold_down}
use clib.Bitops.FirstSet.{IsLowest, find-IsLowest, lowest_digit, pow-lt}

-- A word that has no set bit with the word below it is zero or a power of two.
pow_of_is_pow2 : (x k : ℕ) → 0 < x → IsWord x → IsLowest x k → k < 64 → is_pow2 x ≡ true → x ≡ 2 ^ k
unfolding is_pow2 sub
pow_of_is_pow2 x k pos h l lt e = word_ext x (2 ^ k) h (pow-lt k 64 lt) λ i hi. ground (
  arith,
  lowest_digit k x i l,
  bit-and x (x - 1) i,
  ap (λ t. bit t i) none,
  bit-zero_left i,
  bit-pow k i,
)
  where
    none : bit_and x (x - 1) ≡ 0
    none = let same : sub x 1 ≡ x - 1 = omega arith in ground (arith, e, ap (bit_and x) same)

pow_counts : (k : ℕ) → k < 64 → (count_set_bits (2 ^ k) == 1) ≡ true
unfolding count_set_bits sum_pairs sum_nibbles sum_bytes fold_down holds_upto add sub shr
pow_counts k h = holds_upto-apply (λ k. count_set_bits (2 ^ k) == 1) 64 refl k h

none_set : count_set_bits 0 ≡ 0
unfolding count_set_bits sum_pairs sum_nibbles sum_bytes fold_down add sub shr
none_set = refl

pub count-is_pow2 : (x : ℕ) → IsWord x → is_pow2 x ≡ true → count_set_bits x ≡ to_ℕ (not (x == 0))
count-is_pow2 zero h e = none_set
count-is_pow2 (suc y) h e =
    let (k, hk, l) = find-IsLowest 64 (suc y) (omega arith) h in
    let same = pow_of_is_pow2 (suc y) k (omega arith) h l hk e in
    rw same (ground (arith, pow_counts k hk, pow-pos k))

low_bits-lt : (a : ℕ) → IsWord a → bit_and a 127 < 128
low_bits-lt a h =
    lt_of_bits 64 7 (bit_and a 127) (bit_and-lt 64 a 127 h (omega arith))
      (λ i hi. ground (arith, bit-and a 127 i, bit-beyond 7 127 i (omega arith) hi))

pub count_set_bits-lt : (x : ℕ) → count_set_bits x < 128
unfolding count_set_bits fold_down add
count_set_bits-lt x = low_bits-lt _ (omega arith)
