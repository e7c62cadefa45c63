-- ===== src/Bitmap/ScanLaws.antt =====
-- The functions that search a bitmap, against its bits.
use clib.Common.{
  ℕ, ◌+◌, ◌*◌, ◌/◌, ◌%◌, ◌<◌, ◌≤◌, ◌≡◌, sym, ap, ◌∙◌, Bool, true, false, not, length, get_or, ltb,
  arith, Bool-cases, inl, inr,
}
use clib.Word.{all_ones, complement}
use clib.Word.Digits.{bit-complement, complement-IsWord}
use clib.Bitmap.{Bitmap, get}
use clib.Bitmap.Scan.{first_set, first_clear}
use clib.Bitmap.Search.{
  IsFirst, reads, scan-found, scan-none, first_set_from-scan, first_clear_from-scan, found_or,
}
use clib.Bitmap.View.{IsBitmap, get-bit, get_or-IsWord}
use native.Mathlib.Decide.{dec_lt}

-- The words as they are, and their complements, digit by digit.

abbrev pub same : ℕ → ℕ
same x = x

pub reads-same : (ai : Bitmap) (j : ℕ) → IsBitmap ai → reads same ai j ≡ get ai j
reads-same ai j h = sym (get-bit ai j h)

pub reads-complement : (ai : Bitmap) (j : ℕ) → IsBitmap ai → reads complement ai j ≡ not (get ai j)
reads-complement ai j h =
    bit-complement (get_or ai (j / 64) 0) (j % 64) (get_or-IsWord ai (j / 64) h)
    ∙ ground (arith, get-bit ai j h)

pub IsFirst-congr :
    (P Q : ℕ → Bool) (lo k : ℕ) → ((j : ℕ) → P j ≡ Q j) → IsFirst Q lo k → IsFirst P lo k
IsFirst-congr P Q lo k e h = record {
  holds = e k ∙ h.holds;
  from = h.from;
  before = λ j a b. e j ∙ h.before j a b;
}

pub inside : (ai : Bitmap) (k : ℕ) → get ai k ≡ true → k < length ai * 64
inside ai k h = elim (dec_lt k (length ai * 64)) [
  | yes p ↦ p
  | no p ↦ let c : true ≡ false = sym h ∙ unfold get in ground (arith, outside) in cc
]
  where
    outside : length ai * 64 ≤ k → ltb (k / 64) (length ai) ≡ false
    outside q = ground arith

from_start : (ai : Bitmap) (m : ℕ) → get_or ai m 0 ≡ get_or ai (0 + m) 0
from_start ai m = let e : 0 + m ≡ m = omega arith in rw e

-- In a bitmap of words, `clib_bitmap_first_set` is the lowest index of a set bit, and `~0` if no
-- bit is set.
pub first_set-lowest :
    (ai : Bitmap)
    → IsBitmap ai
    → ((k : ℕ) → IsFirst (get ai) 0 k → first_set ai ≡ k)
      × (((j : ℕ) → get ai j ≡ false) → first_set ai ≡ all_ones)
unfolding first_set
first_set-lowest ai h = (
  λ k first.
      first_set_from-scan ai ai 0 (from_start ai)
      ∙ ap (found_or all_ones) (
          scan-found same ai (λ j. get_or-IsWord ai j h) (length ai) 0 k
            (IsFirst-congr _ _ 0 k (λ j. reads-same ai j h) first)
            (omega (arith, inside ai k first.holds))),
  λ zero_bits.
      first_set_from-scan ai ai 0 (from_start ai)
      ∙ ap (found_or all_ones) (
          scan-none same ai (λ j. get_or-IsWord ai j h) (length ai) 0
            (λ j a b. reads-same ai j h ∙ zero_bits j)),
)

pub clear_beyond : (ai : Bitmap) (j : ℕ) → length ai * 64 ≤ j → get ai j ≡ false
clear_beyond ai j h = elim (Bool-cases (get ai j)) [
  | inl e ↦ absurd (omega (arith, inside ai j e))
  | inr e ↦ e
]

first_clear-end :
    (ai : Bitmap) (k : ℕ)
    → IsFirst (λ j. not (get ai j)) 0 k
    → length ai * 64 ≤ k
    → (0 + length ai) * 64 ≡ k
first_clear-end ai k first h = elim (dec_lt (length ai * 64) k) [
  | yes q ↦
      let c : true ≡ false =
        sym (ap not (clear_beyond ai (length ai * 64) (omega arith)))
        ∙ first.before (length ai * 64) (omega arith) q in
      cc
  | no q ↦ omega arith
]

-- In a bitmap of words, `clib_bitmap_first_clear` is the lowest index of a clear bit, which may be
-- the first past the end.
pub first_clear-lowest :
    (ai : Bitmap) (k : ℕ) → IsBitmap ai → IsFirst (λ j. not (get ai j)) 0 k → first_clear ai ≡ k
unfolding first_clear
first_clear-lowest ai k h first =
    first_clear_from-scan ai ai 0 (from_start ai) ∙ elim (dec_lt k (length ai * 64)) [
      | yes p ↦ ap (found_or ((0 + length ai) * 64)) (
          scan-found complement ai (λ j. complement-IsWord (get_or ai j 0)) (length ai) 0 k
            (IsFirst-congr _ _ 0 k (λ j. reads-complement ai j h) first) (omega arith))
      | no p ↦
          ap (found_or ((0 + length ai) * 64)) (
            scan-none complement ai (λ j. complement-IsWord (get_or ai j 0)) (length ai) 0
              (λ j a b. reads-complement ai j h ∙ first.before j a (omega arith)))
          ∙ first_clear-end ai k first (omega arith)
    ]
