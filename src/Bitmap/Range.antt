-- ===== src/Bitmap/Range.antt =====
-- clib/bitmap.h: the functions on several bits.
use clib.Common.{
  ℕ, zero, suc, ◌+◌, ◌-◌, ◌/◌, ◌%◌, Bool, not, ◌&&◌, length, get_or, set, ltb, ◌==◌, if◌then◌else◌,
  bit_and, bit_or, Option, none, some,
}
use clib.Word.{uword_bits, all_ones, sub, complement, shl, shr}
use clib.Bitops.{pow2_mask}
use clib.Bitmap.{Bitmap, vec_validate}

unfoldable pub get_multiple_no_check : Bitmap → ℕ → ℕ → Bool
get_multiple_no_check ai i n_bits =
    not (bit_and (shr (get_or ai (i / uword_bits) 0) (i % uword_bits)) (pow2_mask n_bits) == 0)

-- `(((uword) 1 << n_bits) - 1)`
unfoldable pub low_mask : ℕ → ℕ
low_mask n_bits = sub (shl 1 n_bits) 1

unfoldable pub get_multiple : Bitmap → ℕ → ℕ → ℕ
get_multiple bitmap i n_bits =
    let l = length bitmap in
    let i0 = i / uword_bits in
    let i1 = i % uword_bits in
    let first =
      if ltb i0 l
      then (if ltb n_bits uword_bits
          then bit_and (shr (get_or bitmap i0 0) i1) (low_mask n_bits)
          else shr (get_or bitmap i0 0) i1)
      else 0 in
    if ltb uword_bits (i1 + n_bits) && ltb (i0 + 1) l
    then bit_or first (
        shl (bit_and (get_or bitmap (i0 + 1) 0) (low_mask (n_bits - (uword_bits - i1))))
          (uword_bits - i1))
    else first

unfoldable pub set_multiple : Bitmap → ℕ → ℕ → ℕ → Bitmap
set_multiple bitmap i value n_bits =
    let i0 = i / uword_bits in
    let i1 = i % uword_bits in
    let b = vec_validate bitmap ((i + n_bits) / uword_bits) in
    let l = length b in
    let m = if ltb n_bits uword_bits then low_mask n_bits else all_ones in
    let v = bit_and value m in
    let b1 = set b i0 (bit_or (bit_and (get_or b i0 0) (complement (shl m i1))) (shl v i1)) in
    let t = uword_bits - i1 in
    if ltb uword_bits (i1 + n_bits) && ltb (i0 + 1) l
    then set b1 (i0 + 1)
        (bit_or (bit_and (get_or b1 (i0 + 1) 0) (complement (low_mask (n_bits - t)))) (shr v t))
    else b1

-- `if (value) bitmap[a0] |= mask; else bitmap[a0] &= ~mask;`
unfoldable pub mask_word : Bitmap → ℕ → ℕ → ℕ → Bitmap
mask_word bitmap a0 value mask = set bitmap a0 (
    if not (value == 0)
    then bit_or (get_or bitmap a0 0) mask
    else bit_and (get_or bitmap a0 0) (complement mask))

-- `for (a0++; a0 < b0; a0++)` with the number of rounds that are left.
unfoldable pub fill_words : ℕ → Bitmap → ℕ → ℕ → Bitmap
fill_words zero bitmap a0 value = bitmap
fill_words (suc left) bitmap a0 value =
    fill_words left (set bitmap a0 (if not (value == 0) then all_ones else 0)) (a0 + 1) value

-- `pow2_mask (n)`; `none` is a shift by the width of the word or more, which C leaves undefined.
unfoldable pub defined_mask : ℕ → Option ℕ
defined_mask n = if ltb n uword_bits then some (pow2_mask n) else none

unfoldable pub set_region : Bitmap → ℕ → ℕ → ℕ → Option Bitmap
set_region bitmap i value n_bits =
    let a0 = i / uword_bits in
    let a1 = i % uword_bits in
    let b0 = (i + n_bits) / uword_bits in
    let b = vec_validate bitmap b0 in
    let mask = if ltb n_bits uword_bits then pow2_mask n_bits else all_ones in
    let b1 = mask_word b a0 value (shl mask a1) in
    let b2 = fill_words (b0 - (a0 + 1)) b1 (a0 + 1) value in
    -- where the loop leaves `a0`
    let a_end = a0 + 1 + (b0 - (a0 + 1)) in
    if a_end == b0
    then elim (defined_mask (n_bits - (uword_bits - a1))) [
      | none ↦ none
      | some m ↦ some (mask_word b2 a_end value m)
    ]
    else some b2
