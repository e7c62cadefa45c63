-- ===== src/Bitmap.antt =====
-- clib/bitmap.h: bitmaps of arbitrary size as vectors of 64-bit words. Words past the end of the
-- vector read as zero. A truth value that the C returns as 0 or 1 is a `Bool`.
-- Indices come from a vector that memory holds, so that `i0 * BITS` does not wrap.
pub mod Alu
pub mod AluLaws
pub mod BitLaws
pub mod Equality
pub mod Found
pub mod NextLaws
pub mod Random
pub mod Range
pub mod RangeGet
pub mod RangeSet
pub mod RangeTrip
pub mod Scan
pub mod ScanLaws
pub mod Search
pub mod SetGet
pub mod View
use clib.Common.{
  ℕ, zero, suc, ◌+◌, ◌-◌, ◌*◌, ◌/◌, ◌%◌, List, [], ◌∷◌, ◌++◌, Bool, true, false, not, ◌&&◌, length,
  get_or, set, take, ltb, ◌==◌, if◌then◌else◌, Option, none, some, bit_and, bit_or, bit_xor, to_ℕ,
  replicate,
}
use clib.Word.{uword_bits, all_ones, sub, complement, shl, shr}
use clib.Bitops.{log2_first_set, count_set_bits, pow2_mask, first_set, min_log2}
use clib.Vec

abbrev pub Bitmap : Type 0
Bitmap = List ℕ

-- `clib_bitmap_vec_validate (v, i)`
unfoldable pub vec_validate : Bitmap → ℕ → Bitmap
vec_validate ai i = Vec.validate 0 ai i

-- `clib_bitmap_alloc (v, n_bits)`, where new memory holds zeros, and `clib_bitmap_validate`
unfoldable pub alloc : ℕ → Bitmap
alloc n_bits = replicate ((n_bits + uword_bits - 1) / uword_bits) 0

unfoldable pub validate : Bitmap → ℕ → Bitmap
unfolding vec_validate
validate ai n_bits = vec_validate ai (sub n_bits 1 / uword_bits)

-- The loop of `clib_bitmap_is_zero` over the words that are left.
unfoldable pub is_zero : Bitmap → Bool
is_zero [] = true
is_zero (a ∷ ai) = if not (a == 0) then false else is_zero ai

equal_words : Bitmap → Bitmap → Bool
equal_words (a ∷ ai) (b ∷ bi) = if not (a == b) then false else equal_words ai bi
equal_words _ _ = true

unfoldable pub is_equal : Bitmap → Bitmap → Bool
unfolding equal_words
is_equal a b = if not (length a == length b) then false else equal_words a b

-- The loop of `_clib_bitmap_remove_trailing_zeros`: `n` is `i + 1`, and the result the new length.
unfoldable pub last_nonzero : Bitmap → ℕ → ℕ
last_nonzero a zero = 0
last_nonzero a (suc i) = if not (get_or a i 0 == 0) then suc i else last_nonzero a i

unfoldable pub remove_trailing_zeros : Bitmap → Bitmap
unfolding last_nonzero
remove_trailing_zeros a = take (last_nonzero a (length a)) a

-- `a &= ~((uword) 1 << i1); a |= ((uword) (value != 0)) << i1;`
unfoldable pub put_bit : ℕ → ℕ → ℕ → ℕ
put_bit a i1 value = bit_or (bit_and a (complement (shl 1 i1))) (shl (to_ℕ (not (value == 0))) i1)

-- The old value, and the bitmap that is left in place. The word must exist.
unfoldable pub set_no_check : Bitmap → ℕ → ℕ → Bool × Bitmap
set_no_check a i new_value =
    let i0 = i / uword_bits in
    let i1 = i % uword_bits in
    let ai = get_or a i0 0 in (not (bit_and ai (shl 1 i1) == 0), set a i0 (put_bit ai i1 new_value))

-- `clib_bitmap_set`
unfoldable pub set_bit : Bitmap → ℕ → ℕ → Bitmap
set_bit ai i value =
    let i0 = i / uword_bits in
    let i1 = i % uword_bits in
    let v = vec_validate ai i0 in
    let a = put_bit (get_or v i0 0) i1 value in
    if value == 0 && not (ltb i0 (length ai))
    then ai
    else if a == 0
    then remove_trailing_zeros (set v i0 a)
    else set v i0 a

-- `clib_bitmap_get`
unfoldable pub get : Bitmap → ℕ → Bool
get ai i =
    ltb (i / uword_bits) (length ai)
    && not (bit_and (shr (get_or ai (i / uword_bits) 0) (i % uword_bits)) 1 == 0)

unfoldable pub get_no_check : Bitmap → ℕ → Bool
get_no_check ai i = not (bit_and (shr (get_or ai (i / uword_bits) 0) (i % uword_bits)) 1 == 0)
