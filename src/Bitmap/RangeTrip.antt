-- ===== src/Bitmap/RangeTrip.antt =====
-- `clib_bitmap_get_multiple` after `clib_bitmap_set_multiple`.
use clib.Common.{
  ℕ, ◌+◌, ◌-◌, ◌/◌, ◌%◌, ◌^◌, ◌≤◌, ◌≡◌, ◌∙◌, Bool, true, false, ltb, if◌then◌else◌, arith, length,
  bit_and, get_or,
}
use clib.Bits.Shift.{bit-mod}
use clib.Word.{IsWord, shr, sub}
use clib.Word.Digits.{and-IsWord, or-IsWord, shl-IsWord, shr-IsWord, word_ext}
use clib.Bitmap.{Bitmap}
use clib.Bitmap.Range.{get_multiple, set_multiple, low_mask}
use clib.Bitmap.View.{IsBitmap, get_or-IsWord}
use clib.Bitmap.RangeGet.{bit-get_multiple}
use clib.Bitmap.RangeSet.{get-set_multiple, set_multiple-IsBitmap}

if-IsWord : (c : Bool) (a b : ℕ) → IsWord a → IsWord b → IsWord (if c then a else b)
if-IsWord true a b ha hb = ha
if-IsWord false a b ha hb = hb

low_mask-IsWord : (n : ℕ) → IsWord (low_mask n)
unfolding low_mask sub
low_mask-IsWord n = omega arith

pub get_multiple-IsWord : (bm : Bitmap) (i n : ℕ) → IsBitmap bm → IsWord (get_multiple bm i n)
unfolding get_multiple
get_multiple-IsWord bm i n h =
    if-IsWord _ _ _ (or-IsWord _ _ first (shl-IsWord _ (64 - i % 64))) first
  where
    here : IsWord (shr (get_or bm (i / 64) 0) (i % 64))
    here = shr-IsWord _ (i % 64) (get_or-IsWord bm (i / 64) h)

    first : IsWord (
        if ltb (i / 64) (length bm)
        then (if ltb n 64
            then bit_and (shr (get_or bm (i / 64) 0) (i % 64)) (low_mask n)
            else shr (get_or bm (i / 64) 0) (i % 64))
        else 0)
    first =
        if-IsWord (ltb (i / 64) (length bm)) _ 0
          (if-IsWord (ltb n 64) _ _ (and-IsWord _ _ here (low_mask-IsWord n)) here) (omega arith)

-- In a bitmap of words, for a value that is a word and at most 64 bits, `clib_bitmap_get_multiple`
-- gives back the low bits of the value that `clib_bitmap_set_multiple` stored at the same place,
-- across a word boundary too.
pub get_multiple-set_multiple :
    (bm : Bitmap) (i v n : ℕ)
    → IsBitmap bm
    → IsWord v
    → n ≤ 64
    → get_multiple (set_multiple bm i v n) i n ≡ v % 2 ^ n
get_multiple-set_multiple bm i v n h hv hn =
    let w = set_multiple-IsBitmap bm i v n h hv hn in
    word_ext _ _ (get_multiple-IsWord _ i n w) (omega arith) (λ j hj.
      bit-get_multiple (set_multiple bm i v n) i n j w hn
      ∙ ground (arith, get-set_multiple bm i v n h hv hn (i + j), back j, bit-mod n v j))
  where
    back : (j : ℕ) → i + j - i ≡ j
    back j = omega arith
