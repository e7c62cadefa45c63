-- ===== src/Bitmap/RangeGet.antt =====
-- `clib_bitmap_get_multiple` reads the bits that `clib_bitmap_get` reads.
use clib.Common.{
  ℕ, ◌+◌, ◌-◌, ◌/◌, ◌%◌, ◌<◌, ◌≤◌, ◌^◌, ◌≡◌, refl, ◌∙◌, Bool, not, ◌&&◌, ◌||◌, length, get_or, ltb,
  if◌then◌else◌, arith, get_or-beyond, bit_and, bit_or, pow-pos,
}
use clib.Bits.{bit}
use clib.Bits.Logic.{bit-and, bit-or, bit-zero_left}
use clib.Bits.Shift.{bit-mask}
use clib.Word.{IsWord, shl, shr, sub}
use clib.Word.Digits.{bit-shl_word, bit-shr_word, bit-word_beyond}
use clib.Bitmap.{Bitmap, get}
use clib.Bitmap.Range.{get_multiple, low_mask}
use clib.Bitmap.View.{IsBitmap, get-bit, get_or-IsWord}
use native.Mathlib.Nat.{pow-le-pow_right, pow-suc}
use native.Mathlib.Decide.{dec_lt}

pub low_mask-eq : (n : ℕ) → n < 64 → low_mask n ≡ 2 ^ n - 1
unfolding low_mask shl sub
low_mask-eq n h = omega (arith, pow-pos n, pow-suc 2 n, pow-le-pow_right {n = 2} (omega arith) h)

pub bit-low_mask : (n j : ℕ) → n < 64 → bit (low_mask n) j ≡ ltb j n
bit-low_mask n j h = rw (low_mask-eq n h) (bit-mask n j)

-- Bit `i + j` stands in the word of bit `i` or in the next.
pub get-split :
    (bm : Bitmap) (i j : ℕ)
    → IsBitmap bm
    → j < 64
    → get bm (i + j) ≡ (
        if ltb (i % 64 + j) 64
        then bit (get_or bm (i / 64) 0) (i % 64 + j)
        else bit (get_or bm (i / 64 + 1) 0) (i % 64 + j - 64))
get-split bm i j h hj = elim (dec_lt (i % 64 + j) 64) [
  | yes p ↦
      let q : (i + j) / 64 ≡ i / 64 = omega arith in
      let r : (i + j) % 64 ≡ i % 64 + j = omega arith in
      get-bit bm (i + j) h ∙ rw (q, r) (ground arith)
  | no p ↦
      let q : (i + j) / 64 ≡ i / 64 + 1 = omega arith in
      let r : (i + j) % 64 ≡ i % 64 + j - 64 = omega arith in
      get-bit bm (i + j) h ∙ rw (q, r) (ground arith)
]

-- The part from the first word.
first_part : ℕ → ℕ → ℕ → ℕ
first_part w i1 n = if ltb n 64 then bit_and (shr w i1) (low_mask n) else shr w i1

bit-first_part :
    (w i1 n j : ℕ) → IsWord w → n ≤ 64 → bit (first_part w i1 n) j ≡ (ltb j n && bit w (i1 + j))
unfolding first_part
bit-first_part w i1 n j hw hn = ground (
  arith,
  bit-and (shr w i1) (low_mask n) j,
  bit-shr_word w i1 j,
  bit-low_mask n j,
  bit-word_beyond w (i1 + j) hw,
)

-- The part from the second word: the lowest `n - t` bits, moved up by `t`.
second_part : ℕ → ℕ → ℕ → ℕ
second_part w t n = shl (bit_and w (low_mask (n - t))) t

bit-second_part :
    (w t n j : ℕ)
    → 0 < t
    → t < n
    → n ≤ 64
    → bit (second_part w t n) j ≡ (ltb j n && (not (ltb j t) && bit w (j - t)))
unfolding second_part
bit-second_part w t n j ht htn hn = ground (
  arith,
  bit-shl_word (bit_and w (low_mask (n - t))) t j,
  bit-and w (low_mask (n - t)) (j - t),
  bit-low_mask (n - t) (j - t),
)

module _ (bm : Bitmap) (i n : ℕ) where
  first_word : ℕ
  first_word = if ltb (i / 64) (length bm) then first_part (get_or bm (i / 64) 0) (i % 64) n else 0

  reaches_next : Bool
  reaches_next = ltb 64 (i % 64 + n) && ltb (i / 64 + 1) (length bm)

  get_multiple-eq : get_multiple bm i n ≡ (
      if reaches_next
      then bit_or first_word (second_part (get_or bm (i / 64 + 1) 0) (64 - i % 64) n)
      else first_word)
  unfolding get_multiple first_word reaches_next first_part second_part
  get_multiple-eq = let e : n - (64 - i % 64) ≡ n - (64 - i % 64) = refl in ground arith

  bit-first_word :
      (j : ℕ)
      → IsBitmap bm
      → n ≤ 64
      → bit first_word j ≡ (ltb j n && bit (get_or bm (i / 64) 0) (i % 64 + j))
  unfolding first_word
  bit-first_word j h hn = ground (
    arith,
    bit-first_part (get_or bm (i / 64) 0) (i % 64) n j (get_or-IsWord bm (i / 64) h),
    bit-zero_left j,
    bit-zero_left (i % 64 + j),
    get_or-beyond bm (i / 64) 0,
  )

  bit-parts :
      (j : ℕ)
      → IsBitmap bm
      → n ≤ 64
      → bit (get_multiple bm i n) j ≡ (
          ltb j n
          && (bit (get_or bm (i / 64) 0) (i % 64 + j)
              || (not (ltb j (64 - i % 64)) && bit (get_or bm (i / 64 + 1) 0) (j - (64 - i % 64)))))
  unfolding reaches_next
  bit-parts j h hn = rw get_multiple-eq (
      ground (
        arith,
        bit-first_word j h hn,
        bit-or first_word (second_part (get_or bm (i / 64 + 1) 0) (64 - i % 64) n) j,
        bit-second_part (get_or bm (i / 64 + 1) 0) (64 - i % 64) n j,
        bit-zero_left (j - (64 - i % 64)),
        get_or-beyond bm (i / 64 + 1) 0,
      ))

-- In a bitmap of words, for at most 64 bits, digit `j` of what `clib_bitmap_get_multiple` answers
-- is bit `i + j` for each `j` below `n_bits`, and 0 above.
pub bit-get_multiple :
    (bm : Bitmap) (i n j : ℕ)
    → IsBitmap bm
    → n ≤ 64
    → bit (get_multiple bm i n) j ≡ (ltb j n && get bm (i + j))
bit-get_multiple bm i n j h hn =
    bit-parts bm i n j h hn
    ∙ ground (
      arith,
      get-split bm i j h,
      bit-word_beyond (get_or bm (i / 64) 0) (i % 64 + j) (get_or-IsWord bm (i / 64) h),
      same,
    )
  where
    same : i % 64 + j - 64 ≡ j - (64 - i % 64)
    same = omega arith
