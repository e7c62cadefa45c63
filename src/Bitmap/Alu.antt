-- ===== src/Bitmap/Alu.antt =====
-- clib/bitmap.h: the functions on two bitmaps and on a bitmap and a bit, which a macro defines.
use clib.Common.{
  ℕ, ◌+◌, ◌-◌, ◌/◌, ◌%◌, [], ◌∷◌, Bool, true, false, ◌&&◌, length, get_or, set, take, ltb, ◌==◌,
  if◌then◌else◌, bit_and, bit_or, bit_xor,
}
use clib.Word.{uword_bits, complement, shl}
use clib.Bitmap.{Bitmap, vec_validate, remove_trailing_zeros}

-- `a &~ b`
unfoldable pub and_not : ℕ → ℕ → ℕ
and_not a b = bit_and a (complement b)

-- The loop of `clib_bitmap_##name` with the words of `ai` from index `i` on: the new words, and
-- `n_trailing_zeros` at the end.
unfoldable pub alu_words : (ℕ → ℕ → ℕ) → Bitmap → ℕ → Bitmap → ℕ → Bitmap × ℕ
alu_words body bi i [] n = ([], n)
alu_words body bi i (x ∷ ai) n =
    let b = if ltb i (length bi) then get_or bi i 0 else 0 in
    let a = body x b in
    let (rest, n') = alu_words body bi (i + 1) ai (if a == 0 then n + 1 else 0) in (a ∷ rest, n')

-- `clib_bitmap_##name (ai, bi)`. The count of zeros is kept only under `check_zero`, which alone
-- reads it.
unfoldable pub alu : (ℕ → ℕ → ℕ) → Bool → Bitmap → Bitmap → Bitmap
alu body check_zero ai bi =
    let v = if ltb 0 (length bi) then vec_validate ai (length bi - 1) else ai in
    let (words, n_trailing_zeros) = alu_words body bi 0 v 0 in
    if check_zero then take (length words - n_trailing_zeros) words else words

unfoldable pub bitmap_and : Bitmap → Bitmap → Bitmap
bitmap_and = alu bit_and true

unfoldable pub bitmap_andnot : Bitmap → Bitmap → Bitmap
bitmap_andnot = alu and_not true

unfoldable pub bitmap_or : Bitmap → Bitmap → Bitmap
bitmap_or = alu bit_or false

unfoldable pub bitmap_xor : Bitmap → Bitmap → Bitmap
bitmap_xor = alu bit_xor true

-- `clib_bitmap_##name (ai, i)` of the immediate functions
unfoldable pub alu_bit : (ℕ → ℕ → ℕ) → Bool → Bitmap → ℕ → Bitmap
alu_bit body check_zero ai i =
    let i0 = i / uword_bits in
    let i1 = i % uword_bits in
    let v = vec_validate ai i0 in
    let a = body (get_or v i0 0) (shl 1 i1) in
    let v' = set v i0 a in if check_zero && a == 0 then remove_trailing_zeros v' else v'

unfoldable pub andi : Bitmap → ℕ → Bitmap
andi = alu_bit bit_and true

unfoldable pub andnoti : Bitmap → ℕ → Bitmap
andnoti = alu_bit and_not true

unfoldable pub ori : Bitmap → ℕ → Bitmap
ori = alu_bit bit_or false

unfoldable pub xori : Bitmap → ℕ → Bitmap
xori = alu_bit bit_xor true
