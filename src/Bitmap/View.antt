-- ===== src/Bitmap/View.antt =====
-- How a bitmap reads: bit by bit, independent of zero words at its end.
use clib.Common.{
  ℕ, zero, suc, ◌+◌, ◌/◌, ◌%◌, ◌<◌, ◌≤◌, ◌≡◌, ◌≢◌, ap, ◌∙◌, [], ◌∷◌, ◌&&◌, length, get_or, set,
  take, ltb, ◌==◌, if◌then◌else◌, arith, All, All-get_or, get_or-beyond, get_or-set_self,
  get_or-set_ne, All-set, All-take, length-take,
}
use clib.Bits.{bit}
use clib.Bits.Logic.{bit-zero_left}
use clib.Word.{IsWord, shr}
use clib.Word.Digits.{bit-shr_word, bit_test, shr-IsWord}
use clib.Bitmap.{Bitmap, get, remove_trailing_zeros, last_nonzero, vec_validate}
use clib.Vec.Laws.{get_or-validate, All-validate}
use native.Mathlib.Decide.{ℕ_discrete}

-- Every element is a word.
abbrev pub IsBitmap : Bitmap → Type 0
IsBitmap ai = All IsWord ai

pub get_or-IsWord : (ai : Bitmap) (k : ℕ) → IsBitmap ai → IsWord (get_or ai k 0)
get_or-IsWord ai k h = All-get_or IsWord ai k 0 h (omega arith)

-- `clib_bitmap_get` is a digit of a word; past the end it is a digit of 0.
pub get-bit : (ai : Bitmap) (i : ℕ) → IsBitmap ai → get ai i ≡ bit (get_or ai (i / 64) 0) (i % 64)
unfolding get
get-bit ai i h =
    ap (λ t. ltb (i / 64) (length ai) && t)
      (bit_test (shr w (i % 64)) (shr-IsWord w (i % 64) (get_or-IsWord ai (i / 64) h))
        ∙ bit-shr_word w (i % 64) 0)
    ∙ ground (arith, get_or-beyond ai (i / 64) 0, bit-zero_left (i % 64), drop_zero)
  where
    w : ℕ
    w = get_or ai (i / 64) 0

    drop_zero : i % 64 + 0 ≡ i % 64
    drop_zero = omega arith

-- Bitmaps whose words read alike have the same bits.
pub get_congr :
    (ai bi : Bitmap) (i : ℕ)
    → IsBitmap ai
    → IsBitmap bi
    → get_or ai (i / 64) 0 ≡ get_or bi (i / 64) 0
    → get ai i ≡ get bi i
get_congr ai bi i ha hb e = rw (get-bit ai i ha, get-bit bi i hb, e)

pub get-set_word :
    (ai : Bitmap) (k w j : ℕ)
    → IsBitmap ai
    → IsWord w
    → k < length ai
    → get (set ai k w) j ≡ (if k == j / 64 then bit w (j % 64) else get ai j)
get-set_word ai k w j h hw lt =
    get-bit (set ai k w) j (All-set IsWord ai k w h hw)
    ∙ ground (arith, get-bit ai j h, get_or-set_self ai k w 0 lt, get_or-set_ne ai k (j / 64) w 0)

pub get-vec_validate : (ai : Bitmap) (k j : ℕ) → IsBitmap ai → get (vec_validate ai k) j ≡ get ai j
unfolding vec_validate
get-vec_validate ai k j h =
    get_congr _ ai j (All-validate IsWord 0 ai k h (omega arith)) h
      (get_or-validate 0 ai k (j / 64))

pub vec_validate-IsBitmap : (ai : Bitmap) (k : ℕ) → IsBitmap ai → IsBitmap (vec_validate ai k)
unfolding vec_validate
vec_validate-IsBitmap ai k h = All-validate IsWord 0 ai k h (omega arith)

-- Taking words off the end.

pub get_or-take :
    (v : Bitmap) (n k : ℕ) → get_or (take n v) k 0 ≡ (if ltb k n then get_or v k 0 else 0)
get_or-take v zero k = ground arith
get_or-take [] (suc n) k = ground arith
get_or-take (x ∷ v) (suc n) zero = ground arith
get_or-take (x ∷ v) (suc n) (suc k) = get_or-take v n k ∙ ground arith

last_nonzero-le : (v : Bitmap) (n : ℕ) → last_nonzero v n ≤ n
unfolding last_nonzero
last_nonzero-le v zero = omega arith
last_nonzero-le v (suc n) = ground (arith, last_nonzero-le v n)

last_nonzero_rest : (v : Bitmap) (n k : ℕ) → last_nonzero v n ≤ k → k < n → get_or v k 0 ≡ 0
unfolding last_nonzero
last_nonzero_rest v zero k h lt = absurd (omega arith)
last_nonzero_rest v (suc n) k h lt = elim (ℕ_discrete k n) [
  | yes e ↦ rw e (ground (arith, e))
  | no ne ↦ ground (arith, last_nonzero_rest v n k)
]

last_nonzero_word : (v : Bitmap) (n k : ℕ) → last_nonzero v n ≡ suc k → get_or v k 0 ≢ 0
unfolding last_nonzero
last_nonzero_word v zero k h = absurd (omega arith)
last_nonzero_word v (suc n) k h = elim (ℕ_discrete k n) [
  | yes e ↦ rw e (ground (arith, e, last_nonzero-le v n))
  | no ne ↦ ground (arith, last_nonzero_word v n k)
]

pub get_or-remove_trailing_zeros :
    (v : Bitmap) (k : ℕ) → get_or (remove_trailing_zeros v) k 0 ≡ get_or v k 0
unfolding remove_trailing_zeros
get_or-remove_trailing_zeros v k =
    get_or-take v (last_nonzero v (length v)) k
    ∙ ground (arith, last_nonzero_rest v (length v) k, get_or-beyond v k 0)

pub remove_trailing_zeros-IsBitmap : (v : Bitmap) → IsBitmap v → IsBitmap (remove_trailing_zeros v)
unfolding remove_trailing_zeros
remove_trailing_zeros-IsBitmap v h = All-take IsWord (last_nonzero v (length v)) v h

pub get-remove_trailing_zeros :
    (v : Bitmap) (j : ℕ) → IsBitmap v → get (remove_trailing_zeros v) j ≡ get v j
get-remove_trailing_zeros v j h =
    get_congr (remove_trailing_zeros v) v j (remove_trailing_zeros-IsBitmap v h) h
      (get_or-remove_trailing_zeros v (j / 64))

-- The last word is not zero: the bitmap is as short as its bits allow.
abbrev pub IsTrimmed : Bitmap → Type 0
IsTrimmed ai = (k : ℕ) → length ai ≡ suc k → get_or ai k 0 ≢ 0

pub remove_trailing_zeros-IsTrimmed : (v : Bitmap) → IsTrimmed (remove_trailing_zeros v)
unfolding remove_trailing_zeros
remove_trailing_zeros-IsTrimmed v k e = rw (get_or-take v (last_nonzero v (length v)) k) (
    ground (
      arith,
      last_nonzero_word v (length v) k,
      last_nonzero-le v (length v),
      length-take (last_nonzero v (length v)) v,
    ))
