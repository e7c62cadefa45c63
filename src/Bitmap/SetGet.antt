-- ===== src/Bitmap/SetGet.antt =====
-- `clib_bitmap_set` against `clib_bitmap_get`, and equality of bitmaps against equality of bits.
use clib.Common.{
  ℕ, suc, ◌-◌, ◌/◌, ◌%◌, ◌<◌, ◌≤◌, ◌≡◌, ◌≢◌, ap, ◌∙◌, Bool, true, false, not, ◌&&◌, length, get_or,
  set, ◌==◌, if◌then◌else◌, arith, get_or-set_self, get_or-set_ne, All-set, inl, inr, length-set,
  to_ℕ, bit_and, ◌⊎◌,
}
use clib.Bits.{bit}
use clib.Bits.Logic.{bit-zero_left, bit-and, bit-or}
use clib.Word.{IsWord, shl, complement}
use clib.Word.Digits.{
  bit-one_shl, bit-shl_word, bit-complement, and-IsWord, or-IsWord, complement-IsWord, shl-IsWord,
  bit-word_beyond,
}
use clib.Bitmap.{Bitmap, get, set_bit, put_bit, remove_trailing_zeros, vec_validate}
use clib.Bitmap.View.{
  IsBitmap, IsTrimmed, get-bit, get-set_word, get-vec_validate, vec_validate-IsBitmap,
  get_or-IsWord, get-remove_trailing_zeros, remove_trailing_zeros-IsBitmap,
  remove_trailing_zeros-IsTrimmed,
}
use clib.Vec.Laws.{length-validate, length-validate_of_lt, length-validate_grown}
use native.Mathlib.Decide.{dec_lt, ℕ_discrete}

bit-to_ℕ-shl : (b : Bool) (k j : ℕ) → k < 64 → bit (shl (to_ℕ b) k) j ≡ (b && j == k)
bit-to_ℕ-shl true k j h = bit-one_shl k j h
bit-to_ℕ-shl false k j h = bit-shl_word 0 k j ∙ ground (arith, bit-zero_left (j - k))

pub bit-put_bit :
    (a k v j : ℕ)
    → IsWord a
    → k < 64
    → bit (put_bit a k v) j ≡ (if k == j then not (v == 0) else bit a j)
unfolding put_bit
bit-put_bit a k v j ha hk = ground (
  arith,
  bit-or (bit_and a (complement (shl 1 k))) (shl (to_ℕ (not (v == 0))) k) j,
  bit-and a (complement (shl 1 k)) j,
  bit-complement (shl 1 k) j (shl-IsWord 1 k),
  bit-one_shl k j hk,
  bit-to_ℕ-shl (not (v == 0)) k j hk,
  bit-word_beyond a j ha,
)

pub put_bit-IsWord : (a k v : ℕ) → IsWord a → IsWord (put_bit a k v)
unfolding put_bit
put_bit-IsWord a k v h =
    or-IsWord _ _ (and-IsWord _ _ h (complement-IsWord (shl 1 k))) (shl-IsWord _ k)

-- What `set_bit` stores, before zero words are dropped.
grown : Bitmap → ℕ → Bitmap
grown ai i = vec_validate ai (i / 64)

stored_word : Bitmap → ℕ → ℕ → ℕ
stored_word ai i value = put_bit (get_or (grown ai i) (i / 64) 0) (i % 64) value

stored : Bitmap → ℕ → ℕ → Bitmap
stored ai i value = set (grown ai i) (i / 64) (stored_word ai i value)

module _ (ai : Bitmap) (i value : ℕ) (h : IsBitmap ai) where
  grown-IsBitmap : IsBitmap (grown ai i)
  unfolding grown
  grown-IsBitmap = vec_validate-IsBitmap ai (i / 64) h

  length-grown : i / 64 < length (grown ai i)
  unfolding grown vec_validate
  length-grown = length-validate 0 ai (i / 64)

  get-grown : (j : ℕ) → get (grown ai i) j ≡ get ai j
  unfolding grown
  get-grown j = get-vec_validate ai (i / 64) j h

  stored-IsWord : IsWord (stored_word ai i value)
  unfolding stored_word
  stored-IsWord =
      put_bit-IsWord _ (i % 64) value (get_or-IsWord (grown ai i) (i / 64) grown-IsBitmap)

  stored-IsBitmap : IsBitmap (stored ai i value)
  unfolding stored
  stored-IsBitmap = All-set IsWord (grown ai i) (i / 64) _ grown-IsBitmap stored-IsWord

  get-stored : (j : ℕ) → get (stored ai i value) j ≡ (if i == j then not (value == 0) else get ai j)
  unfolding stored stored_word
  get-stored j =
      get-set_word (grown ai i) (i / 64) _ j grown-IsBitmap stored-IsWord length-grown
      ∙ ground (
        arith,
        bit-put_bit (get_or (grown ai i) (i / 64) 0) (i % 64) value (j % 64)
            (get_or-IsWord (grown ai i) (i / 64) grown-IsBitmap) (omega arith),
        get-bit (grown ai i) j grown-IsBitmap,
        get-grown j,
      )

-- The three ways out of `clib_bitmap_set`.
set_bit-cases :
    (ai : Bitmap) (i value : ℕ)
    → (set_bit ai i value ≡ ai) × (value ≡ 0) × (length ai ≤ i / 64)
      ⊎ ((set_bit ai i value ≡ remove_trailing_zeros (stored ai i value))
          ⊎ (set_bit ai i value ≡ stored ai i value) × (stored_word ai i value ≢ 0))
unfolding set_bit grown stored stored_word
set_bit-cases ai i value = ground arith

pub set_bit-IsBitmap : (ai : Bitmap) (i value : ℕ) → IsBitmap ai → IsBitmap (set_bit ai i value)
set_bit-IsBitmap ai i value h = elim (set_bit-cases ai i value) [
  | inl c ↦ rw c.0 h
  | inr (inl e) ↦ rw e (remove_trailing_zeros-IsBitmap _ (stored-IsBitmap ai i value h))
  | inr (inr c) ↦ rw c.0 (stored-IsBitmap ai i value h)
]

get-beyond : (ai : Bitmap) (j : ℕ) → length ai ≤ j / 64 → get ai j ≡ false
unfolding get
get-beyond ai j h = ground arith

-- In a bitmap of words, `clib_bitmap_set` changes bit `i`, to whether the value is not 0, and no
-- other bit.
pub get-set_bit :
    (ai : Bitmap) (i value j : ℕ)
    → IsBitmap ai
    → get (set_bit ai i value) j ≡ (if i == j then not (value == 0) else get ai j)
get-set_bit ai i value j h = elim (set_bit-cases ai i value) [
  | inl c ↦ rw c.0 (ground (arith, get-beyond ai i))
  | inr (inl e) ↦
      rw e
        (get-remove_trailing_zeros _ j (stored-IsBitmap ai i value h) ∙ get-stored ai i value h j)
  | inr (inr c) ↦ rw c.0 (get-stored ai i value h j)
]

length-grown_lt :
    (ai : Bitmap) (i value k : ℕ)
    → i / 64 ≢ k
    → length (stored ai i value) ≡ suc k
    → i / 64 < length ai
unfolding stored grown vec_validate
length-grown_lt ai i value k p e = elim (dec_lt (i / 64) (length ai)) [
  | yes lt ↦ lt
  | no ge ↦ absurd (
      p (
        omega (
          arith,
          length-validate_grown 0 ai (i / 64) (omega arith),
          length-set (grown ai i) (i / 64) (stored_word ai i value),
        )))
]

stored-IsTrimmed :
    (ai : Bitmap) (i value : ℕ)
    → IsTrimmed ai
    → stored_word ai i value ≢ 0
    → IsTrimmed (stored ai i value)
unfolding stored grown vec_validate
stored-IsTrimmed ai i value t ne k e = elim (ℕ_discrete (i / 64) k) [
  | yes p ↦ rw (← p) (
      rw
        (get_or-set_self (grown ai i) (i / 64) (stored_word ai i value) 0
          (length-validate 0 ai (i / 64)))
        ne)
  | no p ↦
      let still = length-grown_lt ai i value k p e in
      rw (get_or-set_ne (grown ai i) (i / 64) k (stored_word ai i value) 0 p) (
        rw (length-validate_of_lt 0 ai (i / 64) still) (
          t k (
            omega (
              arith,
              ap length (length-validate_of_lt 0 ai (i / 64) still),
              length-set (grown ai i) (i / 64) (stored_word ai i value),
            ))))
]

-- If a bitmap has no zero word at its end, it has none after `clib_bitmap_set`.
pub set_bit-IsTrimmed : (ai : Bitmap) (i value : ℕ) → IsTrimmed ai → IsTrimmed (set_bit ai i value)
set_bit-IsTrimmed ai i value t = elim (set_bit-cases ai i value) [
  | inl c ↦ rw c.0 t
  | inr (inl e) ↦ rw e (remove_trailing_zeros-IsTrimmed (stored ai i value))
  | inr (inr c) ↦ rw c.0 (stored-IsTrimmed ai i value t c.1)
]
