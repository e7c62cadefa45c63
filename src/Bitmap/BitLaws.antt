-- ===== src/Bitmap/BitLaws.antt =====
-- The functions on a bitmap and a bit: `andi`, `andnoti`, `ori` and `xori`.
use clib.Common.{
  ℕ, ◌/◌, ◌%◌, ◌≡◌, ◌∙◌, Bool, true, false, not, ◌&&◌, ◌||◌, xor, get_or, set, ◌==◌, if◌then◌else◌,
  arith, All-set, inl, inr, bit_or, bit_and, bit_xor, ◌⊎◌,
}
use clib.Word.{IsWord, shl}
use clib.Word.Digits.{bit-one_shl, shl-IsWord}
use clib.Bitmap.{Bitmap, get, remove_trailing_zeros, vec_validate}
use clib.Bitmap.Alu.{and_not, alu_bit, andi, andnoti, ori, xori}
use clib.Bitmap.AluLaws.{
  IsDigitwise, and-IsDigitwise, or-IsDigitwise, xor-IsDigitwise, and_not-IsDigitwise, and_not_digit,
}
use clib.Bitmap.View.{
  IsBitmap, get-bit, get-set_word, get-vec_validate, vec_validate-IsBitmap, get_or-IsWord,
  get-remove_trailing_zeros, remove_trailing_zeros-IsBitmap,
}
use clib.Vec.Laws.{length-validate}

module _ (body : ℕ → ℕ → ℕ) (op : Bool → Bool → Bool) (d : IsDigitwise body op) (check : Bool)
    (ai : Bitmap) (i : ℕ) (h : IsBitmap ai) where
  grown : Bitmap
  grown = vec_validate ai (i / 64)

  stored : Bitmap
  stored = set grown (i / 64) (body (get_or grown (i / 64) 0) (shl 1 (i % 64)))

  grown-IsBitmap : IsBitmap grown
  unfolding grown
  grown-IsBitmap = vec_validate-IsBitmap ai (i / 64) h

  stored-IsWord : IsWord (body (get_or grown (i / 64) 0) (shl 1 (i % 64)))
  stored-IsWord = d.word _ _ (get_or-IsWord grown (i / 64) grown-IsBitmap) (shl-IsWord 1 (i % 64))

  stored-IsBitmap : IsBitmap stored
  unfolding stored
  stored-IsBitmap = All-set IsWord grown (i / 64) _ grown-IsBitmap stored-IsWord

  get-stored :
      (j : ℕ) → get stored j ≡ (if i / 64 == j / 64 then op (get ai j) (i == j) else get ai j)
  unfolding stored
  get-stored j =
      get-set_word grown (i / 64) _ j grown-IsBitmap stored-IsWord
        (unfold grown vec_validate in (length-validate 0 ai (i / 64)))
      ∙ ground (
        arith,
        d.digit (get_or grown (i / 64) 0) (shl 1 (i % 64)) (j % 64)
            (get_or-IsWord grown (i / 64) grown-IsBitmap) (shl-IsWord 1 (i % 64)) (omega arith),
        bit-one_shl (i % 64) (j % 64) (omega arith),
        get-bit grown j grown-IsBitmap,
        reads,
      )
    where
      reads : get grown j ≡ get ai j
      reads = unfold grown in (get-vec_validate ai (i / 64) j h)

  alu_bit-cases :
      (alu_bit body check ai i ≡ stored) ⊎ (alu_bit body check ai i ≡ remove_trailing_zeros stored)
  unfolding alu_bit stored grown
  alu_bit-cases = ground arith

  alu_bit-IsBitmap : IsBitmap (alu_bit body check ai i)
  alu_bit-IsBitmap = elim alu_bit-cases [
    | inl e ↦ rw e stored-IsBitmap
    | inr e ↦ rw e (remove_trailing_zeros-IsBitmap stored stored-IsBitmap)
  ]

  -- The word of bit `i` is changed by `op` with that bit; no other word is.
  get-alu_bit :
      (j : ℕ)
      → get (alu_bit body check ai i) j
        ≡ (if i / 64 == j / 64 then op (get ai j) (i == j) else get ai j)
  get-alu_bit j = elim alu_bit-cases [
    | inl e ↦ rw e (get-stored j)
    | inr e ↦ rw e (get-remove_trailing_zeros stored j stored-IsBitmap ∙ get-stored j)
  ]

pub ori-IsBitmap : (ai : Bitmap) (i : ℕ) → IsBitmap ai → IsBitmap (ori ai i)
unfolding ori
ori-IsBitmap ai i h = alu_bit-IsBitmap bit_or ◌||◌ or-IsDigitwise false ai i h

pub andnoti-IsBitmap : (ai : Bitmap) (i : ℕ) → IsBitmap ai → IsBitmap (andnoti ai i)
unfolding andnoti
andnoti-IsBitmap ai i h = alu_bit-IsBitmap and_not and_not_digit and_not-IsDigitwise true ai i h

pub get-ori :
    (ai : Bitmap) (i j : ℕ) → IsBitmap ai → get (ori ai i) j ≡ (if i == j then true else get ai j)
unfolding ori
get-ori ai i j h = ground (arith, get-alu_bit bit_or ◌||◌ or-IsDigitwise false ai i h j)

pub get-andnoti :
    (ai : Bitmap) (i j : ℕ)
    → IsBitmap ai
    → get (andnoti ai i) j ≡ (if i == j then false else get ai j)
unfolding andnoti
get-andnoti ai i j h =
    ground (arith, get-alu_bit and_not and_not_digit and_not-IsDigitwise true ai i h j)

-- In a bitmap of words, `ori` sets bit `i`, `andnoti` clears it and `xori` flips it, and each
-- leaves every other bit. `andi` clears the other bits of the word of `i`, and leaves every other
-- word.
pub get-immediate :
    (ai : Bitmap) (i j : ℕ)
    → IsBitmap ai
    → (get (ori ai i) j ≡ (if i == j then true else get ai j))
      × (get (andnoti ai i) j ≡ (if i == j then false else get ai j))
      × (get (xori ai i) j ≡ (if i == j then not (get ai j) else get ai j))
      × (get (andi ai i) j ≡ (if i / 64 == j / 64 then get ai j && i == j else get ai j))
unfolding xori andi xor
get-immediate ai i j h = (
  get-ori ai i j h,
  get-andnoti ai i j h,
  ground (arith, get-alu_bit bit_xor xor xor-IsDigitwise true ai i h j),
  get-alu_bit bit_and ◌&&◌ and-IsDigitwise true ai i h j,
)
