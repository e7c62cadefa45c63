-- ===== src/Bitmap/AluLaws.antt =====
-- The functions on two bitmaps and on a bitmap and a bit, read bit by bit.
use clib.Common.{
  ℕ, zero, suc, ◌+◌, ◌-◌, ◌<◌, ◌≤◌, ◌≡◌, refl, sym, ap, ◌∙◌, [], ◌∷◌, Bool, true, false, not, ◌&&◌,
  ◌||◌, xor, length, get_or, ltb, ◌==◌, if◌then◌else◌, arith, get_or-beyond, inl, bit_or, bit_and,
  bit_xor, ◌⊎◌, All-of_get_or,
}
use clib.Bits.{bit}
use clib.Bits.Logic.{bit-and, bit-or, bit-xor}
use clib.Word.{IsWord, complement}
use clib.Word.Digits.{bit-complement, and-IsWord, or-IsWord, xor-IsWord, complement-IsWord}
use clib.Bitmap.{Bitmap, vec_validate}
use clib.Bitmap.Alu.{and_not, alu_words, alu, bitmap_and, bitmap_andnot, bitmap_or, bitmap_xor}
use clib.Bitmap.View.{IsBitmap, get_or-IsWord, get_or-take}
use clib.Vec.Laws.{length-validate, get_or-validate}
use native.Mathlib.Nat.{zero-add}
use native.Mathlib.Decide.{dec_lt}

-- `body` works on each digit by `op`, and leaves a zero alone where both are zero.
pub record IsDigitwise (body : ℕ → ℕ → ℕ) (op : Bool → Bool → Bool) : Type 0 where
  pub word : (a b : ℕ) → IsWord a → IsWord b → IsWord (body a b)
  pub digit : (a b i : ℕ) → IsWord a → IsWord b → i < 64 → bit (body a b) i ≡ op (bit a i) (bit b i)
  pub zeros : body 0 0 ≡ 0

pub and-IsDigitwise : IsDigitwise bit_and ◌&&◌
and-IsDigitwise = record {
  word = and-IsWord;
  digit = λ a b i ha hb hi. bit-and a b i;
  zeros = refl;
}

pub or-IsDigitwise : IsDigitwise bit_or ◌||◌
or-IsDigitwise = record { word = or-IsWord; digit = λ a b i ha hb hi. bit-or a b i; zeros = refl }

pub xor-IsDigitwise : IsDigitwise bit_xor xor
xor-IsDigitwise = record {
  word = xor-IsWord;
  digit = λ a b i ha hb hi. bit-xor a b i;
  zeros = refl;
}

abbrev pub and_not_digit : Bool → Bool → Bool
and_not_digit a b = a && not b

pub and_not-IsDigitwise : IsDigitwise and_not and_not_digit
unfolding and_not complement
and_not-IsDigitwise = record {
  word = λ a b ha hb. and-IsWord a (complement b) ha (complement-IsWord b);
  digit = λ a b i ha hb hi. bit-and a (complement b) i ∙ ground (arith, bit-complement b i hb);
  zeros = refl;
}

module _ (body : ℕ → ℕ → ℕ) (bi : Bitmap) where
  -- the words that the loop writes
  get_or-alu_words :
      (ai : Bitmap) (i n k : ℕ)
      → k < length ai
      → get_or (alu_words body bi i ai n).0 k 0 ≡ body (get_or ai k 0) (get_or bi (i + k) 0)
  unfolding alu_words
  get_or-alu_words [] i n k h = elim h [ ]
  get_or-alu_words (x ∷ ai) i n zero h =
      let z : i + 0 ≡ i = omega arith in rw z (ground (arith, get_or-beyond bi i 0))
  get_or-alu_words (x ∷ ai) i n (suc k) h =
      let z : i + suc k ≡ i + 1 + k = omega arith in
      rw z (get_or-alu_words ai (i + 1) _ k (omega arith))

  length-alu_words : (ai : Bitmap) (i n : ℕ) → length (alu_words body bi i ai n).0 ≡ length ai
  unfolding alu_words
  length-alu_words [] i n = refl
  length-alu_words (x ∷ ai) i n = ap suc (length-alu_words ai (i + 1) _)

  -- The count is of the zero words at the end, and goes on from `n` only if all words are zero.
  count-alu_words :
      (ai : Bitmap) (i n : ℕ)
      → ((alu_words body bi i ai n).1 ≡ length ai + n) ⊎ ((alu_words body bi i ai n).1 < length ai)
  unfolding alu_words
  count-alu_words [] i n = inl (omega arith)
  count-alu_words (x ∷ ai) i n =
      let b = if ltb i (length bi) then get_or bi i 0 else 0 in
      ground (arith, count-alu_words ai (i + 1) (if body x b == 0 then n + 1 else 0))

  trailing-alu_words :
      (ai : Bitmap) (i n k : ℕ)
      → k < length ai
      → length ai ≤ k + (alu_words body bi i ai n).1
      → get_or (alu_words body bi i ai n).0 k 0 ≡ 0
  unfolding alu_words
  trailing-alu_words [] i n k h t = elim h [ ]
  trailing-alu_words (x ∷ ai) i n zero h t =
      let b = if ltb i (length bi) then get_or bi i 0 else 0 in
      ground (arith, count-alu_words ai (i + 1) (if body x b == 0 then n + 1 else 0))
  trailing-alu_words (x ∷ ai) i n (suc k) h t =
      trailing-alu_words ai (i + 1) _ k (omega arith) (omega arith)

module _ (body : ℕ → ℕ → ℕ) (op : Bool → Bool → Bool) (d : IsDigitwise body op) (check : Bool)
    (ai bi : Bitmap) where
  grown : Bitmap
  grown = if ltb 0 (length bi) then vec_validate ai (length bi - 1) else ai

  words : Bitmap × ℕ
  words = alu_words body bi 0 grown 0

  get_or-grown : (k : ℕ) → get_or grown k 0 ≡ get_or ai k 0
  unfolding grown vec_validate
  get_or-grown k = ground (arith, get_or-validate 0 ai (length bi - 1) k)

  length-grown : length bi ≤ length grown
  unfolding grown vec_validate
  length-grown = ground (arith, length-validate 0 ai (length bi - 1))

  length-words : length words.0 ≡ length grown
  unfolding words
  length-words = length-alu_words body bi grown 0 0

  get_or-words : (k : ℕ) → get_or words.0 k 0 ≡ body (get_or ai k 0) (get_or bi k 0)
  unfolding words
  get_or-words k = elim (dec_lt k (length grown)) [
    | yes lt ↦ get_or-alu_words body bi grown 0 0 k lt ∙ rw (get_or-grown k, zero-add) refl
    | no ge ↦
        get_or-beyond words.0 k 0 (omega (arith, length-words))
        ∙ rw (← get_or-grown k) (
            rw
              (
                get_or-beyond grown k 0 (omega arith),
                get_or-beyond bi k 0 (omega (arith, length-grown)),
              )
              (sym d.zeros))
  ]

  -- Each word of the result is `body` of the two words, trimmed or not.
  get_or-alu : (k : ℕ) → get_or (alu body check ai bi) k 0 ≡ body (get_or ai k 0) (get_or bi k 0)
  get_or-alu k = kept ∙ get_or-words k
    where
      dropped : length words.0 - words.1 ≤ k → get_or words.0 k 0 ≡ 0
      dropped h = elim (dec_lt k (length grown)) [
        | yes lt ↦
            unfold words in
            (trailing-alu_words body bi grown 0 0 k lt (omega (arith, length-words)))
        | no ge ↦ get_or-beyond words.0 k 0 (omega (arith, length-words))
      ]

      kept : get_or (alu body check ai bi) k 0 ≡ get_or words.0 k 0
      kept =
          unfold alu words grown in
          ground (arith, get_or-take words.0 (length words.0 - words.1) k, dropped)

  alu-IsBitmap : IsBitmap ai → IsBitmap bi → IsBitmap (alu body check ai bi)
  alu-IsBitmap ha hb =
      All-of_get_or IsWord (alu body check ai bi) 0
        λ k hk. rw (get_or-alu k) (d.word _ _ (get_or-IsWord ai k ha) (get_or-IsWord bi k hb))

pub alu_functions-IsBitmap :
    (a b : Bitmap)
    → IsBitmap a
    → IsBitmap b
    → IsBitmap (bitmap_and a b)
      × IsBitmap (bitmap_andnot a b)
      × IsBitmap (bitmap_or a b)
      × IsBitmap (bitmap_xor a b)
unfolding bitmap_and bitmap_andnot bitmap_or bitmap_xor
alu_functions-IsBitmap a b ha hb = (
  alu-IsBitmap bit_and ◌&&◌ and-IsDigitwise true a b ha hb,
  alu-IsBitmap and_not and_not_digit and_not-IsDigitwise true a b ha hb,
  alu-IsBitmap bit_or ◌||◌ or-IsDigitwise false a b ha hb,
  alu-IsBitmap bit_xor xor xor-IsDigitwise true a b ha hb,
)
