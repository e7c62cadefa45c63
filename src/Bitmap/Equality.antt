-- ===== src/Bitmap/Equality.antt =====
-- `clib_bitmap_is_equal` on trimmed bitmaps, and `clib_bitmap_is_zero`, against the bits.
use clib.Common.{
  ℕ, zero, suc, ◌+◌, ◌*◌, ◌/◌, ◌%◌, ◌≤◌, ◌≡◌, refl, sym, ap, ◌∙◌, [], ◌∷◌, true, false, length,
  get_or, arith, get_or-beyond, get_or_ext, ◌↔◌,
}
use clib.Word.Digits.{word_ext}
use clib.Bitmap.{Bitmap, get, is_equal, equal_words, is_zero}
use clib.Bits.Logic.{bit-zero_left}
use clib.Bitmap.View.{IsBitmap, IsTrimmed, get-bit, get_or-IsWord}
use native.Mathlib.Decide.{dec_lt}

same_words :
    (a b : Bitmap)
    → IsBitmap a
    → IsBitmap b
    → ((i : ℕ) → get a i ≡ get b i)
    → (k : ℕ) → get_or a k 0 ≡ get_or b k 0
same_words a b ha hb same k =
    word_ext (get_or a k 0) (get_or b k 0) (get_or-IsWord a k ha) (get_or-IsWord b k hb) λ i hi.
      let q : (k * 64 + i) / 64 ≡ k = omega arith in
      let r : (k * 64 + i) % 64 ≡ i = omega arith in
      let at = λ (c : Bitmap) (hc : IsBitmap c). rw (q, r) at (get-bit c (k * 64 + i) hc) in
      sym (at a ha) ∙ same (k * 64 + i) ∙ at b hb

shorter :
    (a b : Bitmap) → IsTrimmed b → ((k : ℕ) → get_or a k 0 ≡ get_or b k 0) → length b ≤ length a
shorter a [] tb h = omega arith
shorter a (y ∷ b) tb h = elim (dec_lt (length b) (length a)) [
  | yes p ↦ p
  | no p ↦
      absurd (tb (length b) refl (sym (h (length b)) ∙ get_or-beyond a (length b) 0 (omega arith)))
]

-- A trimmed bitmap is known by its bits.
pub trimmed_ext :
    (a b : Bitmap)
    → IsBitmap a
    → IsBitmap b
    → IsTrimmed a
    → IsTrimmed b
    → ((i : ℕ) → get a i ≡ get b i)
    → a ≡ b
trimmed_ext a b ha hb ta tb same =
    let w = same_words a b ha hb same in
    get_or_ext a b 0 (omega (arith, shorter a b tb w, shorter b a ta (λ k. sym (w k)))) w

equal_words→eq : (a b : Bitmap) → length a ≡ length b → equal_words a b ≡ true → a ≡ b
unfolding equal_words
equal_words→eq [] [] e h = refl
equal_words→eq [] (y ∷ b) e h = absurd (omega arith)
equal_words→eq (x ∷ a) [] e h = absurd (omega arith)
equal_words→eq (x ∷ a) (y ∷ b) e h = ground (arith, equal_words→eq a b)

equal_words_refl : (a : Bitmap) → equal_words a a ≡ true
unfolding equal_words
equal_words_refl [] = refl
equal_words_refl (x ∷ a) = ground (arith, equal_words_refl a)

is_equal_refl : (a : Bitmap) → is_equal a a ≡ true
unfolding is_equal
is_equal_refl a = ground (arith, equal_words_refl a)

-- On two bitmaps of words with no zero word at the end, `clib_bitmap_is_equal` answers whether
-- they have the same bits.
pub is_equal_iff :
    (a b : Bitmap)
    → IsBitmap a
    → IsBitmap b
    → IsTrimmed a
    → IsTrimmed b
    → (is_equal a b ≡ true) ↔ ((i : ℕ) → get a i ≡ get b i)
unfolding is_equal
is_equal_iff a b ha hb ta tb = (
  λ h i. ap (λ t. get t i) (ground (arith, equal_words→eq a b)),
  λ same. rw (trimmed_ext a b ha hb ta tb same) (is_equal_refl b),
)

is_zero-words : (a : Bitmap) → is_zero a ≡ true → (k : ℕ) → get_or a k 0 ≡ 0
unfolding is_zero
is_zero-words [] h k = refl
is_zero-words (x ∷ a) h zero = ground (arith, h)
is_zero-words (x ∷ a) h (suc k) = is_zero-words a (ground (arith, h)) k

words-is_zero : (a : Bitmap) → ((k : ℕ) → get_or a k 0 ≡ 0) → is_zero a ≡ true
unfolding is_zero
words-is_zero [] h = refl
words-is_zero (x ∷ a) h =
    let first : x ≡ 0 = h 0 in
    let rest = words-is_zero a (λ k. h (suc k)) in ground (arith, first, rest)

-- `clib_bitmap_is_zero` of a bitmap of words answers whether no bit is set.
is_zero_iff : (a : Bitmap) → IsBitmap a → (is_zero a ≡ true) ↔ ((i : ℕ) → get a i ≡ false)
is_zero_iff a ha = (
  λ h i. get-bit a i ha ∙ rw (is_zero-words a h (i / 64)) (bit-zero_left (i % 64)),
  λ clear. words-is_zero a (same_words a [] ha tt (λ i. clear i ∙ sym (empty i))),
)
  where
    empty : (i : ℕ) → get [] i ≡ false
    empty i = get-bit [] i tt ∙ bit-zero_left (i % 64)
