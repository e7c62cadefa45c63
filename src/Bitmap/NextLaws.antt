-- ===== src/Bitmap/NextLaws.antt =====
-- `clib_bitmap_next_set` and `clib_bitmap_next_clear`, against the bits of the bitmap.
use clib.Common.{
  ℕ, ◌+◌, ◌-◌, ◌*◌, ◌/◌, ◌%◌, ◌<◌, ◌≤◌, ◌≡◌, ap, ◌∙◌, true, false, not, ◌&&◌, length, get_or, ltb,
  ◌==◌, if◌then◌else◌, Option, arith, Bool-cases, inl, inr, lt→ltb,
}
use clib.Bits.{bit}
use clib.Word.{IsWord, all_ones, complement, shl, shr}
use clib.Word.Digits.{bit-shl_word, bit-shr_word, shl-IsWord, complement-IsWord}
use clib.Bitops.{log2_first_set}
use clib.Bitops.FirstSet.{find-IsLowest}
use clib.Bitmap.{Bitmap, get}
use clib.Bitmap.Scan.{next_set, next_clear}
use clib.Bitmap.Search.{
  IsFirst, reads, scan, scan-found, scan-none, word_hit, ne-zero_of_bit, next_set_from-scan,
  next_clear_from-scan, found_or,
}
use clib.Bitmap.View.{IsBitmap, get_or-IsWord}
use native.Mathlib.Decide.{dec_lt, ℕ_discrete}
use clib.Bitmap.ScanLaws.{same, reads-same, reads-complement, IsFirst-congr, inside}

-- The common shape of `next_set` and `next_clear`.
module _ (f : ℕ → ℕ) (ai : Bitmap) (i : ℕ) (word : (k : ℕ) → IsWord (f (get_or ai k 0))) where
  rest_of_word : ℕ
  rest_of_word = shl (shr (f (get_or ai (i / 64) 0)) (i % 64)) (i % 64)

  bit-rest_of_word :
      (j : ℕ)
      → j < 64
      → bit rest_of_word j ≡ (not (ltb j (i % 64)) && bit (f (get_or ai (i / 64) 0)) j)
  unfolding rest_of_word
  bit-rest_of_word j hj =
      bit-shl_word (shr (f (get_or ai (i / 64) 0)) (i % 64)) (i % 64) j
      ∙ ground (arith, bit-shr_word (f (get_or ai (i / 64) 0)) (i % 64) (j - i % 64), back)
    where
      back : i % 64 ≤ j → i % 64 + (j - i % 64) ≡ j
      back h = omega arith

  rest-IsWord : IsWord rest_of_word
  unfolding rest_of_word
  rest-IsWord = shl-IsWord _ (i % 64)

  at_index : (j : ℕ) → j < 64 → reads f ai (i / 64 * 64 + j) ≡ bit (f (get_or ai (i / 64) 0)) j
  at_index j h =
      let q : (i / 64 * 64 + j) / 64 ≡ i / 64 = omega arith in
      let r : (i / 64 * 64 + j) % 64 ≡ j = omega arith in rw (q, r)

  set_here : (k : ℕ) → IsFirst (reads f ai) i k → k / 64 ≡ i / 64 → bit rest_of_word (k % 64) ≡ true
  set_here k first e =
      bit-rest_of_word (k % 64) (omega arith) ∙ rw (← e) (ground (arith, first.holds, first.from))

  clear_here :
      (k : ℕ)
      → IsFirst (reads f ai) i k
      → k / 64 ≡ i / 64
      → (j : ℕ) → j < k % 64
      → bit rest_of_word j ≡ false
  clear_here k first e j hj = elim (dec_lt j (i % 64)) [
    | yes p ↦ bit-rest_of_word j (omega arith) ∙ ground arith
    | no p ↦
        bit-rest_of_word j (omega arith)
        ∙ ground (
          arith,
          at_index j (omega arith),
          first.before (i / 64 * 64 + j) (omega arith) (omega (arith, e)),
        )
  ]

  -- The first index is in the word of `i`.
  hit_here :
      (k : ℕ)
      → IsFirst (reads f ai) i k
      → k / 64 ≡ i / 64
      → ((rest_of_word == 0) ≡ false) × (log2_first_set rest_of_word + i / 64 * 64 ≡ k)
  hit_here k first e = (
    ne-zero_of_bit rest_of_word (k % 64) (set_here k first e),
    rw (← e) (word_hit rest_of_word k rest-IsWord (set_here k first e) (clear_here k first e)),
  )

  -- Nothing is in the word of `i`.
  not_here : ((j : ℕ) → i ≤ j → j / 64 ≡ i / 64 → reads f ai j ≡ false) → (rest_of_word == 0) ≡ true
  not_here none_here = elim (Bool-cases (rest_of_word == 0)) [
    | inl e ↦ e
    | inr e ↦
        let (j, hj, l) = find-IsLowest 64 rest_of_word (ground arith) rest-IsWord in
        ground (arith, l.is_set, bit-rest_of_word j hj, at_index j hj, none_here (i / 64 * 64 + j))
  ]

  later : Option ℕ
  later = scan f (length ai - (i / 64 + 1)) ai (i / 64 + 1)

  -- What the two functions answer for an index inside the bitmap.
  next_inside : ℕ → ℕ
  next_inside d =
      if not (rest_of_word == 0)
      then log2_first_set rest_of_word + i / 64 * 64
      else found_or d later

  next_inside-found : (d k : ℕ) → IsFirst (reads f ai) i k → k < length ai * 64 → next_inside d ≡ k
  unfolding next_inside later
  next_inside-found d k first lt = elim (ℕ_discrete (k / 64) (i / 64)) [
    | yes e ↦ rw ((hit_here k first e).0) (hit_here k first e).1
    | no ne ↦ rw (not_here (λ j lo e. first.before j lo (omega (arith, first.from)))) (
        ap (found_or d) (
          scan-found f ai word (length ai - (i / 64 + 1)) (i / 64 + 1) k
            (record {
              holds = first.holds;
              from = omega (arith, first.from);
              before = λ j lo hi. first.before j (omega arith) hi;
            })
            (omega (arith, first.from))))
  ]

  next_inside-none :
      (d : ℕ)
      → i / 64 < length ai
      → ((j : ℕ) → i ≤ j → j < length ai * 64 → reads f ai j ≡ false)
      → next_inside d ≡ d
  unfolding next_inside later
  next_inside-none d lt none_left = rw (not_here (λ j lo e. none_left j lo (omega arith))) (
      ap (found_or d) (
        scan-none f ai word (length ai - (i / 64 + 1)) (i / 64 + 1)
          (λ j lo hi. none_left j (omega arith) (omega arith))))

next_set-eq :
    (ai : Bitmap) (i : ℕ) (w : (k : ℕ) → IsWord (get_or ai k 0))
    → i / 64 < length ai
    → next_set ai i ≡ next_inside same ai i w all_ones
unfolding next_set next_inside rest_of_word later
next_set-eq ai i w lt =
    rw (
      lt→ltb (i / 64) (length ai) lt,
      next_set_from-scan (length ai - (i / 64 + 1)) ai (i / 64 + 1),
    )

next_clear-eq :
    (ai : Bitmap) (i : ℕ) (w : (k : ℕ) → IsWord (complement (get_or ai k 0)))
    → i / 64 < length ai
    → next_clear ai i ≡ next_inside complement ai i w i
unfolding next_clear next_inside rest_of_word later
next_clear-eq ai i w lt = rw (
  lt→ltb (i / 64) (length ai) lt,
  next_clear_from-scan (length ai - (i / 64 + 1)) ai (i / 64 + 1),
)

next_set-outside : (ai : Bitmap) (i : ℕ) → length ai ≤ i / 64 → next_set ai i ≡ all_ones
unfolding next_set
next_set-outside ai i h = ground arith

-- In a bitmap of words, `clib_bitmap_next_set` is the lowest index of a set bit from `i` on, and
-- `~0` if no bit from `i` on is set.
pub next_set-lowest :
    (ai : Bitmap) (i : ℕ)
    → IsBitmap ai
    → ((k : ℕ) → IsFirst (get ai) i k → next_set ai i ≡ k)
      × (((j : ℕ) → i ≤ j → get ai j ≡ false) → next_set ai i ≡ all_ones)
next_set-lowest ai i h = elim (dec_lt (i / 64) (length ai)) [
  | yes p ↦ (
    λ k first.
        next_set-eq ai i (λ j. get_or-IsWord ai j h) p
        ∙ next_inside-found same ai i (λ j. get_or-IsWord ai j h) all_ones k
            (IsFirst-congr _ _ i k (λ j. reads-same ai j h) first) (inside ai k first.holds),
    λ zero_bits.
        next_set-eq ai i (λ j. get_or-IsWord ai j h) p
        ∙ next_inside-none same ai i (λ j. get_or-IsWord ai j h) all_ones p
            (λ j a b. reads-same ai j h ∙ zero_bits j a),
  )
  | no p ↦ (
    λ k first. absurd (omega (arith, inside ai k first.holds, first.from)),
    λ zero_bits. next_set-outside ai i (omega arith),
  )
]

next_clear-outside : (ai : Bitmap) (i : ℕ) → length ai ≤ i / 64 → next_clear ai i ≡ i
unfolding next_clear
next_clear-outside ai i h = ground arith

-- In a bitmap of words, `clib_bitmap_next_clear` is the lowest index of a clear bit from `i` on,
-- if that index is within the words, and `i` if every bit from `i` to the end of the words is set,
-- even where bit `i` itself is.
pub next_clear-lowest :
    (ai : Bitmap) (i : ℕ)
    → IsBitmap ai
    → ((k : ℕ) → IsFirst (λ j. not (get ai j)) i k → k < length ai * 64 → next_clear ai i ≡ k)
      × (((j : ℕ) → i ≤ j → j < length ai * 64 → get ai j ≡ true) → next_clear ai i ≡ i)
next_clear-lowest ai i h = elim (dec_lt (i / 64) (length ai)) [
  | yes p ↦ (
    λ k first lt.
        next_clear-eq ai i (λ j. complement-IsWord (get_or ai j 0)) p
        ∙ next_inside-found complement ai i (λ j. complement-IsWord (get_or ai j 0)) i k
            (IsFirst-congr _ _ i k (λ j. reads-complement ai j h) first) lt,
    λ set_bits.
        next_clear-eq ai i (λ j. complement-IsWord (get_or ai j 0)) p
        ∙ next_inside-none complement ai i (λ j. complement-IsWord (get_or ai j 0)) i p
            (λ j a b. reads-complement ai j h ∙ ap not (set_bits j a b)),
  )
  | no p ↦ (
    λ k first lt. absurd (omega (arith, lt, first.from)),
    λ set_bits. next_clear-outside ai i (omega arith),
  )
]
