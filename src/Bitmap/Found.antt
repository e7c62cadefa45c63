-- ===== src/Bitmap/Found.antt =====
-- What the functions that search a bitmap answer, whether or not there is such a bit.
use clib.Common.{
  ℕ, zero, suc, ◌*◌, ◌≤◌, ◌<◌, ◌≡◌, ◌⊎◌, inl, inr, sym, Bool, true, false, not, length, arith,
  Bool-cases,
}
use clib.Word.{all_ones}
use clib.Bitmap.{Bitmap, get}
use clib.Bitmap.Scan.{first_set, next_set, next_clear}
use clib.Bitmap.Search.{IsFirst}
use clib.Bitmap.View.{IsBitmap}
use clib.Bitmap.ScanLaws.{first_set-lowest, clear_beyond}
use clib.Bitmap.NextLaws.{next_set-lowest, next_clear-lowest}
use native.Mathlib.Decide.{dec_lt, ℕ_discrete}
use mathlib.Core.Path.{subst}

-- Below a bound a first index is found, or there is none.
pub find-IsFirst :
    (P : ℕ → Bool) (lo n : ℕ)
    → ((k : ℕ) × IsFirst P lo k × (k < n)) ⊎ ((j : ℕ) → lo ≤ j → j < n → P j ≡ false)
find-IsFirst P lo zero = inr (λ j a b. absurd (omega arith))
find-IsFirst P lo (suc n) = elim (find-IsFirst P lo n) [
  | inl (k, first, lt) ↦ inl (k, first, omega arith)
  | inr none ↦ elim (dec_lt n lo) [
    | yes p ↦ inr (λ j a b. absurd (omega arith))
    | no p ↦ elim (Bool-cases (P n)) [
      | inl e ↦
          inl
            (n, record { holds = e; from = omega arith; before = λ j a b. none j a b }, omega arith)
      | inr e ↦
          inr (λ j a b. elim (ℕ_discrete j n) [ yes q ↦ rw q e | no q ↦ none j a (omega arith) ])
    ]
  ]
]

none_set :
    (ai : Bitmap) (lo : ℕ)
    → ((j : ℕ) → lo ≤ j → j < length ai * 64 → get ai j ≡ false)
    → (j : ℕ) → lo ≤ j
    → get ai j ≡ false
none_set ai lo h j a = elim (dec_lt j (length ai * 64)) [
  | yes p ↦ h j a p
  | no p ↦ clear_beyond ai j (omega arith)
]

-- In a bitmap of words, `clib_bitmap_first_set` answers the lowest index of a set bit, or no bit
-- is set and it answers `~0`.
pub first_set-IsFirst :
    (ai : Bitmap)
    → IsBitmap ai
    → IsFirst (get ai) 0 (first_set ai) ⊎ (((j : ℕ) → get ai j ≡ false) × (first_set ai ≡ all_ones))
first_set-IsFirst ai h = elim (find-IsFirst (get ai) 0 (length ai * 64)) [
  | inl (k, first, lt) ↦
      inl (subst (IsFirst (get ai) 0) (sym ((first_set-lowest ai h).0 k first)) first)
  | inr none ↦
      let all = λ (j : ℕ). none_set ai 0 none j (omega arith) in
      inr (all, (first_set-lowest ai h).1 all)
]

-- In a bitmap of words, `clib_bitmap_next_set` answers the lowest index of a set bit from `i` on,
-- or no bit from `i` on is set and it answers `~0`.
pub next_set-IsFirst :
    (ai : Bitmap) (i : ℕ)
    → IsBitmap ai
    → IsFirst (get ai) i (next_set ai i)
      ⊎ (((j : ℕ) → i ≤ j → get ai j ≡ false) × (next_set ai i ≡ all_ones))
next_set-IsFirst ai i h = elim (find-IsFirst (get ai) i (length ai * 64)) [
  | inl (k, first, lt) ↦
      inl (subst (IsFirst (get ai) i) (sym ((next_set-lowest ai i h).0 k first)) first)
  | inr none ↦ let all = none_set ai i none in inr (all, (next_set-lowest ai i h).1 all)
]

-- In a bitmap of words, `clib_bitmap_next_clear` answers the lowest index of a clear bit from `i`
-- on, or every bit from `i` to the end of the words is set and it answers `i`, which may be set
-- itself.
pub next_clear-IsFirst :
    (ai : Bitmap) (i : ℕ)
    → IsBitmap ai
    → IsFirst (λ j. not (get ai j)) i (next_clear ai i)
      ⊎ (((j : ℕ) → i ≤ j → j < length ai * 64 → get ai j ≡ true) × (next_clear ai i ≡ i))
next_clear-IsFirst ai i h = elim (find-IsFirst (λ j. not (get ai j)) i (length ai * 64)) [
  | inl (k, first, lt) ↦ inl (
      subst (IsFirst (λ j. not (get ai j)) i) (sym ((next_clear-lowest ai i h).0 k first lt)) first)
  | inr none ↦
      let all = λ (j : ℕ) (a : i ≤ j) (b : j < length ai * 64). back (get ai j) (none j a b) in
      inr (all, (next_clear-lowest ai i h).1 all)
]
  where
    back : (b : Bool) → not b ≡ false → b ≡ true
    back b q = ground (arith, q)
