-- ===== src/Bitmap/Search.antt =====
-- Scanning the words of a bitmap for the lowest digit that is set, over the words or over their
-- complements.
use clib.Common.{
  ℕ, zero, suc, ◌+◌, ◌*◌, ◌/◌, ◌%◌, ◌<◌, ◌≤◌, ◌≡◌, refl, sym, ap, ◌∙◌, [], ◌∷◌, Bool, true, false,
  not, length, get_or, ◌==◌, if◌then◌else◌, Option, none, some, arith, Bool-cases, inl, inr,
}
use clib.Bits.{bit}
use clib.Bits.Logic.{bit-zero_left}
use clib.Word.{IsWord, all_ones, complement}
use clib.Bitops.{log2_first_set}
use clib.Bitops.FirstSet.{find-IsLowest, log2_first_set-lowest}
use clib.Bitmap.{Bitmap}
use clib.Bitmap.Scan.{next_set_from, next_clear_from, first_set_from, first_clear_from}
use native.Mathlib.Decide.{ℕ_discrete}

-- Digit `j % 64` of the word that `f` makes of word `j / 64`.
abbrev pub reads : (ℕ → ℕ) → Bitmap → ℕ → Bool
reads f ai j = bit (f (get_or ai (j / 64) 0)) (j % 64)

-- `k` is the first index from `lo` on at which `P` holds.
pub record IsFirst (P : ℕ → Bool) (lo k : ℕ) : Type 0 where
  pub holds : P k ≡ true
  pub from : lo ≤ k
  pub before : (j : ℕ) → lo ≤ j → j < k → P j ≡ false

pub scan : (ℕ → ℕ) → ℕ → Bitmap → ℕ → Option ℕ
scan f zero ai i0 = none
scan f (suc left) ai i0 =
    let t = f (get_or ai i0 0) in
    let rest = scan f left ai (i0 + 1) in
    if not (t == 0) then some (log2_first_set t + i0 * 64) else rest

-- The word of index `k` gives `k`, if its lowest digit is that of `k`.
pub word_hit :
    (t k : ℕ)
    → IsWord t
    → bit t (k % 64) ≡ true
    → ((j : ℕ) → j < k % 64 → bit t j ≡ false)
    → log2_first_set t + k / 64 * 64 ≡ k
word_hit t k ht s c =
    rw (log2_first_set-lowest t (k % 64) ht (record { is_set = s; clear_below = c })) (omega arith)

pub ne-zero_of_bit : (t j : ℕ) → bit t j ≡ true → (t == 0) ≡ false
ne-zero_of_bit t j h = elim (Bool-cases (t == 0)) [
  | inl e ↦
      let z : t ≡ 0 = ground arith in let c : true ≡ false = sym h ∙ rw z (bit-zero_left j) in cc
  | inr e ↦ e
]

module _ (f : ℕ → ℕ) (ai : Bitmap) (word : (k : ℕ) → IsWord (f (get_or ai k 0))) where
  at_word : (i0 j : ℕ) → j < 64 → reads f ai (i0 * 64 + j) ≡ bit (f (get_or ai i0 0)) j
  at_word i0 j h =
      let q : (i0 * 64 + j) / 64 ≡ i0 = omega arith in
      let r : (i0 * 64 + j) % 64 ≡ j = omega arith in rw (q, r)

  -- A word that is not zero holds an index.
  nonzero_word :
      (i0 : ℕ)
      → (f (get_or ai i0 0) == 0) ≡ false
      → (j : ℕ) × (j < 64) × (reads f ai (i0 * 64 + j) ≡ true)
  nonzero_word i0 e =
      let (j, hj, l) = find-IsLowest 64 (f (get_or ai i0 0)) (ground arith) (word i0) in
      (j, hj, at_word i0 j hj ∙ l.is_set)

  pub scan-found :
      (left i0 k : ℕ)
      → IsFirst (reads f ai) (i0 * 64) k
      → k < (i0 + left) * 64
      → scan f left ai i0 ≡ some k
  unfolding scan
  scan-found zero i0 k h lt = absurd (omega (arith, h.from))
  scan-found (suc left) i0 k h lt = elim (ℕ_discrete (k / 64) i0) [
    | yes e ↦
        let hit : log2_first_set (f (get_or ai (k / 64) 0)) + k / 64 * 64 ≡ k =
          word_hit (f (get_or ai (k / 64) 0)) k (word (k / 64)) h.holds (λ j hj.
            sym (at_word (k / 64) j (omega arith))
            ∙ h.before (k / 64 * 64 + j) (omega (arith, e)) (omega arith)) in
        rw (← e) (rw (ne-zero_of_bit _ (k % 64) h.holds) (ap some hit))
    | no ne ↦ elim (Bool-cases (f (get_or ai i0 0) == 0)) [
      | inl z ↦ rw z (
          scan-found left (i0 + 1) k
            (record {
              holds = h.holds;
              from = omega (arith, h.from);
              before = λ j lo hi. h.before j (omega arith) hi;
            })
            (omega arith))
      | inr z ↦
          let (j, hj, s) = nonzero_word i0 z in
          let c : true ≡ false =
            sym s ∙ h.before (i0 * 64 + j) (omega arith) (omega (arith, h.from)) in
          cc
    ]
  ]

  pub scan-none :
      (left i0 : ℕ)
      → ((j : ℕ) → i0 * 64 ≤ j → j < (i0 + left) * 64 → reads f ai j ≡ false)
      → scan f left ai i0 ≡ none
  unfolding scan
  scan-none zero i0 h = refl
  scan-none (suc left) i0 h = elim (Bool-cases (f (get_or ai i0 0) == 0)) [
    | inl z ↦ rw z (scan-none left (i0 + 1) (λ j lo hi. h j (omega arith) (omega arith)))
    | inr z ↦
        let (j, hj, s) = nonzero_word i0 z in
        let c : true ≡ false = sym s ∙ h (i0 * 64 + j) (omega arith) (omega arith) in cc
  ]

-- The loops of the source are scans.

pub next_set_from-scan :
    (left : ℕ) (ai : Bitmap) (i0 : ℕ) → next_set_from left ai i0 ≡ scan (λ x. x) left ai i0
unfolding next_set_from scan
next_set_from-scan zero ai i0 = refl
next_set_from-scan (suc left) ai i0 = rw (next_set_from-scan left ai (i0 + 1))

pub next_clear_from-scan :
    (left : ℕ) (ai : Bitmap) (i0 : ℕ) → next_clear_from left ai i0 ≡ scan complement left ai i0
unfolding next_clear_from scan
next_clear_from-scan zero ai i0 = refl
next_clear_from-scan (suc left) ai i0 = rw (next_clear_from-scan left ai (i0 + 1))

abbrev pub found_or : ℕ → Option ℕ → ℕ
found_or d o = elim o [ none ↦ d | some r ↦ r ]

shifted :
    (x : ℕ) (xs ai : Bitmap) (i : ℕ)
    → ((m : ℕ) → get_or (x ∷ xs) m 0 ≡ get_or ai (i + m) 0)
    → (m : ℕ) → get_or xs m 0 ≡ get_or ai (i + 1 + m) 0
shifted x xs ai i h m = let e : i + 1 + m ≡ i + suc m = omega arith in rw e (h (suc m))

pub first_set_from-scan :
    (xs ai : Bitmap) (i : ℕ)
    → ((m : ℕ) → get_or xs m 0 ≡ get_or ai (i + m) 0)
    → first_set_from i xs ≡ found_or all_ones (scan (λ x. x) (length xs) ai i)
unfolding first_set_from scan
first_set_from-scan [] ai i h = refl
first_set_from-scan (x ∷ xs) ai i h =
    let z : i + 0 ≡ i = omega arith in
    let e : x ≡ get_or ai i 0 = rw z at (h 0) in
    rw (first_set_from-scan xs ai (i + 1) (shifted x xs ai i h), e) (ground arith)

pub first_clear_from-scan :
    (xs ai : Bitmap) (i : ℕ)
    → ((m : ℕ) → get_or xs m 0 ≡ get_or ai (i + m) 0)
    → first_clear_from i xs ≡ found_or ((i + length xs) * 64) (scan complement (length xs) ai i)
unfolding first_clear_from scan
first_clear_from-scan [] ai i h = omega arith
first_clear_from-scan (x ∷ xs) ai i h =
    let z : i + 0 ≡ i = omega arith in
    let e : x ≡ get_or ai i 0 = rw z at (h 0) in
    let n : i + 1 + length xs ≡ i + suc (length xs) = omega arith in
    rw (first_clear_from-scan xs ai (i + 1) (shifted x xs ai i h), e, n) (ground arith)
