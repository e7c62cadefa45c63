-- ===== src/Bitops/FirstSet.antt =====
-- `first_set` and `log2_first_set`: the lowest digit that is set.
use clib.Common.{
  ℕ, zero, suc, ◌-◌, ◌/◌, ◌%◌, ◌^◌, ◌<◌, ◌≤◌, ◌≡◌, true, false, not, ◌==◌, ◌&&◌, pow-pos, arith,
  Bool-cases, inl, inr, ap, ◌∙◌, sym,
}
use clib.Bits.{odd, bit}
use clib.Bits.Logic.{bit-and, bit-beyond, bit-zero_left}
use clib.Bits.Shift.{bit-not, bit-pow}
use clib.Word.{IsWord, neg}
use clib.Word.Digits.{and-IsWord, word_ext}
use clib.Bitops.{first_set, log2_first_set, min_log2}
use clib.Bitops.Log2.{min_log2_bounds}
use native.Mathlib.Nat.{pow-suc, pow-le-pow_right}
use native.Mathlib.Decide.{dec_lt}

-- Digit `k` is the lowest of `x` that is set.
pub record IsLowest (x k : ℕ) : Type 0 where
  pub is_set : bit x k ≡ true
  pub clear_below : (i : ℕ) → i < k → bit x i ≡ false

half-IsLowest : (x k : ℕ) → IsLowest x (suc k) → IsLowest (x / 2) k
unfolding bit
half-IsLowest x k h = record {
  is_set = h.is_set;
  clear_below = λ i hi. h.clear_below (suc i) (omega arith);
}

-- Taking 1 away clears the lowest set digit, and changes no digit above it.
pub lowest_digit : (k x i : ℕ) → IsLowest x k → (bit x i && not (bit (x - 1) i)) ≡ (i == k)
unfolding bit
lowest_digit zero x zero h = let o : odd x ≡ true = h.is_set in ground arith
lowest_digit zero x (suc i) h =
    let o : odd x ≡ true = h.is_set in
    let e : (x - 1) / 2 ≡ x / 2 = ground arith in rw e (ground arith)
lowest_digit (suc k) x zero h =
    let o : odd x ≡ false = h.clear_below 0 (omega arith) in rw o (ground arith)
lowest_digit (suc k) x (suc i) h =
    let o : odd x ≡ false = h.clear_below 0 (omega arith) in
    let e : (x - 1) / 2 ≡ x / 2 - 1 = ground arith in
    rw e (lowest_digit k (x / 2) i (half-IsLowest x k h) ∙ ground arith)

pub find-IsLowest : (w x : ℕ) → 0 < x → x < 2 ^ w → (k : ℕ) × (k < w) × IsLowest x k
unfolding bit
find-IsLowest zero x pos h = absurd (omega arith)
find-IsLowest (suc w) x pos h = elim (Bool-cases (odd x)) [
  | inl o ↦ (0, omega arith, record { is_set = o; clear_below = λ i hi. absurd (omega arith) })
  | inr e ↦
      let (k, hk, l) = find-IsLowest w (x / 2) (ground arith) (omega (arith, pow-suc 2 w)) in
      (
        suc k,
        omega arith,
        record {
          is_set = l.is_set;
          clear_below = elim [ zero ↦ λ hi. e | suc i ↦ λ hi. l.clear_below i (omega arith) ];
        },
      )
]

pub first_set-IsWord : (x : ℕ) → IsWord x → IsWord (first_set x)
unfolding first_set neg
first_set-IsWord x h = and-IsWord x ((2 ^ 64 - x) % 2 ^ 64) h (omega arith)

IsLowest-pos : (x k : ℕ) → IsLowest x k → 0 < x
IsLowest-pos zero k h = let e : true ≡ false = sym h.is_set ∙ bit-zero_left k in cc
IsLowest-pos (suc x) k h = omega arith

-- `x & -x` keeps exactly the lowest set digit.
pub bit-first_set : (x k i : ℕ) → IsWord x → IsLowest x k → bit (first_set x) i ≡ (i == k)
unfolding first_set neg
bit-first_set x k i h l =
    bit-and x ((2 ^ 64 - x) % 2 ^ 64) i
    ∙ ap (λ t. bit x i && bit t i) negated
    ∙ ap (λ t. bit x i && t) (bit-not 64 (x - 1) i (omega arith))
    ∙ ground (arith, lowest_digit k x i l, bit-beyond 64 x i h)
  where
    negated : (2 ^ 64 - x) % 2 ^ 64 ≡ 2 ^ 64 - 1 - (x - 1)
    negated = omega (arith, IsLowest-pos x k l)

pub lowest-lt : (x k : ℕ) → IsWord x → IsLowest x k → k < 64
lowest-lt x k h l = elim (dec_lt k 64) [
  | yes p ↦ p
  | no p ↦ let e : true ≡ false = sym l.is_set ∙ bit-beyond 64 x k h (omega arith) in cc
]

pub pow-lt : (k w : ℕ) → k < w → 2 ^ k < 2 ^ w
pow-lt k w h = omega (arith, pow-le-pow_right {n = 2} (omega arith) h, pow-suc 2 k, pow-pos k)

pub first_set-lowest : (x k : ℕ) → IsWord x → IsLowest x k → first_set x ≡ 2 ^ k
first_set-lowest x k h l =
    word_ext (first_set x) (2 ^ k) (first_set-IsWord x h) (pow-lt k 64 (lowest-lt x k h l))
      λ i hi. bit-first_set x k i h l ∙ sym (bit-pow k i)

pub min_log2-pow : (k : ℕ) → k < 64 → min_log2 (2 ^ k) ≡ k
min_log2-pow k h = elim (dec_lt (min_log2 (2 ^ k)) k) [
  | yes p ↦ absurd (omega (arith, bounds, pow-le-pow_right {n = 2} (omega arith) p))
  | no p ↦ elim (dec_lt k (min_log2 (2 ^ k))) [
    | yes q ↦ absurd (omega (arith, bounds, pow-lt k (min_log2 (2 ^ k)) q))
    | no q ↦ omega arith
  ]
]
  where
    bounds : (2 ^ min_log2 (2 ^ k) ≤ 2 ^ k) × (2 ^ k < 2 ^ suc (min_log2 (2 ^ k)))
    bounds = min_log2_bounds (2 ^ k) (pow-pos k) (pow-lt k 64 h)

pub log2_first_set-lowest : (x k : ℕ) → IsWord x → IsLowest x k → log2_first_set x ≡ k
unfolding log2_first_set
log2_first_set-lowest x k h l = rw (first_set-lowest x k h l) (min_log2-pow k (lowest-lt x k h l))

-- Of a word that is not zero, `log2_first_set` is the index of the lowest digit that is set, below
-- 64, and `first_set` is the word with that digit alone.
pub first_set_lem :
    (x : ℕ)
    → 0 < x
    → IsWord x
    → IsLowest x (log2_first_set x) × (log2_first_set x < 64) × (first_set x ≡ 2 ^ log2_first_set x)
first_set_lem x pos h =
    let (k, hk, l) = find-IsLowest 64 x pos h in
    rw (log2_first_set-lowest x k h l) (l, hk, first_set-lowest x k h l)
