-- ===== src/Bitops/Log2.antt =====
-- `min_log2`, `max_log2` and `max_pow2` against powers of two.
use clib.Common.{
  ltb→lt, ℕ, suc, ◌+◌, ◌*◌, ◌/◌, ◌%◌, ◌^◌, ◌<◌, ◌≤◌, ◌≡◌, refl, true, ltb, leb, ◌==◌, ◌&&◌, ◌||◌,
  bit_and, pow-add, pow-pos, holds_upto, holds_upto-apply, arith, Bool-cases, inl, inr,
}
use clib.Word.{IsWord, shr, shl, all_ones}
use clib.Bitops.{reduce, min_log2, max_log2, max_pow2, log2_table}
use native.Mathlib.Nat.{
  mul-le-mul_left, mul-div-le, lt-mul-div-succ, pow-suc, div-lt_iff_lt-mul, le_trans, mul_assoc,
  lt_of_lt_of_le, pow-le-pow_right,
}

-- `r` binary digits of `x` are dropped, and `a`, not zero and below `bound`, is left.
pub record IsReduced (x bound : ℕ) (s : ℕ × ℕ) : Type 0 where
  pub below : 2 ^ s.1 * s.0 ≤ x
  pub above : x < 2 ^ s.1 * (s.0 + 1)
  pub some_left : 0 < s.0
  pub small : s.0 < bound

module _ (b x a r : ℕ) (h : IsReduced x (2 ^ b * 2 ^ b) (a, r)) where
  dropped_below : 2 ^ (r + b) * (a / 2 ^ b) ≤ x
  dropped_below =
      rw (pow-add r b, mul_assoc)
        (le_trans (mul-le-mul_left (2 ^ r) (mul-div-le a (2 ^ b))) h.below)

  dropped_above : x < 2 ^ (r + b) * (a / 2 ^ b + 1)
  dropped_above =
      rw (pow-add r b, mul_assoc)
        (lt_of_lt_of_le h.above
          (mul-le-mul_left (2 ^ r) (omega (arith, lt-mul-div-succ a {b = 2 ^ b} (pow-pos b)))))

  reduce-IsReduced : IsReduced x (2 ^ b) (reduce b (a, r))
  unfolding reduce shr
  reduce-IsReduced = elim (Bool-cases (a / 2 ^ b == 0)) [
    | inl e ↦ rw e (record {
      below = h.below;
      above = h.above;
      some_left = h.some_left;
      small = omega (arith, (div-lt_iff_lt-mul {x = a} {y = 1} (pow-pos b)).0 (ground arith));
    })
    | inr e ↦ rw e (record {
      below = dropped_below;
      above = dropped_above;
      some_left = ground arith;
      small = (div-lt_iff_lt-mul (pow-pos b)).1 h.small;
    })
  ]

-- What is left after the four rounds.
rounds : ℕ → ℕ × ℕ
rounds x = reduce 4 (reduce 8 (reduce 16 (reduce 32 (x, 0))))

rounds-IsReduced : (x : ℕ) → 0 < x → IsWord x → IsReduced x 16 (rounds x)
unfolding rounds
rounds-IsReduced x pos h =
    reduce-IsReduced 4 x _ _
      (reduce-IsReduced 8 x _ _ (reduce-IsReduced 16 x _ _ (reduce-IsReduced 32 x x 0 start)))
  where
    start : IsReduced x (2 ^ 32 * 2 ^ 32) (x, 0)
    start = omega arith

-- The look-up in the table for the four digits that are left.
abbrev nibble_log2 : ℕ → ℕ
nibble_log2 a = bit_and (shr log2_table (4 * a)) 0xf

table_log2 :
    holds_upto
      (λ a.
        a == 0
        || ltb (nibble_log2 a) 4 && (leb (2 ^ nibble_log2 a) a && ltb a (2 ^ nibble_log2 a * 2)))
      16
    ≡ true
unfolding holds_upto shr
table_log2 = refl

nibble_log2_lem :
    (a : ℕ)
    → 0 < a
    → a < 16
    → (nibble_log2 a < 4) × (2 ^ nibble_log2 a ≤ a) × (a + 1 ≤ 2 ^ nibble_log2 a * 2)
nibble_log2_lem a pos h = ground (arith, holds_upto-apply _ 16 table_log2 a h)

min_log2-eq : (x : ℕ) → 0 < x → IsWord x → min_log2 x ≡ (rounds x).1 + nibble_log2 (rounds x).0
unfolding min_log2 rounds
min_log2-eq x pos h =
    let r = rounds-IsReduced x pos h in
    ground (arith, (nibble_log2_lem (rounds x).0 r.some_left r.small).0)

-- `min_log2` of a word that is not zero is the exponent of the power of two at or below it.
pub min_log2_bounds : (x : ℕ) → 0 < x → IsWord x → (2 ^ min_log2 x ≤ x) × (x < 2 ^ suc (min_log2 x))
min_log2_bounds x pos h = rw (min_log2-eq x pos h, pow-suc, pow-add) (lower, upper)
  where
    r : IsReduced x 16 (rounds x)
    r = rounds-IsReduced x pos h

    n :
        (nibble_log2 (rounds x).0 < 4)
        × (2 ^ nibble_log2 (rounds x).0 ≤ (rounds x).0)
        × ((rounds x).0 + 1 ≤ 2 ^ nibble_log2 (rounds x).0 * 2)
    n = nibble_log2_lem (rounds x).0 r.some_left r.small

    lower : 2 ^ (rounds x).1 * 2 ^ nibble_log2 (rounds x).0 ≤ x
    lower = le_trans (mul-le-mul_left (2 ^ (rounds x).1) n.1) r.below

    upper : x < 2 ^ (rounds x).1 * 2 ^ nibble_log2 (rounds x).0 * 2
    upper = rw mul_assoc (lt_of_lt_of_le r.above (mul-le-mul_left (2 ^ (rounds x).1) n.2))

pub min_log2-zero : min_log2 0 ≡ all_ones
unfolding min_log2
min_log2-zero = refl

pub pow-reflects_lt : (a b : ℕ) → 2 ^ a < 2 ^ b → a < b
pow-reflects_lt a b h = elim (Bool-cases (ltb a b)) [
  | inl t ↦ ground (arith, t)
  | inr f ↦
      let le : b ≤ a = ground (arith, f) in
      absurd (omega (arith, h, pow-le-pow_right {n = 2} (omega arith) le))
]

-- `max_log2` of a word that is not zero and at most a power of two.
pub max_log2_bounds :
    (k x : ℕ) → k < 64 → 0 < x → x ≤ 2 ^ k → (x ≤ 2 ^ max_log2 x) × (max_log2 x ≤ k)
unfolding max_log2 shl
max_log2_bounds k x small pos h =
    let l = min_log2 x in
    let room : 2 ^ suc k ≤ 2 ^ 64 =
      pow-le-pow_right {n = 2} (omega arith) {i = suc k} {j = 64} small in
    let b = min_log2_bounds x pos (omega (arith, h, room, pow-suc 2 k, pow-pos k)) in
    let le : l ≤ k =
      omega (arith, pow-reflects_lt l (suc k) (omega (arith, b.0, h, pow-suc 2 k, pow-pos k))) in
    let below : 2 ^ l ≤ 2 ^ k = le_trans b.0 h in
    let fits : 1 * 2 ^ l % 2 ^ 64 ≡ 2 ^ l = omega (arith, below, room, pow-suc 2 k, pow-pos k) in
    elim (Bool-cases (ltb (2 ^ l) x)) [
      | inl t ↦
          rw (fits, t)
            (
              ground (arith, b.1),
              omega (arith, pow-reflects_lt l k (lt_of_lt_of_le (ltb→lt (2 ^ l) x t) h)),
            )
      | inr f ↦ rw (fits, f) (ground (arith, f), le)
    ]

-- `max_pow2` of a word that is not zero and at most a power of two is a number from it on, and at
-- most that power.
pub max_pow2_bounds :
    (k x : ℕ) → k ≤ 63 → 0 < x → x ≤ 2 ^ k → (x ≤ max_pow2 x) × (max_pow2 x ≤ 2 ^ k)
unfolding max_pow2 shl
max_pow2_bounds k x small pos h =
    let m = min_log2 x in
    let top : 2 ^ k ≤ 2 ^ 63 = pow-le-pow_right {n = 2} (omega arith) small in
    let (lo, hi) = min_log2_bounds x pos (omega (arith, top, h)) in
    let p : 2 ^ suc m ≡ 2 ^ m * 2 = pow-suc 2 m in
    elim (Bool-cases (ltb (2 ^ m) x)) [
      | inl t ↦
          let lt : 2 ^ m < 2 ^ k = ground (arith, t, h) in
          let up : 2 ^ suc m ≤ 2 ^ k =
            pow-le-pow_right {n = 2} (omega arith) (pow-reflects_lt m k lt) in
          ground (arith, t, lo, hi, p, up, top)
      | inr f ↦ ground (arith, f, lo, hi, p, h, top)
    ]
