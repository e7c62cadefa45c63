-- ===== src/Hash/Loads.antt =====
-- The loads of clib/hash.c, and `zap64`, which keeps the first bytes of a load.
use clib.Common.{
  ℕ, zero, suc, ◌+◌, ◌-◌, ◌*◌, ◌/◌, ◌%◌, ◌^◌, ◌<◌, ◌≤◌, ◌≡◌, refl, sym, ap, ◌∙◌, Bool, true, false,
  get_or, ltb, ◌==◌, bit_and, Bool-cases, inl, inr, arith, holds_upto, holds_upto-apply, ==_iff,
  pow-add, pow-pos,
}
use clib.Bits.{bit}
use clib.Bits.Logic.{bit-and, bit_and-lt, bit_ext}
use clib.Bits.Shift.{bit-mask, bit-mod, bit-shr, bit-shl}
use clib.Word.{IsWord, complement}
use clib.Word.Digits.{bit-complement, complement-IsWord}
use native.Mathlib.Nat.{
  pow-le-pow_right, mod-le, div-mul-le_self, add-mul, mul_assoc, mul_comm, mul-le-mul_right,
  mul-add-mod_self_right, mod-eq_of_lt, mul-add-div_right, div-eq_of_lt,
}
use clib.Hash.Sum.{load_bytes, zap64, masks_little_endian, masks_big_endian}

pow-le_word : (k : ℕ) → k ≤ 64 → 2 ^ k ≤ 2 ^ 64
pow-le_word k h = pow-le-pow_right {n = 2} (omega arith) h

and-low : (k x : ℕ) → k ≤ 64 → IsWord x → bit_and x (2 ^ k - 1) ≡ x % 2 ^ k
and-low k x small h =
    bit_ext 64 _ _ (bit_and-lt 64 x (2 ^ k - 1) h (omega (arith, pow-le_word k small)))
      (omega (arith, mod-le x (2 ^ k)))
      (λ i hi. bit-and x (2 ^ k - 1) i ∙ ground (arith, bit-mask k i, bit-mod k x i))

and-high : (k x : ℕ) → k ≤ 64 → IsWord x → bit_and x (complement (2 ^ k - 1)) ≡ x / 2 ^ k * 2 ^ k
and-high k x small h =
    let w : IsWord (2 ^ k - 1) = omega (arith, pow-le_word k small) in
    bit_ext 64 _ _ (bit_and-lt 64 x (complement (2 ^ k - 1)) h (complement-IsWord (2 ^ k - 1)))
      (omega (arith, div-mul-le_self x (2 ^ k)))
      (λ i hi.
        bit-and x (complement (2 ^ k - 1)) i
        ∙ rw (bit-complement (2 ^ k - 1) i w, bit-mask k i, bit-shl k (x / 2 ^ k) i)
            (elim (Bool-cases (ltb i k)) [
              | inl t ↦ ground (arith, t)
              | inr f ↦
                  let e : k + (i - k) ≡ i = ground (arith, f) in
                  ground (arith, f, hi, bit-shr k x (i - k), ap (λ (t : ℕ). bit x t) e)
            ]))

same_little : ℕ → Bool
same_little n = get_or masks_little_endian n 0 == 2 ^ (8 * n) - 1

same_big : ℕ → Bool
same_big n = get_or masks_big_endian n 0 == complement (2 ^ (8 * (8 - n)) - 1)

masks_lem : (holds_upto same_little 8 ≡ true) × (holds_upto same_big 8 ≡ true)
unfolding holds_upto same_little same_big masks_little_endian masks_big_endian complement
masks_lem = (refl, refl)

mask_little : (n : ℕ) → n < 8 → get_or masks_little_endian n 0 ≡ 2 ^ (8 * n) - 1
unfolding same_little
mask_little n h =
    (==_iff (get_or masks_little_endian n 0) (2 ^ (8 * n) - 1)).0
      (holds_upto-apply same_little 8 masks_lem.0 n h)

mask_big : (n : ℕ) → n < 8 → get_or masks_big_endian n 0 ≡ complement (2 ^ (8 * (8 - n)) - 1)
unfolding same_big
mask_big n h =
    (==_iff (get_or masks_big_endian n 0) (complement (2 ^ (8 * (8 - n)) - 1))).0
      (holds_upto-apply same_big 8 masks_lem.1 n h)

wide : (n : ℕ) → 2 ^ (8 * suc n) ≡ 2 ^ 8 * 2 ^ (8 * n)
wide n = let e : 8 * suc n ≡ 8 + 8 * n = omega arith in rw e (pow-add 8 (8 * n))

wide_add : (n k : ℕ) → 2 ^ (8 * (n + k)) ≡ 2 ^ (8 * k) * 2 ^ (8 * n)
wide_add n k = let e : 8 * (n + k) ≡ 8 * k + 8 * n = omega arith in rw e (pow-add (8 * k) (8 * n))

-- A load whose first bytes are another load's.
module _ (memory : ℕ → ℕ) (bytes : (p : ℕ) → memory p < 2 ^ 8) where
  load_bytes-lt : (big : Bool) (p n : ℕ) → load_bytes memory p big n < 2 ^ (8 * n)
  unfolding load_bytes
  load_bytes-lt big p zero = omega arith
  load_bytes-lt true p (suc n) = omega (arith, wide n, load_bytes-lt true p n, bytes (p + n))
  load_bytes-lt false p (suc n) = omega (
    arith,
    wide n,
    load_bytes-lt false p n,
    mul-le-mul_right {m = memory (p + n)} {n = 255} (2 ^ (8 * n)) (omega (arith, bytes (p + n))),
  )

  load-little :
      (p n k : ℕ)
      → load_bytes memory p false (n + k)
        ≡ load_bytes memory (p + n) false k * 2 ^ (8 * n) + load_bytes memory p false n
  unfolding load_bytes
  load-little p n zero = let e : n + 0 ≡ n = omega arith in rw e (omega arith)
  load-little p n (suc k) =
      let e : n + suc k ≡ suc (n + k) = omega arith in
      let a : p + (n + k) ≡ p + n + k = omega arith in
      rw (e, load-little p n k, a, wide_add n k)
        (omega (
          arith,
          add-mul (load_bytes memory (p + n) false k) (memory (p + n + k) * 2 ^ (8 * k))
              (2 ^ (8 * n)),
          mul_assoc (memory (p + n + k)) (2 ^ (8 * k)) (2 ^ (8 * n)),
        ))

  load-big :
      (p n k : ℕ)
      → load_bytes memory p true (n + k)
        ≡ load_bytes memory p true n * 2 ^ (8 * k) + load_bytes memory (p + n) true k
  unfolding load_bytes
  load-big p n zero = let e : n + 0 ≡ n = omega arith in rw e (omega arith)
  load-big p n (suc k) =
      let e : n + suc k ≡ suc (n + k) = omega arith in
      let a : p + (n + k) ≡ p + n + k = omega arith in
      rw (e, load-big p n k, a, wide k)
        (omega (
          arith,
          mul_assoc (load_bytes memory p true n) (2 ^ (8 * k)) (2 ^ 8),
          mul_comm (2 ^ (8 * k)) (2 ^ 8),
        ))

  load-IsWord : (big : Bool) (p : ℕ) → IsWord (load_bytes memory p big 8)
  load-IsWord big p = load_bytes-lt big p 8

  zap64-little :
      (p n : ℕ) → n < 8 → zap64 false (load_bytes memory p false 8) n ≡ load_bytes memory p false n
  unfolding zap64
  zap64-little p n h =
      let x = load_bytes memory p false 8 in
      let low = load_bytes memory p false n in
      let high = load_bytes memory (p + n) false (8 - n) in
      let e : n + (8 - n) ≡ 8 = omega arith in
      let split : x ≡ high * 2 ^ (8 * n) + low =
        ap (load_bytes memory p false) (sym e) ∙ load-little p n (8 - n) in
      rw (mask_little n h) (
        and-low (8 * n) x (omega arith) (load-IsWord false p)
        ∙ ap (λ t. t % 2 ^ (8 * n)) split
        ∙ mul-add-mod_self_right high (2 ^ (8 * n)) low
        ∙ mod-eq_of_lt (load_bytes-lt false p n))

  zap64-big :
      (p n : ℕ)
      → n < 8
      → zap64 true (load_bytes memory p true 8) n ≡ load_bytes memory p true n * 2 ^ (8 * (8 - n))
  unfolding zap64
  zap64-big p n h =
      let k = 8 - n in
      let x = load_bytes memory p true 8 in
      let high = load_bytes memory p true n in
      let low = load_bytes memory (p + n) true k in
      let e : n + k ≡ 8 = omega arith in
      let split : x ≡ high * 2 ^ (8 * k) + low =
        ap (load_bytes memory p true) (sym e) ∙ load-big p n k in
      rw (mask_big n h) (
        and-high (8 * k) x (omega arith) (load-IsWord true p)
        ∙ ap (λ t. t / 2 ^ (8 * k) * 2 ^ (8 * k)) split
        ∙ rw
            (
              mul-add-div_right (pow-pos (8 * k)) high low,
              div-eq_of_lt (load_bytes-lt true (p + n) k),
            )
            (omega arith))

-- The bytes from two addresses on, of two memories.
module _ (memory1 memory2 : ℕ → ℕ) where
  abbrev pub IsSame : ℕ → ℕ → ℕ → Type 0
  IsSame p1 p2 n = (i : ℕ) → i < n → memory1 (p1 + i) ≡ memory2 (p2 + i)

  pub load_bytes-same :
      (big : Bool) (p1 p2 n : ℕ)
      → IsSame p1 p2 n
      → load_bytes memory1 p1 big n ≡ load_bytes memory2 p2 big n
  unfolding load_bytes
  load_bytes-same big p1 p2 zero same = refl
  load_bytes-same true p1 p2 (suc n) same =
      rw (load_bytes-same true p1 p2 n (λ i h. same i (omega arith)), same n (omega arith)) refl
  load_bytes-same false p1 p2 (suc n) same =
      rw (load_bytes-same false p1 p2 n (λ i h. same i (omega arith)), same n (omega arith)) refl

  module _ (bytes1 : (p : ℕ) → memory1 p < 2 ^ 8) (bytes2 : (p : ℕ) → memory2 p < 2 ^ 8) where
    pub zap64-same :
        (big : Bool) (p1 p2 n : ℕ)
        → n < 8
        → IsSame p1 p2 n
        → zap64 big (load_bytes memory1 p1 big 8) n ≡ zap64 big (load_bytes memory2 p2 big 8) n
    zap64-same true p1 p2 n h same =
        zap64-big memory1 bytes1 p1 n h
        ∙ ap (λ t. t * 2 ^ (8 * (8 - n))) (load_bytes-same true p1 p2 n same)
        ∙ sym (zap64-big memory2 bytes2 p2 n h)
    zap64-same false p1 p2 n h same =
        zap64-little memory1 bytes1 p1 n h
        ∙ load_bytes-same false p1 p2 n same
        ∙ sym (zap64-little memory2 bytes2 p2 n h)
