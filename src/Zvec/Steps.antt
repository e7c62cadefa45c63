-- ===== src/Zvec/Steps.antt =====
-- One round of the loops of `zvec_encode` and `zvec_decode`, in terms of the lowest digit `k` of
-- the coding.
use clib.Common.{
  ℕ, zero, suc, ◌+◌, ◌-◌, ◌*◌, ◌/◌, ◌%◌, ◌^◌, ◌≤◌, ◌<◌, ◌≡◌, refl, sym, ap, ◌∙◌, true, false, not,
  ◌&&◌, ◌||◌, ◌==◌, bit_and, bit_or, bit_xor, some, arith, pow-pos, xor,
}
use clib.Bits.{bit}
use clib.Bits.Logic.{bit-and, bit-or, bit-xor, bit-zero_left, bit-double_zero, bit-double_suc}
use clib.Bits.Shift.{bit-mask, bit-mod, bit-pow, bit-shl, bit-shr}
use clib.Word.{IsWord, add, sub, shl, shr}
use clib.Word.Digits.{word_ext, and-IsWord, or-IsWord, xor-IsWord}
use clib.Bitops.{first_set}
use clib.Bitops.FirstSet.{IsLowest, first_set-lowest, min_log2-pow, pow-lt}
use clib.Zvec.{encode_from, decode_from}
use native.Mathlib.Nat.{pow-suc, mod-eq_of_lt}
use native.Mathlib.Decide.{dec_lt}

pub and-mask : (a k : ℕ) → IsWord a → k < 64 → bit_and a (2 ^ k - 1) ≡ a % 2 ^ k
and-mask a k ha hk =
    word_ext _ _ (and-IsWord a (2 ^ k - 1) ha (omega (arith, pow-lt k 64 hk))) (omega arith)
      (λ i hi. bit-and a (2 ^ k - 1) i ∙ ground (arith, bit-mask k i, bit-mod k a i))

pub sub-pow_one : (k : ℕ) → k < 64 → sub (2 ^ k) 1 ≡ 2 ^ k - 1
unfolding sub
sub-pow_one k hk = omega (arith, pow-lt k 64 hk, pow-pos k)

word_or-zero : (a : ℕ) → IsWord a → bit_or a 0 ≡ a
word_or-zero a ha =
    word_ext _ _ (or-IsWord a 0 ha (omega arith)) ha
      (λ i hi. bit-or a 0 i ∙ ground (arith, bit-zero_left i))

or-double_one : (a : ℕ) → IsWord (a * 2) → bit_or (a * 2) 1 ≡ a * 2 + 1
unfolding bit
or-double_one a ha =
    word_ext _ _ (or-IsWord (a * 2) 1 ha (omega arith)) (omega arith)
      (λ i hi. bit-or (a * 2) 1 i ∙ digit i)
  where
    even : (i : ℕ) → bit (a * 2) i ≡ bit (a * 2 + 0) i
    even i = ap (λ (t : ℕ). bit t i) (omega arith)

    digit : (i : ℕ) → (bit (a * 2) i || bit 1 i) ≡ bit (a * 2 + 1) i
    digit zero =
        rw (even 0 ∙ bit-double_zero a 0 (omega arith), bit-double_zero a 1 (omega arith)) refl
    digit (suc i) =
        rw (even (suc i) ∙ bit-double_suc a 0 i (omega arith), bit-double_suc a 1 i (omega arith))
          (ground (arith, bit-double_suc 0 1 i (omega arith), bit-zero_left i))

-- The lowest digit of a word and those above it.
module _ (x k : ℕ) (hx : IsWord x) (hk : k < 64) (l : IsLowest x k) where
  low_part : x % 2 ^ suc k ≡ 2 ^ k
  low_part =
      word_ext _ _ (omega arith) (pow-lt k 64 hk)
        (λ i hi. bit-mod (suc k) x i ∙ ground (arith, bit-pow k i, l.is_set, l.clear_below i))

  high_part : bit_xor x (2 ^ k) ≡ x / 2 ^ suc k * 2 ^ suc k
  high_part = word_ext _ _ (xor-IsWord x (2 ^ k) hx (pow-lt k 64 hk)) (omega arith) (λ i hi.
      bit-xor x (2 ^ k) i
      ∙ unfold xor in
        ground (
          arith,
          bit-pow k i,
          bit-shl (suc k) (x / 2 ^ suc k) i,
          bit-shr (suc k) x (i - suc k),
          l.is_set,
          l.clear_below i,
        ))

  pub xor-lowest : bit_xor x (2 ^ k) + 2 ^ k ≡ x
  xor-lowest = rw high_part (omega (arith, low_part))

  pub rest_clear : (i : ℕ) → i < suc k → bit (bit_xor x (2 ^ k)) i ≡ false
  unfolding xor
  rest_clear i h = bit-xor x (2 ^ k) i ∙ ground (arith, bit-pow k i, l.is_set, l.clear_below i)

  first_set-eq : first_set x ≡ 2 ^ k
  first_set-eq = first_set-lowest x k hx l

  room : (2 ^ k == x) ≡ false → 2 ^ k * 2 < 2 ^ 64
  room e = elim (dec_lt x (2 ^ suc k)) [
    | yes p ↦ let c : 2 ^ k ≡ x = sym low_part ∙ mod-eq_of_lt p in ground (arith, c)
    | no p ↦ omega (arith, pow-suc 2 k)
  ]

  -- the value is in the last group
  pub encode-last :
      (f v s : ℕ) → x ≡ 2 ^ k → v < 2 ^ k → encode_from (suc f) x v s ≡ some (shl v s, k + s)
  unfolding encode_from
  encode-last f v s e h =
      let t : (2 ^ k == x) ≡ true = ground (arith, e) in
      let p : (2 ^ k == 0) ≡ false = ground (arith, pow-pos k) in
      let hv : IsWord v = omega (arith, pow-lt k 64 hk) in
      let m = and-mask v k hv hk in
      let n : (v % 2 ^ k == v) ≡ true = ground (arith, mod-eq_of_lt {n = v} h) in
      let z : shl v 0 ≡ v = unfold shl in omega arith in
      let q : k + s + 0 ≡ k + s = omega arith in
      rw (first_set-eq, sub-pow_one k hk, m, n, t, p, min_log2-pow k hk, z, word_or-zero v hv, q)
        refl

  pub decode-last :
      (f z r b : ℕ)
      → IsWord z
      → x ≡ 2 ^ k
      → decode_from (suc f) x z r b ≡ some (add r (z % 2 ^ k), b + k)
  unfolding decode_from
  decode-last f z r b hz e =
      let t : (2 ^ k == x) ≡ true = ground (arith, e) in
      let n : (not (bit_and z 1 == 0) && false) ≡ false = ground arith in
      let q : shr z 0 ≡ z = unfold shr in omega arith in
      let a : k + 0 ≡ k = omega arith in
      rw (first_set-eq, t, n, sub-pow_one k hk, q, and-mask z k hz hk, min_log2-pow k hk, a) refl

  -- the value is in the group of the lowest digit, which is not the last
  pub encode-explicit :
      (f v s : ℕ)
      → (2 ^ k == x) ≡ false
      → v < 2 ^ k
      → encode_from (suc f) x v s ≡ some (shl (v * 2 + 1) s, suc k + s)
  unfolding encode_from
  encode-explicit f v s e h =
      let p : (2 ^ k == 0) ≡ false = ground (arith, pow-pos k) in
      let hv : IsWord v = omega (arith, pow-lt k 64 hk) in
      let m = and-mask v k hv hk in
      let n : (v % 2 ^ k == v) ≡ true = ground (arith, mod-eq_of_lt {n = v} h) in
      let w : IsWord (v * 2) = omega (arith, room e) in
      let z : shl v 1 ≡ v * 2 = unfold shl in omega (arith, w) in
      let q : k + s + 1 ≡ suc k + s = omega arith in
      rw (first_set-eq, sub-pow_one k hk, m, n, e, p, min_log2-pow k hk, z, or-double_one v w, q)
        refl

  pub decode-explicit :
      (f z r b : ℕ)
      → IsWord z
      → (2 ^ k == x) ≡ false
      → z % 2 ≡ 1
      → decode_from (suc f) x z r b ≡ some (add r (z / 2 % 2 ^ k), b + suc k)
  unfolding decode_from
  decode-explicit f z r b hz e h =
      let m : bit_and z 1 ≡ 1 = and-mask z 1 hz (omega arith) ∙ h in
      let q : shr z 1 ≡ z / 2 = unfold shr in refl in
      let a : k + 1 ≡ suc k = omega arith in
      rw
        (
          first_set-eq,
          m,
          e,
          sub-pow_one k hk,
          q,
          and-mask (z / 2) k (omega arith) hk,
          min_log2-pow k hk,
          a,
        )
        refl

  -- the value is in a group of a higher digit
  pub encode-next :
      (f v s : ℕ)
      → IsWord v
      → (2 ^ k == x) ≡ false
      → 2 ^ k ≤ v
      → encode_from (suc f) x v s ≡ encode_from f (bit_xor x (2 ^ k)) (v - 2 ^ k) (s + 1)
  unfolding encode_from
  encode-next f v s hv e h =
      let m = and-mask v k hv hk in
      let n : (v % 2 ^ k == v) ≡ false = ground (arith, pow-pos k) in
      let d : sub v (2 ^ k) ≡ v - 2 ^ k = unfold sub in omega (arith) in
      rw (first_set-eq, sub-pow_one k hk, m, n, e, d) refl

  pub decode-next :
      (f z r b : ℕ)
      → IsWord z
      → (2 ^ k == x) ≡ false
      → z % 2 ≡ 0
      → decode_from (suc f) x z r b
        ≡ decode_from f (bit_xor x (2 ^ k)) (z / 2) (add r (2 ^ k)) (b + 1)
  unfolding decode_from
  decode-next f z r b hz e h =
      let m : bit_and z 1 ≡ 0 = and-mask z 1 hz (omega arith) ∙ h in
      let q : shr z 1 ≡ z / 2 = unfold shr in refl in rw (first_set-eq, m, e, q) refl
