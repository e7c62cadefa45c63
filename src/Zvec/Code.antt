-- ===== src/Zvec/Code.antt =====
-- The code of one value: what `zvec_encode` answers, and what `zvec_decode` makes of it.
use clib.Common.{
  ℕ, zero, suc, ◌+◌, ◌-◌, ◌*◌, ◌/◌, ◌%◌, ◌^◌, ◌≤◌, ◌<◌, ◌≡◌, refl, ap, ◌∙◌, false, ◌==◌, bit_xor,
  some, arith, Bool-cases, inl, inr, pow-add,
}
use clib.Bits.{bit}
use clib.Bits.Shift.{mod-pow-suc}
use clib.Word.{IsWord, add, shl}
use clib.Bitops.FirstSet.{IsLowest, find-IsLowest}
use clib.Zvec.{encode_from, decode_from}
use clib.Zvec.Steps.{
  xor-lowest, rest_clear, encode-last, decode-last, encode-explicit, decode-explicit, encode-next,
  decode-next,
}
use native.Mathlib.Nat.{pow-suc, pow-le-pow_right}
use native.Mathlib.Decide.{dec_lt}
use mathlib.Core.Path.{subst}

-- The code of `value` under the coding `x`, whose digits below `m` are clear and which is below
-- `2 ^ h`, after `shift` rounds.
pub record Code (fuel h x value shift m : ℕ) : Type 0 where
  pub word : ℕ
  pub size : ℕ
  -- the size of the longest code
  pub most : ℕ
  pub fits : word < 2 ^ size
  pub encoded : encode_from fuel x value shift ≡ some (word * 2 ^ shift % 2 ^ 64, size + shift)
  pub decoded :
      (z r b : ℕ)
      → IsWord z
      → r + x ≤ 2 ^ 64
      → z % 2 ^ size ≡ word
      → decode_from fuel x z r b ≡ some (r + value, b + size)
  pub longest : (r b : ℕ) → (r' : ℕ) × (decode_from fuel x 0 r b ≡ some (r', b + most))
  pub at_most : size ≤ most
  pub bounded : most + shift + 2 ≤ 2 * h
  pub low : m ≤ most

add-eq : (a b : ℕ) → a + b < 2 ^ 64 → add a b ≡ a + b
unfolding add
add-eq a b h = omega arith

module _ (f h x k shift m : ℕ) (hk : k < h) (h64 : h ≤ 64) (hx : x < 2 ^ h) (l : IsLowest x k)
    (ms : shift ≤ m) (mk : m ≤ k) where
  k64 : k < 64
  k64 = omega arith

  x64 : IsWord x
  x64 = omega (arith, pow-le-pow_right {n = 2} (omega arith) h64)

  last_code : (v : ℕ) → x ≡ 2 ^ k → v < x → Code (suc f) h x v shift m
  last_code v e lt = record {
    word = v;
    size = k;
    most = k;
    fits = omega (arith, e);
    encoded = encode-last x k x64 k64 l f v shift e (omega (arith, e)) ∙ unfold shl in refl;
    decoded = λ z r b hz room q.
        decode-last x k x64 k64 l f z r b hz e ∙ rw q (rw (add-eq r v (omega arith)) refl);
    longest = λ r b. (_, decode-last x k x64 k64 l f 0 r b (omega arith) e);
    at_most = omega arith;
    bounded = omega arith;
    low = mk;
  }

  abbrev rest : ℕ
  rest = bit_xor x (2 ^ k)

  rest-eq : rest + 2 ^ k ≡ x
  rest-eq = xor-lowest x k x64 k64 l

  module _ (v : ℕ) (lt : v < rest) (ne : (2 ^ k == x) ≡ false)
      (c : Code f h rest v (shift + 1) (suc k)) where
    nonzero : 2 ^ k < x
    nonzero = ground (arith, rest-eq, ne)

    longer : (r b : ℕ) → (r' : ℕ) × (decode_from (suc f) x 0 r b ≡ some (r', b + suc c.most))
    longer r b =
        let (r', e) = c.longest (add r (2 ^ k)) (b + 1) in
        let q : b + 1 + c.most ≡ b + suc c.most = omega arith in
        (
          r',
          decode-next x k x64 k64 l f 0 r b (omega arith) ne refl
              ∙ e
              ∙ ap (λ (n : ℕ). some (r', n)) q,
        )

    -- the value is in the group of digit `k`
    explicit_code : (u : ℕ) → u < 2 ^ k → Code (suc f) h x u shift m
    explicit_code u lt = record {
      word = u * 2 + 1;
      size = suc k;
      most = suc c.most;
      fits = omega (arith, pow-suc 2 k);
      encoded = encode-explicit x k x64 k64 l f u shift ne lt ∙ unfold shl in refl;
      decoded = λ z r b hz room q.
          let s = mod-pow-suc k z in
          decode-explicit x k x64 k64 l f z r b hz ne (omega (arith, s, q))
          ∙ rw (halves z s q) (rw (add-eq r u (omega (arith, rest-eq))) refl);
      longest = longer;
      at_most = omega (arith, c.low);
      bounded = omega (arith, c.bounded);
      low = omega (arith, c.low);
    }
      where
        halves :
            (z : ℕ)
            → z % 2 ^ suc k ≡ z / 2 % 2 ^ k * 2 + z % 2
            → z % 2 ^ suc k ≡ u * 2 + 1
            → z / 2 % 2 ^ k ≡ u
        halves z s q = omega (arith, s, q)

    -- the value is in a group of a higher digit
    next_code : Code (suc f) h x (v + 2 ^ k) shift m
    next_code = record {
      word = c.word * 2;
      size = suc c.size;
      most = suc c.most;
      fits = omega (arith, c.fits, pow-suc 2 c.size);
      encoded =
          encode-next x k x64 k64 l f (v + 2 ^ k) shift (omega (arith, rest-eq, x64)) ne
            (omega arith)
          ∙ rw back (c.encoded ∙ rw (twice, count) refl);
      decoded = λ z r b hz room q.
          let s = mod-pow-suc c.size z in
          decode-next x k x64 k64 l f z r b hz ne (omega (arith, s, q))
          ∙ rw (add-eq r (2 ^ k) (omega (arith, rest-eq, nonzero))) (
              c.decoded (z / 2) (r + 2 ^ k) (b + 1) (omega arith) (omega (arith, rest-eq))
                (omega (arith, s, q))
              ∙ rw (total r, more b) refl);
      longest = longer;
      at_most = omega (arith, c.at_most);
      bounded = omega (arith, c.bounded);
      low = omega (arith, c.low);
    }
      where
        back : v + 2 ^ k - 2 ^ k ≡ v
        back = omega arith

        twice : c.word * 2 ^ (shift + 1) ≡ c.word * 2 * 2 ^ shift
        twice = rw (pow-add shift 1) (omega arith)

        count : c.size + (shift + 1) ≡ suc c.size + shift
        count = omega arith

        total : (r : ℕ) → r + 2 ^ k + v ≡ r + (v + 2 ^ k)
        total r = omega arith

        more : (b : ℕ) → b + 1 + c.size ≡ b + suc c.size
        more b = omega arith

-- Every value below the coding has a code.
pub code :
    (fuel h x value shift m : ℕ)
    → h ≤ 64
    → x < 2 ^ h
    → value < x
    → ((i : ℕ) → i < m → bit x i ≡ false)
    → shift ≤ m
    → 64 ≤ m + fuel
    → Code fuel h x value shift m
code zero h x value shift m h64 hx lt clear ms enough =
    let (k, hk, l) = find-IsLowest h x (omega arith) hx in
    absurd (ground (arith, clear k, l.is_set))
code (suc f) h x value shift m h64 hx lt clear ms enough =
    let (k, hk, l) = find-IsLowest h x (omega arith) hx in
    let mk : m ≤ k = ground (arith, clear k, l.is_set) in
    let open_rest = λ (v : ℕ) (below : v < bit_xor x (2 ^ k)).
      code f h (bit_xor x (2 ^ k)) v (shift + 1) (suc k) h64
        (omega (arith, rest-eq f h x k shift m hk h64 hx l ms mk)) below
        (rest_clear x k (x64 f h x k shift m hk h64 hx l ms mk)
          (k64 f h x k shift m hk h64 hx l ms mk) l)
        (omega arith) (omega arith) in
    elim (Bool-cases (2 ^ k == x)) [
      | inl e ↦ last_code f h x k shift m hk h64 hx l ms mk value (ground (arith, e)) lt
      | inr ne ↦ elim (dec_lt value (2 ^ k)) [
        | yes p ↦
            let pos : 0 < bit_xor x (2 ^ k) =
              ground (arith, rest-eq f h x k shift m hk h64 hx l ms mk, ne) in
            explicit_code f h x k shift m hk h64 hx l ms mk 0 pos ne (open_rest 0 pos) value p
        | no p ↦
            let e : value - 2 ^ k + 2 ^ k ≡ value = omega arith in
            let b : value - 2 ^ k < bit_xor x (2 ^ k) =
              omega (arith, rest-eq f h x k shift m hk h64 hx l ms mk) in
            subst (λ (u : ℕ). Code (suc f) h x u shift m) e
              (next_code f h x k shift m hk h64 hx l ms mk (value - 2 ^ k) b ne
                (open_rest (value - 2 ^ k) b))
      ]
    ]
