-- ===== src/Zvec/Laws.antt =====
-- `zvec_decode` of what `zvec_encode` answers.
use clib.Common.{
  pow-add, sym, ap, ℕ, ◌+◌, ◌-◌, ◌*◌, ◌%◌, ◌^◌, ◌≤◌, ◌<◌, ◌≡◌, refl, ◌∙◌, true, false, leb, ◌==◌,
  some, arith,
}
use clib.Word.{IsWord, sub}
use clib.Zvec.{encode, decode, decode_from, coding_max_n_bits}
use clib.Zvec.Code.{Code, code}
use mathlib.Core.Path.{subst}
use Prim.Native.Nat.{◌∣◌}
use native.Mathlib.Nat.{
  mod-mod_of_dvd, mod-eq_of_lt, add-mul-mod_self_left, dvd-mul_right, pow-le-pow_right,
}

-- The word `z` of `n` digits stands for `value`.
pub record IsCode (coding value z n : ℕ) : Type 0 where
  pub encoded : encode coding value ≡ some (z, n)
  pub fits : z < 2 ^ n
  pub decoded :
      (zdata : ℕ) → IsWord zdata → zdata % 2 ^ n ≡ z → decode coding zdata ≡ some (value, n)

decode-eq :
    (coding zdata r n : ℕ)
    → 0 < coding
    → decode_from 64 coding zdata 0 0 ≡ some (r, n)
    → decode coding zdata ≡ some (r, n)
unfolding decode
decode-eq coding zdata r n pos h =
    let g : (coding == 0) ≡ false = ground arith in rw (h, g, decode) refl

module _ (coding value : ℕ) (small : coding < 2 ^ 32) (lt : value < coding) where
  code_of : Code 64 32 coding value 0 0
  code_of =
      code 64 32 coding value 0 0 (omega arith) small lt (λ i h. absurd (omega arith)) (omega arith)
        (omega arith)

  size_bound : code_of.size ≤ 62
  size_bound = omega (arith, code_of.at_most, code_of.bounded)

  -- Each value below a coding of 32 bits has a code, no longer than the longest.
  pub IsCode-exists :
      (z : ℕ) × (n : ℕ) × (most : ℕ) × IsCode coding value z n
      × (coding_max_n_bits coding ≡ some most)
      × (n ≤ most)
      × (most ≤ 62)
  IsCode-exists = (
    code_of.word,
    code_of.size,
    code_of.most,
    record { encoded = encoded_whole; fits = code_of.fits; decoded = decoded_whole },
    most_bits,
    code_of.at_most,
    omega (arith, code_of.bounded),
  )
    where
      whole : code_of.word * 2 ^ 0 % 2 ^ 64 ≡ code_of.word
      whole = omega (arith, code_of.fits, pow-le-pow_right {n = 2} (omega arith) size_bound)

      below : sub coding 1 ≡ coding - 1
      below = unfold sub in omega (arith)

      encoded_whole : encode coding value ≡ some (code_of.word, code_of.size)
      encoded_whole =
          let s : code_of.size + 0 ≡ code_of.size = omega arith in
          let g : leb value (sub coding 1) ≡ true = ground (arith, below) in
          unfold encode in rw g (code_of.encoded ∙ rw (whole, s) refl)

      decoded_whole :
          (zdata : ℕ)
          → IsWord zdata
          → zdata % 2 ^ code_of.size ≡ code_of.word
          → decode coding zdata ≡ some (value, code_of.size)
      decoded_whole zdata hz e =
          let v : 0 + value ≡ value = omega arith in
          let n : 0 + code_of.size ≡ code_of.size = omega arith in
          decode-eq coding zdata value code_of.size (omega arith)
            (code_of.decoded zdata 0 0 hz (omega arith) e ∙ rw (v, n) refl)

      coding_max-eq :
          (r : ℕ)
          → decode coding 0 ≡ some (r, code_of.most)
          → coding_max_n_bits coding ≡ some code_of.most
      coding_max-eq r e = unfold coding_max_n_bits in rw (e, coding_max_n_bits) refl

      most_bits : coding_max_n_bits coding ≡ some code_of.most
      most_bits =
          let (r, e) = code_of.longest 0 0 in
          let n : 0 + code_of.most ≡ code_of.most = omega arith in
          coding_max-eq r (decode-eq coding 0 r code_of.most (omega arith) (e ∙ rw n refl))

-- A code of `n` digits with other digits above it.
code_and_more : (z n high : ℕ) → n ≤ 64 → z < 2 ^ n → (z + 2 ^ n * high) % 2 ^ 64 % 2 ^ n ≡ z
code_and_more z n high le fits =
    mod-mod_of_dvd (2 ^ n) (z + 2 ^ n * high) divides
    ∙ add-mul-mod_self_left z (2 ^ n) high
    ∙ mod-eq_of_lt fits
  where
    whole : n + (64 - n) ≡ 64
    whole = omega arith

    divides : 2 ^ n ∣ 2 ^ 64
    divides =
        subst (λ (t : ℕ). 2 ^ n ∣ t) (sym (pow-add n (64 - n)) ∙ ap (λ (e : ℕ). 2 ^ e) whole)
          (dvd-mul_right (2 ^ n) (2 ^ (64 - n)))

-- Under a coding that is below `2 ^ 32`, each value below the coding has a code of at most 62
-- bits, and `zvec_decode` of that code with any digits above it, cut off at 64, answers the value
-- and the length.
pub decode-encode :
    (coding value high : ℕ)
    → coding < 2 ^ 32
    → value < coding
    → (z : ℕ) × (n : ℕ) × (encode coding value ≡ some (z, n))
      × (n ≤ 62)
      × (decode coding ((z + 2 ^ n * high) % 2 ^ 64) ≡ some (value, n))
decode-encode coding value high small lt =
    let (z, n, most, c, m, le, bound) = IsCode-exists coding value small lt in
    (
      z,
      n,
      c.encoded,
      omega arith,
      c.decoded ((z + 2 ^ n * high) % 2 ^ 64) (omega arith)
          (code_and_more z n high (omega arith) c.fits),
    )
