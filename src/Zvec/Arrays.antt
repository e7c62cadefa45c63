-- ===== src/Zvec/Arrays.antt =====
-- `zvec_decode_inline` of what `zvec_encode_inline` wrote into a bitmap.
use clib.Common.{
  ℕ, suc, ◌+◌, ◌-◌, ◌*◌, ◌%◌, ◌^◌, ◌≤◌, ◌<◌, ◌≡◌, refl, sym, ◌∙◌, List, [], ◌∷◌, map, Bool, some,
  arith, length, All,
}
use clib.Bits.Logic.{bit_ext}
use clib.Bits.Shift.{bit-mod}
use clib.Word.{IsWord}
use clib.Bitmap.{Bitmap, get}
use clib.Bitmap.Range.{get_multiple, set_multiple}
use clib.Bitmap.View.{IsBitmap}
use clib.Bitmap.RangeTrip.{get_multiple-IsWord}
use clib.Bitmap.RangeGet.{bit-get_multiple}
use clib.Bitmap.RangeSet.{get-set_multiple, set_multiple-IsBitmap}
use clib.Zvec.{
  encode, decode, get_data, put_data, encode_all, decode_rounds, decode_all, coding_max_n_bits,
}
use clib.Zvec.Laws.{IsCode, IsCode-exists}
use clib.Zvec.Signs.{restored, put_data-get_data}
use native.Mathlib.Nat.{pow-le-pow_right}

-- The object holds a number that the coding encodes.
pub record IsEncodable (n : ℕ) (is_signed : Bool) (coding x : ℕ) : Type 0 where
  pub value : ℕ
  pub object : x < 2 ^ (8 * n)
  pub read : get_data n is_signed x ≡ some value
  pub covered : value < coding

-- The code that was written is the beginning of what is read.
read_back :
    (bm bm' : Bitmap) (i z l most : ℕ)
    → IsBitmap bm
    → IsBitmap bm'
    → z < 2 ^ l
    → l ≤ most
    → most ≤ 62
    → ((j : ℕ) → j < i + l → get bm' j ≡ get (set_multiple bm i z l) j)
    → get_multiple bm' i most % 2 ^ l ≡ z
read_back bm bm' i z l most h h' fits le bound agree = bit_ext l _ _ (omega arith) fits (λ j hj.
    bit-mod l (get_multiple bm' i most) j
    ∙ ground (
      arith,
      bit-get_multiple bm' i most j h' (omega arith),
      agree (i + j) (omega arith),
      get-set_multiple bm i z l h
          (omega (arith, pow-le-pow_right {n = 2} (omega arith) (wide le bound))) (omega arith)
          (i + j),
      back,
    ))
  where
    wide : l ≤ most → most ≤ 62 → l ≤ 64
    wide a b = omega arith

    back : (j : ℕ) → i + j - i ≡ j
    back j = omega arith

some_injective : {a b : ℕ} → some a ≡ some b → a ≡ b
some_injective h = ground (arith, h)

-- What encoding objects into a bitmap from bit `i` on gives: the bits below `i` stay, and reading
-- from `i` on gives the objects back.
record IsWritten (n : ℕ) (is_signed : Bool) (coding : ℕ) (xs : List ℕ) (bm : Bitmap) (i : ℕ)
    : Type 0 where
  bits : Bitmap
  end_bit : ℕ
  encoded : encode_all n is_signed coding xs bm i ≡ some (bits, end_bit)
  words : IsBitmap bits
  kept : (j : ℕ) → j < i → get bits j ≡ get bm j
  decoded :
      (most : ℕ)
      → coding_max_n_bits coding ≡ some most
      → decode_rounds n is_signed coding most (length xs) bits i
        ≡ some (map (restored (8 * n) is_signed) xs, end_bit)

module _ (n : ℕ) (is_signed : Bool) (coding : ℕ) (small : coding < 2 ^ 32) where
  code-IsWord : (z l : ℕ) → z < 2 ^ l → l ≤ 62 → IsWord z
  code-IsWord z l fits le = omega (arith, pow-le-pow_right {n = 2} (omega arith) le)

  encode_all-cons :
      (x : ℕ) (xs : List ℕ) (bm : Bitmap) (i d z l : ℕ)
      → get_data n is_signed x ≡ some d
      → encode coding d ≡ some (z, l)
      → encode_all n is_signed coding (x ∷ xs) bm i
        ≡ encode_all n is_signed coding xs (set_multiple bm i z l) (i + l)
  unfolding encode_all
  encode_all-cons x xs bm i d z l a b = rw (a, b) refl

  decode_rounds-suc :
      (most k : ℕ) (bm : Bitmap) (i d l y : ℕ) (ys : List ℕ) (e : ℕ)
      → decode coding (get_multiple bm i most) ≡ some (d, l)
      → put_data n is_signed d ≡ some y
      → decode_rounds n is_signed coding most k bm (i + l) ≡ some (ys, e)
      → decode_rounds n is_signed coding most (suc k) bm i ≡ some (y ∷ ys, e)
  unfolding decode_rounds
  decode_rounds-suc most k bm i d l y ys e a b c = rw (a, b, c) refl

  IsWritten-cons :
      (x : ℕ) (xs : List ℕ) (bm : Bitmap) (i : ℕ)
      → IsBitmap bm
      → (hx : IsEncodable n is_signed coding x) → (z l most : ℕ) → IsCode coding hx.value z l
      → coding_max_n_bits coding ≡ some most
      → l ≤ most
      → most ≤ 62
      → IsWritten n is_signed coding xs (set_multiple bm i z l) (i + l)
      → IsWritten n is_signed coding (x ∷ xs) bm i
  IsWritten-cons x xs bm i h hx z l most c m le bound w = record {
    bits = w.bits;
    end_bit = w.end_bit;
    encoded = encode_all-cons x xs bm i hx.value z l hx.read c.encoded ∙ w.encoded;
    words = w.words;
    kept = λ j lt.
        w.kept j (omega arith)
        ∙ ground (
          arith,
          get-set_multiple bm i z l h (code-IsWord z l c.fits (omega arith)) (omega arith) j,
        );
    decoded = λ most' e.
        let same : most ≡ most' = some_injective (sym m ∙ e) in
        decode_rounds-suc most' (length xs) w.bits i hx.value l (restored (8 * n) is_signed x) _
          w.end_bit
          (c.decoded _ (get_multiple-IsWord w.bits i most' w.words) (
            read_back bm w.bits i z l most' h w.words c.fits (omega (arith, same))
              (omega (arith, same)) w.kept))
          (put_data-get_data n is_signed x hx.value hx.object hx.read) (w.decoded most' e);
  }

  written :
      (xs : List ℕ) (bm : Bitmap) (i : ℕ)
      → IsBitmap bm
      → All (IsEncodable n is_signed coding) xs
      → IsWritten n is_signed coding xs bm i
  written [] bm i h hx = record {
    bits = bm;
    end_bit = i;
    encoded = unfold encode_all in refl;
    words = h;
    kept = λ j lt. refl;
    decoded = λ most e. unfold decode_rounds in refl;
  }
  written (x ∷ xs) bm i h (hx, hxs) =
      let (z, l, most, c, m, le, bound) = IsCode-exists coding hx.value small hx.covered in
      IsWritten-cons x xs bm i h hx z l most c m le bound (
        written xs (set_multiple bm i z l) (i + l)
          (set_multiple-IsBitmap bm i z l h (code-IsWord z l c.fits (omega arith)) (omega arith))
          hxs)

decode_all-eq :
    (n : ℕ) (is_signed : Bool) (coding k : ℕ) (bm : Bitmap) (i most : ℕ)
    → coding_max_n_bits coding ≡ some most
    → decode_all n is_signed coding k bm i ≡ decode_rounds n is_signed coding most k bm i
unfolding decode_all
decode_all-eq n is_signed coding k bm i most e = rw e refl

-- If each object of the list holds a number below the coding, which is not 0 and below `2 ^ 32`,
-- then `zvec_encode_inline` succeeds and leaves the bits of a bitmap of words below `i` as they
-- are, and `zvec_decode_inline` from bit `i` on of what it wrote gives the objects back, up to the
-- same end bit: each unsigned or not negative number exactly, and one more than each negative
-- number.
pub decode_all-encode_all :
    (n : ℕ) (is_signed : Bool) (coding : ℕ) (xs : List ℕ) (bm : Bitmap) (i : ℕ)
    → 0 < coding
    → coding < 2 ^ 32
    → IsBitmap bm
    → All (IsEncodable n is_signed coding) xs
    → (bits : Bitmap) × (end_bit : ℕ) × (encode_all n is_signed coding xs bm i
        ≡ some (bits, end_bit))
      × ((j : ℕ) → j < i → get bits j ≡ get bm j)
      × (decode_all n is_signed coding (length xs) bits i
          ≡ some (map (restored (8 * n) is_signed) xs, end_bit))
decode_all-encode_all n is_signed coding xs bm i pos small h hx =
    let w = written n is_signed coding small xs bm i h hx in
    let (z, l, most, c, m, le, bound) = IsCode-exists coding 0 small pos in
    (
      w.bits,
      w.end_bit,
      w.encoded,
      w.kept,
      decode_all-eq n is_signed coding (length xs) w.bits i most m ∙ w.decoded most m,
    )
