-- ===== src/Bitmap/RangeSet.antt =====
-- `clib_bitmap_set_multiple` writes the bits that `clib_bitmap_get` reads.
use clib.Common.{
  ℕ, ◌+◌, ◌-◌, ◌/◌, ◌%◌, ◌<◌, ◌≤◌, ◌≡◌, refl, ◌∙◌, ◌&&◌, Bool-cases, inl, inr, length, set, get_or,
  ltb, leb, ◌==◌, if◌then◌else◌, arith, bit_and, bit_or, All-set, length-set,
}
use clib.Bits.{bit}
use clib.Bits.Logic.{bit-and, bit-or}
use clib.Bits.Shift.{bit-mask}
use clib.Word.{IsWord, shl, shr, all_ones, complement}
use clib.Word.Digits.{
  bit-shl_word, bit-shr_word, bit-complement, shl-IsWord, shr-IsWord, and-IsWord, or-IsWord,
  complement-IsWord,
}
use clib.Bitmap.{Bitmap, get, vec_validate}
use clib.Bitmap.Range.{set_multiple, low_mask}
use clib.Bitmap.RangeGet.{low_mask-eq, bit-low_mask}
use clib.Bitmap.View.{
  IsBitmap, get-bit, get_or-IsWord, get-set_word, get-vec_validate, vec_validate-IsBitmap,
}
use clib.Vec.Laws.{length-validate}
use native.Mathlib.Nat.{pow-le-pow_right, pow-suc}

-- The mask of the first word.
field_mask : ℕ → ℕ
field_mask n = if ltb n 64 then low_mask n else all_ones

low_mask-IsWord : (n : ℕ) → n < 64 → IsWord (low_mask n)
low_mask-IsWord n h =
    rw (low_mask-eq n h) (omega (arith, pow-le-pow_right {n = 2} (omega arith) h, pow-suc 2 n))

field_mask-IsWord : (n : ℕ) → IsWord (field_mask n)
unfolding field_mask
field_mask-IsWord n = ground (arith, low_mask-IsWord n)

bit-field_mask : (n j : ℕ) → n ≤ 64 → bit (field_mask n) j ≡ ltb j n
unfolding field_mask
bit-field_mask n j h = ground (arith, bit-low_mask n j, bit-mask 64 j)

-- The word with the digits from `i1` on replaced by those of `v` under the mask.
put_first : ℕ → ℕ → ℕ → ℕ → ℕ
put_first w i1 v n =
    bit_or (bit_and w (complement (shl (field_mask n) i1))) (shl (bit_and v (field_mask n)) i1)

put_first-IsWord : (w i1 v n : ℕ) → IsWord w → IsWord (put_first w i1 v n)
unfolding put_first
put_first-IsWord w i1 v n hw =
    or-IsWord _ _ (and-IsWord w _ hw (complement-IsWord (shl (field_mask n) i1))) (shl-IsWord _ i1)

bit-put_first :
    (w i1 v n k : ℕ)
    → n ≤ 64
    → k < 64
    → bit (put_first w i1 v n) k ≡ (if leb i1 k && ltb (k - i1) n then bit v (k - i1) else bit w k)
unfolding put_first
bit-put_first w i1 v n k hn hk = ground (
  arith,
  bit-or (bit_and w (complement (shl (field_mask n) i1))) (shl (bit_and v (field_mask n)) i1) k,
  bit-and w (complement (shl (field_mask n) i1)) k,
  bit-complement (shl (field_mask n) i1) k (shl-IsWord (field_mask n) i1),
  bit-shl_word (field_mask n) i1 k,
  bit-shl_word (bit_and v (field_mask n)) i1 k,
  bit-and v (field_mask n) (k - i1),
  bit-field_mask n (k - i1) hn,
)

-- The word with its lowest `n - t` digits replaced by those of `v` from `t` on.
put_second : ℕ → ℕ → ℕ → ℕ → ℕ
put_second w t v n =
    bit_or (bit_and w (complement (low_mask (n - t)))) (shr (bit_and v (field_mask n)) t)

put_second-IsWord : (w t v n : ℕ) → IsWord w → IsWord v → IsWord (put_second w t v n)
unfolding put_second
put_second-IsWord w t v n hw hv =
    or-IsWord _ _ (and-IsWord w _ hw (complement-IsWord (low_mask (n - t))))
      (shr-IsWord _ t (and-IsWord v _ hv (field_mask-IsWord n)))

bit-put_second :
    (w t v n k : ℕ)
    → n ≤ 64
    → 0 < t
    → t < n
    → k < 64
    → bit (put_second w t v n) k ≡ (if ltb (t + k) n then bit v (t + k) else bit w k)
unfolding put_second
bit-put_second w t v n k hn ht htn hk = ground (
  arith,
  bit-or (bit_and w (complement (low_mask (n - t)))) (shr (bit_and v (field_mask n)) t) k,
  bit-and w (complement (low_mask (n - t))) k,
  bit-complement (low_mask (n - t)) k (low_mask-IsWord (n - t) (omega arith)),
  bit-low_mask (n - t) k (omega arith),
  bit-shr_word (bit_and v (field_mask n)) t k,
  bit-and v (field_mask n) (t + k),
  bit-field_mask n (t + k) hn,
)

module _ (bm : Bitmap) (i v n : ℕ) where
  grown : Bitmap
  grown = vec_validate bm ((i + n) / 64)

  once : Bitmap
  once = set grown (i / 64) (put_first (get_or grown (i / 64) 0) (i % 64) v n)

  twice : Bitmap
  twice = set once (i / 64 + 1) (put_second (get_or once (i / 64 + 1) 0) (64 - i % 64) v n)

  length-grown : (i + n) / 64 < length grown
  unfolding grown vec_validate
  length-grown = length-validate 0 bm ((i + n) / 64)

  length-once : length once ≡ length grown
  unfolding once
  length-once = length-set grown (i / 64) _

  set_multiple-eq :
      set_multiple bm i v n
      ≡ (if ltb 64 (i % 64 + n) && ltb (i / 64 + 1) (length grown) then twice else once)
  unfolding set_multiple twice once grown put_first put_second field_mask
  set_multiple-eq = refl

module _ (bm : Bitmap) (i v n : ℕ) (h : IsBitmap bm) (hv : IsWord v) (hn : n ≤ 64) where
  grown-IsBitmap : IsBitmap (grown bm i v n)
  unfolding grown
  grown-IsBitmap = vec_validate-IsBitmap bm ((i + n) / 64) h

  once-IsBitmap : IsBitmap (once bm i v n)
  unfolding once
  once-IsBitmap =
      All-set IsWord (grown bm i v n) (i / 64) _ grown-IsBitmap
        (put_first-IsWord _ (i % 64) v n (get_or-IsWord (grown bm i v n) (i / 64) grown-IsBitmap))

  twice-IsBitmap : IsBitmap (twice bm i v n)
  unfolding twice
  twice-IsBitmap = All-set IsWord (once bm i v n) (i / 64 + 1) _ once-IsBitmap (
      put_second-IsWord _ (64 - i % 64) v n
        (get_or-IsWord (once bm i v n) (i / 64 + 1) once-IsBitmap) hv)

  get-once :
      (j : ℕ)
      → get (once bm i v n) j ≡ (
          if i / 64 == j / 64 && (leb (i % 64) (j % 64) && ltb (j % 64 - i % 64) n)
          then bit v (j % 64 - i % 64)
          else get bm j)
  unfolding once
  get-once j =
      get-set_word (grown bm i v n) (i / 64) _ j grown-IsBitmap
        (put_first-IsWord _ (i % 64) v n (get_or-IsWord (grown bm i v n) (i / 64) grown-IsBitmap))
        (omega (arith, length-grown bm i v n))
      ∙ ground (
        arith,
        bit-put_first (get_or (grown bm i v n) (i / 64) 0) (i % 64) v n (j % 64) hn (omega arith),
        get-bit (grown bm i v n) j grown-IsBitmap,
        same,
      )
    where
      same : get (grown bm i v n) j ≡ get bm j
      same = unfold grown in (get-vec_validate bm ((i + n) / 64) j h)

  get-twice :
      (j : ℕ)
      → 64 < i % 64 + n
      → i / 64 + 1 < length (grown bm i v n)
      → get (twice bm i v n) j ≡ (
          if i / 64 + 1 == j / 64 && ltb (64 - i % 64 + j % 64) n
          then bit v (64 - i % 64 + j % 64)
          else get (once bm i v n) j)
  unfolding twice
  get-twice j far fits =
      get-set_word (once bm i v n) (i / 64 + 1) _ j once-IsBitmap
        (put_second-IsWord _ (64 - i % 64) v n
          (get_or-IsWord (once bm i v n) (i / 64 + 1) once-IsBitmap) hv)
        (omega (arith, length-once bm i v n))
      ∙ ground (
        arith,
        bit-put_second (get_or (once bm i v n) (i / 64 + 1) 0) (64 - i % 64) v n (j % 64) hn,
        get-bit (once bm i v n) j once-IsBitmap,
      )

  -- In a bitmap of words, for a value that is a word and at most 64 bits, after
  -- `clib_bitmap_set_multiple` bit `i + k` is digit `k` of the value for each `k` below `n_bits`,
  -- and every other bit is as it was.
  pub get-set_multiple :
      (j : ℕ)
      → get (set_multiple bm i v n) j
        ≡ (if leb i j && ltb j (i + n) then bit v (j - i) else get bm j)
  get-set_multiple j =
      rw (set_multiple-eq bm i v n)
        (elim (Bool-cases (ltb 64 (i % 64 + n) && ltb (i / 64 + 1) (length (grown bm i v n)))) [
          | inl e ↦ rw e (ground (arith, get-twice j, get-once j, in_first, in_second))
          | inr e ↦ rw e (ground (arith, get-once j, in_first, in_second, length-grown bm i v n))
        ])
    where
      in_first : i / 64 ≡ j / 64 → j % 64 - i % 64 ≡ j - i
      in_first e = omega arith

      in_second : i / 64 + 1 ≡ j / 64 → 64 - i % 64 + j % 64 ≡ j - i
      in_second e = omega arith

  pub set_multiple-IsBitmap : IsBitmap (set_multiple bm i v n)
  set_multiple-IsBitmap =
      rw (set_multiple-eq bm i v n)
        (elim (Bool-cases (ltb 64 (i % 64 + n) && ltb (i / 64 + 1) (length (grown bm i v n)))) [
          | inl e ↦ rw e twice-IsBitmap
          | inr e ↦ rw e once-IsBitmap
        ])
