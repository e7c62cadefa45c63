-- ===== src/SparseVec/Pair.antt =====
-- `sparse_vec_index2` against two calls of `sparse_vec_index`.
use clib.Common.{
  ℕ, ◌+◌, ◌/◌, ◌%◌, ◌^◌, ◌<◌, ◌≡◌, refl, Bool, true, false, not, ◌&&◌, ◌==◌, arith, Bool-cases, inl,
  inr, ◌⊎◌, if◌then◌else◌, to_ℕ, All, All-get_or, get_or, none, some,
}
use mathlib.Core.Option.{bind}
use clib.Word.{IsWord, sub, add}
use clib.Word.Digits.{and-IsWord}
use clib.Bitops.{is_pow2, count_set_bits}
use clib.SparseVec.{
  SparseVec, index, index2, index_internal, is_range_member, is_member, count_before, bits_below,
  index_speculating, has_word,
}
use clib.SparseVec.Count.{count-is_pow2, count_set_bits-lt}

-- The words of the bitmap are words and the counts are of `u16`.
pub record IsSparse {ℓ} {A : Type ℓ} (v : SparseVec A) : Type 0 where
  pub words : All IsWord v.is_member_bitmap
  pub counts : All (λ c. c < 2 ^ 16) v.member_counts

-- The sum that is guessed, and corrected where the guess may be wrong.
guess_sum :
    (c n : ℕ) (one member speculates : Bool)
    → c < 2 ^ 16
    → n < 128
    → (speculates ≡ false) ⊎ (n ≡ to_ℕ one)
    → (let guess = (c + to_ℕ one) % 2 ^ 32 in
        (to_ℕ member
            + (if member
                then (if speculates then guess else (guess + sub n (to_ℕ one)) % 2 ^ 32)
                else 0))
          % 2 ^ 32
        ≡ to_ℕ member + (if member then add c n else 0))
unfolding sub add
guess_sum c n one false speculates hc hn how = omega arith
guess_sum c n one true true hc hn (inl e) = absurd (ground (arith, e))
guess_sum c n one true true hc hn (inr e) = rw e (bounded one)
  where
    bounded : (one : Bool) → (1 + (c + to_ℕ one) % 2 ^ 32) % 2 ^ 32 ≡ 1 + (c + to_ℕ one) % 2 ^ 64
    bounded true = omega arith
    bounded false = omega arith
guess_sum c n true true false hc hn how = omega arith
guess_sum c n false true false hc hn how = omega arith

module _ {ℓ} {A : Type ℓ} (v : SparseVec A) (s : IsSparse v) where
  bits_below-IsWord : (si : ℕ) → IsWord (bits_below v si)
  unfolding bits_below sub
  bits_below-IsWord si =
      and-IsWord _ _ (All-get_or IsWord v.is_member_bitmap (si / 64) 0 s.words (omega arith))
        (omega arith)

  counts-u16 : (si : ℕ) → get_or v.member_counts (si / 64) 0 < 2 ^ 16
  counts-u16 si = All-get_or (λ c. c < 2 ^ 16) v.member_counts (si / 64) 0 s.counts (omega arith)

  -- Both ways to count what is before the index.
  index-guess :
      (si : ℕ) (speculates : Bool)
      → (speculates ≡ false) ⊎ (is_pow2 (bits_below v si) ≡ true)
      → index_speculating v si speculates
        ≡ to_ℕ (is_member v si) + (if is_member v si then count_before v si else 0)
  unfolding index_speculating count_before sub add
  index-guess si speculates how =
      guess_sum (get_or v.member_counts (si / 64) 0) (count_set_bits (bits_below v si))
        (not (bits_below v si == 0)) (is_member v si) speculates (counts-u16 si)
        (count_set_bits-lt (bits_below v si))
        (elim how [
          | inl e ↦ inl e
          | inr e ↦ inr (count-is_pow2 (bits_below v si) (bits_below-IsWord si) e)
        ])

  -- A lookup that finds its word.
  index-has_word :
      (si : ℕ)
      → index v si ≡ (
          if has_word v (si / 64)
          then some (to_ℕ (is_member v si) + (if is_member v si then count_before v si else 0))
          else none)
  unfolding index index_internal is_range_member
  index-has_word si = elim (Bool-cases (has_word v (si / 64))) [
    | inl e ↦ rw (e, index, index_internal) refl
    | inr e ↦ rw (e, index, index_internal) refl
  ]

  -- In a sparse vector whose bitmap holds words and whose counts are of 16 bits,
  -- `sparse_vec_index2`, which speculates that at most one bit is set below each index, answers
  -- what two calls of `sparse_vec_index` answer, or fails where one of them fails its assertion.
  pub index2-index :
      (si0 si1 : ℕ)
      → index2 v si0 si1 ≡ bind (index v si0) (λ i0. bind (index v si1) (λ i1. some (i0, i1)))
  unfolding index2 bind
  index2-index si0 si1 = elim (Bool-cases (has_word v (si0 / 64))) [
    | inr e ↦ rw (e, index-has_word si0) (rw e refl)
    | inl e ↦ elim (Bool-cases (has_word v (si1 / 64))) [
      | inr f ↦ rw (index-has_word si0, index-has_word si1) (rw (e, f) refl)
      | inl f ↦
          rw (index-has_word si0, index-has_word si1)
            (rw (e, f)
              (rw (index-guess si0 both (ground arith), index-guess si1 both (ground arith)) refl))
    ]
  ]
    where
      both : Bool
      both = is_pow2 (bits_below v si0) && is_pow2 (bits_below v si1)
