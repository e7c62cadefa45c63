-- ===== src/Hash/Put.antt =====
-- The pairs of a bucket after a value is set, as a map from keys to pairs.
use clib.Common.{
  ℕ, ◌+◌, ◌≡◌, refl, sym, ap, ◌∙◌, List, [], ◌∷◌, ◌++◌, not, length, if◌then◌else◌, none, some,
  to_ℕ, Bool-cases, inl, inr, arith, bit_and,
}
use clib.Hash.Bucket.{Pair, Functions}
use clib.Hash.Keys.{IsKeys, key_equal-left}
use clib.Hash.Pairs.{find, IsMap, IsPlaced, put_pair, assign, is_some, find-absent_head}

module _ {ℓ} {V : Type ℓ} (h : Functions) (key : ℕ) (v : V) where
  pub put_pair-absent :
      (ps : List (Pair V))
      → find h ps key ≡ none
      → put_pair h ps key v ≡ ps ++ record { key = key; value = v } ∷ []
  unfolding put_pair
  put_pair-absent [] n = refl
  put_pair-absent (p ∷ ps) n =
      let (f, n') = find-absent_head h p ps key n in rw f (ap (λ t. p ∷ t) (put_pair-absent ps n'))

  pub length-put_pair :
      (ps : List (Pair V))
      → length (put_pair h ps key v) ≡ length ps + to_ℕ (not (is_some (find h ps key)))
  unfolding put_pair find is_some
  length-put_pair [] = refl
  length-put_pair (p ∷ ps) = elim (Bool-cases (h.key_equal p.key key)) [
    | inl t ↦ rw t (omega arith)
    | inr f ↦ rw f (omega (arith, length-put_pair ps))
  ]

  pub IsPlaced-put_pair :
      (mask i : ℕ) (ps : List (Pair V))
      → bit_and (h.key_sum key) mask ≡ i
      → IsPlaced h mask i ps
      → IsPlaced h mask i (put_pair h ps key v)
  unfolding put_pair IsPlaced
  IsPlaced-put_pair mask i [] e a = (e, tt)
  IsPlaced-put_pair mask i (p ∷ ps) e a = elim (Bool-cases (h.key_equal p.key key)) [
    | inl t ↦ rw t a
    | inr f ↦ rw f (a.0, IsPlaced-put_pair mask i ps e a.1)
  ]

module _ {ℓ} {V : Type ℓ} {h : Functions} (laws : IsKeys h) (key : ℕ) (v : V) where
  pub find-put_pair :
      (ps : List (Pair V)) (k : ℕ)
      → find h (put_pair h ps key v) k
        ≡ (if h.key_equal key k then some (assign (find h ps key) key v) else find h ps k)
  unfolding put_pair find assign
  find-put_pair [] k = refl
  find-put_pair (p ∷ ps) k = elim (Bool-cases (h.key_equal p.key key)) [
    | inl t ↦
        rw (t, key_equal-left laws p.key key k t)
          (elim (Bool-cases (h.key_equal key k)) [ inl e ↦ rw e refl | inr e ↦ rw e refl ])
    | inr f ↦ elim (Bool-cases (h.key_equal key k)) [
      | inl e ↦ rw (f, e, sym (laws.equal_cong key k p.key e) ∙ f) (find-put_pair ps k ∙ rw e refl)
      | inr e ↦ rw (f, e, find-put_pair ps k) (rw e refl)
    ]
  ]

  pub IsMap-put_pair : (ps : List (Pair V)) → IsMap h ps → IsMap h (put_pair h ps key v)
  unfolding put_pair IsMap find
  IsMap-put_pair [] d = (refl, tt)
  IsMap-put_pair (p ∷ ps) d = elim (Bool-cases (h.key_equal p.key key)) [
    | inl t ↦ rw t d
    | inr f ↦
        rw f (find-put_pair ps p.key ∙ rw (laws.equal_sym key p.key ∙ f) d.0, IsMap-put_pair ps d.1)
  ]
