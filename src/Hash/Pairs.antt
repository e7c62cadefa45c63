-- ===== src/Hash/Pairs.antt =====
-- The pairs of a bucket as a map from keys to pairs: what a write, an addition and a removal do
-- to it, when no two keys are equal.
use clib.Common.{
  ℕ, ◌≡◌, refl, sym, ◌∙◌, List, [], ◌∷◌, ◌++◌, Bool, true, false, if◌then◌else◌, Option, none, some,
  Bool-cases, inl, inr, arith, bit_and, ◌↔◌,
}
use clib.Hash.Bucket.{Pair, Functions}
use clib.Hash.Keys.{IsKeys}

-- The first of two answers.
unfoldable pub or_else {ℓ} : {A : Type ℓ} → Option A → Option A → Option A
or_else none b = b
or_else (some a) b = some a

pub or_else-none {ℓ} : {A : Type ℓ} (a : Option A) → or_else a none ≡ a
unfolding or_else
or_else-none none = refl
or_else-none (some a) = refl

-- A pair with a new value, its key the old one if there was one.
unfoldable pub assign {ℓ} : {V : Type ℓ} → Option (Pair V) → ℕ → V → Pair V
assign none key v = record { key = key; value = v }
assign (some p) key v = record p { value = v }

unfoldable pub is_some {ℓ} : {A : Type ℓ} → Option A → Bool
is_some none = false
is_some (some a) = true

module _ {ℓ} {V : Type ℓ} (h : Functions) where
  -- The first pair with an equal key.
  unfoldable pub find : List (Pair V) → ℕ → Option (Pair V)
  find [] key = none
  find (p ∷ ps) key = if h.key_equal p.key key then some p else find ps key

  -- No two keys are equal.
  unfoldable pub IsMap : List (Pair V) → Type ℓ
  unfolding find
  IsMap [] = Unit {ℓ}
  IsMap (p ∷ ps) = (find ps p.key ≡ none) × IsMap ps

  -- All keys have their sum in one bucket.
  unfoldable pub IsPlaced : ℕ → ℕ → List (Pair V) → Type 0
  IsPlaced mask i [] = Unit {0}
  IsPlaced mask i (p ∷ ps) = (bit_and (h.key_sum p.key) mask ≡ i) × IsPlaced mask i ps

  pub IsPlaced-append :
      (mask i : ℕ) (xs ys : List (Pair V))
      → IsPlaced mask i xs × IsPlaced mask i ys ↔ IsPlaced mask i (xs ++ ys)
  unfolding IsPlaced
  IsPlaced-append mask i [] ys = (λ a. a.1, λ a. (tt, a))
  IsPlaced-append mask i (x ∷ xs) ys =
      let (to, from) = IsPlaced-append mask i xs ys in
      (λ a. (a.0.0, to (a.0.1, a.1)), λ a. ((a.0, (from a.1).0), (from a.1).1))

  -- The pairs after a write, as a function of the list.
  unfoldable pub put_pair : List (Pair V) → ℕ → V → List (Pair V)
  put_pair [] key v = record { key = key; value = v } ∷ []
  put_pair (p ∷ ps) key v =
      if h.key_equal p.key key then record p { value = v } ∷ ps else p ∷ put_pair ps key v

  pub find-append :
      (xs ys : List (Pair V)) (k : ℕ) → find (xs ++ ys) k ≡ or_else (find xs k) (find ys k)
  unfolding find or_else
  find-append [] ys k = refl
  find-append (p ∷ xs) ys k = elim (Bool-cases (h.key_equal p.key k)) [
    | inl e ↦ rw e refl
    | inr e ↦ rw e (find-append xs ys k)
  ]

  pub find-absent_head :
      (p : Pair V) (ps : List (Pair V)) (k : ℕ)
      → find (p ∷ ps) k ≡ none
      → (h.key_equal p.key k ≡ false) × (find ps k ≡ none)
  unfolding find
  find-absent_head p ps k e = elim (Bool-cases (h.key_equal p.key k)) [
    | inl t ↦ absurd (ground (arith, e, t))
    | inr f ↦ (f, ground (arith, e, f))
  ]

module _ {ℓ} {V : Type ℓ} {h : Functions} (laws : IsKeys h) where
  pub find-cong :
      (ps : List (Pair V)) (a b : ℕ) → h.key_equal a b ≡ true → find h ps a ≡ find h ps b
  unfolding find
  find-cong [] a b e = refl
  find-cong (p ∷ ps) a b e = rw (laws.equal_cong a b p.key e, find-cong ps a b e) refl

  -- The last pair, moved to the front.
  module _ (e : Pair V) where
    pub IsMap-snoc : (zs : List (Pair V)) → IsMap h (zs ++ e ∷ []) → IsMap h (e ∷ zs)
    unfolding find IsMap or_else
    IsMap-snoc [] d = (refl, tt)
    IsMap-snoc (z ∷ zs) d =
        let (n, m) = IsMap-snoc zs d.1 in
        let both : or_else (find h zs z.key) (find h (e ∷ []) z.key) ≡ none =
          sym (find-append h zs (e ∷ []) z.key) ∙ d.0 in
        elim (Bool-cases (h.key_equal e.key z.key)) [
          | inl t ↦ absurd (ground (arith, both, t))
          | inr f ↦ (rw (laws.equal_sym z.key e.key, f) n, (ground (arith, both, f), m))
        ]

    pub find-snoc :
        (zs : List (Pair V)) (k : ℕ)
        → find h zs e.key ≡ none
        → find h (zs ++ e ∷ []) k ≡ find h (e ∷ zs) k
    unfolding find or_else
    find-snoc zs k absent = elim (Bool-cases (h.key_equal e.key k)) [
      | inl t ↦ find-append h zs (e ∷ []) k ∙ rw (t, sym (find-cong zs e.key k t) ∙ absent) refl
      | inr f ↦ find-append h zs (e ∷ []) k ∙ rw f (or_else-none (find h zs k))
    ]
