-- ===== src/Hash/Fill.antt =====
-- The loop of `hash_resize_internal`: what it leaves of a table with room for all the pairs.
use clib.Common.{
  ℕ, suc, ◌+◌, ◌*◌, ◌≤◌, ◌≡◌, refl, sym, ap, ◌∙◌, List, [], ◌∷◌, true, false, not, ◌==◌, length,
  if◌then◌else◌, Option, none, some, Bool-cases, inl, inr, ◌⊎◌, arith, bit_and, to_ℕ,
}
use clib.Hash.Bucket.{Pair, Functions, set_value}
use clib.Hash.Allocated.{
  IsSmall, IsSmall-fewer, IsSmall-at, IsAllocated, lookup-IsAllocated, lookup-pair_size,
}
use clib.Hash.Keys.{IsKeys}
use clib.Hash.Pairs.{find, or_else, IsMap, assign, is_some, find-cong, find-absent_head}
use clib.Hash.View.{view, IsTable}
use clib.Hash.Refine.{IsUpdate, lookup-set, elts-lookup_set}
use clib.Hash.Table.{Hash, lookup, must_grow, set_pairs, no_auto_grow}

module _ {ℓ} {V : Type ℓ} where
  -- Another `n` pairs fit before the table must grow.
  unfoldable pub HasRoom : Hash V → ℕ → Type 0
  HasRoom v n =
      (bit_and v.flags no_auto_grow == 0) ≡ true → 4 * (v.elts + n + 1) ≤ 3 * length v.buckets

  pub room-stays : (v : Hash V) → HasRoom v 0 → must_grow v ≡ false
  unfolding HasRoom must_grow
  room-stays v room = elim (Bool-cases (bit_and v.flags no_auto_grow == 0)) [
    | inl t ↦ let r = room t in ground (arith, r)
    | inr f ↦ rw f refl
  ]

  pub HasRoom-fewer : (v : Hash V) (n : ℕ) → HasRoom v n → HasRoom v 0
  unfolding HasRoom
  HasRoom-fewer v n room grows = omega (arith, room grows)

  pub HasRoom-next :
      (v w : Hash V) (n : ℕ)
      → w.elts ≡ v.elts + 1
      → length w.buckets ≡ length v.buckets
      → w.flags ≡ v.flags
      → HasRoom v (suc n)
      → HasRoom w n
  unfolding HasRoom
  HasRoom-next v w n e sizes same_flags room grows =
      omega (arith, e, sizes, room (ap (λ f. bit_and f no_auto_grow == 0) (sym same_flags) ∙ grows))

-- A pair whose key is not in a table.
module _ {ℓ} {V : Type ℓ} {h : Functions} (laws : IsKeys h) (v : Hash V) (t : IsTable h v)
    (p : Pair V) (ps : List (Pair V)) (d : IsMap h (p ∷ ps))
    (apart : (k : ℕ) → (view h v k ≡ none) ⊎ (find h (p ∷ ps) k ≡ none)) where
  added : Hash V
  added = lookup h v p.key (set_value p.value)

  new_key : view h v p.key ≡ none
  unfolding find
  new_key = elim (apart p.key) [
    | inl e ↦ e
    | inr e ↦ absurd (ground (arith, (find-absent_head h p ps p.key e).0, laws.equal_refl p.key))
  ]

  elts-added : added.elts ≡ v.elts + 1
  unfolding added is_some
  elts-added =
      elts-lookup_set laws v t p.key p.value ∙ ap (λ a. v.elts + to_ℕ (not (is_some a))) new_key

  view-added : (k : ℕ) → view h added k ≡ (if h.key_equal p.key k then some p else view h v k)
  unfolding added assign
  view-added k =
      (lookup-set laws v t p.key p.value).answers k
      ∙ ap (λ a. if h.key_equal p.key k then some (assign a p.key p.value) else view h v k) new_key

  rest_absent : (k : ℕ) → h.key_equal p.key k ≡ true → find h ps k ≡ none
  unfolding IsMap
  rest_absent k e = sym (find-cong laws ps p.key k e) ∙ d.0

  apart-added : (k : ℕ) → (view h added k ≡ none) ⊎ (find h ps k ≡ none)
  apart-added k = elim (Bool-cases (h.key_equal p.key k)) [
    | inl e ↦ inr (rest_absent k e)
    | inr f ↦ elim (apart k) [
      | inl n ↦ inl (view-added k ∙ rw (f, n) refl)
      | inr n ↦ inr (find-absent_head h p ps k n).1
    ]
  ]

  answers-added :
      (k : ℕ) → or_else (find h ps k) (view h added k) ≡ or_else (find h (p ∷ ps) k) (view h v k)
  unfolding or_else find
  answers-added k = elim (Bool-cases (h.key_equal p.key k)) [
    | inl e ↦ rw (view-added k, rest_absent k e, e) refl
    | inr f ↦ rw (view-added k, f) refl
  ]

module _ {ℓ} {V : Type ℓ} {h : Functions} (laws : IsKeys h)
    (set3 : Hash V → ℕ → V → Option (Hash V))
    (sets : (v : Hash V) (key : ℕ) (x : V)
      → must_grow (lookup h v key (set_value x)) ≡ false
      → set3 v key x ≡ some (lookup h v key (set_value x))) where
  -- The loop sets `ps` in `v` and leaves `w`.
  pub record IsFilled (v : Hash V) (ps : List (Pair V)) : Type ℓ where
    pub result : Hash V
    pub returns : set_pairs set3 ps v ≡ some result
    pub table : IsTable h result
    pub answers : (k : ℕ) → view h result k ≡ or_else (find h ps k) (view h v k)
    pub sizes : length result.buckets ≡ length v.buckets
    pub same_flags : result.flags ≡ v.flags
    pub count : result.elts ≡ v.elts + length ps
    pub same_pair_size : result.log2_pair_size ≡ v.log2_pair_size
    pub allocated :
        IsAllocated v → IsSmall v.log2_pair_size (v.elts + length ps) → IsAllocated result

  pub set_pairs-IsFilled :
      (v : Hash V) (ps : List (Pair V))
      → IsTable h v
      → IsMap h ps
      → ((k : ℕ) → (view h v k ≡ none) ⊎ (find h ps k ≡ none))
      → HasRoom v (length ps)
      → IsFilled v ps
  unfolding set_pairs or_else find IsMap HasRoom added
  set_pairs-IsFilled v [] t d apart room = record {
    result = v;
    returns = refl;
    table = t;
    answers = λ k. refl;
    sizes = refl;
    same_flags = refl;
    count = omega arith;
    same_pair_size = refl;
    allocated = λ a small. a;
  }
  set_pairs-IsFilled v (p ∷ ps) t d apart room =
      let w = lookup h v p.key (set_value p.value) in
      let u : IsUpdate h v p.key (some (assign (view h v p.key) p.key p.value)) w =
        lookup-set laws v t p.key p.value in
      let e : w.elts ≡ v.elts + 1 = elts-added laws v t p ps d apart in
      let r : HasRoom w (length ps) = HasRoom-next v w (length ps) e u.sizes u.same_flags room in
      let rest : IsFilled w ps =
        set_pairs-IsFilled w ps u.table d.1 (apart-added laws v t p ps d apart) r in
      let same : must_grow w ≡ false = room-stays w (HasRoom-fewer w (length ps) r) in
      record {
        result = rest.result;
        returns = rw (sets v p.key p.value same) rest.returns;
        table = rest.table;
        answers = λ k. rest.answers k ∙ answers-added laws v t p ps d apart k;
        sizes = rest.sizes ∙ u.sizes;
        same_flags = rest.same_flags ∙ u.same_flags;
        count = omega (arith, rest.count, e);
        same_pair_size = rest.same_pair_size ∙ lookup-pair_size h v p.key p.value;
        allocated = λ a small.
            rest.allocated
              (lookup-IsAllocated h v p.key p.value t a
                (IsSmall-fewer v.log2_pair_size _ _ (omega arith) small))
              (IsSmall-at v.log2_pair_size _ _ _ (lookup-pair_size h v p.key p.value)
                (omega (arith, e)) small);
      }
