-- ===== src/Hash/Reads.antt =====
-- `_hash_get`, `hash_foreach_pair` and `hash_dup` against what `_hash_get_pair` answers.
use clib.Common.{
  ℕ, ◌^◌, ◌≤◌, ◌≡◌, refl, sym, ap, ◌∙◌, false, ◌==◌, length, if◌then◌else◌, Option, none, some,
  Bool-cases, inl, inr, arith, [], ◌⊎◌, nil_of_length, bit_and, ==_iff,
}
use clib.Hash.Bucket.{Pair, Functions}
use clib.Hash.Keys.{IsKeys}
use clib.Hash.Pairs.{find, IsMap}
use clib.Hash.View.{IsTable}
use clib.Hash.Refine.{get_pair-view}
use clib.Hash.Fill.{HasRoom}
use clib.Hash.Listing.{find-all_pairs, IsMap-all_pairs}
use clib.Hash.Resize.{resize-IsResized}
use clib.Hash.Operations.{IsReady}
use clib.Hash.Table.{
  Hash, all_pairs, hash_get_pair, hash_get, hash_elts, hash_capacity, hash_resize, hash_dup,
  no_auto_grow,
}

-- What `_hash_get` points to in a pair: the value, or the key if there is no value.
unfoldable pub pointed {ℓ} : {V : Type ℓ} → Hash V → Option (Pair V) → Option (ℕ ⊎ V)
pointed v none = none
pointed v (some p) = some (if v.log2_pair_size == 0 then inl p.key else inr p.value)

module _ {ℓ} {V : Type ℓ} {h : Functions} (laws : IsKeys h) (v : Hash V) (t : IsTable h v) where
  pointed-elim :
      (a : Option (Pair V))
      → elim a [
        | none ↦ none
        | some p ↦ some (if v.log2_pair_size == 0 then inl p.key else inr p.value)
      ]
        ≡ pointed v a
  unfolding pointed
  pointed-elim none = refl
  pointed-elim (some p) = refl

  -- For key functions that keep to their laws and a table that keeps its invariant, `_hash_get`
  -- points into the pair that `_hash_get_pair` answers, to the value, or to the key if pairs have
  -- no value; that it does not search when `elts` is 0 loses no key.
  pub get-get_pair : (key : ℕ) → hash_get h (some v) key ≡ pointed v (hash_get_pair h (some v) key)
  unfolding hash_get pointed find
  get-get_pair key = elim (Bool-cases (v.elts == 0)) [
    | inl e ↦
        let empty : all_pairs v.buckets ≡ [] =
          nil_of_length (all_pairs v.buckets) (sym t.count ∙ (==_iff v.elts 0).0 e) in
        let absent : hash_get_pair h (some v) key ≡ none =
          get_pair-view laws v t key
          ∙ sym (find-all_pairs laws v t key)
          ∙ ap (λ ps. find h ps key) empty in
        rw (e, absent) refl
    | inr f ↦ rw f (pointed-elim (hash_get_pair h (some v) key))
  ]

  -- For key functions that keep to their laws and a table that keeps its invariant,
  -- `hash_foreach_pair` visits no two pairs with equal keys, visits for each key the pair that
  -- `_hash_get_pair` answers, or none if it answers none, and visits `hash_elts` pairs.
  pub all_pairs-get_pair :
      IsMap h (all_pairs v.buckets)
      × ((k : ℕ) → find h (all_pairs v.buckets) k ≡ hash_get_pair h (some v) k)
      × (length (all_pairs v.buckets) ≡ hash_elts (some v))
  unfolding hash_elts
  all_pairs-get_pair = (
    IsMap-all_pairs laws v t,
    λ k. find-all_pairs laws v t k ∙ sym (get_pair-view laws v t k),
    sym t.count,
  )

  -- For key functions that keep to their laws and a table that keeps its invariant, has room and
  -- at most 2 ^ 30 buckets, `hash_dup` returns at any depth a table that keeps the invariant, has
  -- as many pairs, and in which `_hash_get_pair` answers the same for every key.
  pub dup-get_pair :
      (depth : ℕ)
      → HasRoom v 0
      → length v.buckets ≤ 2 ^ 30
      → (w : Hash V) × (hash_dup h depth (some v) ≡ some (some w))
        × IsReady h w
        × ((k : ℕ) → hash_get_pair h (some w) k ≡ hash_get_pair h (some v) k)
        × (w.elts ≡ v.elts)
  unfolding hash_dup hash_resize hash_capacity HasRoom
  dup-get_pair depth room small =
      let (w, e, z) =
        resize-IsResized laws depth (length v.buckets) v t small (λ g. omega (arith, room g)) in
      let not_null : (length v.buckets == 0) ≡ false = ground (arith, t.some_buckets) in
      (
        w,
        (rw (not_null, e) refl),
        record {
          table = z.table;
          room = λ g.
              let a = room (ap (λ f. bit_and f no_auto_grow == 0) (sym z.same_flags) ∙ g) in
              omega (arith, a, z.size, z.count);
        },
        λ k. get_pair-view laws w z.table k ∙ z.answers k ∙ sym (get_pair-view laws v t k),
        z.count,
      )
