-- ===== src/Hash/Lookup.antt =====
-- `lookup` in a bucket as an operation on the map that its pairs are.
use clib.Common.{
  ℕ, ◌+◌, ◌<◌, ◌≡◌, refl, sym, List, [], ◌∷◌, length, if◌then◌else◌, none, some, to_ℕ, Bool-cases,
  inl, inr, arith, Option,
}
use clib.Hash.Bucket.{
  Pair, Bucket, direct, indirect, Functions, BucketFound, get, set_value, unset, lookup_bucket,
  unset_indirect, remove_at, lookup_direct, lookup_indirect, set_indirect,
}
use clib.Hash.Keys.{IsKeys}
use clib.Hash.Pairs.{find, IsMap, IsPlaced, put_pair, assign, is_some}
use clib.Hash.Located.{
  absent, present, locate, IsWithout, absent-others, dropped, unset_indirect-pairs,
}
use clib.Hash.Put.{put_pair-absent}
use clib.Hash.Table.{bucket_pairs}

unfoldable pub value_of {ℓ} : {V : Type ℓ} → Option (Pair V) → Option V
value_of none = none
value_of (some p) = some p.value

module _ {ℓ} {V : Type ℓ} {h : Functions} (laws : IsKeys h) (n key : ℕ) where
  -- What `lookup` makes of a bucket when it sets a value.
  pub record IsAssigned (v : V) (ps : List (Pair V)) (r : BucketFound V) : Type ℓ where
    pub pairs : bucket_pairs r.bucket ≡ put_pair h ps key v
    pub pair : r.pair ≡ some (assign (find h ps key) key v)
    pub found : r.found_key ≡ is_some (find h ps key)
    pub old : r.old_value ≡ value_of (find h ps key)

  set_indirect-IsAssigned :
      (log2_bytes : ℕ) (ps : List (Pair V)) (v : V)
      → IsMap h ps
      → IsAssigned v ps (set_indirect h n log2_bytes ps key v)
  unfolding set_indirect bucket_pairs assign is_some value_of
  set_indirect-IsAssigned log2_bytes ps v d = elim (locate laws key ps d) [
    | absent e a ↦ record {
      pairs = rw (e, set_indirect) (sym (put_pair-absent h key v ps a));
      pair = rw (e, set_indirect, a) refl;
      found = rw (e, set_indirect, a) refl;
      old = rw (e, set_indirect, a) refl;
    }
    | present q s e a b w o ↦ record {
      pairs = rw (e, set_indirect) (w v);
      pair = rw (e, set_indirect, a) refl;
      found = rw (e, set_indirect, a) refl;
      old = rw (e, set_indirect, a) refl;
    }
  ]

  pub lookup_bucket-set :
      (b : Bucket V) (v : V)
      → IsMap h (bucket_pairs b)
      → IsAssigned v (bucket_pairs b) (lookup_bucket h n b key (set_value v))
  unfolding lookup_bucket bucket_pairs lookup_direct lookup_indirect put_pair find assign is_some
      value_of
  lookup_bucket-set (direct p) v d = elim (Bool-cases (h.key_equal p.key key)) [
    | inl t ↦ record { pairs = rw t refl; pair = rw t refl; found = rw t refl; old = rw t refl }
    | inr f ↦ record { pairs = rw f refl; pair = rw f refl; found = rw f refl; old = rw f refl }
  ]
  lookup_bucket-set (indirect log2_bytes []) v d = record {
    pairs = refl;
    pair = refl;
    found = refl;
    old = refl;
  }
  lookup_bucket-set (indirect log2_bytes (p ∷ ps)) v d =
      set_indirect-IsAssigned log2_bytes (p ∷ ps) v d

  pub lookup_bucket-get :
      (b : Bucket V)
      → IsMap h (bucket_pairs b)
      → (lookup_bucket h n b key get).pair ≡ find h (bucket_pairs b) key
  unfolding lookup_bucket bucket_pairs lookup_direct lookup_indirect find
  lookup_bucket-get (direct p) d = refl
  lookup_bucket-get (indirect log2_bytes ps) d = elim (locate laws key ps d) [
    | absent e a ↦ rw (e, a, lookup_indirect) refl
    | present q p e a b w o ↦ rw (e, a, lookup_indirect) refl
  ]

  -- What `lookup` makes of a bucket when it removes a key.
  pub record IsUnset (ps : List (Pair V)) (r : BucketFound V) : Type ℓ where
    pub others :
        (k : ℕ)
        → find h (bucket_pairs r.bucket) k ≡ (if h.key_equal key k then none else find h ps k)
    pub is_map : IsMap h (bucket_pairs r.bucket)
    pub placed : (mask i : ℕ) → IsPlaced h mask i ps → IsPlaced h mask i (bucket_pairs r.bucket)
    pub lengths : length (bucket_pairs r.bucket) + to_ℕ r.found_key ≡ length ps
    pub found : r.found_key ≡ is_some (find h ps key)
    pub old : r.old_value ≡ value_of (find h ps key)

  lookup_indirect-unset :
      (log2_bytes : ℕ) (ps : List (Pair V))
      → IsMap h ps
      → IsUnset ps (lookup_indirect h n log2_bytes ps key unset)
  unfolding lookup_indirect bucket_pairs is_some value_of
  lookup_indirect-unset log2_bytes ps d = elim (locate laws key ps d) [
    | absent e a ↦ record {
      others = λ k. rw (e, lookup_indirect) (absent-others laws key ps k a);
      is_map = rw (e, lookup_indirect) d;
      placed = λ mask i u. rw (e, lookup_indirect) u;
      lengths = rw (e, lookup_indirect) (omega arith);
      found = rw (e, lookup_indirect, a) refl;
      old = rw (e, lookup_indirect, a) refl;
    }
    | present q s e a b w o ↦
        let without = removed log2_bytes ps q b o in
        record {
          others = λ k. rw (e, lookup_indirect) (without.others k);
          is_map = rw (e, lookup_indirect) without.is_map;
          placed = λ mask i u. rw (e, lookup_indirect) (without.placed mask i u);
          lengths = rw (e, lookup_indirect) (omega (arith, without.lengths));
          found = rw (e, lookup_indirect, a) refl;
          old = rw (e, lookup_indirect, a) refl;
        }
  ]
    where
      removed :
          (log2_bytes : ℕ) (ps : List (Pair V)) (q : ℕ)
          → q < length ps
          → ((r : Pair V) → IsWithout h key ps (remove_at r ps q))
          → IsWithout h key ps (bucket_pairs (unset_indirect log2_bytes ps q))
      removed log2_bytes [] q b o = absurd (omega arith)
      removed log2_bytes (r ∷ ps) q b o = rw (unset_indirect-pairs log2_bytes r ps q b) (o r)

  pub lookup_bucket-unset :
      (b : Bucket V)
      → IsMap h (bucket_pairs b)
      → IsUnset (bucket_pairs b) (lookup_bucket h n b key unset)
  unfolding lookup_bucket bucket_pairs lookup_direct find is_some value_of IsPlaced IsMap
  lookup_bucket-unset (indirect log2_bytes ps) d = lookup_indirect-unset log2_bytes ps d
  lookup_bucket-unset (direct p) d = elim (Bool-cases (h.key_equal p.key key)) [
    | inl t ↦ record {
      others = λ k. rw t (dropped laws key p [] k t refl);
      is_map = rw t tt;
      placed = λ mask i u. rw t tt;
      lengths = rw t refl;
      found = rw t refl;
      old = rw t refl;
    }
    | inr f ↦ record {
      others = λ k. rw f (absent-others laws key (p ∷ []) k (rw f refl));
      is_map = rw f d;
      placed = λ mask i u. rw f u;
      lengths = rw f refl;
      found = rw f refl;
      old = rw f refl;
    }
  ]
