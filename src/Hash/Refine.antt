-- ===== src/Hash/Refine.antt =====
-- `lookup`, `_hash_get` and `_hash_get_pair` against the map that a table is.
use clib.Common.{
  ℕ, ◌+◌, ◌-◌, ◌≡◌, refl, ap, [], not, length, get_or, if◌then◌else◌, Option, none, some, to_ℕ,
  arith, length-set,
}
use clib.Hash.Bucket.{Pair, Bucket, indirect, Functions, set_value, unset, lookup_bucket}
use clib.Hash.Keys.{IsKeys}
use clib.Hash.Pairs.{IsMap, assign, is_some}
use clib.Hash.Put.{find-put_pair, IsMap-put_pair, IsPlaced-put_pair, length-put_pair}
use clib.Hash.Lookup.{
  IsAssigned, IsUnset, lookup_bucket-set, lookup_bucket-get, lookup_bucket-unset, value_of,
}
use clib.Hash.View.{
  pairs_at, view, IsTable, view-replaced, IsTable-replaced, replaced, length-pairs_at,
  bucket_index-lt,
}
use clib.Hash.Table.{Hash, bucket_pairs, bucket_index, lookup_found, lookup, hash_get_pair}

module _ {ℓ} {V : Type ℓ} (h : Functions) (v : Hash V) (key : ℕ) where
  -- `w` is `v` with another answer for the keys that are equal to one.
  pub record IsUpdate (x : Option (Pair V)) (w : Hash V) : Type ℓ where
    pub table : IsTable h w
    pub answers : (k : ℕ) → view h w k ≡ (if h.key_equal key k then x else view h v k)
    pub sizes : length w.buckets ≡ length v.buckets
    pub same_flags : w.flags ≡ v.flags

  -- The bucket of the key.
  unfoldable pub bucket_of : Bucket V
  bucket_of = get_or v.buckets (bucket_index h v key) (indirect 0 [])

module _ {ℓ} {V : Type ℓ} {h : Functions} (laws : IsKeys h) (v : Hash V) (t : IsTable h v)
    (key : ℕ) where
  bucket_of-IsMap : IsMap h (bucket_pairs (bucket_of h v key))
  unfolding bucket_of pairs_at
  bucket_of-IsMap = t.maps (bucket_index h v key)

  -- `_hash_get_pair` answers what the key maps to.
  pub get_pair-view : hash_get_pair h (some v) key ≡ view h v key
  unfolding hash_get_pair lookup_found bucket_of view pairs_at
  get_pair-view = lookup_bucket-get laws v.log2_pair_size key (bucket_of h v key) bucket_of-IsMap

  pub lookup-set :
      (x : V) → IsUpdate h v key (some (assign (view h v key) key x)) (lookup h v key (set_value x))
  unfolding lookup lookup_found bucket_of view pairs_at replaced
  lookup-set x =
      let b = bucket_of h v key in
      let r = lookup_bucket h v.log2_pair_size b key (set_value x) in
      let s : IsAssigned laws v.log2_pair_size key x (bucket_pairs b) r =
        lookup_bucket-set laws v.log2_pair_size key b x bucket_of-IsMap in
      let p = bucket_pairs b in
      record {
        table =
            IsTable-replaced laws v t key r.bucket (v.elts + to_ℕ (not r.found_key)) none
              (rw s.pairs (IsMap-put_pair laws key x p bucket_of-IsMap))
              (rw s.pairs (
                IsPlaced-put_pair h key x _ (bucket_index h v key) p refl
                  (t.placed (bucket_index h v key))))
              (rw (s.pairs, s.found) (omega (arith, length-put_pair h key x p)));
        answers =
            view-replaced laws v t key r.bucket (v.elts + to_ℕ (not r.found_key))
              (some (assign (view h v key) key x)) (λ k. rw s.pairs (find-put_pair laws key x p k));
        sizes = length-set v.buckets (bucket_index h v key) r.bucket;
        same_flags = refl;
      }

  pub elts-lookup_set :
      (x : V) → (lookup h v key (set_value x)).elts ≡ v.elts + to_ℕ (not (is_some (view h v key)))
  unfolding lookup lookup_found bucket_of view pairs_at
  elts-lookup_set x =
      ap (λ b. v.elts + to_ℕ (not b))
        (lookup_bucket-set laws v.log2_pair_size key (bucket_of h v key) x bucket_of-IsMap).found

  pub lookup-unset : IsUpdate h v key none (lookup h v key unset)
  unfolding lookup lookup_found bucket_of view pairs_at replaced
  lookup-unset =
      let b = bucket_of h v key in
      let r = lookup_bucket h v.log2_pair_size b key unset in
      let s : IsUnset laws v.log2_pair_size key (bucket_pairs b) r =
        lookup_bucket-unset laws v.log2_pair_size key b bucket_of-IsMap in
      record {
        table =
            IsTable-replaced laws v t key r.bucket (v.elts - to_ℕ r.found_key) none s.is_map
              (s.placed _ (bucket_index h v key) (t.placed (bucket_index h v key)))
              (omega (
                arith,
                s.lengths,
                t.count,
                length-pairs_at v.buckets (bucket_index h v key)
                    (bucket_index-lt h v key t.some_buckets),
              ));
        answers = view-replaced laws v t key r.bucket (v.elts - to_ℕ r.found_key) none s.others;
        sizes = length-set v.buckets (bucket_index h v key) r.bucket;
        same_flags = refl;
      }

  pub elts-lookup_unset : (lookup h v key unset).elts ≡ v.elts - to_ℕ (is_some (view h v key))
  unfolding lookup lookup_found bucket_of view pairs_at
  elts-lookup_unset =
      ap (λ b. v.elts - to_ℕ b)
        (lookup_bucket-unset laws v.log2_pair_size key (bucket_of h v key) bucket_of-IsMap).found

  -- The values that are saved.
  pub old_value-set :
      (x : V) → (lookup_found h v key (set_value x)).old_value ≡ value_of (view h v key)
  unfolding lookup_found bucket_of view pairs_at
  old_value-set x =
      (lookup_bucket-set laws v.log2_pair_size key (bucket_of h v key) x bucket_of-IsMap).old

  pub old_value-unset : (lookup_found h v key unset).old_value ≡ value_of (view h v key)
  unfolding lookup_found bucket_of view pairs_at
  old_value-unset =
      (lookup_bucket-unset laws v.log2_pair_size key (bucket_of h v key) bucket_of-IsMap).old
