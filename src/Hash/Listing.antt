-- ===== src/Hash/Listing.antt =====
-- The pairs of a table in the order of `hash_foreach_pair`: each key once, with what it maps to.
use clib.Common.{
  ℕ, zero, suc, ◌+◌, ◌-◌, ◌<◌, ◌≡◌, ◌≢◌, refl, sym, ap, ◌∙◌, List, [], ◌∷◌, ◌++◌, length, none,
  Bool-cases, inl, inr, arith, bit_and, replicate, get_or, get_or-replicate, length-replicate,
}
use clib.Hash.Bucket.{Pair, Bucket, indirect, Functions}
use clib.Hash.Keys.{IsKeys}
use clib.Hash.Pairs.{find, find-append, or_else, or_else-none, IsMap, IsPlaced}
use clib.Hash.View.{pairs_at, view, IsTable}
use clib.Hash.Table.{Hash, bucket_pairs, all_pairs, bucket_index}

module _ {ℓ} {V : Type ℓ} {h : Functions} (laws : IsKeys h) (mask : ℕ) where
  -- A key is absent from the buckets of other sums.
  absent-elsewhere :
      (i k : ℕ) (ps : List (Pair V))
      → IsPlaced h mask i ps
      → i ≢ bit_and (h.key_sum k) mask
      → find h ps k ≡ none
  unfolding IsPlaced find
  absent-elsewhere i k [] placed ne = refl
  absent-elsewhere i k (p ∷ ps) placed ne = elim (Bool-cases (h.key_equal p.key k)) [
    | inl t ↦ absurd (ne (sym placed.0 ∙ ap (λ n. bit_and n mask) (laws.equal_sum p.key k t)))
    | inr f ↦ rw f (absent-elsewhere i k ps placed.1 ne)
  ]

  IsMap-append :
      (i : ℕ) (xs ys : List (Pair V))
      → IsMap h xs
      → IsPlaced h mask i xs
      → IsMap h ys
      → ((k : ℕ) → i ≡ bit_and (h.key_sum k) mask → find h ys k ≡ none)
      → IsMap h (xs ++ ys)
  unfolding IsMap IsPlaced or_else
  IsMap-append i [] ys left placed right apart = right
  IsMap-append i (x ∷ xs) ys left placed right apart = (
    find-append h xs ys x.key ∙ rw (left.0, apart x.key (sym placed.0)) refl,
    IsMap-append i xs ys left.1 placed.1 right apart,
  )

  -- The buckets of a vector from index `i` on.
  pub record IsSuffix (i : ℕ) (bs : List (Bucket V)) : Type ℓ where
    pub maps : (j : ℕ) → IsMap h (pairs_at bs j)
    pub placed : (j : ℕ) → IsPlaced h mask (i + j) (pairs_at bs j)

  IsSuffix-tail :
      (i : ℕ) (b : Bucket V) (bs : List (Bucket V)) → IsSuffix i (b ∷ bs) → IsSuffix (suc i) bs
  unfolding pairs_at
  IsSuffix-tail i b bs s = record {
    maps = λ j. s.maps (suc j);
    placed = λ j. let e : suc i + j ≡ i + suc j = omega arith in rw e (s.placed (suc j));
  }

  first-IsPlaced :
      (i : ℕ) (b : Bucket V) (bs : List (Bucket V))
      → IsSuffix i (b ∷ bs)
      → IsPlaced h mask i (bucket_pairs b)
  unfolding pairs_at
  first-IsPlaced i b bs s = let e : i ≡ i + 0 = omega arith in rw e (s.placed 0)

  find-before :
      (i k : ℕ) (bs : List (Bucket V))
      → IsSuffix i bs
      → bit_and (h.key_sum k) mask < i
      → find h (all_pairs bs) k ≡ none
  unfolding all_pairs find or_else
  find-before i k [] s before = refl
  find-before i k (b ∷ bs) s before =
      find-append h (bucket_pairs b) (all_pairs bs) k
      ∙ rw (absent-elsewhere i k (bucket_pairs b) (first-IsPlaced i b bs s) (λ e. omega (arith, e)))
          (find-before (suc i) k bs (IsSuffix-tail i b bs s) (omega arith))

  find-suffix :
      (i j k : ℕ) (bs : List (Bucket V))
      → IsSuffix i bs
      → bit_and (h.key_sum k) mask ≡ i + j
      → find h (all_pairs bs) k ≡ find h (pairs_at bs j) k
  unfolding all_pairs find or_else pairs_at bucket_pairs
  find-suffix i j k [] s e = refl
  find-suffix i zero k (b ∷ bs) s e =
      find-append h (bucket_pairs b) (all_pairs bs) k
      ∙ rw (find-before (suc i) k bs (IsSuffix-tail i b bs s) (omega (arith, e)))
          (or_else-none (find h (bucket_pairs b) k))
  find-suffix i (suc j) k (b ∷ bs) s e =
      find-append h (bucket_pairs b) (all_pairs bs) k
      ∙ rw
          (absent-elsewhere i k (bucket_pairs b) (first-IsPlaced i b bs s)
            (λ n. omega (arith, e, n)))
          (find-suffix (suc i) j k bs (IsSuffix-tail i b bs s) (omega (arith, e)))

  IsMap-suffix : (i : ℕ) (bs : List (Bucket V)) → IsSuffix i bs → IsMap h (all_pairs bs)
  unfolding all_pairs IsMap pairs_at
  IsMap-suffix i [] s = tt
  IsMap-suffix i (b ∷ bs) s =
      IsMap-append i (bucket_pairs b) (all_pairs bs) (s.maps 0) (first-IsPlaced i b bs s)
        (IsMap-suffix (suc i) bs (IsSuffix-tail i b bs s))
        (λ k e. find-before (suc i) k bs (IsSuffix-tail i b bs s) (omega (arith, e)))

module _ {ℓ} {V : Type ℓ} {h : Functions} (laws : IsKeys h) (v : Hash V) (t : IsTable h v) where
  whole : IsSuffix laws (length v.buckets - 1) 0 v.buckets
  whole = record {
    maps = t.maps;
    placed = λ j. let e : 0 + j ≡ j = omega arith in rw e (t.placed j);
  }

  -- Iteration meets a key with what it maps to.
  pub find-all_pairs : (k : ℕ) → find h (all_pairs v.buckets) k ≡ view h v k
  unfolding view bucket_index
  find-all_pairs k =
      find-suffix laws (length v.buckets - 1) 0 (bucket_index h v k) k v.buckets whole (omega arith)

  pub IsMap-all_pairs : IsMap h (all_pairs v.buckets)
  IsMap-all_pairs = IsMap-suffix laws (length v.buckets - 1) 0 v.buckets whole

-- A table of empty buckets.
module _ {ℓ} {V : Type ℓ} (h : Functions) (v : Hash V) (n : ℕ)
    (e : v.buckets ≡ replicate n (indirect 0 [])) where
  empty-pairs_at : (i : ℕ) → pairs_at v.buckets i ≡ []
  unfolding pairs_at bucket_pairs
  empty-pairs_at i =
      ap (λ bs. bucket_pairs (get_or bs i (indirect 0 []))) e
      ∙ ap bucket_pairs (get_or-replicate n i (indirect 0 []))

  pub view-empty : (k : ℕ) → view h v k ≡ none
  unfolding view find
  view-empty k = ap (λ ps. find h ps k) (empty-pairs_at (bucket_index h v k))

  all_pairs-replicate : (m : ℕ) → all_pairs {V = V} (replicate m (indirect 0 [])) ≡ []
  unfolding all_pairs bucket_pairs
  all_pairs-replicate zero = refl
  all_pairs-replicate (suc m) = all_pairs-replicate m

  pub empty-IsTable : 0 < n → v.elts ≡ 0 → IsTable h v
  unfolding IsMap IsPlaced
  empty-IsTable some_left none_in = record {
    some_buckets = let z : Bucket V = indirect 0 [] in rw (e, length-replicate n z) some_left;
    maps = λ i. rw (empty-pairs_at i) tt;
    placed = λ i. rw (empty-pairs_at i) tt;
    count = rw (none_in, e, all_pairs-replicate n) refl;
  }
