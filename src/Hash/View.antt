-- ===== src/Hash/View.antt =====
-- A hash table as a map from keys to pairs, and `lookup` as an operation on that map.
use clib.Common.{
  ℕ, zero, suc, ◌+◌, ◌-◌, ◌<◌, ◌≤◌, ◌≡◌, ◌≢◌, refl, sym, ap, ◌∙◌, List, [], ◌∷◌, false, ◌==◌,
  length, set, get_or, if◌then◌else◌, Option, Bool-cases, inl, inr, arith, bit_and, length-set,
  length-append, get_or-set_self, get_or-set_ne,
}
use clib.Hash.Bucket.{Pair, Bucket, indirect, Functions}
use clib.Hash.Keys.{IsKeys}
use clib.Hash.Pairs.{find, IsMap, IsPlaced}
use clib.Hash.Table.{Hash, bucket_pairs, all_pairs, bucket_index}
use clib.Bits.Logic.{bit_and-le}

module _ {ℓ} {V : Type ℓ} where
  -- The pairs in a bucket of a vector.
  unfoldable pub pairs_at : List (Bucket V) → ℕ → List (Pair V)
  unfolding bucket_pairs
  pairs_at buckets i = bucket_pairs (get_or buckets i (indirect 0 []))

  pub pairs_at_self :
      (bs : List (Bucket V)) (j : ℕ) (b : Bucket V)
      → j < length bs
      → pairs_at (set bs j b) j ≡ bucket_pairs b
  unfolding pairs_at
  pairs_at_self bs j b some_room =
      ap bucket_pairs (get_or-set_self bs j b (indirect 0 []) some_room)

  pub pairs_at_ne :
      (bs : List (Bucket V)) (j i : ℕ) (b : Bucket V)
      → j ≢ i
      → pairs_at (set bs j b) i ≡ pairs_at bs i
  unfolding pairs_at
  pairs_at_ne bs j i b ne = ap bucket_pairs (get_or-set_ne bs j i b (indirect 0 []) ne)

  pub length-all_pairs-set :
      (bs : List (Bucket V)) (j : ℕ) (b : Bucket V)
      → j < length bs
      → length (all_pairs (set bs j b)) + length (pairs_at bs j)
        ≡ length (all_pairs bs) + length (bucket_pairs b)
  unfolding all_pairs pairs_at
  length-all_pairs-set [] j b some_room = absurd (omega arith)
  length-all_pairs-set (a ∷ bs) zero b some_room = omega (
    arith,
    length-append (bucket_pairs a) (all_pairs bs),
    length-append (bucket_pairs b) (all_pairs bs),
  )
  length-all_pairs-set (a ∷ bs) (suc j) b some_room = omega (
    arith,
    length-append (bucket_pairs a) (all_pairs bs),
    length-append (bucket_pairs a) (all_pairs (set bs j b)),
    length-all_pairs-set bs j b (omega arith),
  )

  pub length-pairs_at :
      (bs : List (Bucket V)) (j : ℕ)
      → j < length bs
      → length (pairs_at bs j) ≤ length (all_pairs bs)
  unfolding bucket_pairs
  length-pairs_at bs j some_room =
      omega (arith, length-all_pairs-set bs j (indirect 0 []) some_room)

module _ {ℓ} {V : Type ℓ} (h : Functions) where
  -- What a key maps to, by the pairs of its bucket.
  unfoldable pub view : Hash V → ℕ → Option (Pair V)
  unfolding find pairs_at bucket_index
  view v key = find h (pairs_at v.buckets (bucket_index h v key)) key

  -- No bucket has two equal keys, each key is in the bucket of its sum, and `elts` is the number of
  -- the pairs.
  pub record IsTable (v : Hash V) : Type ℓ where
    pub some_buckets : 0 < length v.buckets
    pub maps : (i : ℕ) → IsMap h (pairs_at v.buckets i)
    pub placed : (i : ℕ) → IsPlaced h (length v.buckets - 1) i (pairs_at v.buckets i)
    pub count : v.elts ≡ length (all_pairs v.buckets)

  pub bucket_index-lt :
      (v : Hash V) (key : ℕ) → 0 < length v.buckets → bucket_index h v key < length v.buckets
  unfolding bucket_index
  bucket_index-lt v key some_buckets =
      omega (arith, bit_and-le (h.key_sum key) (length v.buckets - 1))

module _ {ℓ} {V : Type ℓ} {h : Functions} (laws : IsKeys h) (v : Hash V) (t : IsTable h v)
    (key : ℕ) where
  -- The table with another bucket for a key, in which that key alone maps to something else.
  module _ (b : Bucket V) (e : ℕ) (x : Option (Pair V)) where
    unfoldable pub replaced : Hash V
    replaced = record v { buckets = set v.buckets (bucket_index h v key) b; elts = e }

    pub view-replaced :
        ((k : ℕ)
          → find h (bucket_pairs b) k ≡ (
              if h.key_equal key k
              then x
              else find h (pairs_at v.buckets (bucket_index h v key)) k))
        → (k : ℕ) → view h replaced k ≡ (if h.key_equal key k then x else view h v k)
    unfolding replaced view bucket_index
    view-replaced spec k =
        let bs = v.buckets in
        let j = bucket_index h v key in
        let i = bucket_index h v k in
        let room = bucket_index-lt h v key t.some_buckets in
        let at_i : view h replaced k ≡ find h (pairs_at (set bs j b) i) k =
          ap (λ n. find h (pairs_at (set bs j b) (bit_and (h.key_sum k) (n - 1))) k)
            (length-set bs j b) in
        elim (Bool-cases (j == i)) [
          | inl same ↦
              let e : j ≡ i = ground (arith, same) in
              at_i
              ∙ ap (λ n. find h (pairs_at (set bs j b) n) k) (sym e)
              ∙ ap (λ ps. find h ps k) (pairs_at_self bs j b room)
              ∙ spec k
              ∙ ap (λ n. if h.key_equal key k then x else find h (pairs_at bs n) k) e
          | inr differ ↦
              let other : h.key_equal key k ≡ false = elim (Bool-cases (h.key_equal key k)) [
                | inl t ↦
                    let e : j ≡ i = ap (λ n. bit_and n (length bs - 1)) (laws.equal_sum key k t) in
                    absurd (ground (arith, differ, e))
                | inr f ↦ f
              ] in
              at_i
              ∙ ap (λ ps. find h ps k) (pairs_at_ne bs j i b (ground (arith, differ)))
              ∙ rw other refl
        ]

    pub IsTable-replaced :
        IsMap h (bucket_pairs b)
        → IsPlaced h (length v.buckets - 1) (bucket_index h v key) (bucket_pairs b)
        → e + length (pairs_at v.buckets (bucket_index h v key)) ≡ v.elts + length (bucket_pairs b)
        → IsTable h replaced
    unfolding replaced
    IsTable-replaced is_map placed count =
        let j = bucket_index h v key in
        let room = bucket_index-lt h v key t.some_buckets in
        record {
          some_buckets = rw (length-set v.buckets j b) t.some_buckets;
          maps = λ i. elim (Bool-cases (j == i)) [
            | inl same ↦
                let s : j ≡ i = ground (arith, same) in
                rw (← s, pairs_at_self v.buckets j b room) is_map
            | inr differ ↦ rw (pairs_at_ne v.buckets j i b (ground (arith, differ))) (t.maps i)
          ];
          placed = λ i. rw (length-set v.buckets j b) (elim (Bool-cases (j == i)) [
            | inl same ↦
                let s : j ≡ i = ground (arith, same) in
                rw (← s, pairs_at_self v.buckets j b room) placed
            | inr differ ↦ rw (pairs_at_ne v.buckets j i b (ground (arith, differ))) (t.placed i)
          ]);
          count = omega (arith, t.count, length-all_pairs-set v.buckets j b room, count);
        }
