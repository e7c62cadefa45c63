-- ===== src/Hash/Allocated.antt =====
-- The sizes of the memory under the pairs of a table: `log2_bytes` stays below 30, where the shifts of
-- an int have their values.
use clib.Common.{
  ℕ, ◌+◌, ◌*◌, ◌^◌, ◌%◌, ◌<◌, ◌≤◌, ◌≡◌, sym, List, [], ◌∷◌, false, length, get_or, set, ltb, ◌==◌,
  Option, none, some, Bool-cases, inl, inr, arith, get_or-set_self, get_or-set_ne, replicate,
  get_or-replicate,
}
use clib.Bitops.Log2.{pow-reflects_lt}
use clib.Hash.Bucket.{
  Pair, Bucket, direct, indirect, Functions, get_indirect, set_indirect, lookup_direct,
  lookup_indirect, lookup_bucket, set_value, hash_pair_bytes, hash_pair_log2_bytes,
  first_log2_bytes, next_log2_bytes, int_one_shl, log2_alloc,
}
use clib.Hash.Table.{Hash, bucket_pairs, bucket_index, lookup_found, lookup}
use clib.Hash.View.{IsTable, pairs_at, length-pairs_at, bucket_index-lt}
use mathlib.Core.Path.{subst}
use native.Mathlib.Nat.{mul-le-mul_right}
use native.Mathlib.Decide.{ℕ_discrete}

-- `n` pairs of a size take at most 2 ^ 29 bytes.
abbrev pub IsSmall : ℕ → ℕ → Type 0
IsSmall log2_pair_size n = (log2_pair_size ≤ 25) × (n * hash_pair_bytes log2_pair_size ≤ 2 ^ 29)

pub IsSmall-fewer : (l m n : ℕ) → m ≤ n → IsSmall l n → IsSmall l m
IsSmall-fewer l m n h (a, b) = (a, omega (arith, b, mul-le-mul_right (hash_pair_bytes l) h))

pub IsSmall-at : (l k m n : ℕ) → k ≡ l → m ≤ n → IsSmall l n → IsSmall k m
IsSmall-at l k m n e h small = subst (λ (j : ℕ). IsSmall j m) (sym e) (IsSmall-fewer l m n h small)

next_log2_bytes_bound : (l b len : ℕ) → b ≤ 29 → IsSmall l (len + 1) → next_log2_bytes l b len ≤ 29
unfolding next_log2_bytes int_one_shl log2_alloc
next_log2_bytes_bound l b len h (a, few) =
    let other : (b == 31) ≡ false = ground (arith, h) in
    let total = (len + 1) * hash_pair_bytes l in
    elim (Bool-cases (ltb (2 ^ b) total)) [
      | inl t ↦
          let lt : 2 ^ b < 2 ^ 29 = ground (arith, t, few) in
          let less = pow-reflects_lt b 29 lt in
          let e : (b + 1) % 2 ^ 5 ≡ b + 1 = omega (arith, less) in
          rw (other, t, e) (ground (arith, less))
      | inr f ↦ rw (other, f) (ground (arith, h))
    ]

module _ {ℓ} {V : Type ℓ} where
  unfoldable pub IsAllocatedBucket : Bucket V → Type 0
  IsAllocatedBucket (direct p) = Unit {0}
  IsAllocatedBucket (indirect log2_bytes ps) = log2_bytes ≤ 29

  unfoldable pub IsAllocated : Hash V → Type 0
  IsAllocated v = (i : ℕ) → IsAllocatedBucket (get_or v.buckets i (indirect 0 []))

  set_indirect-IsAllocatedBucket :
      (h : Functions) (l b : ℕ) (ps : List (Pair V)) (key : ℕ) (x : V) (found : Option (ℕ × Pair V))
      → get_indirect h ps key ≡ found
      → b ≤ 29
      → IsSmall l (length ps + 1)
      → IsAllocatedBucket (set_indirect h l b ps key x).bucket
  unfolding set_indirect IsAllocatedBucket
  set_indirect-IsAllocatedBucket h l b ps key x none e a small =
      rw (e, set_indirect) (next_log2_bytes_bound l b (length ps) a small)
  set_indirect-IsAllocatedBucket h l b ps key x (some r) e a small = rw (e, set_indirect) a

  lookup_bucket-IsAllocatedBucket :
      (h : Functions) (l : ℕ) (b : Bucket V) (key : ℕ) (x : V)
      → IsAllocatedBucket b
      → IsSmall l (length (bucket_pairs b) + 1)
      → IsAllocatedBucket (lookup_bucket h l b key (set_value x)).bucket
  unfolding lookup_bucket lookup_direct lookup_indirect IsAllocatedBucket bucket_pairs
      first_log2_bytes log2_alloc hash_pair_log2_bytes
  lookup_bucket-IsAllocatedBucket h l (direct p) key x a small =
      elim (Bool-cases (h.key_equal p.key key)) [
        | inl e ↦ rw e tt
        | inr e ↦ rw e (ground (arith, small.0))
      ]
  lookup_bucket-IsAllocatedBucket h l (indirect b []) key x a small = tt
  lookup_bucket-IsAllocatedBucket h l (indirect b (p ∷ ps)) key x a small =
      set_indirect-IsAllocatedBucket h l b (p ∷ ps) key x (get_indirect h (p ∷ ps) key)
        (λ t. get_indirect h (p ∷ ps) key) a small

  pub lookup-IsAllocated :
      (h : Functions) (v : Hash V) (key : ℕ) (x : V)
      → IsTable h v
      → IsAllocated v
      → IsSmall v.log2_pair_size (v.elts + 1)
      → IsAllocated (lookup h v key (set_value x))
  unfolding lookup lookup_found IsAllocated pairs_at
  lookup-IsAllocated h v key x t a small i =
      let j = bucket_index h v key in
      let z : Bucket V = indirect 0 [] in
      let old = get_or v.buckets j z in
      let room = bucket_index-lt h v key t.some_buckets in
      let few : length (bucket_pairs old) + 1 ≤ v.elts + 1 =
        omega (arith, t.count, length-pairs_at v.buckets j room) in
      let new = (lookup_bucket h v.log2_pair_size old key (set_value x)).bucket in
      elim (ℕ_discrete j i) [
        | yes e ↦
            subst (λ (n : ℕ). IsAllocatedBucket (get_or (set v.buckets j new) n z)) e
              (subst IsAllocatedBucket (sym (get_or-set_self v.buckets j new z room)) (
                lookup_bucket-IsAllocatedBucket h v.log2_pair_size old key x (a j)
                  (IsSmall-fewer v.log2_pair_size _ _ few small)))
        | no ne ↦ subst IsAllocatedBucket (sym (get_or-set_ne v.buckets j i new z ne)) (a i)
      ]

  pub lookup-pair_size :
      (h : Functions) (v : Hash V) (key : ℕ) (x : V)
      → (lookup h v key (set_value x)).log2_pair_size ≡ v.log2_pair_size
  unfolding lookup
  lookup-pair_size h v key x t = v.log2_pair_size

  pub empty-IsAllocated :
      (v : Hash V) (n : ℕ) → v.buckets ≡ replicate n (indirect 0 []) → IsAllocated v
  unfolding IsAllocated IsAllocatedBucket
  empty-IsAllocated v n e i =
      let z : Bucket V = indirect 0 [] in rw (e, get_or-replicate n i z) (omega arith)
