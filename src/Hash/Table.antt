-- ===== src/Hash/Table.antt =====
-- clib/hash.c: `lookup` in a table and the operations that go through it. The null table is `none`.
-- `_hash_set3` and `hash_resize` call each other; `depth` bounds how deep. The counts are below
-- 2 ^ 61, since a pair takes 8 bytes or more, and `4 * (elts + 1)` does not wrap.
use clib.Common.{
  ℕ, zero, suc, ◌+◌, ◌-◌, ◌*◌, ◌/◌, ◌^◌, List, [], ◌∷◌, ◌++◌, Bool, true, false, not, ◌&&◌, length,
  get_or, set, replicate, ltb, leb, ◌==◌, if◌then◌else◌, Option, none, some, ◌>>=◌, bit_and, to_ℕ,
  max, ◌⊎◌, inl, inr,
}
use clib.Bitops.{max_log2}
use clib.Hash.Sum.{hash_uword}
use clib.Hash.Bucket.{
  Pair, Bucket, direct, indirect, Functions, Opcode, get, set_value, unset, BucketFound,
  lookup_bucket,
}

-- `hash_t` and the vector
pub record Hash {ℓ} (V : Type ℓ) : Type ℓ where
  pub elts : ℕ
  pub flags : ℕ
  pub log2_pair_size : ℕ
  pub buckets : List (Bucket V)

-- `HASH_FLAG_NO_AUTO_GROW` and `HASH_FLAG_NO_AUTO_SHRINK`
abbrev pub no_auto_grow : ℕ
no_auto_grow = 1

abbrev pub no_auto_shrink : ℕ
no_auto_shrink = 2

module _ {ℓ} {V : Type ℓ} where
  -- The pairs of a bucket, in the order of `hash_foreach_pair`.
  unfoldable pub bucket_pairs : Bucket V → List (Pair V)
  bucket_pairs (direct p) = p ∷ []
  bucket_pairs (indirect log2_bytes ps) = ps

  unfoldable pub all_pairs : List (Bucket V) → List (Pair V)
  unfolding bucket_pairs
  all_pairs [] = []
  all_pairs (b ∷ bs) = bucket_pairs b ++ all_pairs bs

  -- `_hash_create`; `1 << max_log2 (elts)` is of an int, and an exponent past 30 has no value.
  unfoldable pub create : ℕ → Option (Hash V) → Option (Hash V)
  create elts h_user =
      let l = max_log2 (max elts 64) in
      if leb l 30
      then some (elim h_user [
        | none ↦ record {
          elts = 0;
          flags = no_auto_shrink;
          log2_pair_size = 1;
          buckets = replicate (2 ^ l) (indirect 0 []);
        }
        | some u ↦ record u { elts = 0; buckets = replicate (2 ^ l) (indirect 0 []) }
      ])
      else none

  unfoldable pub hash_elts : Option (Hash V) → ℕ
  hash_elts none = 0
  hash_elts (some v) = v.elts

  unfoldable pub hash_capacity : Option (Hash V) → ℕ
  hash_capacity none = 0
  hash_capacity (some v) = length v.buckets

  -- The tests at the end of `_hash_set3` and of `_hash_unset`.
  unfoldable pub must_grow : Hash V → Bool
  must_grow v = bit_and v.flags no_auto_grow == 0 && ltb (3 * length v.buckets) (4 * (v.elts + 1))

  unfoldable pub must_shrink : Hash V → Bool
  must_shrink v =
      bit_and v.flags no_auto_shrink == 0
      && (ltb 32 v.elts && ltb (4 * (v.elts + 1)) (length v.buckets))

  -- The loop of `hash_resize_internal`, over a function that sets a pair.
  unfoldable pub set_pairs :
      (Hash V → ℕ → V → Option (Hash V)) → List (Pair V) → Hash V → Option (Hash V)
  set_pairs set3 [] new = some new
  set_pairs set3 (p ∷ ps) new = set3 new p.key p.value >>= set_pairs set3 ps

  -- `hash_resize_internal` of a table that is not null, with what the loop does.
  unfoldable pub resize_with : (Hash V → ℕ → V → Option (Hash V)) → Hash V → ℕ → Option (Hash V)
  unfolding create set_pairs all_pairs
  resize_with set3 old new_size =
      create new_size (some old) >>= set_pairs set3 (all_pairs old.buckets)

module _ {ℓ} {V : Type ℓ} (h : Functions) where
  unfoldable pub bucket_index : Hash V → ℕ → ℕ
  bucket_index v key = bit_and (h.key_sum key) (length v.buckets - 1)

  -- What `lookup` finds in the bucket of a key.
  unfoldable pub lookup_found : Hash V → ℕ → Opcode V → BucketFound V
  unfolding bucket_index
  lookup_found v key op =
      lookup_bucket h v.log2_pair_size (get_or v.buckets (bucket_index v key) (indirect 0 [])) key
        op

  -- The table after `lookup`.
  unfoldable pub lookup : Hash V → ℕ → Opcode V → Hash V
  unfolding lookup_found
  lookup v key op =
      let r = lookup_found v key op in
      record v {
        buckets = set v.buckets (bucket_index v key) r.bucket;
        elts = elim op [
          | get ↦ v.elts
          | set_value x ↦ v.elts + to_ℕ (not r.found_key)
          | unset ↦ v.elts - to_ℕ r.found_key
        ];
      }

  -- `_hash_get_pair`, and `_hash_get`: a pointer to the value, or to the key if there is no value.
  unfoldable pub hash_get_pair : Option (Hash V) → ℕ → Option (Pair V)
  unfolding lookup_found
  hash_get_pair none key = none
  hash_get_pair (some v) key = (lookup_found v key get).pair

  unfoldable pub hash_get : Option (Hash V) → ℕ → Option (ℕ ⊎ V)
  unfolding hash_get_pair
  hash_get none key = none
  hash_get (some v) key = if v.elts == 0 then none else elim (hash_get_pair (some v) key) [
    | none ↦ none
    | some p ↦ some (if v.log2_pair_size == 0 then inl p.key else inr p.value)
  ]

  -- `_hash_set3` and `hash_resize` of a table that is not null.
  unfoldable pub set3 : ℕ → Hash V → ℕ → V → Option (Hash V)
  unfolding lookup must_grow resize_with
  set3 zero v key x = let v' = lookup v key (set_value x) in if must_grow v' then none else some v'
  set3 (suc depth) v key x =
      let v' = lookup v key (set_value x) in
      elim (must_grow v') [
        | true ↦ resize_with (set3 depth) v' (2 * length v'.buckets)
        | false ↦ some v'
      ]

  unfoldable pub resize_table : ℕ → Hash V → ℕ → Option (Hash V)
  unfolding set3 resize_with
  resize_table depth old new_size = resize_with (set3 depth) old new_size

  -- `hash_resize`: a null table has no pairs, and no size makes the null table.
  unfoldable pub hash_resize : ℕ → Option (Hash V) → ℕ → Option (Option (Hash V))
  unfolding create resize_table
  hash_resize depth old new_size = if new_size == 0 then some none else elim old [
    | none ↦ do v ← create new_size none; some (some v)
    | some o ↦ do v ← resize_table depth o new_size; some (some v)
  ]

  -- `hash_dup`, whose new size is the length of the vector
  unfoldable pub hash_dup : ℕ → Option (Hash V) → Option (Option (Hash V))
  unfolding hash_resize hash_capacity
  hash_dup depth old = hash_resize depth old (hash_capacity old)

  -- `_hash_set3` of a table that is not null, with the value saved
  unfoldable pub set3_saving : ℕ → Hash V → ℕ → V → Option (Hash V × Option V)
  unfolding set3 lookup_found
  set3_saving depth v key x = do
    v' ← set3 depth v key x
    some (v', (lookup_found v key (set_value x)).old_value)

  -- `_hash_unset`, with the value saved
  unfoldable pub hash_unset : ℕ → Option (Hash V) → ℕ → Option (Option (Hash V) × Option V)
  unfolding lookup must_shrink resize_table
  hash_unset depth none key = some (none, none)
  hash_unset depth (some v) key =
      let v' = lookup v key unset in
      let old = (lookup_found v key unset).old_value in
      elim (must_shrink v') [
        | true ↦ do v2 ← resize_table depth v' (length v'.buckets / 2); some (some v2, old)
        | false ↦ some (some v', old)
      ]

-- `KEY_FUNC_NONE`: keys are words.
abbrev pub word_keys : Functions
word_keys = record { key_sum = hash_uword; key_equal = λ a b. a == b }

module _ {ℓ} {V : Type ℓ} where
  -- The functions in the header of a table, which the null table gets from `hash_create`.
  unfoldable pub functions_of : Functions → Option (Hash V) → Functions
  functions_of h none = word_keys
  functions_of h (some v) = h

  -- `_hash_set3`, with the value saved; `hash_create (0, sizeof (uword))` for the null table.
  unfoldable pub hash_set3 : Functions → ℕ → Option (Hash V) → ℕ → V → Option (Hash V × Option V)
  unfolding create set3_saving
  hash_set3 h depth none key x = do
    v ← create 0 (some (record { elts = 0; flags = 0; log2_pair_size = 1; buckets = [] }))
    set3_saving word_keys depth v key x
  hash_set3 h depth (some v) key x = set3_saving h depth v key x
