-- ===== src/Hash/Bucket.antt =====
-- clib/hash.c: the buckets of a hash table and what `lookup` does to one. A bucket of the model is
-- an element of the vector with its bit of `is_user`, and a value stands for the
-- `2 ^ log2_pair_size - 1` words after a key. A failed ASSERT of `indirect_pair_set` is not modelled:
-- the word it packs is.
use clib.Common.{
  ℕ, zero, suc, ◌+◌, ◌-◌, ◌*◌, ◌%◌, ◌^◌, List, [], ◌∷◌, ◌++◌, Bool, true, false, length, get_or,
  set, take, ltb, ◌==◌, if◌then◌else◌, Option, none, some,
}

-- `hash_pair_t`
pub record Pair {ℓ} (V : Type ℓ) : Type ℓ where
  pub key : ℕ
  pub value : V

-- `hash_pair_union_t`, told apart by the bit of `is_user`; null pairs are the empty list.
pub data Bucket {ℓ} (V : Type ℓ) : Type ℓ where
  direct : Pair V → Bucket V
  indirect : (log2_bytes : ℕ) → List (Pair V) → Bucket V

-- The functions a table is created with, as `key_sum` and `key_equal` call them.
pub record Functions : Type 0 where
  pub key_sum : ℕ → ℕ
  pub key_equal : ℕ → ℕ → Bool

-- `enum lookup_opcode`, with the new value
pub data Opcode {ℓ} (V : Type ℓ) : Type ℓ where
  get : Opcode V
  set_value : V → Opcode V
  unset : Opcode V

-- What `lookup` leaves of a bucket, the pair it points to, and the value it saves. After `unset`
-- no caller reads the pair.
pub record BucketFound {ℓ} (V : Type ℓ) : Type ℓ where
  pub bucket : Bucket V
  pub pair : Option (Pair V)
  pub found_key : Bool
  pub old_value : Option V

-- `sizeof (uword)` is 8.
unfoldable pub hash_pair_log2_bytes : ℕ → ℕ
hash_pair_log2_bytes log2_pair_size = log2_pair_size + 3

unfoldable pub hash_pair_bytes : ℕ → ℕ
unfolding hash_pair_log2_bytes
hash_pair_bytes log2_pair_size = 2 ^ hash_pair_log2_bytes log2_pair_size

-- `1 << n` of an int, where it becomes a word: the sign is extended. C gives it no value for 31,
-- where machines set the sign, and `log2_bytes` is never above 31.
unfoldable pub int_one_shl : ℕ → ℕ
int_one_shl n = if n == 31 then 2 ^ 64 - 2 ^ 31 else 2 ^ n

-- `indirect_pair_set` keeps the low 5 bits of the exponent, above the 59 bits of the length.
unfoldable pub log2_alloc : ℕ → ℕ
log2_alloc n = n % 2 ^ 5

-- `log2_bytes` of new pairs; a vector, of pairs of one word, has its own header.
unfoldable pub first_log2_bytes : ℕ → ℕ
unfolding hash_pair_log2_bytes log2_alloc
first_log2_bytes log2_pair_size =
    if log2_pair_size == 0 then 0 else log2_alloc (1 + hash_pair_log2_bytes log2_pair_size)

-- `log2_bytes` when there is one more pair
unfoldable pub next_log2_bytes : ℕ → ℕ → ℕ → ℕ
unfolding hash_pair_bytes int_one_shl log2_alloc
next_log2_bytes log2_pair_size log2_bytes len =
    if log2_pair_size == 0
    then log2_bytes
    else if ltb (int_one_shl log2_bytes) ((len + 1) * hash_pair_bytes log2_pair_size)
    then log2_alloc (log2_bytes + 1)
    else log2_bytes

module _ {ℓ} {V : Type ℓ} where
  -- `memcpy (&p->direct.value, new_value, ...)` for the pair at a place
  unfoldable pub write_value : List (Pair V) → ℕ → V → List (Pair V)
  write_value [] q v = []
  write_value (p ∷ ps) zero v = record p { value = v } ∷ ps
  write_value (p ∷ ps) (suc q) v = p ∷ write_value ps q v

  -- The pairs without the one at a place, where the last is moved to.
  unfoldable pub remove_at : Pair V → List (Pair V) → ℕ → List (Pair V)
  remove_at r pairs q =
      let e = length pairs - 1 in take e (if ltb q e then set pairs q (get_or pairs e r) else pairs)

  -- `unset_indirect` of the pair at a place
  unfoldable pub unset_indirect : ℕ → List (Pair V) → ℕ → Bucket V
  unfolding remove_at
  unset_indirect log2_bytes [] q = indirect 0 []
  unset_indirect log2_bytes (r ∷ []) q = indirect 0 []
  unset_indirect log2_bytes (r ∷ r1 ∷ []) q = direct (if q == 0 then r1 else r)
  unset_indirect log2_bytes (r ∷ r1 ∷ r2 ∷ rs) q =
      indirect log2_bytes (remove_at r (r ∷ r1 ∷ r2 ∷ rs) q)

module _ {ℓ} {V : Type ℓ} (h : Functions) where
  -- `get_indirect`: the place of the pair, and the pair.
  unfoldable pub get_indirect : List (Pair V) → ℕ → Option (ℕ × Pair V)
  get_indirect [] key = none
  get_indirect (p ∷ ps) key =
      let rest = get_indirect ps key in
      if h.key_equal p.key key
      then some (0, p)
      else elim rest [ none ↦ none | some (q, r) ↦ some (suc q, r) ]

  -- `set_indirect` and the write of the value, on pairs that are not null
  unfoldable pub set_indirect : ℕ → ℕ → List (Pair V) → ℕ → V → BucketFound V
  unfolding get_indirect write_value next_log2_bytes
  set_indirect log2_pair_size log2_bytes pairs key v =
      let new_pair : Pair V = record { key = key; value = v } in
      elim (get_indirect pairs key) [
        | some (q, p) ↦ record {
          bucket = indirect log2_bytes (write_value pairs q v);
          pair = some (record p { value = v });
          found_key = true;
          old_value = some p.value;
        }
        | none ↦ record {
          bucket =
              indirect (next_log2_bytes log2_pair_size log2_bytes (length pairs))
                (pairs ++ new_pair ∷ []);
          pair = some new_pair;
          found_key = false;
          old_value = none;
        }
      ]

  -- `lookup` in the bucket of a user pair
  unfoldable pub lookup_direct : ℕ → Pair V → ℕ → Opcode V → BucketFound V
  unfolding first_log2_bytes
  lookup_direct log2_pair_size p key get =
      let e = h.key_equal p.key key in
      record {
        bucket = direct p;
        pair = if e then some p else none;
        found_key = e;
        old_value = none;
      }
  lookup_direct log2_pair_size p key (set_value v) =
      let q : Pair V = record { key = key; value = v } in
      let r : Pair V = record p { value = v } in
      if h.key_equal p.key key
      then record { bucket = direct r; pair = some r; found_key = true; old_value = some p.value }
      else record {
        bucket = indirect (first_log2_bytes log2_pair_size) (p ∷ q ∷ []);
        pair = some q;
        found_key = false;
        old_value = none;
      }
  lookup_direct log2_pair_size p key unset =
      if h.key_equal p.key key
      then record {
        bucket = indirect 0 [];
        pair = none;
        found_key = true;
        old_value = some p.value;
      }
      else record { bucket = direct p; pair = none; found_key = false; old_value = none }

  -- `lookup` in the bucket of null or indirect pairs
  unfoldable pub lookup_indirect : ℕ → ℕ → List (Pair V) → ℕ → Opcode V → BucketFound V
  unfolding get_indirect set_indirect unset_indirect
  lookup_indirect log2_pair_size log2_bytes pairs key get =
      let absent : BucketFound V = record {
        bucket = indirect log2_bytes pairs;
        pair = none;
        found_key = false;
        old_value = none;
      } in
      elim (get_indirect pairs key) [
        | none ↦ absent
        | some (q, p) ↦ record absent { pair = some p; found_key = true }
      ]
  lookup_indirect log2_pair_size log2_bytes [] key (set_value v) =
      let p : Pair V = record { key = key; value = v } in
      record { bucket = direct p; pair = some p; found_key = false; old_value = none }
  lookup_indirect log2_pair_size log2_bytes (p ∷ ps) key (set_value v) =
      set_indirect log2_pair_size log2_bytes (p ∷ ps) key v
  lookup_indirect log2_pair_size log2_bytes pairs key unset =
      let absent : BucketFound V = record {
        bucket = indirect log2_bytes pairs;
        pair = none;
        found_key = false;
        old_value = none;
      } in
      elim (get_indirect pairs key) [
        | none ↦ absent
        | some (q, p) ↦ record absent {
          bucket = unset_indirect log2_bytes pairs q;
          found_key = true;
          old_value = some p.value;
        }
      ]

  unfoldable pub lookup_bucket : ℕ → Bucket V → ℕ → Opcode V → BucketFound V
  unfolding lookup_direct lookup_indirect
  lookup_bucket log2_pair_size (direct p) key op = lookup_direct log2_pair_size p key op
  lookup_bucket log2_pair_size (indirect log2_bytes pairs) key op =
      lookup_indirect log2_pair_size log2_bytes pairs key op
