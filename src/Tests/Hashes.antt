-- ===== src/Tests/Hashes.antt =====
-- Hash tables at concrete inputs.
use clib.Common.{
  ℕ, zero, suc, ◌+◌, ◌-◌, ◌%◌, ◌^◌, ◌≡◌, refl, [], ◌∷◌, false, not, ◌==◌, Option, none, some,
  length, to_ℕ, if◌then◌else◌, arith, ==_refl,
}
use clib.Bitops.{max_log2, min_log2}
use clib.Hash.Bucket.{lookup_bucket, indirect, Functions}
use clib.Hash.Table.{
  Hash, all_pairs, bucket_pairs, hash_get_pair, hash_get, hash_set3, hash_unset, hash_elts,
  hash_capacity, hash_dup,
}
use clib.Hash.Keys.{IsKeys}
use clib.Hash.KeyFunctions.{
  Memory, functions, key_func_none, key_func_pointer_uword, key_func_pointer_u32, key_func_string,
  vec_functions, mem_functions,
}
use clib.Hash.KeyLaws.{functions-IsKeys}
use clib.Hash.Pairs.{find, IsMap, IsPlaced, assign, is_some}
use clib.Hash.View.{pairs_at}
use clib.Hash.Lookup.{value_of}
use clib.Hash.Fill.{HasRoom}
use clib.Hash.Operations.{IsReady}
use clib.Hash.Allocated.{IsAllocated, IsAllocatedBucket}
use clib.Hash.Bucket.{hash_pair_bytes, hash_pair_log2_bytes}
use clib.Hash.Table.{set3_saving, functions_of}
use clib.Hash.Maps.{HasMemory, IsSound, IsUpdated, set3-get_pair, unset-get_pair}
use clib.Hash.Reads.{pointed, get-get_pair, all_pairs-get_pair, dup-get_pair}
use clib.Hash.Sum.{hash_memory64}
use clib.Hash.SumReads.{hash_memory64-reads}

-- Keys that are their own sums.
abbrev identity_keys : Functions
identity_keys = record { key_sum = λ k. k; key_equal = λ a b. a == b }

identity_keys-IsKeys : IsKeys identity_keys
identity_keys-IsKeys = record {
  equal_refl = ==_refl;
  equal_sym = λ a b. ground arith;
  equal_cong = λ a b c e. ground (arith, e);
  equal_sum = λ a b e. ground (arith, e);
}

-- Four buckets, with the keys 1 and 5 in bucket 1; a key takes two words.
abbrev two_pairs : Hash ℕ
two_pairs = record {
  elts = 2;
  flags = 0;
  log2_pair_size = 1;
  buckets =
      indirect 0 []
      ∷ indirect 5 (record { key = 1; value = 10 } ∷ record { key = 5; value = 50 } ∷ [])
      ∷ indirect 0 []
      ∷ indirect 0 []
      ∷ [];
}

two_pairs-IsMap : (i : ℕ) → IsMap identity_keys (pairs_at two_pairs.buckets i)
unfolding IsMap find pairs_at
two_pairs-IsMap zero = tt
two_pairs-IsMap (suc zero) = (refl, (refl, tt))
two_pairs-IsMap (suc (suc zero)) = tt
two_pairs-IsMap (suc (suc (suc zero))) = tt
two_pairs-IsMap (suc (suc (suc (suc i)))) = tt

two_pairs-IsPlaced : (i : ℕ) → IsPlaced identity_keys 3 i (pairs_at two_pairs.buckets i)
unfolding IsPlaced pairs_at
two_pairs-IsPlaced zero = tt
two_pairs-IsPlaced (suc zero) = (refl, (refl, tt))
two_pairs-IsPlaced (suc (suc zero)) = tt
two_pairs-IsPlaced (suc (suc (suc zero))) = tt
two_pairs-IsPlaced (suc (suc (suc (suc i)))) = tt

two_pairs-IsReady : IsReady identity_keys two_pairs
unfolding HasRoom all_pairs bucket_pairs
two_pairs-IsReady = record {
  table = record {
    some_buckets = omega arith;
    maps = two_pairs-IsMap;
    placed = two_pairs-IsPlaced;
    count = refl;
  };
  room = λ grows. omega arith;
}

two_pairs-IsSound : IsSound identity_keys (some two_pairs)
unfolding IsSound
two_pairs-IsSound = two_pairs-IsReady

-- A third key in bucket 1: the table must grow.
after_third : Option (ℕ × ℕ)
after_third = elim (hash_set3 identity_keys 1 (some two_pairs) 9 90) [
  | none ↦ none
  | some (w, old) ↦ some (w.elts, length w.buckets)
]

after_third_value : after_third ≡ some (3, 64)
unfolding after_third hash_set3 set3_saving lookup_bucket max_log2 min_log2
after_third_value = refl

two_pairs-IsAllocated : IsAllocated two_pairs
unfolding IsAllocated IsAllocatedBucket
two_pairs-IsAllocated zero = omega arith
two_pairs-IsAllocated (suc zero) = omega arith
two_pairs-IsAllocated (suc (suc zero)) = omega arith
two_pairs-IsAllocated (suc (suc (suc zero))) = omega arith
two_pairs-IsAllocated (suc (suc (suc (suc i)))) = omega arith

two_pairs-HasMemory : HasMemory (some two_pairs)
unfolding HasMemory hash_pair_bytes hash_pair_log2_bytes
two_pairs-HasMemory = (two_pairs-IsAllocated, (omega arith, omega arith))

set3-get_pair_example :
    (let old = hash_get_pair identity_keys (some two_pairs) 9 in
      (w : Hash ℕ) × (hash_set3 identity_keys 1 (some two_pairs) 9 90 ≡ some (w, value_of old))
      × IsUpdated identity_keys (some two_pairs) 9 (some (assign old 9 90)) (some w)
      × (w.elts ≡ hash_elts (some two_pairs) + to_ℕ (not (is_some old)))
      × IsAllocated w)
unfolding functions_of
set3-get_pair_example =
    set3-get_pair identity_keys-IsKeys 0 (some two_pairs) 9 90 two_pairs-IsSound
      (unfold hash_capacity in omega arith) two_pairs-HasMemory

unset-get_pair_example :
    (let old = hash_get_pair identity_keys (some two_pairs) 1 in
      (after : Option (Hash ℕ)) × (hash_unset identity_keys 0 (some two_pairs) 1
        ≡ some (after, value_of old))
      × IsUpdated identity_keys (some two_pairs) 1 none after
      × (hash_elts after ≡ hash_elts (some two_pairs) - to_ℕ (is_some old)))
unset-get_pair_example =
    unset-get_pair identity_keys-IsKeys 0 (some two_pairs) 1 two_pairs-IsSound
      (unfold hash_capacity in omega arith)

dup-get_pair_example :
    (w : Hash ℕ) × (hash_dup identity_keys 0 (some two_pairs) ≡ some (some w))
    × IsReady identity_keys w
    × ((k : ℕ)
        → hash_get_pair identity_keys (some w) k ≡ hash_get_pair identity_keys (some two_pairs) k)
    × (w.elts ≡ 2)
dup-get_pair_example =
    dup-get_pair identity_keys-IsKeys two_pairs two_pairs-IsReady.table 0 two_pairs-IsReady.room
      (omega arith)

all_pairs-get_pair_example :
    IsMap identity_keys (all_pairs two_pairs.buckets)
    × ((k : ℕ)
        → find identity_keys (all_pairs two_pairs.buckets) k
          ≡ hash_get_pair identity_keys (some two_pairs) k)
    × (length (all_pairs two_pairs.buckets) ≡ hash_elts (some two_pairs))
all_pairs-get_pair_example =
    all_pairs-get_pair identity_keys-IsKeys two_pairs two_pairs-IsReady.table

get-get_pair_example :
    hash_get identity_keys (some two_pairs) 5
    ≡ pointed two_pairs (hash_get_pair identity_keys (some two_pairs) 5)
get-get_pair_example = get-get_pair identity_keys-IsKeys two_pairs two_pairs-IsReady.table 5

-- The bytes 0, 1, 2, ... and the same from address 0 on with others behind them.
abbrev counting : ℕ → ℕ
counting p = p % 2 ^ 8

abbrev cut_off : ℕ → ℕ
cut_off p = if p == 27 then 255 else p % 2 ^ 8

hash_memory64-reads_example :
    hash_memory64 false counting 0 27 0 ≡ hash_memory64 false cut_off 0 27 0
hash_memory64-reads_example =
    hash_memory64-reads false counting cut_off (λ p. omega arith) (λ p. ground arith) 0 0 27 0
      (λ i h. ground (arith, h))

abbrev counting_memory : Memory
counting_memory = record {
  byte = counting;
  string_length = λ p. 3;
  vec_len = λ p. 2;
  big_endian = false;
}

functions-IsKeys_example :
    IsKeys (functions counting_memory key_func_none)
    × IsKeys (functions counting_memory key_func_pointer_uword)
    × IsKeys (functions counting_memory key_func_pointer_u32)
    × IsKeys (functions counting_memory key_func_string)
    × ((user : ℕ) → IsKeys (functions counting_memory (vec_functions counting_memory user)))
    × ((user : ℕ) → IsKeys (functions counting_memory (mem_functions counting_memory user)))
functions-IsKeys_example = functions-IsKeys counting_memory (λ p. omega arith)
