-- ===== src/Hash/KeyFunctions.antt =====
-- clib/hash.c: the sums and the comparisons of keys that a table can be created with. A key that is
-- a pointer is an address of memory, which does not change while it is in a table.
use clib.Common.{ℕ, zero, suc, ◌+◌, ◌*◌, Bool, true, not, ◌&&◌, ◌==◌, if◌then◌else◌}
use clib.Hash.Bucket.{Functions}
use clib.Hash.Sum.{load_bytes, hash_uword, hash_memory64}

-- What the keys point to: bytes, the lengths that `strlen` answers, and those in the headers of
-- vectors.
pub record Memory : Type 0 where
  pub byte : ℕ → ℕ
  pub string_length : ℕ → ℕ
  pub vec_len : ℕ → ℕ
  pub big_endian : Bool

-- The special values of `key_sum` and `key_equal`, and functions of the user.
pub data KeyFunc : Type 0 where
  key_func_none : KeyFunc
  key_func_pointer_uword : KeyFunc
  key_func_pointer_u32 : KeyFunc
  key_func_string : KeyFunc
  key_func_user : (ℕ → ℕ) → (ℕ → ℕ → Bool) → KeyFunc

module _ (m : Memory) where
  unfoldable pub hash_memory : ℕ → ℕ → ℕ → ℕ
  hash_memory p n_bytes state = hash_memory64 m.big_endian m.byte p n_bytes state

  -- `0 == memcmp (v1, v2, n)`
  unfoldable pub same_memory : ℕ → ℕ → ℕ → Bool
  same_memory v1 v2 zero = true
  same_memory v1 v2 (suc n) = same_memory v1 v2 n && (m.byte (v1 + n) == m.byte (v2 + n))

  unfoldable pub vec_key_sum : ℕ → ℕ → ℕ
  vec_key_sum user key = hash_memory key (m.vec_len key * user) 0

  unfoldable pub vec_key_equal : ℕ → ℕ → ℕ → Bool
  vec_key_equal user v1 v2 =
      let l1 = m.vec_len v1 in (l1 == m.vec_len v2) && same_memory v1 v2 (l1 * user)

  unfoldable pub mem_key_sum : ℕ → ℕ → ℕ
  mem_key_sum user key = hash_memory key user 0

  unfoldable pub mem_key_equal : ℕ → ℕ → ℕ → Bool
  mem_key_equal user v1 v2 = not (v1 == 0) && (not (v2 == 0) && same_memory v1 v2 user)

  unfoldable pub string_key_sum : ℕ → ℕ
  string_key_sum key = hash_memory key (m.string_length key) 0

  -- `strcmp` finds no difference in strings of one length with the same bytes.
  unfoldable pub string_key_equal : ℕ → ℕ → Bool
  string_key_equal v1 v2 =
      let l1 = m.string_length v1 in
      not (v1 == 0) && (not (v2 == 0) && ((l1 == m.string_length v2) && same_memory v1 v2 l1))

  unfoldable pub key_sum : KeyFunc → ℕ → ℕ
  key_sum key_func_none key = hash_uword key
  key_sum key_func_pointer_uword key = hash_uword (load_bytes m.byte key m.big_endian 8)
  key_sum key_func_pointer_u32 key = hash_uword (load_bytes m.byte key m.big_endian 4)
  key_sum key_func_string key = string_key_sum key
  key_sum (key_func_user sum equal) key = sum key

  unfoldable pub key_equal1 : KeyFunc → ℕ → ℕ → Bool → Bool
  key_equal1 key_func_none key1 key2 e = e
  key_equal1 key_func_pointer_uword key1 key2 e =
      load_bytes m.byte key1 m.big_endian 8 == load_bytes m.byte key2 m.big_endian 8
  key_equal1 key_func_pointer_u32 key1 key2 e =
      load_bytes m.byte key1 m.big_endian 4 == load_bytes m.byte key2 m.big_endian 4
  key_equal1 key_func_string key1 key2 e = string_key_equal key1 key2
  key_equal1 (key_func_user sum equal) key1 key2 e = equal key1 key2

  unfoldable pub key_equal : KeyFunc → ℕ → ℕ → Bool
  key_equal f key1 key2 = let e = key1 == key2 in if not e then key_equal1 f key1 key2 e else e

  -- The assertion of `key_equal` in a debug build: a key that is the same word is equal.
  unfoldable pub key_equal_asserts : KeyFunc → ℕ → ℕ → Bool
  key_equal_asserts f key1 key2 =
      let e = key1 == key2 in if e then key_equal1 f key1 key2 e else true

  -- The functions that `hash_create2` stores in the header of a table, as the table calls them.
  unfoldable pub functions : KeyFunc → Functions
  functions f = record { key_sum = key_sum f; key_equal = key_equal f }

  -- `hash_create_vec` and `hash_create_mem`
  unfoldable pub vec_functions : ℕ → KeyFunc
  vec_functions user = key_func_user (vec_key_sum user) (vec_key_equal user)

  unfoldable pub mem_functions : ℕ → KeyFunc
  mem_functions user = key_func_user (mem_key_sum user) (mem_key_equal user)
