-- ===== src/Serialize/Vector.antt =====
-- clib/serialize.c: integers of each size, vectors, and the calls that `serialize` and
-- `unserialize` make.
use clib.Common.{
  ℕ, zero, suc, ◌+◌, ◌-◌, ◌*◌, ◌/◌, ◌%◌, ◌^◌, List, [], ◌∷◌, ◌++◌, Bool, ltb, ◌==◌, if◌then◌else◌,
  ◌||◌, length, take, drop, min, bit_or,
}
use clib.Serialize.{integer_bytes, integer_value, serialize_integer, unserialize_integer}
use clib.Stream.{
  Main, Result, ok, err, bad_vector_length, assertion_failed, out_of_fuel, read, write, ◌>>=◌,
}

-- `serialize_64`, `serialize_32`, `serialize_16`, `serialize_8` and their inverses
unfoldable pub serialize_64 : ℕ → ℕ → Main → Result Main
serialize_64 fuel x m =
    serialize_integer fuel (x % 2 ^ 32) 4 m >>= serialize_integer fuel (x / 2 ^ 32) 4

unfoldable pub serialize_32 : ℕ → ℕ → Main → Result Main
serialize_32 fuel x m = serialize_integer fuel x 4 m

unfoldable pub serialize_16 : ℕ → ℕ → Main → Result Main
serialize_16 fuel x m = serialize_integer fuel x 2 m

unfoldable pub serialize_8 : ℕ → ℕ → Main → Result Main
serialize_8 fuel x m = serialize_integer fuel x 1 m

unfoldable pub unserialize_64 : ℕ → Main → Result (ℕ × Main)
unserialize_64 fuel m = unserialize_integer fuel 4 m >>= λ (lo, m1).
    unserialize_integer fuel 4 m1 >>= λ (hi, m2). ok (bit_or (hi * 2 ^ 32) lo, m2)

unfoldable pub unserialize_32 : ℕ → Main → Result (ℕ × Main)
unserialize_32 fuel m = unserialize_integer fuel 4 m

unfoldable pub unserialize_16 : ℕ → Main → Result (ℕ × Main)
unserialize_16 fuel m = unserialize_integer fuel 2 m

unfoldable pub unserialize_8 : ℕ → Main → Result (ℕ × Main)
unserialize_8 fuel m = unserialize_integer fuel 1 m

-- `m->recursion_level += 1` and `-= 1`
unfoldable pub deeper : Main → Main
deeper m = record m { recursion_level = m.recursion_level + 1 }

unfoldable pub shallower : Main → Main
shallower m = record m { recursion_level = m.recursion_level - 1 }

-- `serialize` of a function: it runs one level deeper.
unfoldable pub va_serialize : (Main → Result Main) → Main → Result Main
va_serialize f m = f (deeper m) >>= λ m'. ok (shallower m')

-- `unserialize` of a function.
unfoldable pub va_unserialize {ℓ} :
    {A : Type ℓ} → (Main → Result (A × Main)) → Main → Result (A × Main)
va_unserialize f m = f (deeper m) >>= λ (a, m'). ok (a, shallower m')

-- The loops of `serialize_vec_8`, `serialize_vec_16`, `serialize_vec_32` and `serialize_vec_64`,
-- whose elements have `k` bytes: what they store.
unfoldable pub vec_bytes : ℕ → List ℕ → List ℕ
vec_bytes k [] = []
vec_bytes k (a ∷ []) = integer_bytes a k
vec_bytes k (a ∷ b ∷ []) = integer_bytes a k ++ integer_bytes b k
vec_bytes k (a ∷ b ∷ c ∷ []) = integer_bytes a k ++ integer_bytes b k ++ integer_bytes c k
vec_bytes k (a ∷ b ∷ c ∷ d ∷ s) =
    (integer_bytes a k ++ integer_bytes b k ++ integer_bytes c k ++ integer_bytes d k)
    ++ vec_bytes k s

unfoldable pub serialize_vec : ℕ → ℕ → List ℕ → Main → Result Main
serialize_vec k fuel s m = write fuel (vec_bytes k s) m

-- Element `i` of the bytes `p`.
abbrev pub element : ℕ → List ℕ → ℕ → ℕ
element k p i = integer_value k (take k (drop (i * k) p))

-- The loops of `unserialize_vec_8`, `unserialize_vec_16`, `unserialize_vec_32` and
-- `unserialize_vec_64`.
unfoldable pub vec_elements : ℕ → ℕ → List ℕ → List ℕ
vec_elements k zero p = []
vec_elements k (suc zero) p = element k p 0 ∷ []
vec_elements k (suc (suc zero)) p = element k p 0 ∷ element k p 1 ∷ []
vec_elements k (suc (suc (suc zero))) p = element k p 0 ∷ element k p 1 ∷ element k p 2 ∷ []
vec_elements k (suc (suc (suc (suc n)))) p =
    element k p 0
    ∷ element k p 1
    ∷ element k p 2
    ∷ element k p 3
    ∷ vec_elements k n (drop (4 * k) p)

unfoldable pub unserialize_vec : ℕ → ℕ → ℕ → Main → Result (List ℕ × Main)
unserialize_vec k fuel n m = read fuel (n * k) m >>= λ (p, m'). ok (vec_elements k n p, m')

-- `serialize_multiple_1`, `_2` and `_4`, for the elements at `data`, `data_stride` bytes apart.
unfoldable pub serialize_multiple_of : ℕ → ℕ → List ℕ → Main → Result Main
serialize_multiple_of k fuel [] m = ok m
serialize_multiple_of k fuel (a ∷ []) m = serialize_vec k fuel (a ∷ []) m
serialize_multiple_of k fuel (a ∷ b ∷ []) m = serialize_vec k fuel (a ∷ b ∷ []) m
serialize_multiple_of k fuel (a ∷ b ∷ c ∷ []) m = serialize_vec k fuel (a ∷ b ∷ c ∷ []) m
serialize_multiple_of k fuel (a ∷ b ∷ c ∷ d ∷ s) m =
    serialize_vec k fuel (a ∷ b ∷ c ∷ d ∷ []) m >>= serialize_multiple_of k fuel s

-- `unserialize_multiple_1`, `_2` and `_4`: the elements.
unfoldable pub unserialize_multiple_of : ℕ → ℕ → ℕ → Main → Result (List ℕ × Main)
unserialize_multiple_of k fuel zero m = ok ([], m)
unserialize_multiple_of k fuel (suc zero) m = unserialize_vec k fuel 1 m
unserialize_multiple_of k fuel (suc (suc zero)) m = unserialize_vec k fuel 2 m
unserialize_multiple_of k fuel (suc (suc (suc zero))) m = unserialize_vec k fuel 3 m
unserialize_multiple_of k fuel (suc (suc (suc (suc n)))) m =
    unserialize_vec k fuel 4 m >>= λ (chunk, m1).
    unserialize_multiple_of k fuel n m1 >>= λ (more, m2). ok (chunk ++ more, m2)

abbrev pub is_multiple_size : ℕ → Bool
is_multiple_size n_data_bytes = n_data_bytes == 1 || n_data_bytes == 2 || n_data_bytes == 4

-- `serialize_multiple`
unfoldable pub serialize_multiple : ℕ → ℕ → List ℕ → Main → Result Main
serialize_multiple n_data_bytes fuel s m =
    if is_multiple_size n_data_bytes
    then serialize_multiple_of n_data_bytes fuel s m
    else err assertion_failed

-- `unserialize_multiple`
unfoldable pub unserialize_multiple : ℕ → ℕ → ℕ → Main → Result (List ℕ × Main)
unserialize_multiple n_data_bytes fuel n m =
    if is_multiple_size n_data_bytes
    then unserialize_multiple_of n_data_bytes fuel n m
    else err assertion_failed

module _ {ℓ} {A : Type ℓ} where
  -- The loop of `serialize_vector`, in chunks of `SERIALIZE_VECTOR_CHUNK_SIZE`.
  unfoldable pub serialize_chunks : ℕ → (List A → Main → Result Main) → List A → Main → Result Main
  serialize_chunks zero f v m = if length v == 0 then ok m else err out_of_fuel
  serialize_chunks (suc fuel) f v m =
      let n = min 64 (length v) in
      let rest = va_serialize (f (take n v)) m >>= serialize_chunks fuel f (drop n v) in
      if length v == 0 then ok m else rest

  -- `serialize_vector`
  unfoldable pub serialize_vector : ℕ → (List A → Main → Result Main) → List A → Main → Result Main
  serialize_vector fuel f v m =
      serialize_integer fuel (length v) 4 m >>= serialize_chunks (length v) f v

  -- The loop of `unserialize_vector_ha`.
  unfoldable pub unserialize_chunks :
      ℕ → (ℕ → Main → Result (List A × Main)) → ℕ → Main → Result (List A × Main)
  unserialize_chunks zero f l m = if l == 0 then ok ([], m) else err out_of_fuel
  unserialize_chunks (suc fuel) f l m =
      let n = min 64 l in
      let rest = va_unserialize (f n) m >>= λ (chunk, m1).
      unserialize_chunks fuel f (l - n) m1 >>= λ (more, m2). ok (chunk ++ more, m2) in
      if l == 0 then ok ([], m) else rest

  -- `unserialize_vector_ha`
  unfoldable pub unserialize_vector_ha :
      ℕ → ℕ → (ℕ → Main → Result (List A × Main)) → Main → Result (List A × Main)
  unserialize_vector_ha fuel max_length f m = unserialize_integer fuel 4 m >>= λ (l, m').
      let v = unserialize_chunks l f l m' in
      if ltb max_length l then err (bad_vector_length l) else v

  -- `unserialize_vector` and `unserialize_aligned_vector`
  unfoldable pub unserialize_vector :
      ℕ → (ℕ → Main → Result (List A × Main)) → Main → Result (List A × Main)
  unserialize_vector fuel f m = unserialize_vector_ha fuel (2 ^ 32 - 1) f m
