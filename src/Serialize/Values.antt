-- ===== src/Serialize/Values.antt =====
-- clib/serialize.c: strings, magic numbers and bitmaps.
use clib.Common.{
  ℕ, zero, suc, ◌+◌, ◌-◌, ◌*◌, ◌/◌, ◌%◌, ◌^◌, List, [], ◌∷◌, ◌++◌, Bool, true, false, leb, ltb,
  ◌==◌, if◌then◌else◌, ◌&&◌, length, take, set, get_or, replicate, Option, none, some, bit_or,
}
use clib.Serialize.{
  serialize_integer, unserialize_integer, serialize_likely_small_unsigned_integer,
  unserialize_likely_small_unsigned_integer,
}
use clib.Bitmap.{Bitmap}
use clib.Stream.{Main, Result, ok, err, bad_magic, read, write, ◌>>=◌}

-- `strlen`
unfoldable pub strlen : List ℕ → ℕ
strlen [] = 0
strlen (c ∷ s) = if c == 0 then 0 else suc (strlen s)

-- `serialize_cstring`; `none` is the null pointer.
unfoldable pub serialize_cstring : ℕ → Option (List ℕ) → Main → Result Main
serialize_cstring fuel none m = serialize_likely_small_unsigned_integer fuel 0 m
serialize_cstring fuel (some s) m =
    let len = strlen s % 2 ^ 32 in
    serialize_likely_small_unsigned_integer fuel len m >>= λ m'.
    if ltb 0 len then write fuel (take len s) m' else ok m'

-- `unserialize_cstring`
unfoldable pub unserialize_cstring : ℕ → Main → Result (Option (List ℕ) × Main)
unserialize_cstring fuel m = unserialize_likely_small_unsigned_integer fuel m >>= λ (l, m1).
    let len = l % 2 ^ 32 in
    let string = read fuel len m1 >>= λ (p, m2). ok (some (p ++ 0 ∷ []), m2) in
    if ltb 0 len then string else ok (none, m1)

-- `serialize_magic`
unfoldable pub serialize_magic : ℕ → List ℕ → Main → Result Main
serialize_magic fuel magic m = serialize_integer fuel (length magic) 4 m >>= write fuel magic

-- `serialize_get`, and the `n` bytes that are where it points; `unset` is what new memory holds.
unfoldable pub write_place : ℕ → List ℕ → ℕ → Main → Result (List ℕ × Main)
write_place fuel unset n m =
    let s = m.stream in
    let new = write fuel unset m >>= λ m'. ok (unset, m') in
    if length s.overflow_buffer == 0 && leb (s.current_buffer_index + n) s.n_buffer_bytes
    then read fuel n m
    else new

-- Whether `memcmp` answers 0.
unfoldable pub same_bytes : List ℕ → List ℕ → Bool
same_bytes [] [] = true
same_bytes [] (y ∷ ys) = false
same_bytes (x ∷ xs) [] = false
same_bytes (x ∷ xs) (y ∷ ys) = x == y && same_bytes xs ys

-- `unserialize_check_magic`, which gets the bytes with `serialize_get`.
unfoldable pub unserialize_check_magic : ℕ → List ℕ → List ℕ → Main → Result Main
unserialize_check_magic fuel unset magic m = unserialize_integer fuel 4 m >>= λ (l, m1).
    let compared = write_place fuel unset (length magic) m1 >>= λ (d, m2).
    if same_bytes magic d then ok m2 else err bad_magic in
    if l == length magic then compared else err bad_magic

-- The loop of `serialize_bitmap`.
unfoldable pub serialize_words : ℕ → Bitmap → Main → Result Main
serialize_words fuel [] m = ok m
serialize_words fuel (w ∷ b) m =
    serialize_integer fuel w 4 m
    >>= serialize_integer fuel (w / 2 ^ 32) 4
    >>= serialize_words fuel b

-- `serialize_bitmap`
unfoldable pub serialize_bitmap : ℕ → Bitmap → Main → Result Main
serialize_bitmap fuel b m =
    serialize_integer fuel (length b * 8 / 4 % 2 ^ 32) 4 m >>= serialize_words fuel b

-- The loop of `unserialize_bitmap`: `left` rounds from `i` on.
unfoldable pub unserialize_words : ℕ → ℕ → ℕ → Bitmap → Main → Result (Bitmap × Main)
unserialize_words fuel zero i b m = ok (b, m)
unserialize_words fuel (suc left) i b m = unserialize_integer fuel 4 m >>= λ (word, m').
    let shifted = if i % 2 == 0 then word else word * 2 ^ 32 in
    unserialize_words fuel left (i + 1) (set b (i / 2) (bit_or (get_or b (i / 2) 0) shifted)) m'

-- `unserialize_bitmap`
unfoldable pub unserialize_bitmap : ℕ → Main → Result (Bitmap × Main)
unserialize_bitmap fuel m = unserialize_integer fuel 4 m >>= λ (n_u32s, m').
    let words = unserialize_words fuel n_u32s 0 (replicate ((n_u32s * 4 + 8 - 1) / 8) 0) m' in
    if n_u32s == 0 then ok ([], m') else words
