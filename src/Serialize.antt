-- ===== src/Serialize.antt =====
-- clib/serialize.h and clib/serialize.c: the formats that integers, strings, vectors and bitmaps
-- are serialized in, on a little endian host. A value that the C stores through a pointer is
-- an answer here.
pub mod HeapElts
pub mod Integers
pub mod Likely
pub mod Bitmaps
pub mod Chunks
pub mod Elements
pub mod Multiple
pub mod Numbers
pub mod Strings
pub mod Values
pub mod Vector
use clib.Common.{
  ℕ, zero, suc, ◌+◌, ◌-◌, ◌*◌, ◌/◌, ◌%◌, ◌^◌, List, [], ◌∷◌, ◌++◌, Bool, true, false, leb, ltb,
  ◌==◌, not, ◌&&◌, ◌||◌, if◌then◌else◌, length, take, drop, replicate, get_or,
}
use clib.ByteOrder.{store, load, host_to_net_u16, host_to_net_u32, host_to_net_u64, host_to_little}
use clib.Stream.{Main, Result, ok, err, Error, assertion_failed, bad_magic, read, write, ◌>>=◌}

-- The bytes that `serialize_integer` stores.
unfoldable pub integer_bytes : ℕ → ℕ → List ℕ
integer_bytes x n =
    if n == 1
    then store 1 x
    else if n == 2
    then store 2 (host_to_net_u16 (x % 2 ^ 16))
    else if n == 4
    then store 4 (host_to_net_u32 (x % 2 ^ 32))
    else store 8 (host_to_net_u64 (x % 2 ^ 64))

abbrev pub is_integer_size : ℕ → Bool
is_integer_size n = n == 1 || n == 2 || n == 4 || n == 8

-- `serialize_integer`; of another size it fails its assertion.
unfoldable pub serialize_integer : ℕ → ℕ → ℕ → Main → Result Main
serialize_integer fuel x n m =
    if is_integer_size n
    then write fuel (integer_bytes x n) m
    else (write fuel (replicate n 0) m >>= λ _. err assertion_failed)

-- The number that `unserialize_integer` makes of the bytes.
unfoldable pub integer_value : ℕ → List ℕ → ℕ
integer_value n p =
    if n == 1
    then load p
    else if n == 2
    then host_to_net_u16 (load p)
    else if n == 4
    then host_to_net_u32 (load p)
    else host_to_net_u64 (load p)

unfoldable pub integer_of : ℕ → List ℕ → Result ℕ
integer_of n p = if is_integer_size n then ok (integer_value n p) else err assertion_failed

-- `unserialize_integer`
unfoldable pub unserialize_integer : ℕ → ℕ → Main → Result (ℕ × Main)
unserialize_integer fuel n m = read fuel n m >>= λ (p, m'). integer_of n p >>= λ x. ok (x, m')

-- `serialize_likely_small_unsigned_integer`
unfoldable pub likely_small_bytes : ℕ → List ℕ
likely_small_bytes x =
    let r2 = x - 2 ^ 7 in
    let r4 = r2 - 2 ^ 14 in
    if ltb x (2 ^ 7)
    then store 1 (1 + 2 * x)
    else if ltb r2 (2 ^ 14)
    then store 2 (host_to_little (4 * r2 + 2))
    else if ltb r4 (2 ^ 29)
    then store 4 (host_to_little (8 * r4 + 4))
    else store 1 0 ++ store 8 (host_to_little x)

unfoldable pub serialize_likely_small_unsigned_integer : ℕ → ℕ → Main → Result Main
serialize_likely_small_unsigned_integer fuel x m = write fuel (likely_small_bytes x) m

-- `unserialize_likely_small_unsigned_integer` from its first byte on.
unfoldable pub unserialize_rest : ℕ → ℕ → Main → Result (ℕ × Main)
unserialize_rest fuel y m1 =
    let two = read fuel 1 m1 >>= λ (q, m2). ok (2 ^ 7 + (y / 4 + get_or q 0 0 * 2 ^ 6), m2) in
    let four = read fuel 3 m1 >>= λ (q, m2). ok (
      2 ^ 7
          + 2 ^ 14
          + (y / 8 + get_or q 0 0 * 2 ^ 5 + get_or q 1 0 * 2 ^ 13 + get_or q 2 0 * 2 ^ 21),
      m2,
    ) in
    let nine = read fuel 8 m1 >>= λ (q, m2). ok (host_to_little (load q), m2) in
    if y % 2 == 1
    then ok (y / 2, m1)
    else if y / 2 % 2 == 1
    then two
    else if y / 4 % 2 == 1
    then four
    else nine

unfoldable pub unserialize_likely_small_unsigned_integer : ℕ → Main → Result (ℕ × Main)
unserialize_likely_small_unsigned_integer fuel m =
    read fuel 1 m >>= λ (p, m1). unserialize_rest fuel (get_or p 0 0) m1

-- `i64`, a number below `2 ^ 64` in two's complement: whether it is below 0.
abbrev pub is_negative : ℕ → Bool
is_negative s = leb (2 ^ 63) s

-- `s < 0 ? -(2*s + 1) : 2*s`
unfoldable pub sign_low : ℕ → ℕ
sign_low s = if is_negative s then (2 ^ 64 - (2 * s + 1) % 2 ^ 64) % 2 ^ 64 else 2 * s

-- `serialize_likely_small_signed_integer`
unfoldable pub serialize_likely_small_signed_integer : ℕ → ℕ → Main → Result Main
serialize_likely_small_signed_integer fuel s m =
    serialize_likely_small_unsigned_integer fuel (sign_low s) m

-- `(u & 1) ? -s : s` where `s` is `u / 2`
unfoldable pub sign_back : ℕ → ℕ
sign_back u = if u % 2 == 1 then (2 ^ 64 - u / 2) % 2 ^ 64 else u / 2

-- `unserialize_likely_small_signed_integer`
unfoldable pub unserialize_likely_small_signed_integer : ℕ → Main → Result (ℕ × Main)
unserialize_likely_small_signed_integer fuel m =
    unserialize_likely_small_unsigned_integer fuel m >>= λ (u, m'). ok (sign_back u, m')
