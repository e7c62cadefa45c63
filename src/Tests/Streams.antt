-- ===== src/Tests/Streams.antt =====
-- The theorems on streams and serializers at concrete inputs.
use clib.Common.{ℕ, ◌+◌, ◌-◌, ◌^◌, ◌≡◌, ◌<◌, List, [], ◌∷◌, replicate, All, arith}
use clib.ByteOrder.{host_to_net_u16, host_to_net_u32, host_to_net_u64, store}
use clib.ByteOrder.Reversed.{big_endian, store-host_to_net}
use clib.Serialize.{
  serialize_likely_small_unsigned_integer, unserialize_likely_small_unsigned_integer,
  serialize_likely_small_signed_integer, unserialize_likely_small_signed_integer,
  likely_small_bytes, sign_low,
}
use clib.Serialize.Bitmaps.{unserialize-serialize_bitmap, unserialize-serialize_64}
use clib.Serialize.Chunks.{serialize_vec-IsCodec, unserialize-serialize_vector}
use clib.Serialize.Elements.{Fits}
use clib.Serialize.Integers.{two}
use clib.Serialize.Likely.{unserialize-serialize_likely_small, unserialize-serialize_signed}
use clib.Serialize.Numbers.{VectorTrip, unserialize_all-serialize_all}
use clib.Serialize.Strings.{check-serialize_magic, MagicVerdict}
use clib.Serialize.Values.{serialize_bitmap, unserialize_bitmap}
use clib.Serialize.Vector.{
  serialize_vec, unserialize_vec, serialize_vector, unserialize_vector, serialize_64,
  unserialize_64,
}
use clib.Stream.{ok, open_vector, close_vector, ◌>>=◌}
use clib.Stream.Compose.{RoundTrip}
use clib.Stream.GrowingWrites.{write_all, join, open-write-close_vector}

abbrev empty_buffer : List ℕ
empty_buffer = replicate 32 0

store-host_to_net_example :
    (store 2 (host_to_net_u16 0x1234) ≡ 0x12 ∷ 0x34 ∷ [])
    × (store 4 (host_to_net_u32 0x1234) ≡ 0 ∷ 0 ∷ 0x12 ∷ 0x34 ∷ [])
    × (store 8 (host_to_net_u64 0x1234) ≡ 0 ∷ 0 ∷ 0 ∷ 0 ∷ 0 ∷ 0 ∷ 0x12 ∷ 0x34 ∷ [])
unfolding big_endian
store-host_to_net_example = store-host_to_net 0x1234

unserialize-serialize_likely_small_example :
    RoundTrip
      (serialize_likely_small_unsigned_integer 2 1000)
      (unserialize_likely_small_unsigned_integer 2)
      1000
      2
      empty_buffer
unfolding likely_small_bytes store
unserialize-serialize_likely_small_example =
    unserialize-serialize_likely_small 2 1000 empty_buffer (omega arith) (omega arith) (omega arith)

-- The integer -5 comes back as -4.
unserialize-serialize_signed_example :
    RoundTrip
      (serialize_likely_small_signed_integer 2 (2 ^ 64 - 5))
      (unserialize_likely_small_signed_integer 2)
      (2 ^ 64 - 4)
      1
      empty_buffer
unfolding likely_small_bytes sign_low store
unserialize-serialize_signed_example =
    unserialize-serialize_signed 2 (2 ^ 64 - 5) empty_buffer (omega arith) (omega arith)
      (omega arith)

unserialize-serialize_64_example :
    RoundTrip (serialize_64 2 (2 ^ 40 + 7)) (unserialize_64 2) (2 ^ 40 + 7) 8 empty_buffer
unserialize-serialize_64_example =
    unserialize-serialize_64 2 (2 ^ 40 + 7) empty_buffer (omega arith) (omega arith) (omega arith)

abbrev ports : List ℕ
ports = 80 ∷ 443 ∷ 65535 ∷ 22 ∷ 8080 ∷ []

ports-Fits : All (Fits 2) ports
ports-Fits = (omega arith, (omega arith, (omega arith, (omega arith, (omega arith, tt)))))

unserialize-serialize_vector_example :
    RoundTrip
      (serialize_vector 2 (serialize_vec 2 2) ports)
      (unserialize_vector 2 (unserialize_vec 2 2))
      ports
      14
      empty_buffer
unserialize-serialize_vector_example =
    unserialize-serialize_vector (Fits 2) 2 (serialize_vec 2 2) (unserialize_vec 2 2)
      (serialize_vec-IsCodec 2 2 two) 2 ports empty_buffer ports-Fits (omega arith) (omega arith)
      (omega arith)

unserialize-serialize_bitmap_example :
    RoundTrip
      (serialize_bitmap 2 (5 ∷ 2 ^ 63 ∷ []))
      (unserialize_bitmap 2)
      (5 ∷ 2 ^ 63 ∷ [])
      20
      empty_buffer
unserialize-serialize_bitmap_example =
    unserialize-serialize_bitmap 2 (5 ∷ 2 ^ 63 ∷ []) empty_buffer (omega arith, (omega arith, tt))
      (omega arith) (omega arith) (omega arith)

check-serialize_magic_example : MagicVerdict 2 [] (1 ∷ 2 ∷ []) (1 ∷ 3 ∷ []) empty_buffer
check-serialize_magic_example =
    check-serialize_magic 2 [] (1 ∷ 2 ∷ []) (1 ∷ 3 ∷ []) empty_buffer (omega arith) (omega arith)
      (omega arith)

abbrev pieces : List (List ℕ)
pieces = replicate 30 1 ∷ replicate 30 2 ∷ replicate 30 3 ∷ []

open-write-close_vector_example :
    (write_all 2 pieces (open_vector []) >>= close_vector 2) ≡ ok (join pieces)
open-write-close_vector_example =
    open-write-close_vector 0 pieces (omega arith, (omega arith, (omega arith, tt)))
      (unfold join in omega arith)

numbers-fit : All (λ x. x < 2 ^ 64) (5 ∷ 1000 ∷ 2 ^ 40 ∷ [])
numbers-fit = (omega arith, (omega arith, (omega arith, tt)))

unserialize_all-serialize_all_example : VectorTrip 2 2 (5 ∷ 1000 ∷ 2 ^ 40 ∷ [])
unserialize_all-serialize_all_example =
    unserialize_all-serialize_all 0 2 (5 ∷ 1000 ∷ 2 ^ 40 ∷ []) numbers-fit (omega arith)
