-- ===== src/ByteOrder.antt =====
-- clib/byte_order.h on a little endian host: the C of the byte swaps, the orders of a stream, and
-- numbers as the bytes that memory holds.
pub mod Bytes
pub mod Range
pub mod Reversed
pub mod Swap
use clib.Common.{ℕ, zero, suc, ◌+◌, ◌-◌, ◌*◌, ◌/◌, ◌%◌, ◌^◌, List, [], ◌∷◌, bit_and, bit_or}

-- `x << k` of a number of `w` bits.
unfoldable pub shl_in : ℕ → ℕ → ℕ → ℕ
shl_in w x k = x * 2 ^ k % 2 ^ w

-- `clib_byte_swap_u16`
unfoldable pub byte_swap_u16 : ℕ → ℕ
unfolding shl_in
byte_swap_u16 x = bit_or (x / 2 ^ 8) (shl_in 16 x 8)

-- `clib_byte_swap_u32`
unfoldable pub byte_swap_u32 : ℕ → ℕ
unfolding shl_in
byte_swap_u32 x =
    bit_or
      (bit_or (bit_or (shl_in 32 x 24) (shl_in 32 (bit_and x 0xff00) 8))
        (bit_and (x / 2 ^ 8) 0xff00))
      (x / 2 ^ 24)

-- `_ (x, 8, i)` of `clib_byte_swap_u64`
unfoldable pub swapped_byte : ℕ → ℕ → ℕ
unfolding shl_in
swapped_byte x i = shl_in 64 (bit_and (x / 2 ^ (8 * i)) 0xff) (8 * (8 - i - 1))

-- `clib_byte_swap_u64`
unfoldable pub byte_swap_u64 : ℕ → ℕ
unfolding swapped_byte
byte_swap_u64 x =
    bit_or
      (bit_or
        (bit_or
          (bit_or
            (bit_or (bit_or (bit_or (swapped_byte x 0) (swapped_byte x 1)) (swapped_byte x 2))
              (swapped_byte x 3))
            (swapped_byte x 4))
          (swapped_byte x 5))
        (swapped_byte x 6))
      (swapped_byte x 7)

-- `clib_host_to_little_u16` and its like for 32 and 64 bits, and the inverses.
unfoldable pub host_to_little : ℕ → ℕ
host_to_little x = x

-- `clib_host_to_net_u16`, `u32` and `u64`, and their inverses: the host is not big endian.
unfoldable pub host_to_net_u16 : ℕ → ℕ
host_to_net_u16 x = byte_swap_u16 x

unfoldable pub host_to_net_u32 : ℕ → ℕ
host_to_net_u32 x = byte_swap_u32 x

unfoldable pub host_to_net_u64 : ℕ → ℕ
host_to_net_u64 x = byte_swap_u64 x

-- The bytes that a store of a number of `n` bytes writes.
unfoldable pub store : ℕ → ℕ → List ℕ
store zero x = []
store (suc n) x = (x % 256) ∷ store n (x / 256)

-- The number that a load of some bytes reads.
unfoldable pub load : List ℕ → ℕ
load [] = 0
load (b ∷ bs) = b + 256 * load bs
