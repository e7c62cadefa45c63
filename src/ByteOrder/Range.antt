-- ===== src/ByteOrder/Range.antt =====
-- The byte swaps of a number of w bits have w bits.
use clib.Common.{ℕ, ◌/◌, ◌%◌, ◌^◌, ◌<◌, arith}
use clib.ByteOrder.{byte_swap_u16, byte_swap_u32, byte_swap_u64}
use clib.ByteOrder.Swap.{byte_swap_u16-eq, byte_swap_u32-eq, byte_swap_u64-eq, from_bytes}

pub byte_swap_u16-lt : (x : ℕ) → x < 2 ^ 16 → byte_swap_u16 x < 2 ^ 16
byte_swap_u16-lt x h = omega (arith, byte_swap_u16-eq x h)

pub byte_swap_u32-lt : (x : ℕ) → x < 2 ^ 32 → byte_swap_u32 x < 2 ^ 32
byte_swap_u32-lt x h = omega (arith, byte_swap_u32-eq x h)

from_bytes-lt :
    (a b c d e f g h : ℕ)
    → a < 256
    → b < 256
    → c < 256
    → d < 256
    → e < 256
    → f < 256
    → g < 256
    → h < 256
    → from_bytes a b c d e f g h < 2 ^ 64
unfolding from_bytes
from_bytes-lt a b c d e f g h ha hb hc hd he hf hg hh = omega arith

pub byte_swap_u64-lt : (x : ℕ) → x < 2 ^ 64 → byte_swap_u64 x < 2 ^ 64
byte_swap_u64-lt x h = rw (byte_swap_u64-eq x h) (
    from_bytes-lt (x % 256) (x / 2 ^ 8 % 256) (x / 2 ^ 16 % 256) (x / 2 ^ 24 % 256)
      (x / 2 ^ 32 % 256) (x / 2 ^ 40 % 256) (x / 2 ^ 48 % 256) (x / 2 ^ 56) (omega arith)
      (omega arith) (omega arith) (omega arith) (omega arith) (omega arith) (omega arith)
      (omega arith))
