-- ===== src/Tests/Bits.antt =====
-- The theorems on integers and vectors at concrete inputs.
use clib.Common.{ℕ, suc, ◌^◌, ◌<◌, ◌≤◌, ◌≡◌, refl, List, [], ◌∷◌, some, arith}
use clib.Bitops.{
  min_log2, log2_first_set, count_set_bits, foreach_set_bit, compress_bits, compress_init,
  next_with_same_number_of_set_bits,
}
use clib.Bitops.Log2.{min_log2_bounds}

min_log2_bounds_example : (2 ^ min_log2 1000 ≤ 1000) × (1000 < 2 ^ suc (min_log2 1000))
min_log2_bounds_example = min_log2_bounds 1000 (omega arith) (omega arith)

count_0xff00ff01 : count_set_bits 0xff00ff01 ≡ 17
unfolding count_set_bits
count_0xff00ff01 = refl

foreach_four : foreach_set_bit 65 0x8001000000000101 ≡ some (0 ∷ 8 ∷ 48 ∷ 63 ∷ [])
unfolding foreach_set_bit min_log2
foreach_four = refl

-- The digits of 0xa5b6 under the mask 0xf0f0 are 0xa and 0xb.
compress_nibbles : compress_bits (compress_init 0xf0f0) 0xa5b6 ≡ 0xab
unfolding compress_bits compress_init
compress_nibbles = refl

next_after_0x13 : next_with_same_number_of_set_bits 0x13 ≡ 0x15
unfolding next_with_same_number_of_set_bits log2_first_set min_log2
next_after_0x13 = refl

abbrev two_items : List ℕ
two_items = 5 ∷ 6 ∷ []
