-- ===== src/Bitops.antt =====
-- The integer helpers of clib/clib.h and clib/bitops.h, for a 64-bit `uword`.
-- `min_log2` is the portable C of clib.h, and `log2_first_set` goes through it. A C truth value
-- that the callers only test is a `Bool`.
pub mod Log2
pub mod FirstSet
use clib.Common.{
  ℕ, zero, suc, ◌+◌, ◌-◌, ◌*◌, ◌/◌, ◌%◌, ◌^◌, Bool, true, false, ltb, ◌==◌, if◌then◌else◌, bit_and,
  bit_or, bit_xor, List, [], ◌∷◌, get_or, ◌++◌, Option, none, some,
}
use clib.Word.{uword_bits, all_ones, add, sub, neg, complement, shl, shr}

-- One round of the macro `_` of `min_log2`: the pair is `(a, r)`.
unfoldable pub reduce : ℕ → ℕ × ℕ → ℕ × ℕ
reduce b (a, r) = if shr a b == 0 then (a, r) else (shr a b, r + b)

abbrev pub log2_table : ℕ
log2_table = 0x3333333322221104

unfoldable pub min_log2 : ℕ → ℕ
unfolding reduce shr
min_log2 x =
    let (a, r) = reduce 4 (reduce 8 (reduce 16 (reduce 32 (x, 0)))) in
    let t = bit_and (shr log2_table (4 * a)) 0xf in if ltb t 4 then r + t else all_ones

-- `l++` runs only at `l < 64`, or at the `~0` that `min_log2` answers for 0, where the test fails.
unfoldable pub max_log2 : ℕ → ℕ
unfolding shl
max_log2 x = let l = min_log2 x in if ltb (shl 1 l) x then l + 1 else l

-- The 32-bit branch of `min_log2_u64`: `min_log2` is called on the low half of `x`.
unfoldable pub min_log2_u64_on_32 : ℕ → ℕ
unfolding shr
min_log2_u64_on_32 x =
    let y = x % 2 ^ 32 in
    let l = if y == 0 then 32 else 0 in
    let x' = if y == 0 then shr x 32 else x in l + min_log2 (x' % 2 ^ 32)

unfoldable pub pow2_mask : ℕ → ℕ
unfolding shl sub
pow2_mask x = sub (shl 1 x) 1

unfoldable pub max_pow2 : ℕ → ℕ
unfolding shl
max_pow2 x = let y = shl 1 (min_log2 x) in if ltb y x then shl y 1 else y

unfoldable pub is_pow2 : ℕ → Bool
unfolding sub
is_pow2 x = 0 == bit_and x (sub x 1)

unfoldable pub round_pow2 : ℕ → ℕ → ℕ
unfolding add sub complement
round_pow2 x pow2 = bit_and (sub (add x pow2) 1) (complement (sub pow2 1))

unfoldable pub first_set : ℕ → ℕ
unfolding neg
first_set x = bit_and x (neg x)

unfoldable pub log2_first_set : ℕ → ℕ
unfolding first_set
log2_first_set x = min_log2 (first_set x)

-- bitops.h

unfoldable pub sum_pairs : ℕ → ℕ
unfolding sub shr
sum_pairs x = sub x (bit_and (shr x 1) 0x5555555555555555)

unfoldable pub sum_nibbles : ℕ → ℕ
unfolding add shr
sum_nibbles x = add (bit_and x 0x3333333333333333) (bit_and (shr x 2) 0x3333333333333333)

unfoldable pub sum_bytes : ℕ → ℕ
unfolding add shr
sum_bytes x = bit_and (add x (shr x 4)) 0x0f0f0f0f0f0f0f0f

-- `x = x + (x >> k)`
unfoldable pub fold_down : ℕ → ℕ → ℕ
unfolding add shr
fold_down k x = add x (shr x k)

unfoldable pub count_set_bits : ℕ → ℕ
unfolding sum_pairs sum_nibbles sum_bytes fold_down
count_set_bits x =
    bit_and (fold_down 32 (fold_down 16 (fold_down 8 (sum_bytes (sum_nibbles (sum_pairs x))))))
      (2 * uword_bits - 1)

-- `m ^= m << k`
unfoldable pub smear : ℕ → ℕ → ℕ
unfolding shl
smear k m = bit_xor m (shl m k)

-- The loop of `compress_init`, with the masks that the rounds left write.
unfoldable pub compress_rounds : ℕ → ℕ → ℕ → ℕ → List ℕ
unfolding smear shl shr complement
compress_rounds zero i m zm = []
compress_rounds (suc left) i m zm =
    let m' = smear 32 (smear 16 (smear 8 (smear 4 (smear 2 (smear 1 m))))) in
    let n = bit_and (shl m' 1) zm in
    let q = bit_and zm n in
    n
    ∷ compress_rounds left (i + 1) (bit_and m (complement m'))
        (bit_xor (bit_xor zm q) (shr q (2 ^ i)))

unfoldable pub compress_init : ℕ → List ℕ
unfolding compress_rounds
compress_init mask = mask ∷ compress_rounds 6 0 (complement mask) mask

-- `q = r & masks[j]; r ^= q ^ (q >> k);`
unfoldable pub compress_step : List ℕ → ℕ → ℕ → ℕ → ℕ
unfolding shr
compress_step masks j k r = let q = bit_and r (get_or masks j 0) in bit_xor r (bit_xor q (shr q k))

unfoldable pub compress_bits : List ℕ → ℕ → ℕ
unfolding compress_step
compress_bits masks x = compress_step masks 6 32 (
    compress_step masks 5 16 (
      compress_step masks 4 8 (
        compress_step masks 3 4
          (compress_step masks 2 2 (compress_step masks 1 1 (bit_and x (get_or masks 0 0)))))))

unfoldable pub rotate_left : ℕ → ℕ → ℕ
unfolding shl shr
rotate_left x i = bit_or (shl x i) (shr x (uword_bits - i))

unfoldable pub rotate_right : ℕ → ℕ → ℕ
unfolding shl shr
rotate_right x i = bit_or (shr x i) (shl x (uword_bits - i))

unfoldable pub next_with_same_number_of_set_bits : ℕ → ℕ
unfolding neg add shr
next_with_same_number_of_set_bits x =
    let smallest = bit_and x (neg x) in
    let ripple = add x smallest in
    let ones = shr (bit_xor x ripple) (2 + log2_first_set x) in bit_or ripple ones

-- The values of `var` that `foreach_set_bit` runs its body at, in order. `none`: out of fuel.
unfoldable pub foreach_set_bit : ℕ → ℕ → Option (List ℕ)
unfolding first_set
foreach_set_bit zero m = none
foreach_set_bit (suc fuel) m =
    let f = first_set m in
    let rest = foreach_set_bit fuel (bit_xor m f) in
    if m == 0 then some [] else elim rest [ none ↦ none | some vars ↦ some (min_log2 f ∷ vars) ]
