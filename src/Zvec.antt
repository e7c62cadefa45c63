-- ===== src/Zvec.antt =====
-- clib/zvec.c and clib/zvec.h: vectors compressed by an entropy code. A coding is a word; its set
-- digits, from the lowest, are the sizes of the code's groups.
-- A loop has a round for each set bit of the coding: 64 rounds of fuel are enough. Bit counts do
-- not wrap, but for the one that coding 0 overwrites.
pub mod Arrays
pub mod Code
pub mod Laws
pub mod Signs
pub mod Steps
use clib.Common.{
  ◌>>=◌, ℕ, zero, suc, ◌+◌, ◌-◌, ◌*◌, ◌^◌, List, [], ◌∷◌, Bool, not, ◌&&◌, ◌||◌, leb, ltb, ◌==◌,
  if◌then◌else◌, bit_and, bit_or, bit_xor, to_ℕ, Option, none, some, length, get_or, ◌%◌,
}
use clib.Word.{uword_bits, all_ones, add, sub, mul, neg, shl, shr}
use clib.Bitops.{first_set, min_log2, max_pow2, pow2_mask, next_with_same_number_of_set_bits}
use clib.Bitmap.{Bitmap}
use clib.Bitmap.Range.{get_multiple, set_multiple}

-- The loop of `zvec_decode`: the result and the number of bits.
unfoldable pub decode_from : ℕ → ℕ → ℕ → ℕ → ℕ → Option (ℕ × ℕ)
decode_from zero coding zdata result n_bits = none
decode_from (suc fuel) coding zdata result n_bits =
    let c = first_set coding in
    let implicit_end = c == coding in
    let explicit_end = not (bit_and zdata 1 == 0) && not implicit_end in
    let d = bit_and (shr zdata (to_ℕ explicit_end)) (sub c 1) in
    let rest = decode_from fuel (bit_xor coding c) (shr zdata 1) (add result c) (n_bits + 1) in
    if explicit_end || implicit_end
    then some (add result d, n_bits + (min_log2 c + to_ℕ explicit_end))
    else rest

-- `zvec_decode`: the result and the number of bits.
unfoldable pub decode : ℕ → ℕ → Option (ℕ × ℕ)
decode coding zdata = elim (decode_from 64 coding zdata 0 0) [
  | none ↦ none
  | some (result, n_bits) ↦ some (result, if coding == 0 then uword_bits else n_bits)
]

-- The loop of `zvec_encode`: the result and the number of bits.
unfoldable pub encode_from : ℕ → ℕ → ℕ → ℕ → Option (ℕ × ℕ)
encode_from zero coding value shift = none
encode_from (suc fuel) coding value shift =
    let c = first_set coding in
    let implicit_end = c == coding in
    let explicit_end = bit_and value (sub c 1) == value in
    let t = to_ℕ (explicit_end && not implicit_end) in
    let rest = encode_from fuel (bit_xor coding c) (sub value c) (shift + 1) in
    if explicit_end || implicit_end
    then some (
      shl (bit_or (shl value t) t) shift,
      (if c == 0 then uword_bits else min_log2 c) + shift + t,
    )
    else rest

-- `zvec_encode`; `none` if its assertion fails. `value` is `data`.
unfoldable pub encode : ℕ → ℕ → Option (ℕ × ℕ)
encode coding value = if leb value (sub coding 1) then encode_from 64 coding value 0 else none

-- `zvec_signed_to_unsigned` of a word in two's complement.
unfoldable pub signed_to_unsigned : ℕ → ℕ
signed_to_unsigned s =
    let a = not (ltb s (2 ^ 63)) in let s' = add (2 * s) (to_ℕ a) in if a then neg s' else s'

-- `zvec_unsigned_to_signed`
unfoldable pub unsigned_to_signed : ℕ → ℕ
unsigned_to_signed u =
    let a = not (bit_and u 1 == 0) in let u' = shr u 1 in if a then neg u' else u'

-- The word of a number of `w` bits in two's complement.
unfoldable pub sign_extend : ℕ → ℕ → ℕ
sign_extend w x = if ltb x (2 ^ (w - 1)) then x else x + 2 ^ 64 - 2 ^ w

unfoldable pub is_data_size : ℕ → Bool
is_data_size data_bytes = data_bytes == 1 || data_bytes == 2 || data_bytes == 4 || data_bytes == 8

-- `get_data` of an object of `data_bytes` bytes that holds `x`; `none` is `os_panic`.
unfoldable pub get_data : ℕ → Bool → ℕ → Option ℕ
get_data data_bytes is_signed x =
    if is_data_size data_bytes
    then some (if is_signed then signed_to_unsigned (sign_extend (8 * data_bytes) x) else x)
    else none

-- What `put_data` stores in an object of `data_bytes` bytes; `none` is `os_panic`.
unfoldable pub put_data : ℕ → Bool → ℕ → Option ℕ
put_data data_bytes is_signed x =
    if is_data_size data_bytes
    then some ((if is_signed then unsigned_to_signed x else x) % 2 ^ (8 * data_bytes))
    else none

-- `zvec_encode_inline` of the objects of the list: the bitmap and the number of its bits.
unfoldable pub encode_all : ℕ → Bool → ℕ → List ℕ → Bitmap → ℕ → Option (Bitmap × ℕ)
encode_all data_bytes is_signed coding [] zvec i = some (zvec, i)
encode_all data_bytes is_signed coding (x ∷ objects) zvec i = do
  d0 ← get_data data_bytes is_signed x
  (z0, l0) ← encode coding d0
  encode_all data_bytes is_signed coding objects (set_multiple zvec i z0 l0) (i + l0)

-- `coding_max_n_bits`
unfoldable pub coding_max_n_bits : ℕ → Option ℕ
coding_max_n_bits coding = do (result, n_bits) ← decode coding 0; some n_bits

-- The loop of `zvec_decode_inline`: the objects that `n_data` rounds store, and the place after.
unfoldable pub decode_rounds : ℕ → Bool → ℕ → ℕ → ℕ → Bitmap → ℕ → Option (List ℕ × ℕ)
decode_rounds data_bytes is_signed coding n_max zero zvec i = some ([], i)
decode_rounds data_bytes is_signed coding n_max (suc n_data) zvec i = do
  (d0, l0) ← decode coding (get_multiple zvec i n_max)
  x ← put_data data_bytes is_signed d0
  (objects, i') ← decode_rounds data_bytes is_signed coding n_max n_data zvec (i + l0)
  some (x ∷ objects, i')

-- `zvec_decode_inline`
unfoldable pub decode_all : ℕ → Bool → ℕ → ℕ → Bitmap → ℕ → Option (List ℕ × ℕ)
decode_all data_bytes is_signed coding n_data zvec i = do
  n_max ← coding_max_n_bits coding
  decode_rounds data_bytes is_signed coding n_max n_data zvec i

-- The loop of `zvec_coding_bits`; `none` if the fuel ends. `counts` adds up the histogram.
unfoldable pub coding_bits_from : ℕ → ℕ → List ℕ → ℕ → ℕ → ℕ → ℕ → ℕ → Option ℕ
coding_bits_from zero coding counts min_bits i n_bits n_type_bits last_count = none
coding_bits_from (suc fuel) coding counts min_bits i n_bits n_type_bits last_count =
    let b = first_set coding in
    let l = min_log2 b in
    let i' = add i b in
    let max_count_index = length counts - 1 in
    let this_count = get_or counts (if ltb max_count_index i' then max_count_index else i' - 1) 0 in
    let n_type_bits' = if coding == b then n_type_bits - 1 else n_type_bits in
    let n_bits' = add n_bits (mul (sub this_count last_count) (add n_type_bits' l)) in
    let rest =
      coding_bits_from fuel (bit_xor coding b) counts min_bits i' n_bits' (n_type_bits' + 1)
        this_count in
    if coding == 0 || this_count == last_count
    then some n_bits
    else if leb min_bits n_bits'
    then some all_ones
    else rest

-- `zvec_coding_bits`, of a histogram that is not empty.
unfoldable pub coding_bits : ℕ → List ℕ → ℕ → Option ℕ
coding_bits coding counts min_bits =
    if leb coding (length counts - 1)
    then some all_ones
    else coding_bits_from 65 coding counts min_bits 0 0 1 0

-- The prefix sums that `_zvec_coding_from_histogram` computes, after `total_count`.
unfoldable pub sum_counts : ℕ → List ℕ → List ℕ
sum_counts total_count [] = []
sum_counts total_count (c ∷ cs) = add total_count c ∷ sum_counts (add total_count c) cs

-- The codings with one number of set bits, from `coding` on: the best and its number of bits. The
-- fuel bounds the codings that are tried.
unfoldable pub try_codings : ℕ → ℕ → ℕ → List ℕ → ℕ × ℕ → Option (ℕ × ℕ)
try_codings zero max_coding coding counts best = none
try_codings (suc fuel) max_coding coding counts (min_coding, min_coding_bits) =
    let more = coding_bits coding counts min_coding_bits >>= λ bits.
    try_codings fuel max_coding (next_with_same_number_of_set_bits coding) counts
      (if leb min_coding_bits bits then (min_coding, min_coding_bits) else (coding, bits)) in
    if ltb coding max_coding then more else some (min_coding, min_coding_bits)

-- `for (n_bits_set = ...; n_bits_set <= 8; n_bits_set++)` with the rounds that are left.
unfoldable pub try_sizes : ℕ → ℕ → ℕ → ℕ → List ℕ → ℕ × ℕ → Option (ℕ × ℕ)
try_sizes fuel zero n_bits_set max_coding counts best = some best
try_sizes fuel (suc left) n_bits_set max_coding counts best = do
  best' ← try_codings fuel max_coding (pow2_mask n_bits_set) counts best
  try_sizes fuel left (n_bits_set + 1) max_coding counts best'

-- `_zvec_coding_from_histogram`: the coding and its number of bits.
unfoldable pub coding_from_histogram : ℕ → List ℕ → ℕ → Option (ℕ × ℕ)
coding_from_histogram fuel [] max_value_to_encode = some (0, 0)
coding_from_histogram fuel (c ∷ cs) max_value_to_encode =
    let counts = sum_counts 0 (c ∷ cs) in
    let base_coding =
      if not (max_value_to_encode == all_ones) then add 1 max_value_to_encode else length counts in
    try_sizes fuel 8 1 (max_pow2 (mul 2 base_coding)) counts (0, all_ones)
