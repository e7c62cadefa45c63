-- ===== src/Bitmap/Scan.antt =====
-- clib/bitmap.h: the functions that search or count the bits of a bitmap.
use clib.Common.{
  ℕ, zero, suc, ◌+◌, ◌-◌, ◌*◌, ◌/◌, ◌%◌, List, [], ◌∷◌, ◌++◌, not, length, get_or, ltb, ◌==◌,
  if◌then◌else◌, Option, none, some, map,
}
use clib.Word.{uword_bits, all_ones, complement, shl, shr}
use clib.Bitops.{log2_first_set, count_set_bits, foreach_set_bit}
use clib.Bitmap.{Bitmap}

-- The loop of `clib_bitmap_first_set`: the words from index `i` on.
unfoldable pub first_set_from : ℕ → Bitmap → ℕ
first_set_from i [] = all_ones
first_set_from i (x ∷ ai) =
    let rest = first_set_from (i + 1) ai in
    if not (x == 0) then i * uword_bits + log2_first_set x else rest

unfoldable pub first_set : Bitmap → ℕ
unfolding first_set_from
first_set ai = first_set_from 0 ai

unfoldable pub first_clear_from : ℕ → Bitmap → ℕ
first_clear_from i [] = i * uword_bits
first_clear_from i (a ∷ ai) =
    let x = complement a in
    let rest = first_clear_from (i + 1) ai in
    if not (x == 0) then i * uword_bits + log2_first_set x else rest

unfoldable pub first_clear : Bitmap → ℕ
unfolding first_clear_from
first_clear ai = first_clear_from 0 ai

-- `clib_bitmap_count_set_bits`, with `n_set` so far.
unfoldable pub count_from : ℕ → Bitmap → ℕ
count_from n_set [] = n_set
count_from n_set (a ∷ ai) = count_from (n_set + count_set_bits a) ai

unfoldable pub count_bits : Bitmap → ℕ
unfolding count_from
count_bits ai = count_from 0 ai

-- The loops of `clib_bitmap_next_set` and `clib_bitmap_next_clear`: `left` words from `i0` on;
-- `none` if the loop ends by its test.
unfoldable pub next_set_from : ℕ → Bitmap → ℕ → Option ℕ
next_set_from zero ai i0 = none
next_set_from (suc left) ai i0 =
    let t = get_or ai i0 0 in
    let rest = next_set_from left ai (i0 + 1) in
    if not (t == 0) then some (log2_first_set t + i0 * uword_bits) else rest

unfoldable pub next_set : Bitmap → ℕ → ℕ
unfolding next_set_from
next_set ai i =
    let i0 = i / uword_bits in
    let i1 = i % uword_bits in
    let t = shl (shr (get_or ai i0 0) i1) i1 in
    if ltb i0 (length ai)
    then (if not (t == 0)
        then log2_first_set t + i0 * uword_bits
        else elim (next_set_from (length ai - (i0 + 1)) ai (i0 + 1)) [
          | none ↦ all_ones
          | some r ↦ r
        ])
    else all_ones

unfoldable pub next_clear_from : ℕ → Bitmap → ℕ → Option ℕ
next_clear_from zero ai i0 = none
next_clear_from (suc left) ai i0 =
    let t = complement (get_or ai i0 0) in
    let rest = next_clear_from left ai (i0 + 1) in
    if not (t == 0) then some (log2_first_set t + i0 * uword_bits) else rest

unfoldable pub next_clear : Bitmap → ℕ → ℕ
unfolding next_clear_from
next_clear ai i =
    let i0 = i / uword_bits in
    let i1 = i % uword_bits in
    let t = shl (shr (complement (get_or ai i0 0)) i1) i1 in
    if ltb i0 (length ai)
    then (if not (t == 0)
        then log2_first_set t + i0 * uword_bits
        else elim (next_clear_from (length ai - (i0 + 1)) ai (i0 + 1)) [ none ↦ i | some r ↦ r ])
    else i

-- The values of `i` at which `clib_bitmap_foreach` runs its body, in order. A word has at most 64
-- set bits, so that 65 rounds of the inner loop are enough.
unfoldable pub foreach_from : ℕ → Bitmap → Option (List ℕ)
foreach_from i [] = some []
foreach_from i (a ∷ ai) = elim (foreach_set_bit 65 a) [
  | none ↦ none
  | some bits ↦ elim (foreach_from (i + 1) ai) [
    | none ↦ none
    | some rest ↦ some (map (λ b. i * uword_bits + b) bits ++ rest)
  ]
]

unfoldable pub foreach : Bitmap → Option (List ℕ)
unfolding foreach_from
foreach ai = foreach_from 0 ai
