-- ===== src/Bitmap/Random.antt =====
-- `clib_bitmap_random`, and `random_u32` of clib/random.h. A word takes 31 digits from a random number
-- at a time, at the places 0, 31 and 62. C gives a 32-bit number no shift by 32 or more: `wide` is
-- what the machine makes of one.
use clib.Common.{
  ℕ, zero, suc, ◌+◌, ◌-◌, ◌*◌, ◌/◌, ◌%◌, ◌^◌, [], get_or, set, ltb, if◌then◌else◌, bit_and, bit_or,
}
use clib.Word.{uword_bits, sub, shl}
use clib.Bitops.{min_log2}
use clib.Bitmap.{Bitmap, vec_validate}

-- `random_u32`: the number, which is the new seed.
unfoldable pub random_u32 : ℕ → ℕ
random_u32 seed = (1664525 * seed + 1013904223) % 2 ^ 32

abbrev pub random_u32_max : ℕ
random_u32_max = 0xffffffff

module _ (wide : ℕ → ℕ → ℕ) where
  -- `random_u32 (seed) << n`
  unfoldable pub shl32 : ℕ → ℕ → ℕ
  shl32 a n = if ltb n 32 then (a * 2 ^ n) % 2 ^ 32 else wide a n

  -- The loop over `n` for a word: the word and the seed.
  unfoldable pub random_word : ℕ → ℕ → ℕ × ℕ → ℕ × ℕ
  unfolding random_u32 shl32
  random_word zero n s = s
  random_word (suc fuel) n (a, seed) =
      let r = random_u32 seed in
      let rest = random_word fuel (n + min_log2 random_u32_max) (bit_or a (shl32 r n), r) in
      if ltb n uword_bits then rest else (a, seed)

  -- The loop over the words from `i` on. A word takes three rounds, and one ends the loop.
  unfoldable pub random_words : ℕ → ℕ → Bitmap × ℕ → Bitmap × ℕ
  unfolding random_word
  random_words zero i s = s
  random_words (suc left) i (ai, seed) =
      let (a, next) = random_word 4 0 (get_or ai i 0, seed) in
      random_words left (i + 1) (set ai i a, next)

  -- `clib_bitmap_random`: the bitmap, of which no element is kept, and the seed.
  unfoldable pub random : ℕ → ℕ → Bitmap × ℕ
  unfolding random_words
  random n_bits seed =
      let i0 = (n_bits - 1) / uword_bits in
      let i1 = (n_bits - 1) % uword_bits in
      let (ai, next) = random_words (i0 + 1) 0 (vec_validate [] i0, seed) in
      let last = bit_and (get_or ai i0 0) (sub (shl 1 (i1 + 1)) 1) in
      if ltb 0 n_bits
      then (if ltb (i1 + 1) uword_bits then set ai i0 last else ai, next)
      else ([], seed)
