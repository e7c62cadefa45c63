-- ===== src/Serialize/Bitmaps.antt =====
-- Bitmaps and 64-bit numbers, through a stream and back.
use clib.Common.{
  ℕ, zero, suc, ◌+◌, ◌-◌, ◌*◌, ◌/◌, ◌%◌, ◌^◌, ◌<◌, ◌≤◌, ◌≡◌, refl, sym, ap, ◌∙◌, true, false, List,
  [], ◌∷◌, ◌++◌, if◌then◌else◌, ◌==◌, length, get_or, set, replicate, arith, bit_or, length-append,
}
use mathlib.Core.Path.{subst}
use clib.Bitmap.{Bitmap}
use clib.Bitmap.View.{IsBitmap}
use clib.ByteOrder.Bytes.{or-beside}
use clib.ByteOrder.Swap.{or_comm}
use clib.Bits.Logic.{bit_ext, bit-or, bit-zero_left, bit_or-lt}
use clib.Serialize.{integer_bytes, unserialize_integer}
use clib.Serialize.Integers.{
  four, length-integer_bytes, serialize_integer-Puts, unserialize_integer-Gets,
}
use clib.Serialize.Values.{serialize_words, serialize_bitmap, unserialize_words, unserialize_bitmap}
use clib.Serialize.Vector.{serialize_64, unserialize_64}
use clib.Stream.{Main, Result, ok, ◌>>=◌}
use clib.Stream.Compose.{
  Puts-bind, Puts-ok, Gets-bind, Gets-ok, Gets-map, Gets-same, RoundTrip, round_trip,
}
use clib.Stream.Data.{Puts, Gets}
use mathlib.Core.List.{append_assoc}

-- The two halves of a word.
halves : ℕ → List ℕ
halves w = integer_bytes w 4 ++ integer_bytes (w / 2 ^ 32) 4

length-halves : (w : ℕ) → length (halves w) ≡ 8
unfolding halves
length-halves w = omega (
  arith,
  length-append (integer_bytes w 4) (integer_bytes (w / 2 ^ 32) 4),
  length-integer_bytes w 4 four,
  length-integer_bytes (w / 2 ^ 32) 4 four,
)

join_high : (w : ℕ) → w < 2 ^ 64 → bit_or (w / 2 ^ 32 % 2 ^ 32 * 2 ^ 32) (w % 2 ^ 32) ≡ w
join_high w h =
    or-beside 64 (w / 2 ^ 32 % 2 ^ 32) (w % 2 ^ 32) 32 (omega arith) (omega arith) ∙ omega arith

join_low : (w : ℕ) → w < 2 ^ 64 → bit_or (w % 2 ^ 32) (w / 2 ^ 32 % 2 ^ 32 * 2 ^ 32) ≡ w
join_low w h =
    or_comm 64 (w % 2 ^ 32) (w / 2 ^ 32 % 2 ^ 32 * 2 ^ 32) (omega arith) (omega arith)
    ∙ join_high w h

half-Gets : (fuel x : ℕ) → Gets (unserialize_integer fuel 4) (integer_bytes x 4) (x % 2 ^ 32)
half-Gets fuel x = unserialize_integer-Gets fuel x 4 four

-- For a word and at least 8 bytes of data, fewer than 2 ^ 32, `unserialize_64` answers what
-- `serialize_64` wrote.
pub unserialize-serialize_64 :
    (fuel x : ℕ) (buffer : List ℕ)
    → x < 2 ^ 64
    → 8 ≤ length buffer
    → length buffer < 2 ^ 32
    → RoundTrip (serialize_64 fuel x) (unserialize_64 fuel) x 8 buffer
unfolding serialize_64 unserialize_64 halves
unserialize-serialize_64 fuel x buffer h enough small =
    round_trip 8 buffer small
      (Puts-bind (serialize_integer-Puts fuel (x % 2 ^ 32) 4 four)
        (serialize_integer-Puts fuel (x / 2 ^ 32) 4 four))
      (Gets-bind
        (λ lo m1. unserialize_integer fuel 4 m1 >>= λ (hi, m2). ok (bit_or (hi * 2 ^ 32) lo, m2))
        (Gets-same (λ m. refl) (let e : x % 2 ^ 32 % 2 ^ 32 ≡ x % 2 ^ 32 = omega arith in e)
          (half-Gets fuel (x % 2 ^ 32)))
        (Gets-same (λ m. refl) (join_high x h)
          (Gets-map (λ hi. bit_or (hi * 2 ^ 32) (x % 2 ^ 32)) (half-Gets fuel (x / 2 ^ 32)))))
      (omega (
        arith,
        length-append (integer_bytes (x % 2 ^ 32) 4) (integer_bytes (x / 2 ^ 32) 4),
        length-integer_bytes (x % 2 ^ 32) 4 four,
        length-integer_bytes (x / 2 ^ 32) 4 four,
      ))
      enough

zero_or : (w a : ℕ) → a < 2 ^ w → bit_or 0 a ≡ a
zero_or w a h =
    bit_ext w (bit_or 0 a) a (bit_or-lt w 0 a (omega (arith, h)) h) h
      (λ i lt. ground (arith, bit-or 0 a i, bit-zero_left i))

get_or-middle : (bs zs : List ℕ) (x : ℕ) → get_or (bs ++ x ∷ zs) (length bs) 0 ≡ x
get_or-middle [] zs x = refl
get_or-middle (b ∷ bs) zs x = get_or-middle bs zs x

set-middle : (bs zs : List ℕ) (x y : ℕ) → set (bs ++ x ∷ zs) (length bs) y ≡ bs ++ y ∷ zs
set-middle [] zs x y = refl
set-middle (b ∷ bs) zs x y = ap (λ t. b ∷ t) (set-middle bs zs x y)

word_bytes : Bitmap → List ℕ
word_bytes [] = []
word_bytes (w ∷ b) = halves w ++ word_bytes b

length-word_bytes : (b : Bitmap) → length (word_bytes b) ≡ 8 * length b
unfolding word_bytes
length-word_bytes [] = omega arith
length-word_bytes (w ∷ b) =
    omega (arith, length-append (halves w) (word_bytes b), length-halves w, length-word_bytes b)

words-Puts : (fuel : ℕ) (b : Bitmap) → Puts (serialize_words fuel b) (word_bytes b)
unfolding serialize_words word_bytes halves
words-Puts fuel [] = Puts-ok
words-Puts fuel (w ∷ b) =
    Puts-bind
      (Puts-bind (serialize_integer-Puts fuel w 4 four)
        (serialize_integer-Puts fuel (w / 2 ^ 32) 4 four))
      (words-Puts fuel b)

put-middle :
    (bs zs : List ℕ) (i old half : ℕ)
    → i / 2 ≡ length bs
    → set (bs ++ old ∷ zs) (i / 2) (bit_or (get_or (bs ++ old ∷ zs) (i / 2) 0) half)
      ≡ bs ++ bit_or old half ∷ zs
put-middle bs zs i old half e =
    rw (e, get_or-middle bs zs old) (set-middle bs zs old (bit_or old half))

-- One half of a word of the bitmap.
half_step :
    (fuel n i x old new : ℕ) (bs zs b : Bitmap) (bytes : List ℕ)
    → i / 2 ≡ length bs
    → bit_or old (if i % 2 == 0 then x % 2 ^ 32 else x % 2 ^ 32 * 2 ^ 32) ≡ new
    → Gets (unserialize_words fuel n (i + 1) (bs ++ new ∷ zs)) bytes b
    → Gets (unserialize_words fuel (suc n) i (bs ++ old ∷ zs)) (integer_bytes x 4 ++ bytes) b
unfolding unserialize_words
half_step fuel n i x old new bs zs b bytes here e next =
    Gets-bind
      (λ word. unserialize_words fuel n (i + 1) (
        set (bs ++ old ∷ zs) (i / 2) (
          bit_or (get_or (bs ++ old ∷ zs) (i / 2) 0) (if i % 2 == 0 then word else word * 2 ^ 32))))
      (half-Gets fuel x)
      (subst (λ t. Gets (unserialize_words fuel n (i + 1) t) bytes b)
        (sym (put-middle bs zs i old _ here ∙ ap (λ t. bs ++ t ∷ zs) e)) next)

word_step :
    (fuel n i w : ℕ) (bs zs b : Bitmap) (bytes : List ℕ)
    → w < 2 ^ 64
    → i ≡ 2 * length bs
    → Gets (unserialize_words fuel n (i + 1 + 1) (bs ++ w ∷ zs)) bytes b
    → Gets (unserialize_words fuel (suc (suc n)) i (bs ++ 0 ∷ zs)) (halves w ++ bytes) b
unfolding halves
word_step fuel n i w bs zs b bytes h here next =
    let even : (i % 2 == 0) ≡ true = ground arith in
    let odd : ((i + 1) % 2 == 0) ≡ false = ground arith in
    subst (λ t. Gets (unserialize_words fuel (suc (suc n)) i (bs ++ 0 ∷ zs)) t b)
      (sym (append_assoc (integer_bytes w 4) (integer_bytes (w / 2 ^ 32) 4) bytes))
      (half_step fuel (suc n) i w 0 (w % 2 ^ 32) bs zs b _ (omega arith)
        (rw even (zero_or 64 _ (omega arith)))
        (half_step fuel n (i + 1) (w / 2 ^ 32) (w % 2 ^ 32) w bs zs b bytes (omega arith)
          (rw odd (join_low w h)) next))

words-Gets :
    (fuel i n : ℕ) (bs ws : Bitmap)
    → IsBitmap ws
    → i ≡ 2 * length bs
    → n ≡ 2 * length ws
    → Gets (unserialize_words fuel n i (bs ++ replicate (length ws) 0)) (word_bytes ws) (bs ++ ws)
unfolding word_bytes unserialize_words
words-Gets fuel i zero bs [] h e c = Gets-ok (bs ++ [])
words-Gets fuel i (suc n) bs [] h e c = absurd (omega arith)
words-Gets fuel i zero bs (w ∷ ws) h e c = absurd (omega arith)
words-Gets fuel i (suc zero) bs (w ∷ ws) h e c = absurd (omega arith)
words-Gets fuel i (suc (suc n)) bs (w ∷ ws) h e c =
    let zeros : List ℕ = replicate (length ws) 0 in
    let rest =
      words-Gets fuel (i + 1 + 1) n (bs ++ w ∷ []) ws h.1
        (omega (arith, e, length-append bs (w ∷ []))) (omega (arith, c)) in
    word_step fuel n i w bs zeros (bs ++ w ∷ ws) (word_bytes ws) h.0 e (
      subst (λ t. Gets (unserialize_words fuel n (i + 1 + 1) t) (word_bytes ws) (bs ++ w ∷ ws))
        (append_assoc bs (w ∷ []) zeros)
        (subst
          (λ t.
            Gets (unserialize_words fuel n (i + 1 + 1) ((bs ++ w ∷ []) ++ zeros)) (word_bytes ws) t)
          (append_assoc bs (w ∷ []) ws) rest))

-- `unserialize_bitmap` after the number of halves.
unserialize_halves : ℕ → ℕ → Main → Result (Bitmap × Main)
unserialize_halves fuel n_u32s m' =
    let words = unserialize_words fuel n_u32s 0 (replicate ((n_u32s * 4 + 8 - 1) / 8) 0) m' in
    if n_u32s == 0 then ok ([], m') else words

halves-Gets :
    (fuel n : ℕ) (b : Bitmap)
    → IsBitmap b
    → n ≡ 2 * length b
    → Gets (unserialize_halves fuel n) (word_bytes b) b
unfolding unserialize_halves word_bytes
halves-Gets fuel n [] h e =
    Gets-same (λ m. let none_left : (n == 0) ≡ true = ground arith in rw none_left refl) refl
      (Gets-ok [])
halves-Gets fuel n (w ∷ b) h e =
    let some_left : (n == 0) ≡ false = ground arith in
    let words : (n * 4 + 8 - 1) / 8 ≡ suc (length b) = omega (arith, e) in
    Gets-same (λ m. rw (some_left, words) refl) refl
      (words-Gets fuel 0 n [] (w ∷ b) h (omega arith) e)

-- For a bitmap of words whose number of halves is below `2 ^ 32`, and enough bytes of data, fewer
-- than 2 ^ 32, `serialize_bitmap` writes 4 bytes and 8 bytes for each word, and
-- `unserialize_bitmap` reads all of them and answers the bitmap.
pub unserialize-serialize_bitmap :
    (fuel : ℕ) (b : Bitmap) (buffer : List ℕ)
    → IsBitmap b
    → length b * 2 < 2 ^ 32
    → 4 + 8 * length b ≤ length buffer
    → length buffer < 2 ^ 32
    → RoundTrip (serialize_bitmap fuel b) (unserialize_bitmap fuel) b (4 + 8 * length b) buffer
unfolding serialize_bitmap unserialize_bitmap unserialize_halves
unserialize-serialize_bitmap fuel b buffer h fits enough small =
    let n = length b * 8 / 4 % 2 ^ 32 in
    round_trip (4 + 8 * length b) buffer small
      (Puts-bind (serialize_integer-Puts fuel n 4 four) (words-Puts fuel b))
      (Gets-bind (unserialize_halves fuel)
        (Gets-same {b = n % 2 ^ 32} (λ m. refl) (omega arith) (half-Gets fuel n))
        (halves-Gets fuel n b h (omega (arith, fits))))
      (omega (
        arith,
        length-append (integer_bytes n 4) (word_bytes b),
        length-integer_bytes n 4 four,
        length-word_bytes b,
      ))
      enough
