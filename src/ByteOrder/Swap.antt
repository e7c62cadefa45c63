-- ===== src/ByteOrder/Swap.antt =====
-- The byte swaps as sums of bytes, and their inverses.
use clib.Common.{ℕ, ◌+◌, ◌-◌, ◌*◌, ◌/◌, ◌%◌, ◌^◌, ◌<◌, ◌≤◌, ◌≡◌, refl, ◌∙◌, bit_and, bit_or, arith}
use clib.Bits.Logic.{bit_ext, bit-and, bit-or, bit_or-lt, bit_and-lt}
use clib.Bits.Shift.{bit-shl, bit-mask, bit-mod, bit-shr}
use clib.ByteOrder.{shl_in, byte_swap_u16, byte_swap_u32, byte_swap_u64, swapped_byte}
use clib.ByteOrder.Bytes.{or-beside}

and-ff : (w x : ℕ) → 8 ≤ w → x < 2 ^ w → 2 ^ 8 ≤ 2 ^ w → bit_and x 0xff ≡ x % 256
and-ff w x hw h big =
    bit_ext w _ _ (bit_and-lt w x 0xff h (omega arith)) (omega arith)
      (λ i hi. bit-and x 0xff i ∙ ground (arith, bit-mask 8 i, bit-mod 8 x i))

and-ff00 : (w x : ℕ) → x < 2 ^ w → 2 ^ 16 ≤ 2 ^ w → bit_and x 0xff00 ≡ x / 256 % 256 * 256
and-ff00 w x h big = bit_ext w _ _ (bit_and-lt w x 0xff00 h (omega arith)) (omega arith) (λ i hi.
    bit-and x 0xff00 i
    ∙ ground (
      arith,
      bit-shl 8 0xff i,
      bit-mask 8 (i - 8),
      bit-shl 8 (x / 256 % 256) i,
      bit-mod 8 (x / 256) (i - 8),
      bit-shr 8 x (i - 8),
      back i,
    ))
  where
    back : (i : ℕ) → 8 ≤ i → 8 + (i - 8) ≡ i
    back i g = omega arith

-- `h` and the byte `b`, side by side above `k` digits.
or_byte :
    (w h b k : ℕ)
    → b < 256
    → (h * 256 + b) * 2 ^ k < 2 ^ w
    → 2 ^ (8 + k) ≡ 256 * 2 ^ k
    → b * 2 ^ k < 2 ^ (8 + k)
    → bit_or (h * 2 ^ (8 + k)) (b * 2 ^ k) ≡ (h * 256 + b) * 2 ^ k
or_byte w h b k hb lt e small =
    or-beside w h (b * 2 ^ k) (8 + k) small (omega (arith, lt, split)) ∙ omega (arith, split)
  where
    split : h * 2 ^ (8 + k) + b * 2 ^ k ≡ (h * 256 + b) * 2 ^ k
    split = rw e (grind arith)

pub or_comm : (w a b : ℕ) → a < 2 ^ w → b < 2 ^ w → bit_or a b ≡ bit_or b a
or_comm w a b ha hb =
    bit_ext w _ _ (bit_or-lt w a b ha hb) (bit_or-lt w b a hb ha)
      (λ i hi. bit-or a b i ∙ ground (arith, bit-or b a i))

pub byte_swap_u16-eq : (x : ℕ) → x < 2 ^ 16 → byte_swap_u16 x ≡ x % 256 * 256 + x / 256
unfolding byte_swap_u16 shl_in
byte_swap_u16-eq x h =
    let e : x * 256 % 65536 ≡ x % 256 * 256 = omega arith in
    rw e (
      or_comm 16 (x / 256) (x % 256 * 256) (omega arith) (omega arith)
      ∙ or-beside 16 (x % 256) (x / 256) 8 (omega arith) (omega arith))

pub byte_swap_u32-eq :
    (x : ℕ)
    → x < 2 ^ 32
    → byte_swap_u32 x
      ≡ x % 256 * 2 ^ 24 + x / 2 ^ 8 % 256 * 2 ^ 16 + x / 2 ^ 16 % 256 * 2 ^ 8 + x / 2 ^ 24
unfolding byte_swap_u32 shl_in
byte_swap_u32-eq x h =
    let a : x * 2 ^ 24 % 2 ^ 32 ≡ x % 256 * 2 ^ 24 = omega arith in
    let b : bit_and x 0xff00 * 2 ^ 8 % 2 ^ 32 ≡ x / 2 ^ 8 % 256 * 2 ^ 16 =
      omega (arith, and-ff00 32 x h (omega arith)) in
    let c : bit_and (x / 2 ^ 8) 0xff00 ≡ x / 2 ^ 16 % 256 * 2 ^ 8 =
      and-ff00 32 (x / 2 ^ 8) (omega arith) (omega arith) ∙ omega arith in
    let ab =
      or_byte 32 (x % 256) (x / 2 ^ 8 % 256) 16 (omega arith) (omega arith) (omega arith)
        (omega arith) in
    let abc =
      or_byte 32 (x % 256 * 256 + x / 2 ^ 8 % 256) (x / 2 ^ 16 % 256) 8 (omega arith) (omega arith)
        (omega arith) (omega arith) in
    let abcd =
      or-beside 32 ((x % 256 * 256 + x / 2 ^ 8 % 256) * 256 + x / 2 ^ 16 % 256) (x / 2 ^ 24) 8
        (omega arith) (omega arith) in
    rw (a, b, c, ab, abc, abcd) (omega arith)

-- Eight bytes, the first the highest.
unfoldable pub from_bytes : ℕ → ℕ → ℕ → ℕ → ℕ → ℕ → ℕ → ℕ → ℕ
from_bytes a b c d e f g h =
    ((((((a * 256 + b) * 256 + c) * 256 + d) * 256 + e) * 256 + f) * 256 + g) * 256 + h

or_bytes :
    (a b c d e f g h : ℕ)
    → a < 256
    → b < 256
    → c < 256
    → d < 256
    → e < 256
    → f < 256
    → g < 256
    → h < 256
    → bit_or
        (bit_or
          (bit_or
            (bit_or
              (bit_or (bit_or (bit_or (a * 2 ^ 56) (b * 2 ^ 48)) (c * 2 ^ 40)) (d * 2 ^ 32))
              (e * 2 ^ 24))
            (f * 2 ^ 16))
          (g * 2 ^ 8))
        h
      ≡ from_bytes a b c d e f g h
unfolding from_bytes
or_bytes a b c d e f g h ha hb hc hd he hf hg hh =
    let p1 = or_byte 64 a b 48 hb (omega arith) (omega arith) (omega arith) in
    let p2 = or_byte 64 (a * 256 + b) c 40 hc (omega arith) (omega arith) (omega arith) in
    let p3 =
      or_byte 64 ((a * 256 + b) * 256 + c) d 32 hd (omega arith) (omega arith) (omega arith) in
    let p4 =
      or_byte 64 (((a * 256 + b) * 256 + c) * 256 + d) e 24 he (omega arith) (omega arith)
        (omega arith) in
    let p5 =
      or_byte 64 ((((a * 256 + b) * 256 + c) * 256 + d) * 256 + e) f 16 hf (omega arith)
        (omega arith) (omega arith) in
    let p6 =
      or_byte 64 (((((a * 256 + b) * 256 + c) * 256 + d) * 256 + e) * 256 + f) g 8 hg (omega arith)
        (omega arith) (omega arith) in
    let p7 =
      or-beside 64 ((((((a * 256 + b) * 256 + c) * 256 + d) * 256 + e) * 256 + f) * 256 + g) h 8 hh
        (omega arith) in
    rw (p1, p2, p3, p4, p5, p6, p7) refl

pub byte_swap_u64-eq :
    (x : ℕ)
    → x < 2 ^ 64
    → byte_swap_u64 x
      ≡ from_bytes
          (x % 256)
          (x / 2 ^ 8 % 256)
          (x / 2 ^ 16 % 256)
          (x / 2 ^ 24 % 256)
          (x / 2 ^ 32 % 256)
          (x / 2 ^ 40 % 256)
          (x / 2 ^ 48 % 256)
          (x / 2 ^ 56)
unfolding byte_swap_u64
byte_swap_u64-eq x h =
    let s0 : swapped_byte x 0 ≡ x % 256 * 2 ^ 56 =
      unfold swapped_byte shl_in in
      omega (arith, and-ff 64 (x / 2 ^ 0) (omega arith) (omega arith) (omega arith)) in
    let s1 : swapped_byte x 1 ≡ x / 2 ^ 8 % 256 * 2 ^ 48 =
      unfold swapped_byte shl_in in
      omega (arith, and-ff 64 (x / 2 ^ 8) (omega arith) (omega arith) (omega arith)) in
    let s2 : swapped_byte x 2 ≡ x / 2 ^ 16 % 256 * 2 ^ 40 =
      unfold swapped_byte shl_in in
      omega (arith, and-ff 64 (x / 2 ^ 16) (omega arith) (omega arith) (omega arith)) in
    let s3 : swapped_byte x 3 ≡ x / 2 ^ 24 % 256 * 2 ^ 32 =
      unfold swapped_byte shl_in in
      omega (arith, and-ff 64 (x / 2 ^ 24) (omega arith) (omega arith) (omega arith)) in
    let s4 : swapped_byte x 4 ≡ x / 2 ^ 32 % 256 * 2 ^ 24 =
      unfold swapped_byte shl_in in
      omega (arith, and-ff 64 (x / 2 ^ 32) (omega arith) (omega arith) (omega arith)) in
    let s5 : swapped_byte x 5 ≡ x / 2 ^ 40 % 256 * 2 ^ 16 =
      unfold swapped_byte shl_in in
      omega (arith, and-ff 64 (x / 2 ^ 40) (omega arith) (omega arith) (omega arith)) in
    let s6 : swapped_byte x 6 ≡ x / 2 ^ 48 % 256 * 2 ^ 8 =
      unfold swapped_byte shl_in in
      omega (arith, and-ff 64 (x / 2 ^ 48) (omega arith) (omega arith) (omega arith)) in
    let s7 : swapped_byte x 7 ≡ x / 2 ^ 56 =
      unfold swapped_byte shl_in in
      omega (arith, and-ff 64 (x / 2 ^ 56) (omega arith) (omega arith) (omega arith)) in
    rw (s0, s1, s2, s3, s4, s5, s6, s7)
      (or_bytes (x % 256) (x / 2 ^ 8 % 256) (x / 2 ^ 16 % 256) (x / 2 ^ 24 % 256) (x / 2 ^ 32 % 256)
        (x / 2 ^ 40 % 256) (x / 2 ^ 48 % 256) (x / 2 ^ 56) (omega arith) (omega arith) (omega arith)
        (omega arith) (omega arith) (omega arith) (omega arith) (omega arith))

split_bytes :
    (a b c d e f g h : ℕ)
    → a < 256
    → b < 256
    → c < 256
    → d < 256
    → e < 256
    → f < 256
    → g < 256
    → h < 256
    → let z = from_bytes a b c d e f g h in
      ((z < 2 ^ 64)
        × (z % 256 ≡ h)
        × (z / 2 ^ 8 % 256 ≡ g)
        × (z / 2 ^ 16 % 256 ≡ f)
        × (z / 2 ^ 24 % 256 ≡ e))
      × ((z / 2 ^ 32 % 256 ≡ d)
          × (z / 2 ^ 40 % 256 ≡ c)
          × (z / 2 ^ 48 % 256 ≡ b)
          × (z / 2 ^ 56 ≡ a))
unfolding from_bytes
split_bytes a b c d e f g h ha hb hc hd he hf hg hh = (
  (omega arith, omega arith, omega arith, omega arith, omega arith),
  (omega arith, omega arith, omega arith, omega arith),
)

swap_from_bytes :
    (a b c d e f g h : ℕ)
    → a < 256
    → b < 256
    → c < 256
    → d < 256
    → e < 256
    → f < 256
    → g < 256
    → h < 256
    → byte_swap_u64 (from_bytes a b c d e f g h) ≡ from_bytes h g f e d c b a
swap_from_bytes a b c d e f g h ha hb hc hd he hf hg hh =
    let (p, q) = split_bytes a b c d e f g h ha hb hc hd he hf hg hh in
    byte_swap_u64-eq (from_bytes a b c d e f g h) p.0
    ∙ rw (p.1, p.2, p.3, p.4, q.0, q.1, q.2, q.3) refl

-- Each of `clib_byte_swap_u16`, `u32` and `u64` of a number of its size, twice, is the number.
pub byte_swap_twice :
    (x : ℕ)
    → (byte_swap_u16 (byte_swap_u16 (x % 2 ^ 16)) ≡ x % 2 ^ 16)
      × (byte_swap_u32 (byte_swap_u32 (x % 2 ^ 32)) ≡ x % 2 ^ 32)
      × (byte_swap_u64 (byte_swap_u64 (x % 2 ^ 64)) ≡ x % 2 ^ 64)
byte_swap_twice x = (
  twice_16 (x % 2 ^ 16) (omega arith),
  twice_32 (x % 2 ^ 32) (omega arith),
  twice_64 (x % 2 ^ 64) (omega arith),
)
  where
    twice_16 : (y : ℕ) → y < 2 ^ 16 → byte_swap_u16 (byte_swap_u16 y) ≡ y
    twice_16 y h =
        rw (byte_swap_u16-eq y h)
          (byte_swap_u16-eq (y % 256 * 256 + y / 256) (omega arith) ∙ omega arith)

    twice_32 : (y : ℕ) → y < 2 ^ 32 → byte_swap_u32 (byte_swap_u32 y) ≡ y
    twice_32 y h = rw (byte_swap_u32-eq y h) (
        byte_swap_u32-eq
          (y % 256 * 2 ^ 24 + y / 2 ^ 8 % 256 * 2 ^ 16 + y / 2 ^ 16 % 256 * 2 ^ 8 + y / 2 ^ 24)
          (omega arith)
        ∙ omega arith)

    twice_64 : (y : ℕ) → y < 2 ^ 64 → byte_swap_u64 (byte_swap_u64 y) ≡ y
    twice_64 y h = rw (byte_swap_u64-eq y h) (
        swap_from_bytes (y % 256) (y / 2 ^ 8 % 256) (y / 2 ^ 16 % 256) (y / 2 ^ 24 % 256)
          (y / 2 ^ 32 % 256) (y / 2 ^ 40 % 256) (y / 2 ^ 48 % 256) (y / 2 ^ 56) (omega arith)
          (omega arith) (omega arith) (omega arith) (omega arith) (omega arith) (omega arith)
          (omega arith)
        ∙ unfold from_bytes in omega arith)
