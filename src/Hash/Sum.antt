-- ===== src/Hash/Sum.antt =====
-- clib/hash.h and clib/hash.c: the sums of words and of memory. Memory is a function from addresses
-- to bytes, and `big` tells the byte order of the machine.
use clib.Common.{
  ℕ, zero, suc, ◌+◌, ◌-◌, ◌*◌, ◌/◌, ◌%◌, ◌^◌, List, [], ◌∷◌, Bool, get_or, ltb, ◌==◌, if◌then◌else◌,
  bit_and, bit_xor,
}
use clib.Word.{add, sub, shl, shr, complement}

-- The variables of the hash functions.
pub record State : Type 0 where
  pub a : ℕ
  pub b : ℕ
  pub c : ℕ

-- `hash_mix_step`
unfoldable pub mix_step : ℕ → ℕ → ℕ → State → State
mix_step s0 s1 s2 s =
    let a = bit_xor (sub s.a (add s.b s.c)) (shr s.c s0) in
    let b = bit_xor (sub s.b (add s.c a)) (shl a s1) in
    let c = bit_xor (sub s.c (add a b)) (shr b s2) in record { a = a; b = b; c = c }

unfoldable pub hash_mix64 : State → State
unfolding mix_step
hash_mix64 s = mix_step 12 18 22 (mix_step 35 49 11 (mix_step 38 23 5 (mix_step 43 9 8 s)))

abbrev pub golden_ratio : ℕ
golden_ratio = 0x9e3779b97f4a7c13

-- `a = b = 0x9e3779b97f4a7c13LL; c = state;`
abbrev pub start_state : ℕ → State
start_state state = record { a = golden_ratio; b = golden_ratio; c = state }

unfoldable pub hash_uword : ℕ → ℕ
unfolding hash_mix64
hash_uword x = (hash_mix64 (record (start_state 0) { a = add golden_ratio x })).c

-- `clib_mem_unaligned (p, u64)`
unfoldable pub load_bytes : (ℕ → ℕ) → ℕ → Bool → ℕ → ℕ
load_bytes memory p big zero = 0
load_bytes memory p big (suc n) =
    if big
    then load_bytes memory p big n * 2 ^ 8 + memory (p + n)
    else load_bytes memory p big n + memory (p + n) * 2 ^ (8 * n)

-- `_(n)` of `zap64`
abbrev pub low_bytes : ℕ → ℕ
low_bytes n = 2 ^ (8 * n) - 1

unfoldable pub masks_little_endian : List ℕ
masks_little_endian =
    0
    ∷ low_bytes 1
    ∷ low_bytes 2
    ∷ low_bytes 3
    ∷ low_bytes 4
    ∷ low_bytes 5
    ∷ low_bytes 6
    ∷ low_bytes 7
    ∷ []

unfoldable pub masks_big_endian : List ℕ
unfolding complement
masks_big_endian =
    0
    ∷ complement (low_bytes 7)
    ∷ complement (low_bytes 6)
    ∷ complement (low_bytes 5)
    ∷ complement (low_bytes 4)
    ∷ complement (low_bytes 3)
    ∷ complement (low_bytes 2)
    ∷ complement (low_bytes 1)
    ∷ []

-- `zap64`, called at `n` below 8
unfoldable pub zap64 : Bool → ℕ → ℕ → ℕ
unfolding masks_little_endian masks_big_endian
zap64 big x n = bit_and x (get_or (if big then masks_big_endian else masks_little_endian) n 0)

module _ (big : Bool) (memory : ℕ → ℕ) where
  abbrev load64 : ℕ → ℕ
  load64 p = load_bytes memory p big 8

  -- A round of the loop of `hash_memory64`.
  unfoldable pub mix_block : ℕ → State → State
  mix_block q s = hash_mix64 (record {
    a = add s.a (load64 q);
    b = add s.b (load64 (q + 8));
    c = add s.c (load64 (q + 16));
  })

  -- The loop: it leaves the address, the number of bytes that are left, and the variables.
  unfoldable pub mix_blocks : ℕ → ℕ → ℕ → State → ℕ × ℕ × State
  mix_blocks zero q n s = (q, n, s)
  mix_blocks (suc fuel) q n s =
      let rest = mix_blocks fuel (q + 24) (n - 24) (mix_block q s) in
      if ltb n 24 then (q, n, s) else rest

  -- The `switch` on `n / sizeof (u64)`, of `n` below 24.
  unfoldable pub mix_rest : ℕ → ℕ → State → State
  mix_rest q n s =
      let r = n % 8 in
      if n / 8 == 2
      then record {
        a = add s.a (load64 q);
        b = add s.b (load64 (q + 8));
        c = if r == 0 then s.c else add s.c (shl (zap64 big (load64 (q + 16)) r) 8);
      }
      else if n / 8 == 1
      then record s {
        a = add s.a (load64 q);
        b = if r == 0 then s.b else add s.b (zap64 big (load64 (q + 8)) r);
      }
      else record s { a = if r == 0 then s.a else add s.a (zap64 big (load64 q) r) }

  unfoldable pub hash_memory64 : ℕ → ℕ → ℕ → ℕ
  hash_memory64 p n_bytes state =
      let (q, n, s) = mix_blocks (n_bytes / 24) p n_bytes (start_state state) in
      (hash_mix64 (mix_rest q n (record s { c = add s.c n_bytes }))).c
