-- ===== src/Word.antt =====
-- The 64-bit machine word of clib/types.h (`uword`), as a number below 2 ^ 64.
pub mod Digits
use clib.Common.{ℕ, ◌+◌, ◌-◌, ◌*◌, ◌/◌, ◌%◌, ◌^◌, ◌<◌}

-- `BITS (uword)`
abbrev pub uword_bits : ℕ
uword_bits = 64

abbrev pub IsWord : ℕ → Type 0
IsWord x = x < 2 ^ 64

-- `~ (uword) 0`
abbrev pub all_ones : ℕ
all_ones = 2 ^ 64 - 1

-- `a + b`, `a - b`, `a * b`, `- a`, `~ a`, `a << k` and `a >> k` of words, at shifts below 64.
unfoldable pub add : ℕ → ℕ → ℕ
add a b = (a + b) % 2 ^ 64

unfoldable pub sub : ℕ → ℕ → ℕ
sub a b = (a + 2 ^ 64 - b) % 2 ^ 64

unfoldable pub mul : ℕ → ℕ → ℕ
mul a b = a * b % 2 ^ 64

unfoldable pub neg : ℕ → ℕ
neg a = (2 ^ 64 - a) % 2 ^ 64

unfoldable pub complement : ℕ → ℕ
complement a = 2 ^ 64 - 1 - a

unfoldable pub shl : ℕ → ℕ → ℕ
shl a k = a * 2 ^ k % 2 ^ 64

unfoldable pub shr : ℕ → ℕ → ℕ
shr a k = a / 2 ^ k
