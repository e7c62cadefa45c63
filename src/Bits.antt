-- ===== src/Bits.antt =====
-- The binary digits of a number, by which the proofs read C's `&`, `|`, `^`, `~`, `<<` and `>>`.
pub mod Logic
pub mod Shift
use clib.Common.{ℕ, zero, suc, ◌+◌, ◌*◌, ◌/◌, ◌%◌, Bool, ◌==◌}

abbrev pub odd : ℕ → Bool
odd x = (x % 2) == 1

-- Digit `i` of `x`, counted from the lowest.
unfoldable pub bit : ℕ → ℕ → Bool
bit x zero = odd x
bit x (suc i) = bit (x / 2) i
