-- ===== src/ByteOrder/Reversed.antt =====
-- The byte swaps against the bytes that memory holds: on a little endian host a number in network
-- order lies in memory with its highest byte first.
use clib.Common.{ℕ, zero, suc, ◌*◌, ◌/◌, ◌%◌, ◌^◌, ◌<◌, ◌≡◌, refl, ap, ◌∙◌, List, [], ◌∷◌, arith}
use clib.ByteOrder.{store, host_to_net_u16, host_to_net_u32, host_to_net_u64}
use clib.ByteOrder.Swap.{byte_swap_u16-eq, byte_swap_u32-eq, byte_swap_u64-eq, from_bytes}

-- The bytes of a number, the highest first.
unfoldable pub big_endian : ℕ → ℕ → List ℕ
big_endian zero x = []
big_endian (suc n) x = x / 2 ^ (8 * n) % 256 ∷ big_endian n x

pair :
    (a b c d : ℕ) (xs ys : List ℕ)
    → a ≡ c
    → b ≡ d
    → xs ≡ ys
    → ◌≡◌ {A = List ℕ} (a ∷ b ∷ xs) (c ∷ d ∷ ys)
pair a b c d xs ys e f g = rw (e, f, g) refl

net_u16 : (x : ℕ) → x < 2 ^ 16 → store 2 (host_to_net_u16 x) ≡ big_endian 2 x
unfolding store big_endian host_to_net_u16
net_u16 x h = rw (byte_swap_u16-eq x h) (pair _ _ _ _ [] [] (omega arith) (omega arith) refl)

net_u32 : (x : ℕ) → x < 2 ^ 32 → store 4 (host_to_net_u32 x) ≡ big_endian 4 x
unfolding store big_endian host_to_net_u32
net_u32 x h = rw (byte_swap_u32-eq x h) (
    pair _ _ _ _ _ _ (omega arith) (omega arith)
      (pair _ _ _ _ [] [] (omega arith) (omega arith) refl))

bytes_of :
    (a b c d e f g h : ℕ)
    → a < 256
    → b < 256
    → c < 256
    → d < 256
    → e < 256
    → f < 256
    → g < 256
    → h < 256
    → store 8 (from_bytes a b c d e f g h) ≡ h ∷ g ∷ f ∷ e ∷ d ∷ c ∷ b ∷ a ∷ []
unfolding store from_bytes
bytes_of a b c d e f g h ha hb hc hd he hf hg hh = pair _ _ _ _ _ _ (omega arith) (omega arith) (
    pair _ _ _ _ _ _ (omega arith) (omega arith) (
      pair _ _ _ _ _ _ (omega arith) (omega arith)
        (pair _ _ _ _ [] [] (omega arith) (omega arith) refl)))

net_u64 : (x : ℕ) → x < 2 ^ 64 → store 8 (host_to_net_u64 x) ≡ big_endian 8 x
unfolding big_endian host_to_net_u64
net_u64 x h =
    ap (store 8) (byte_swap_u64-eq x h)
    ∙ bytes_of (x % 256) (x / 2 ^ 8 % 256) (x / 2 ^ 16 % 256) (x / 2 ^ 24 % 256) (x / 2 ^ 32 % 256)
        (x / 2 ^ 40 % 256) (x / 2 ^ 48 % 256) (x / 2 ^ 56) (omega arith) (omega arith) (omega arith)
        (omega arith) (omega arith) (omega arith) (omega arith) (omega arith)
    ∙ pair _ _ _ _ _ _ (omega arith) (omega arith) (
        pair _ _ _ _ _ _ (omega arith) (omega arith) (
          pair _ _ _ _ _ _ (omega arith) (omega arith)
            (pair _ _ _ _ [] [] (omega arith) (omega arith) refl)))

-- A store of what `clib_host_to_net_u16`, `u32` or `u64` answers for a number of its size writes
-- the bytes of the number with the highest first, on a host that stores the lowest byte first.
pub store-host_to_net :
    (x : ℕ)
    → (store 2 (host_to_net_u16 (x % 2 ^ 16)) ≡ big_endian 2 (x % 2 ^ 16))
      × (store 4 (host_to_net_u32 (x % 2 ^ 32)) ≡ big_endian 4 (x % 2 ^ 32))
      × (store 8 (host_to_net_u64 (x % 2 ^ 64)) ≡ big_endian 8 (x % 2 ^ 64))
store-host_to_net x = (
  net_u16 (x % 2 ^ 16) (omega arith),
  net_u32 (x % 2 ^ 32) (omega arith),
  net_u64 (x % 2 ^ 64) (omega arith),
)
