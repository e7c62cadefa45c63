-- ===== src/Serialize/Integers.antt =====
-- Integers, through a stream and back.
use clib.Common.{◌<◌, ℕ, ◌*◌, ◌%◌, ◌^◌, ◌≤◌, ◌≡◌, ap, ◌∙◌, List, length, arith}
use clib.ByteOrder.{
  store, load, byte_swap_u16, byte_swap_u32, byte_swap_u64, host_to_net_u16, host_to_net_u32,
  host_to_net_u64,
}
use clib.ByteOrder.Bytes.{length-store, load-store}
use clib.ByteOrder.Swap.{byte_swap_twice}
use clib.ByteOrder.Range.{byte_swap_u16-lt, byte_swap_u32-lt, byte_swap_u64-lt}
use clib.Serialize.{
  integer_bytes, serialize_integer, integer_of, integer_value, unserialize_integer,
}
use clib.Stream.{Main, Result, ok, ◌>>=◌}
use clib.Stream.Compose.{RoundTrip, round_trip}
use clib.Stream.Data.{Puts, Gets, write-Puts, read-Gets}

-- What an unserializer makes of the bytes that it reads.
Gets-of :
    {g : Main → Result (List ℕ × Main)} {bytes xs : List ℕ} {A : Type 0} (f : List ℕ → Result A)
    (a : A)
    → Gets g bytes xs
    → f xs ≡ ok a
    → Gets (λ m. g m >>= λ (p, m'). f p >>= λ x. ok (x, m')) bytes a
Gets-of f a p e = record {
  from = λ m rest o h.
      let first = p.from m rest o h in
      record {
        after = first.after;
        runs =
            ap (λ r. r >>= λ (p, m'). f p >>= λ x. ok (x, m')) first.runs
            ∙ ap (λ r. r >>= λ x. ok (x, first.after)) e;
        is_open = first.is_open;
        leaves = first.leaves;
      };
}

-- The sizes that the integer functions take.
pub data IsIntegerSize : ℕ → Type 0 where
  one : IsIntegerSize 1
  two : IsIntegerSize 2
  four : IsIntegerSize 4
  eight : IsIntegerSize 8

pub length-integer_bytes : (x n : ℕ) → IsIntegerSize n → length (integer_bytes x n) ≡ n
unfolding integer_bytes
length-integer_bytes x n one = length-store 1 x
length-integer_bytes x n two = length-store 2 (host_to_net_u16 (x % 2 ^ 16))
length-integer_bytes x n four = length-store 4 (host_to_net_u32 (x % 2 ^ 32))
length-integer_bytes x n eight = length-store 8 (host_to_net_u64 (x % 2 ^ 64))

pub serialize_integer-Puts :
    (fuel x n : ℕ) → IsIntegerSize n → Puts (serialize_integer fuel x n) (integer_bytes x n)
unfolding serialize_integer
serialize_integer-Puts fuel x n one = write-Puts fuel (integer_bytes x 1)
serialize_integer-Puts fuel x n two = write-Puts fuel (integer_bytes x 2)
serialize_integer-Puts fuel x n four = write-Puts fuel (integer_bytes x 4)
serialize_integer-Puts fuel x n eight = write-Puts fuel (integer_bytes x 8)

pub integer_value-bytes :
    (x n : ℕ) → IsIntegerSize n → integer_value n (integer_bytes x n) ≡ x % 2 ^ (8 * n)
unfolding integer_value integer_bytes host_to_net_u16 host_to_net_u32 host_to_net_u64
integer_value-bytes x n one = unfold store load in omega arith
integer_value-bytes x n two =
    ap (λ y. byte_swap_u16 y)
      (load-store 2 (byte_swap_u16 (x % 2 ^ 16)) (byte_swap_u16-lt (x % 2 ^ 16) (omega arith)))
    ∙ (byte_swap_twice x).0
integer_value-bytes x n four =
    ap (λ y. byte_swap_u32 y)
      (load-store 4 (byte_swap_u32 (x % 2 ^ 32)) (byte_swap_u32-lt (x % 2 ^ 32) (omega arith)))
    ∙ (byte_swap_twice x).1
integer_value-bytes x n eight =
    ap (λ y. byte_swap_u64 y)
      (load-store 8 (byte_swap_u64 (x % 2 ^ 64)) (byte_swap_u64-lt (x % 2 ^ 64) (omega arith)))
    ∙ (byte_swap_twice x).2

integer-of_bytes :
    (x n : ℕ) → IsIntegerSize n → integer_of n (integer_bytes x n) ≡ ok (x % 2 ^ (8 * n))
unfolding integer_of
integer-of_bytes x n one = ap ok (integer_value-bytes x 1 one)
integer-of_bytes x n two = ap ok (integer_value-bytes x 2 two)
integer-of_bytes x n four = ap ok (integer_value-bytes x 4 four)
integer-of_bytes x n eight = ap ok (integer_value-bytes x 8 eight)

pub unserialize_integer-Gets :
    (fuel x n : ℕ)
    → IsIntegerSize n
    → Gets (unserialize_integer fuel n) (integer_bytes x n) (x % 2 ^ (8 * n))
unfolding unserialize_integer
unserialize_integer-Gets fuel x n h =
    Gets-of (integer_of n) (x % 2 ^ (8 * n))
      (read-Gets fuel n (integer_bytes x n) (length-integer_bytes x n h)) (integer-of_bytes x n h)

-- For a size of 1, 2, 4 or 8 and at least as many bytes of data, fewer than 2 ^ 32, `serialize_integer` writes
-- exactly that many bytes, and `unserialize_integer` reads all of them and answers the low digits
-- of the number, as many as the size holds.
pub unserialize-serialize_integer :
    (fuel x n : ℕ) (buffer : List ℕ)
    → IsIntegerSize n
    → n ≤ length buffer
    → length buffer < 2 ^ 32
    → RoundTrip (serialize_integer fuel x n) (unserialize_integer fuel n) (x % 2 ^ (8 * n)) n buffer
unserialize-serialize_integer fuel x n buffer h room small =
    round_trip n buffer small (serialize_integer-Puts fuel x n h)
      (unserialize_integer-Gets fuel x n h) (length-integer_bytes x n h) room
