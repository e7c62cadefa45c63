-- ===== src/Serialize/Numbers.antt =====
-- Numbers serialized to a vector that grows, and unserialized from what it holds.
use clib.Common.{
  ℕ, zero, suc, ◌*◌, length-append, ◌^◌, ◌<◌, ◌≤◌, ◌≡◌, refl, sym, ap, ◌∙◌, List, [], ◌∷◌, length,
  All, arith,
}
use clib.Serialize.{
  likely_small_bytes, serialize_likely_small_unsigned_integer,
  unserialize_likely_small_unsigned_integer,
}
use clib.Serialize.Likely.{likely_small-Gets, length-likely_small_bytes}
use clib.Stream.{Main, Result, ok, err, ◌>>=◌, open_vector, close_vector, open_data}
use clib.Stream.Compose.{Gets-bind, Gets-ok, Gets-map}
use clib.Stream.Data.{Gets, open_data-IsOpen}
use clib.Stream.GrowingWrites.{write_all, join, open-write-close_vector}
use mathlib.Core.List.{append-nil}

-- A caller that serializes numbers one after another, and one that unserializes `n` numbers.
unfoldable pub serialize_all : ℕ → List ℕ → Main → Result Main
serialize_all fuel [] m = ok m
serialize_all fuel (x ∷ xs) m =
    serialize_likely_small_unsigned_integer fuel x m >>= serialize_all fuel xs

unfoldable pub unserialize_all : ℕ → ℕ → Main → Result (List ℕ × Main)
unserialize_all fuel zero m = ok ([], m)
unserialize_all fuel (suc n) m = unserialize_likely_small_unsigned_integer fuel m >>= λ (x, m1).
    unserialize_all fuel n m1 >>= λ (xs, m2). ok (x ∷ xs, m2)

pieces : List ℕ → List (List ℕ)
pieces [] = []
pieces (x ∷ xs) = likely_small_bytes x ∷ pieces xs

bind_congr :
    (r : Result Main) (f g : Main → Result Main) → ((m : Main) → f m ≡ g m) → (r >>= f) ≡ (r >>= g)
bind_congr (ok m) f g h = h m
bind_congr (err e) f g h = refl

serialize-write_all :
    (fuel : ℕ) (xs : List ℕ) (m : Main) → serialize_all fuel xs m ≡ write_all fuel (pieces xs) m
unfolding serialize_all write_all pieces serialize_likely_small_unsigned_integer
serialize-write_all fuel [] m = refl
serialize-write_all fuel (x ∷ xs) m =
    bind_congr (serialize_likely_small_unsigned_integer fuel x m) (serialize_all fuel xs)
      (write_all fuel (pieces xs)) (serialize-write_all fuel xs)

short_pieces : (xs : List ℕ) → All (λ bytes. length bytes ≤ 32) (pieces xs)
unfolding pieces
short_pieces [] = tt
short_pieces (x ∷ xs) = (omega (arith, length-likely_small_bytes x), short_pieces xs)

length-join : (xs : List ℕ) → length (join (pieces xs)) ≤ 9 * length xs
unfolding pieces join
length-join [] = omega arith
length-join (x ∷ xs) = omega (
  arith,
  length-likely_small_bytes x,
  length-append (likely_small_bytes x) (join (pieces xs)),
  length-join xs,
)

all-Gets :
    (fuel : ℕ) (xs : List ℕ)
    → All (λ x. x < 2 ^ 64) xs
    → Gets (unserialize_all fuel (length xs)) (join (pieces xs)) xs
unfolding unserialize_all pieces join
all-Gets fuel [] h = Gets-ok []
all-Gets fuel (x ∷ xs) h =
    Gets-bind (λ y m1. unserialize_all fuel (length xs) m1 >>= λ (ys, m2). ok (y ∷ ys, m2))
      (likely_small-Gets fuel x h.0) (Gets-map (λ ys. x ∷ ys) (all-Gets fuel xs h.1))

-- What is written to a vector and read back.
pub record VectorTrip (write_fuel read_fuel : ℕ) (xs : List ℕ) : Type 0 where
  pub bytes : List ℕ
  pub writes_all :
      (serialize_all write_fuel xs (open_vector []) >>= close_vector write_fuel) ≡ ok bytes
  pub at_end : Main
  pub reads_all : unserialize_all read_fuel (length xs) (open_data bytes) ≡ ok (xs, at_end)

-- For a list of fewer than 2 ^ 27 numbers below 2 ^ 64, `serialize_open_vector` on the null
-- vector, one call of `serialize_likely_small_unsigned_integer` for each number and
-- `serialize_close_vector` return, with at least two rounds of fuel for each loop, a vector from
-- which `unserialize_open_data` and as many calls of `unserialize_likely_small_unsigned_integer`
-- answer the numbers in their order.
pub unserialize_all-serialize_all :
    (fuel read_fuel : ℕ) (xs : List ℕ)
    → All (λ x. x < 2 ^ 64) xs
    → length xs < 2 ^ 27
    → VectorTrip (suc (suc fuel)) read_fuel xs
unfolding open_data
unserialize_all-serialize_all fuel read_fuel xs h few =
    let bytes = join (pieces xs) in
    let g =
      (all-Gets read_fuel xs h).from (open_data bytes) []
        (open_data-IsOpen bytes (omega (arith, length-join xs, few))) (sym (append-nil bytes)) in
    record {
      bytes = bytes;
      writes_all =
          ap (λ r. r >>= close_vector (suc (suc fuel)))
            (serialize-write_all (suc (suc fuel)) xs (open_vector []))
          ∙ open-write-close_vector fuel (pieces xs) (short_pieces xs)
              (omega (arith, length-join xs, few));
      at_end = g.after;
      reads_all = g.runs;
    }
