-- ===== src/Serialize/HeapElts.antt =====
-- clib/serialize.c: floating point numbers as their bits, and the elements of a heap of
-- clib/heap.h, which are a vector of any element to `serialize_vector`.
use clib.Common.{
  ℕ, zero, suc, ◌*◌, ◌≡◌, refl, sym, List, [], ◌∷◌, ◌++◌, All, length, length-append, arith,
}
use clib.Serialize.{integer_bytes, serialize_integer, unserialize_integer}
use clib.Serialize.Chunks.{IsCodec}
use clib.Serialize.Elements.{Fits}
use clib.Serialize.Integers.{
  four, length-integer_bytes, serialize_integer-Puts, unserialize_integer-Gets,
}
use clib.Serialize.Vector.{serialize_64, unserialize_64}
use clib.Stream.{Main, Result, ok, ◌>>=◌}
use clib.Stream.Compose.{Puts-bind, Puts-ok, Gets-bind, Gets-ok, Gets-map, Gets-same}
use clib.Stream.Data.{Puts, Gets}
use mathlib.Core.List.{append_assoc}
use mathlib.Core.Path.{subst}
use native.Mathlib.Nat.{mod-eq_of_lt}

-- `serialize_f64`, `serialize_f32` and their inverses, of the bits that the union holds.
unfoldable pub serialize_f64 : ℕ → ℕ → Main → Result Main
serialize_f64 fuel bits m = serialize_64 fuel bits m

unfoldable pub serialize_f32 : ℕ → ℕ → Main → Result Main
serialize_f32 fuel bits m = serialize_integer fuel bits 4 m

unfoldable pub unserialize_f64 : ℕ → Main → Result (ℕ × Main)
unserialize_f64 fuel m = unserialize_64 fuel m

unfoldable pub unserialize_f32 : ℕ → Main → Result (ℕ × Main)
unserialize_f32 fuel m = unserialize_integer fuel 4 m

-- `heap_elt_t`; the words of `next` and `prev` in two's complement.
pub record HeapElt : Type 0 where
  pub offset : ℕ
  pub next : ℕ
  pub prev : ℕ

-- `serialize_vec_heap_elt`
unfoldable pub serialize_vec_heap_elt : ℕ → List HeapElt → Main → Result Main
serialize_vec_heap_elt fuel [] m = ok m
serialize_vec_heap_elt fuel (e ∷ es) m =
    serialize_integer fuel e.offset 4 m
    >>= serialize_integer fuel e.next 4
    >>= serialize_integer fuel e.prev 4
    >>= serialize_vec_heap_elt fuel es

-- One round of `unserialize_vec_heap_elt`.
unfoldable pub unserialize_heap_elt : ℕ → Main → Result (HeapElt × Main)
unserialize_heap_elt fuel m = unserialize_integer fuel 4 m >>= λ (o, m1).
    unserialize_integer fuel 4 m1 >>= λ (n, m2).
    unserialize_integer fuel 4 m2 >>= λ (p, m3). ok (record { offset = o; next = n; prev = p }, m3)

-- `unserialize_vec_heap_elt`
unfoldable pub unserialize_vec_heap_elt : ℕ → ℕ → Main → Result (List HeapElt × Main)
unserialize_vec_heap_elt fuel zero m = ok ([], m)
unserialize_vec_heap_elt fuel (suc n) m = unserialize_heap_elt fuel m >>= λ (e, m1).
    unserialize_vec_heap_elt fuel n m1 >>= λ (es, m2). ok (e ∷ es, m2)

-- Each field holds what a word of 4 bytes holds.
pub FitsElt : HeapElt → Type 0
FitsElt e = Fits 4 e.offset × Fits 4 e.next × Fits 4 e.prev

elt_bytes : HeapElt → List ℕ
elt_bytes e = (integer_bytes e.offset 4 ++ integer_bytes e.next 4) ++ integer_bytes e.prev 4

length-elt_bytes : (e : HeapElt) → length (elt_bytes e) ≡ 12
unfolding elt_bytes
length-elt_bytes e = omega (
  arith,
  length-append (integer_bytes e.offset 4 ++ integer_bytes e.next 4) (integer_bytes e.prev 4),
  length-append (integer_bytes e.offset 4) (integer_bytes e.next 4),
  length-integer_bytes e.offset 4 four,
  length-integer_bytes e.next 4 four,
  length-integer_bytes e.prev 4 four,
)

all_bytes : List HeapElt → List ℕ
all_bytes [] = []
all_bytes (e ∷ es) = elt_bytes e ++ all_bytes es

length-all_bytes : (es : List HeapElt) → length (all_bytes es) ≡ 12 * length es
unfolding all_bytes
length-all_bytes [] = omega arith
length-all_bytes (e ∷ es) =
    omega
      (arith, length-append (elt_bytes e) (all_bytes es), length-elt_bytes e, length-all_bytes es)

elts-Puts : (fuel : ℕ) (es : List HeapElt) → Puts (serialize_vec_heap_elt fuel es) (all_bytes es)
unfolding serialize_vec_heap_elt all_bytes elt_bytes
elts-Puts fuel [] = Puts-ok
elts-Puts fuel (e ∷ es) =
    Puts-bind
      (Puts-bind
        (Puts-bind (serialize_integer-Puts fuel e.offset 4 four)
          (serialize_integer-Puts fuel e.next 4 four))
        (serialize_integer-Puts fuel e.prev 4 four))
      (elts-Puts fuel es)

field-Gets : (fuel x : ℕ) → Fits 4 x → Gets (unserialize_integer fuel 4) (integer_bytes x 4) x
field-Gets fuel x h =
    Gets-same (λ m. refl) (mod-eq_of_lt h) (unserialize_integer-Gets fuel x 4 four)

elt-Gets : (fuel : ℕ) (e : HeapElt) → FitsElt e → Gets (unserialize_heap_elt fuel) (elt_bytes e) e
unfolding unserialize_heap_elt elt_bytes FitsElt
elt-Gets fuel e (fo, fn, fp) =
    subst (λ t. Gets (unserialize_heap_elt fuel) t e)
      (sym
        (append_assoc (integer_bytes e.offset 4) (integer_bytes e.next 4) (integer_bytes e.prev 4)))
      (Gets-bind
        (λ o m1. unserialize_integer fuel 4 m1 >>= λ (n, m2).
          unserialize_integer fuel 4 m2 >>= λ (p, m3). ok (elt o n p, m3))
        (field-Gets fuel e.offset fo)
        (Gets-bind (λ n m2. unserialize_integer fuel 4 m2 >>= λ (p, m3). ok (elt e.offset n p, m3))
          (field-Gets fuel e.next fn)
          (Gets-map (λ p. elt e.offset e.next p) (field-Gets fuel e.prev fp))))
  where
    elt : ℕ → ℕ → ℕ → HeapElt
    elt o n p = record { offset = o; next = n; prev = p }

elts-Gets :
    (fuel : ℕ) (es : List HeapElt)
    → All FitsElt es
    → Gets (unserialize_vec_heap_elt fuel (length es)) (all_bytes es) es
unfolding unserialize_vec_heap_elt all_bytes
elts-Gets fuel [] h = Gets-ok []
elts-Gets fuel (e ∷ es) h =
    Gets-bind
      (λ first m1.
        unserialize_vec_heap_elt fuel (length es) m1 >>= λ (more, m2). ok (first ∷ more, m2))
      (elt-Gets fuel e h.0) (Gets-map (λ more. e ∷ more) (elts-Gets fuel es h.1))

-- `serialize_vector` and `unserialize_vector` keep vectors of heap elements.
pub serialize_vec_heap_elt-IsCodec :
    (fuel : ℕ) → IsCodec FitsElt 12 (serialize_vec_heap_elt fuel) (unserialize_vec_heap_elt fuel)
serialize_vec_heap_elt-IsCodec fuel = record {
  bytes = all_bytes;
  size = length-all_bytes;
  puts = elts-Puts fuel;
  gets = elts-Gets fuel;
}
