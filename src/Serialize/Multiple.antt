-- ===== src/Serialize/Multiple.antt =====
-- Elements in fours, through a stream and back.
use clib.Common.{
  ◌^◌, ℕ, ◌*◌, ◌<◌, ◌≤◌, ◌≡◌, refl, ap, List, [], ◌∷◌, ◌++◌, true, length, arith, All,
}
use mathlib.Core.Path.{subst}
use clib.Serialize.Integers.{one, two, four, eight, IsIntegerSize}
use clib.Serialize.Elements.{Fits, length-vec_bytes, serialize_vec-Puts, unserialize_vec-Gets}
use clib.Serialize.Vector.{
  vec_bytes, serialize_multiple, serialize_multiple_of, unserialize_multiple,
  unserialize_multiple_of, is_multiple_size,
}
use clib.Stream.{ok, ◌>>=◌}
use clib.Stream.Compose.{
  Gets-map, Gets-ok, Gets-bind, RoundTrip, round_trip, Gets-same, Puts-same, Puts-bind, Puts-ok,
}
use clib.Stream.Data.{Puts, Gets}
use mathlib.Core.List.{append-nil}

multiple_of-Puts : (k fuel : ℕ) (s : List ℕ) → Puts (serialize_multiple_of k fuel s) (vec_bytes k s)
unfolding serialize_multiple_of vec_bytes
multiple_of-Puts k fuel [] = Puts-ok
multiple_of-Puts k fuel (a ∷ []) = serialize_vec-Puts k fuel (a ∷ [])
multiple_of-Puts k fuel (a ∷ b ∷ []) = serialize_vec-Puts k fuel (a ∷ b ∷ [])
multiple_of-Puts k fuel (a ∷ b ∷ c ∷ []) = serialize_vec-Puts k fuel (a ∷ b ∷ c ∷ [])
multiple_of-Puts k fuel (a ∷ b ∷ c ∷ d ∷ s) =
    subst (Puts (serialize_multiple_of k fuel (a ∷ b ∷ c ∷ d ∷ s)))
      (ap (λ t. t ++ vec_bytes k s) (append-nil _))
      (Puts-bind (serialize_vec-Puts k fuel (a ∷ b ∷ c ∷ d ∷ [])) (multiple_of-Puts k fuel s))

multiple_of-Gets :
    (k fuel : ℕ) (s : List ℕ)
    → IsIntegerSize k
    → All (Fits k) s
    → Gets (unserialize_multiple_of k fuel (length s)) (vec_bytes k s) s
unfolding unserialize_multiple_of vec_bytes
multiple_of-Gets k fuel [] h fit = Gets-ok []
multiple_of-Gets k fuel (a ∷ []) h fit = unserialize_vec-Gets k fuel (a ∷ []) h fit
multiple_of-Gets k fuel (a ∷ b ∷ []) h fit = unserialize_vec-Gets k fuel (a ∷ b ∷ []) h fit
multiple_of-Gets k fuel (a ∷ b ∷ c ∷ []) h fit = unserialize_vec-Gets k fuel (a ∷ b ∷ c ∷ []) h fit
multiple_of-Gets k fuel (a ∷ b ∷ c ∷ d ∷ s) h (fa, (fb, (fc, (fd, fit)))) =
    let chunk = a ∷ b ∷ c ∷ d ∷ [] in
    subst (λ t. Gets (unserialize_multiple_of k fuel (length (chunk ++ s))) t (chunk ++ s))
      (ap (λ t. t ++ vec_bytes k s) (append-nil _))
      (Gets-bind
        (λ first m1.
          unserialize_multiple_of k fuel (length s) m1 >>= λ (more, m2). ok (first ++ more, m2))
        (unserialize_vec-Gets k fuel chunk h (fa, (fb, (fc, (fd, tt)))))
        (Gets-map (λ more. chunk ++ more) (multiple_of-Gets k fuel s h fit)))

is_multiple : (k : ℕ) → IsIntegerSize k → k < 8 → is_multiple_size k ≡ true
is_multiple k one h = refl
is_multiple k two h = refl
is_multiple k four h = refl
is_multiple k eight h = absurd (omega arith)

-- For elements of 1, 2 or 4 bytes and enough bytes of data, fewer than 2 ^ 32, `serialize_multiple` writes exactly
-- the bytes of the elements, and `unserialize_multiple` of their number reads all of them and
-- answers the elements, whether or not the number is a multiple of four.
pub unserialize-serialize_multiple :
    (k fuel : ℕ) (s buffer : List ℕ)
    → IsIntegerSize k
    → k < 8
    → All (Fits k) s
    → k * length s ≤ length buffer
    → length buffer < 2 ^ 32
    → RoundTrip
        (serialize_multiple k fuel s)
        (unserialize_multiple k fuel (length s))
        s
        (k * length s)
        buffer
unfolding serialize_multiple unserialize_multiple
unserialize-serialize_multiple k fuel s buffer h lt fit enough small =
    let size = is_multiple k h lt in
    round_trip (k * length s) buffer small
      (Puts-same (λ m. rw size refl) (multiple_of-Puts k fuel s))
      (Gets-same (λ m. rw size refl) refl (multiple_of-Gets k fuel s h fit))
      (length-vec_bytes k s h) enough
