-- ===== src/Serialize/Chunks.antt =====
-- Vectors of any elements, through a stream and back: what their element functions must keep, and
-- the chunks that a vector is cut into.
use clib.Common.{
  ℕ, zero, suc, ◌+◌, ◌-◌, ◌*◌, ◌^◌, ◌<◌, ◌≤◌, ◌≡◌, refl, sym, ap, ◌∙◌, ltb, true, false, List, [],
  ◌++◌, Bool-cases, inl, inr, if◌then◌else◌, ◌==◌, length, take, drop, min, arith, All, All-take,
  All-drop, nil_of_length, length-append, length-take, length-drop, take-drop,
}
use mathlib.Core.Path.{subst, ap₂}
use native.Mathlib.Nat.{mod-eq_of_lt, mul-add}
use clib.Serialize.{integer_bytes}
use clib.Serialize.Elements.{Fits, length-vec_bytes, serialize_vec-Puts, unserialize_vec-Gets}
use clib.Serialize.Integers.{
  IsIntegerSize, four, length-integer_bytes, serialize_integer-Puts, unserialize_integer-Gets,
}
use clib.Serialize.Vector.{
  deeper, shallower, va_serialize, va_unserialize, serialize_chunks, unserialize_chunks,
  serialize_vector, unserialize_vector, unserialize_vector_ha, serialize_vec, unserialize_vec,
  vec_bytes,
}
use clib.Stream.{Main, Result, ok, ◌>>=◌}
use clib.Stream.Compose.{
  Puts-bind, Puts-ok, Puts-same, Gets-bind, Gets-ok, Gets-map, Gets-same, RoundTrip, round_trip,
}
use clib.Stream.Data.{IsOpen, Puts, Gets}

-- The functions that a vector is serialized and unserialized with: `width` bytes for each element,
-- that read back as the elements that have the property `Good`.
pub record IsCodec {A : Type 0} (Good : A → Type 0) (width : ℕ) (put : List A → Main → Result Main)
    (get : ℕ → Main → Result (List A × Main)) : Type 0 where
  pub bytes : List A → List ℕ
  pub size : (v : List A) → length (bytes v) ≡ width * length v
  pub puts : (v : List A) → Puts (put v) (bytes v)
  pub gets : (v : List A) → All Good v → Gets (get (length v)) (bytes v) v

pub serialize_vec-IsCodec :
    (k fuel : ℕ)
    → IsIntegerSize k
    → IsCodec (Fits k) k (serialize_vec k fuel) (unserialize_vec k fuel)
serialize_vec-IsCodec k fuel h = record {
  bytes = vec_bytes k;
  size = λ v. length-vec_bytes k v h;
  puts = serialize_vec-Puts k fuel;
  gets = λ v fit. unserialize_vec-Gets k fuel v h fit;
}

-- The level of recursion is not part of what a stream holds.
deeper-IsOpen : (m : Main) → IsOpen m → IsOpen (deeper m)
unfolding deeper
deeper-IsOpen m o = record {
  no_function = o.no_function;
  no_overflow = o.no_overflow;
  inside = o.inside;
  whole = o.whole;
}

shallower-IsOpen : (m : Main) → IsOpen m → IsOpen (shallower m)
unfolding shallower
shallower-IsOpen m o = record {
  no_function = o.no_function;
  no_overflow = o.no_overflow;
  inside = o.inside;
  whole = o.whole;
}

pub va_serialize-Puts :
    {f : Main → Result Main} {bytes : List ℕ} → Puts f bytes → Puts (va_serialize f) bytes
unfolding va_serialize deeper shallower
va_serialize-Puts p = record {
  on = λ m o h.
      let run = p.on (deeper m) (deeper-IsOpen m o) h in
      record {
        after = shallower run.after;
        runs = ap (λ r. r >>= λ m'. ok (shallower m')) run.runs;
        is_open = shallower-IsOpen run.after run.is_open;
        appends = run.appends;
        uses = run.uses;
        same_size = run.same_size;
      };
}

pub va_unserialize-Gets :
    {A : Type 0} {g : Main → Result (A × Main)} {bytes : List ℕ} {a : A}
    → Gets g bytes a
    → Gets (va_unserialize g) bytes a
unfolding va_unserialize deeper shallower
va_unserialize-Gets {A = A} p = record {
  from = λ m rest o h.
      let run = p.from (deeper m) rest (deeper-IsOpen m o) h in
      record {
        after = shallower run.after;
        runs = ap (λ r. r >>= λ (a, m'). ok (a, shallower m')) run.runs;
        is_open = shallower-IsOpen run.after run.is_open;
        leaves = run.leaves;
      };
}

module _ {A : Type 0} (Good : A → Type 0) (width : ℕ) (put : List A → Main → Result Main)
    (get : ℕ → Main → Result (List A × Main)) (c : IsCodec Good width put get) where
  -- The bytes of the chunks, one after another.
  pub chunk_bytes : ℕ → List A → List ℕ
  chunk_bytes zero v = []
  chunk_bytes (suc fuel) v =
      let rest = chunk_bytes fuel (drop (min 64 (length v)) v) in
      if length v == 0 then [] else c.bytes (take (min 64 (length v)) v) ++ rest

  length-chunk_bytes :
      (fuel : ℕ) (v : List A) → length v ≤ fuel → length (chunk_bytes fuel v) ≡ width * length v
  unfolding chunk_bytes
  length-chunk_bytes zero v h = nothing v (omega arith)
    where
      nothing : (v : List A) → length v ≡ 0 → 0 ≡ width * length v
      nothing v e = rw e (omega arith)
  length-chunk_bytes (suc fuel) v h = elim (Bool-cases (length v == 0)) [
    | inl e ↦ rw e (let z : length v ≡ 0 = ground arith in rw z (omega arith))
    | inr e ↦
        let n = min 64 (length v) in
        rw e (
          length-append (c.bytes (take n v)) (chunk_bytes fuel (drop n v))
          ∙ ap₂ ◌+◌ (c.size (take n v))
              (length-chunk_bytes fuel (drop n v) (ground (arith, length-drop n v)))
          ∙ sym (mul-add width (length (take n v)) (length (drop n v)))
          ∙ ap (λ t. width * t) (omega (arith, length-take n v, length-drop n v)))
  ]

  chunks-Puts :
      (fuel : ℕ) (v : List A)
      → length v ≤ fuel
      → Puts (serialize_chunks fuel put v) (chunk_bytes fuel v)
  unfolding chunk_bytes serialize_chunks
  chunks-Puts zero v h =
      Puts-same (λ m. let e : (length v == 0) ≡ true = ground arith in rw e refl) Puts-ok
  chunks-Puts (suc fuel) v h = elim (Bool-cases (length v == 0)) [
    | inl e ↦ rw e (Puts-same (λ m. rw e refl) Puts-ok)
    | inr e ↦ rw e (
        Puts-same (λ m. rw e refl)
          (Puts-bind (va_serialize-Puts (c.puts (take (min 64 (length v)) v))) (
            chunks-Puts fuel (drop (min 64 (length v)) v)
              (ground (arith, length-drop (min 64 (length v)) v)))))
  ]

  chunks-Gets :
      (fuel : ℕ) (v : List A)
      → length v ≤ fuel
      → All Good v
      → Gets (unserialize_chunks fuel get (length v)) (chunk_bytes fuel v) v
  unfolding chunk_bytes unserialize_chunks
  chunks-Gets zero v h good =
      Gets-same (λ m. let e : (length v == 0) ≡ true = ground arith in rw e refl)
        (sym (nil_of_length v (omega arith))) (Gets-ok [])
  chunks-Gets (suc fuel) v h good = elim (Bool-cases (length v == 0)) [
    | inl e ↦ rw e (Gets-same (λ m. rw e refl) (sym (nil_of_length v (ground arith))) (Gets-ok []))
    | inr e ↦
        let n = min 64 (length v) in
        let chunk =
          subst (λ (k : ℕ). Gets (get k) (c.bytes (take n v)) (take n v))
            (let same : length (take n v) ≡ n = omega (arith, length-take n v) in same)
            (c.gets (take n v) (All-take Good n v good)) in
        let more =
          subst
            (λ (k : ℕ).
              Gets (unserialize_chunks fuel get k) (chunk_bytes fuel (drop n v)) (drop n v))
            (length-drop n v)
            (chunks-Gets fuel (drop n v) (ground (arith, length-drop n v))
              (All-drop Good n v good)) in
        rw e (
          Gets-same (λ m. rw e refl) (take-drop n v)
            (Gets-bind
              (λ first m1. unserialize_chunks fuel get (length v - n) m1 >>= λ (rest, m2).
                ok (first ++ rest, m2))
              (va_unserialize-Gets chunk) (Gets-map (λ t. take n v ++ t) more)))
  ]

  pub length-vector_bytes :
      (v : List A)
      → length (integer_bytes (length v) 4 ++ chunk_bytes (length v) v) ≡ 4 + width * length v
  length-vector_bytes v =
      length-append (integer_bytes (length v) 4) (chunk_bytes (length v) v)
      ∙ ap₂ ◌+◌ (length-integer_bytes (length v) 4 four)
          (length-chunk_bytes (length v) v (omega arith))

  pub serialize_vector-Puts :
      (fuel : ℕ) (v : List A)
      → Puts (serialize_vector fuel put v) (integer_bytes (length v) 4 ++ chunk_bytes (length v) v)
  unfolding serialize_vector
  serialize_vector-Puts fuel v =
      Puts-bind (serialize_integer-Puts fuel (length v) 4 four)
        (chunks-Puts (length v) v (omega arith))

  pub unserialize_vector-Gets :
      (fuel : ℕ) (v : List A)
      → length v < 2 ^ 32
      → All Good v
      → Gets
          (unserialize_vector fuel get)
          (integer_bytes (length v) 4 ++ chunk_bytes (length v) v)
          v
  unfolding unserialize_vector unserialize_vector_ha
  unserialize_vector-Gets fuel v h good =
      Gets-bind _
        (Gets-same (λ m. refl) (mod-eq_of_lt h) (unserialize_integer-Gets fuel (length v) 4 four))
        (Gets-same (λ m. let e : ltb (2 ^ 32 - 1) (length v) ≡ false = ground arith in rw e refl)
          refl (chunks-Gets (length v) v (omega arith) good))

  -- For element functions that write and read back `width` bytes for each good element, a vector
  -- of good elements, shorter than `2 ^ 32`, and enough bytes of data, fewer than 2 ^ 32,
  -- `serialize_vector` writes a length of 4 bytes and the elements, in chunks of at most 64, and
  -- `unserialize_vector` reads all of it and answers the vector.
  pub unserialize-serialize_vector :
      (fuel : ℕ) (v : List A) (buffer : List ℕ)
      → All Good v
      → length v < 2 ^ 32
      → 4 + width * length v ≤ length buffer
      → length buffer < 2 ^ 32
      → RoundTrip
          (serialize_vector fuel put v)
          (unserialize_vector fuel get)
          v
          (4 + width * length v)
          buffer
  unserialize-serialize_vector fuel v buffer good h room small =
      round_trip _ buffer small (serialize_vector-Puts fuel v)
        (unserialize_vector-Gets fuel v h good) (length-vector_bytes v) room
