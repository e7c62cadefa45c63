-- ===== src/Stream/Growing.antt =====
-- Streams on a vector that grows, which `serialize_open_vector` opens: what is written, through the
-- buffer and the overflow buffer.
use clib.Common.{
  ℕ, suc, ◌+◌, ◌-◌, ◌%◌, ◌^◌, ◌≤◌, ◌<◌, ◌≡◌, refl, sym, ap, ◌∙◌, List, [], ◌++◌, Bool, true, false,
  ◌||◌, leb, ltb, ◌==◌, if◌then◌else◌, length, take, drop, replicate, arith, some, length-replicate,
  take-all, take-append_le, drop-all, length-append, length-take, length-drop, take-drop,
  Bool-cases, inl, inr, ◌⊎◌,
}
use clib.Stream.{Stream, ok, write_loop, vector_write}
use clib.Stream.Loop.{filled, loop-done, loop-full_empty, loop-full}
use clib.Stream.Copy.{length-copy_to, take-copy_to}
use mathlib.Core.List.{append_assoc}

-- A vector that was empty or had at least 64 bytes.
abbrev pub IsRoomy : ℕ → Type 0
IsRoomy l = (l == 0 || leb 64 l) ≡ true

growth : List ℕ → ℕ
growth buffer = if ltb 0 (length buffer) then length buffer else 64

growth-ge : (buffer : List ℕ) → IsRoomy (length buffer) → 64 ≤ growth buffer
unfolding growth
growth-ge buffer h = ground arith

vector_write-grows :
    (s : Stream)
    → s.is_end_of_stream ≡ false
    → length s.buffer < 2 ^ 31
    → (let grown = s.buffer ++ replicate (growth s.buffer) 0 in
        vector_write s ≡ record s { buffer = grown; n_buffer_bytes = length grown })
unfolding vector_write growth
vector_write-grows s e short =
    let grown = s.buffer ++ replicate (growth s.buffer) 0 in
    let size : length grown < 2 ^ 32 = ground (
      arith,
      short,
      length-append s.buffer (replicate (growth s.buffer) 0),
      length-replicate {A = ℕ} (growth s.buffer) 0,
    ) in
    let same : length grown % 2 ^ 32 ≡ length grown = omega (arith, size) in
    let m = length grown % 2 ^ 32 in
    ap (λ (b : Bool). if b then s else record s { buffer = take m grown; n_buffer_bytes = m }) e
    ∙ ap (λ (k : ℕ). record s { buffer = take k grown; n_buffer_bytes = k }) same
    ∙ ap (λ t. record s { buffer = t; n_buffer_bytes = length grown })
        (take-all (length grown) grown (omega arith))

-- What is in the stream: the buffer up to the index, and the overflow buffer.
abbrev pub contents : Stream → List ℕ
contents s = take s.current_buffer_index s.buffer ++ s.overflow_buffer

-- The streams that `serialize_open_vector` and writes of at most 32 bytes lead to.
pub record IsGrowing (s : Stream) : Type 0 where
  pub not_ended : s.is_end_of_stream ≡ false
  pub whole : s.n_buffer_bytes ≡ length s.buffer
  pub inside : s.current_buffer_index ≤ s.n_buffer_bytes
  pub roomy : IsRoomy (length s.buffer)
  pub short_overflow : length s.overflow_buffer ≤ 32
  pub spills :
      (s.overflow_buffer ≡ [])
      ⊎ (s.n_buffer_bytes - s.current_buffer_index < length s.overflow_buffer)

filled-length :
    (s : Stream) (bi n : ℕ)
    → n ≤ length s.overflow_buffer
    → bi + n ≤ length s.buffer
    → length (filled s bi n).buffer ≡ length s.buffer
filled-length s bi n h lt =
    length-copy_to s.buffer bi (take n s.overflow_buffer)
      (omega (arith, length-take n s.overflow_buffer))

filled-take :
    (s : Stream) (bi n : ℕ)
    → n ≤ length s.overflow_buffer
    → bi ≤ length s.buffer
    → take (bi + n) (filled s bi n).buffer ≡ take bi s.buffer ++ take n s.overflow_buffer
filled-take s bi n h lt =
    let e : bi + n ≡ bi + length (take n s.overflow_buffer) =
      omega (arith, length-take n s.overflow_buffer) in
    rw e (take-copy_to s.buffer bi (take n s.overflow_buffer) lt)

-- The buffer is full, after `n` bytes of the overflow buffer, and grows.
grown : Stream → ℕ → Stream
grown s n = vector_write (record (filled s s.current_buffer_index n) {
  current_buffer_index = s.current_buffer_index + n;
})

record Grows (s : Stream) (n : ℕ) (after : Stream) : Type 0 where
  not_ended : after.is_end_of_stream ≡ false
  whole : after.n_buffer_bytes ≡ length after.buffer
  at_index : after.current_buffer_index ≡ s.current_buffer_index + n
  larger : length s.buffer + 64 ≤ length after.buffer
  overflow : after.overflow_buffer ≡ drop n s.overflow_buffer
  keeps :
      take (s.current_buffer_index + n) after.buffer
      ≡ take s.current_buffer_index s.buffer ++ take n s.overflow_buffer

grown-Grows :
    (s : Stream) (n : ℕ)
    → IsGrowing s
    → n ≤ length s.overflow_buffer
    → s.current_buffer_index + n ≡ length s.buffer
    → length (contents s) < 2 ^ 31
    → Grows s n (grown s n)
unfolding grown
grown-Grows s n g h full short =
    let i = s.current_buffer_index in
    let size = filled-length s i n h (omega arith) in
    let roomy : IsRoomy (length (filled s i n).buffer) = rw size g.roomy in
    let big = growth-ge (filled s i n).buffer roomy in
    let fits : length (filled s i n).buffer < 2 ^ 31 = omega (
      arith,
      size,
      full,
      short,
      length-append (take i s.buffer) s.overflow_buffer,
      length-take i s.buffer,
    ) in
    rw
      (vector_write-grows (record (filled s i n) { current_buffer_index = i + n }) g.not_ended fits)
      (record {
        not_ended = g.not_ended;
        whole = refl;
        at_index = refl;
        larger = omega (
          arith,
          length-append (filled s i n).buffer (replicate (growth (filled s i n).buffer) 0),
          length-replicate {A = ℕ} (growth (filled s i n).buffer) 0,
        );
        overflow = refl;
        keeps =
            take-append_le (i + n) (filled s i n).buffer _ (omega (arith, size))
            ∙ filled-take s i n h (omega arith);
      })

-- What the loop of `serialize_write_not_inline` leaves: the overflow buffer is empty, and there is
-- room for 32 bytes or the index is what it was.
pub record Prepared (fuel : ℕ) (s : Stream) : Type 0 where
  pub after : Stream
  pub cur_bi : ℕ
  pub runs :
      write_loop (suc (suc fuel)) (some vector_write) s s.current_buffer_index ≡ ok (after, cur_bi)
  pub not_ended : after.is_end_of_stream ≡ false
  pub whole : after.n_buffer_bytes ≡ length after.buffer
  pub below : cur_bi ≤ after.n_buffer_bytes
  pub roomy : IsRoomy (length after.buffer)
  pub empty : after.overflow_buffer ≡ []
  pub keeps : take cur_bi after.buffer ≡ contents s
  pub free : (32 ≤ after.n_buffer_bytes - cur_bi) ⊎ (after.current_buffer_index ≡ cur_bi)

room-Prepared :
    (fuel : ℕ) (s : Stream)
    → IsGrowing s
    → s.overflow_buffer ≡ []
    → s.current_buffer_index < s.n_buffer_bytes
    → Prepared fuel s
room-Prepared fuel s g e h =
    let i = s.current_buffer_index in
    let o = length s.overflow_buffer in
    let none_left : o ≡ 0 = omega (arith, ap length e) in
    let size = filled-length s i o (omega arith) (omega (arith, g.whole, none_left)) in
    record {
      after = filled s i o;
      cur_bi = i + o;
      runs = loop-done vector_write (suc fuel) i s (omega (arith, none_left, h));
      not_ended = g.not_ended;
      whole = g.whole ∙ sym size;
      below = omega (arith, none_left, h);
      roomy = rw size g.roomy;
      empty = rw e refl;
      keeps =
          filled-take s i o (omega arith) (omega (arith, g.whole, h))
          ∙ ap (λ t. take i s.buffer ++ t) (take-all o s.overflow_buffer (omega arith));
      free = inr (omega (arith, none_left));
    }

full-Prepared :
    (fuel : ℕ) (s : Stream)
    → IsGrowing s
    → s.overflow_buffer ≡ []
    → s.current_buffer_index ≡ s.n_buffer_bytes
    → length (contents s) < 2 ^ 31
    → Prepared fuel s
full-Prepared fuel s g e h short =
    let i = s.current_buffer_index in
    let t = grown-Grows s 0 g (omega arith) (omega (arith, g.whole, h)) short in
    let after = grown s 0 in
    record {
      after = after;
      cur_bi = after.current_buffer_index;
      runs = unfold grown in loop-full_empty vector_write (suc fuel) i s e (omega (arith, h));
      not_ended = t.not_ended;
      whole = t.whole;
      below = omega (arith, t.whole, t.at_index, t.larger, g.whole, h);
      roomy = ground (arith, t.larger);
      empty = t.overflow ∙ e;
      keeps = rw t.at_index (t.keeps ∙ ap (λ t. take i s.buffer ++ t) (sym e));
      free = inl (omega (arith, t.whole, t.at_index, t.larger, g.whole, h));
    }

overflow-Prepared :
    (fuel : ℕ) (s : Stream)
    → IsGrowing s
    → s.n_buffer_bytes - s.current_buffer_index < length s.overflow_buffer
    → length (contents s) < 2 ^ 31
    → Prepared fuel s
overflow-Prepared fuel s g h short =
    let i = s.current_buffer_index in
    let r = s.n_buffer_bytes - i in
    let t = grown-Grows s r g (omega (arith, h)) (omega (arith, g.whole, g.inside)) short in
    let s2 = grown s r in
    let j = s2.current_buffer_index in
    let o = length s2.overflow_buffer in
    let few : o ≤ 32 =
      omega (arith, ap length t.overflow, length-drop r s.overflow_buffer, g.short_overflow) in
    let size =
      filled-length s2 j o (omega arith)
        (omega (arith, t.at_index, t.larger, g.whole, g.inside, few)) in
    record {
      after = filled s2 j o;
      cur_bi = j + o;
      runs =
          unfold grown in
          (loop-full vector_write (suc fuel) i s h
            ∙ loop-done vector_write fuel j s2
                (omega (arith, t.whole, t.at_index, t.larger, g.whole, g.inside, few)));
      not_ended = t.not_ended;
      whole = t.whole ∙ sym size;
      below = omega (arith, t.whole, t.at_index, t.larger, g.whole, g.inside, few);
      roomy = rw size (ground (arith, t.larger));
      empty = drop-all o s2.overflow_buffer (omega arith);
      keeps =
          filled-take s2 j o (omega arith) (omega (arith, t.at_index, t.larger, g.whole, g.inside))
          ∙ ap (λ t. take j s2.buffer ++ t)
              (take-all o s2.overflow_buffer (omega arith) ∙ t.overflow)
          ∙ ap (λ t. t ++ drop r s.overflow_buffer)
              (ap (λ (k : ℕ). take k s2.buffer) t.at_index ∙ t.keeps)
          ∙ append_assoc (take i s.buffer) (take r s.overflow_buffer) (drop r s.overflow_buffer)
          ∙ ap (λ t. take i s.buffer ++ t) (take-drop r s.overflow_buffer);
      free = inl (omega (arith, t.whole, t.at_index, t.larger, g.whole, g.inside, few));
    }

pub prepare : (fuel : ℕ) (s : Stream) → IsGrowing s → length (contents s) < 2 ^ 31 → Prepared fuel s
prepare fuel s g short = elim g.spills [
  | inr h ↦ overflow-Prepared fuel s g h short
  | inl e ↦ elim (Bool-cases (ltb s.current_buffer_index s.n_buffer_bytes)) [
    | inl h ↦ room-Prepared fuel s g e (ground arith)
    | inr h ↦ full-Prepared fuel s g e (ground (arith, g.inside)) short
  ]
]
