-- ===== src/Stream/GrowingWrites.antt =====
-- Writes to a vector that grows, and its end.
use clib.Common.{
  true, ℕ, suc, ◌+◌, ◌-◌, ◌^◌, ◌<◌, length-append, ◌≤◌, ◌≡◌, refl, sym, ap, ◌∙◌, List, [], ◌∷◌,
  ◌++◌, Bool, false, ◌&&◌, ◌||◌, leb, ltb, ◌==◌, length, take, arith, some, All, nil_of_length,
  Bool-cases, inl, inr,
}
use clib.Stream.{
  Main, Stream, Result, ok, write, write_not_inline, vector_write, open_vector, open_data, close,
  close_vector, flush, mark_end, copy_to, ◌>>=◌,
}
use clib.Stream.Growing.{IsGrowing, prepare, contents}
use clib.Stream.Copy.{length-copy_to, take-copy_to}
use mathlib.Core.List.{append_assoc, append-nil}

-- A run that adds `bytes` to what is in the stream.
pub record Appends (run : Result Stream) (bytes : List ℕ) (s : Stream) : Type 0 where
  pub after : Stream
  pub runs : run ≡ ok after
  pub is_growing : IsGrowing after
  pub appends : contents after ≡ contents s ++ bytes

not_inline-Appends :
    (fuel : ℕ) (bytes : List ℕ) (s : Stream)
    → IsGrowing s
    → length bytes ≤ 32
    → length (contents s) < 2 ^ 31
    → Appends (write_not_inline (suc (suc fuel)) (some vector_write) s bytes) bytes s
unfolding write_not_inline
not_inline-Appends fuel bytes s g h short =
    let p = prepare fuel s g short in
    let inside : leb s.current_buffer_index s.n_buffer_bytes ≡ true = ground (arith, g.inside) in
    let none_left : ltb 0 (length p.after.overflow_buffer) ≡ false =
      ground (arith, ap length p.empty) in
    elim (Bool-cases (ltb (p.after.n_buffer_bytes - p.cur_bi) (length bytes))) [
      | inl e ↦
          let same : p.after.current_buffer_index ≡ p.cur_bi = elim p.free [
            | inl r ↦ absurd (ground (arith, r))
            | inr r ↦ r
          ] in
          record {
            after = record p.after { overflow_buffer = p.after.overflow_buffer ++ bytes };
            runs = rw (inside, p.runs, none_left, e) refl;
            is_growing = record {
              not_ended = p.not_ended;
              whole = p.whole;
              inside = omega (arith, same, p.below);
              roomy = p.roomy;
              short_overflow = rw p.empty h;
              spills = inr (rw (p.empty, same) (ground arith));
            };
            appends = rw (p.empty, same, p.keeps) refl;
          }
      | inr e ↦
          let fits : p.cur_bi + length bytes ≤ length p.after.buffer =
            ground (arith, p.whole, p.below) in
          let size = length-copy_to p.after.buffer p.cur_bi bytes fits in
          record {
            after = record p.after {
              buffer = copy_to p.after.buffer p.cur_bi bytes;
              current_buffer_index = p.cur_bi + length bytes;
            };
            runs = rw (inside, p.runs, none_left, e) refl;
            is_growing = record {
              not_ended = p.not_ended;
              whole = p.whole ∙ sym size;
              inside = omega (arith, fits, p.whole);
              roomy = rw size p.roomy;
              short_overflow = omega (arith, ap length p.empty);
              spills = inl p.empty;
            };
            appends =
                rw (p.empty, take-copy_to p.after.buffer p.cur_bi bytes (omega (arith, fits)))
                  (append-nil (take p.cur_bi p.after.buffer ++ bytes)
                    ∙ ap (λ t. t ++ bytes) p.keeps);
          }
    ]

-- A stream in `serialize_main_t` with the data function of a vector.
abbrev pub vector_main : ℕ → Stream → Main
vector_main level s = record {
  recursion_level = level;
  data_function = some vector_write;
  stream = s;
}

-- A write to a vector, whatever the buffers hold.
record WritesVector (fuel level : ℕ) (bytes : List ℕ) (s : Stream) : Type 0 where
  after : Stream
  runs : write (suc (suc fuel)) bytes (vector_main level s) ≡ ok (vector_main level after)
  is_growing : IsGrowing after
  appends : contents after ≡ contents s ++ bytes

unmarked :
    (level n : ℕ) (s : Stream) → s.is_end_of_stream ≡ false → mark_end (vector_main level s) n ≡ s
unfolding mark_end
unmarked level n s e =
    ap (λ (t : Bool). record s { is_end_of_stream = t })
      (let none : (s.is_end_of_stream || (s.current_buffer_index + n == s.n_buffer_bytes && false))
            ≡ s.is_end_of_stream =
          ground arith in
        none)

write-WritesVector :
    (fuel level : ℕ) (bytes : List ℕ) (s : Stream)
    → IsGrowing s
    → length bytes ≤ 32
    → length (contents s) < 2 ^ 31
    → WritesVector fuel level bytes s
unfolding write
write-WritesVector fuel level bytes s g h short =
    let i = s.current_buffer_index in
    let same = unmarked level (length bytes) s g.not_ended in
    elim (Bool-cases (length s.overflow_buffer == 0 && leb (i + length bytes) s.n_buffer_bytes)) [
      | inl e ↦
          let fits : i + length bytes ≤ length s.buffer = ground (arith, g.whole) in
          let size = length-copy_to s.buffer i bytes fits in
          let none_left : length s.overflow_buffer ≡ 0 = ground arith in
          record {
            after = record s {
              buffer = copy_to s.buffer i bytes;
              current_buffer_index = i + length bytes;
            };
            runs = rw (same, e) refl;
            is_growing = record {
              not_ended = g.not_ended;
              whole = g.whole ∙ sym size;
              inside = omega (arith, fits, g.whole);
              roomy = rw size g.roomy;
              short_overflow = g.short_overflow;
              spills = inl (nil_of_length s.overflow_buffer none_left);
            };
            appends = rw (nil_of_length s.overflow_buffer none_left) (
                ap (λ t. t ++ []) (take-copy_to s.buffer i bytes (omega (arith, fits)))
                ∙ append-nil (take i s.buffer ++ bytes)
                ∙ ap (λ t. t ++ bytes) (sym (append-nil (take i s.buffer))));
          }
      | inr e ↦
          let slow = not_inline-Appends fuel bytes s g h short in
          record {
            after = slow.after;
            runs = rw (same, e) (rw slow.runs refl);
            is_growing = slow.is_growing;
            appends = slow.appends;
          }
    ]

-- The flush of the overflow buffer.
record Flushes (fuel : ℕ) (s : Stream) : Type 0 where
  after : Stream
  runs : write_not_inline (suc (suc fuel)) (some vector_write) s [] ≡ ok after
  has_all : take after.current_buffer_index after.buffer ≡ contents s

flush-Flushes :
    (fuel : ℕ) (s : Stream) → IsGrowing s → length (contents s) < 2 ^ 31 → Flushes fuel s
unfolding write_not_inline
flush-Flushes fuel s g short =
    let p = prepare fuel s g short in
    let inside : leb s.current_buffer_index s.n_buffer_bytes ≡ true = ground (arith, g.inside) in
    let none_left : ltb 0 (length p.after.overflow_buffer) ≡ false =
      ground (arith, ap length p.empty) in
    let fits : ltb (p.after.n_buffer_bytes - p.cur_bi) 0 ≡ false = ground arith in
    record {
      after = record p.after {
        buffer = copy_to p.after.buffer p.cur_bi [];
        current_buffer_index = p.cur_bi + 0;
      };
      runs = rw (inside, p.runs, none_left, fits) refl;
      has_all =
          take-copy_to p.after.buffer p.cur_bi [] (omega (arith, p.below, p.whole))
          ∙ append-nil (take p.cur_bi p.after.buffer)
          ∙ p.keeps;
    }

close_vector-contents :
    (fuel level : ℕ) (s : Stream)
    → IsGrowing s
    → length (contents s) < 2 ^ 31
    → close_vector (suc (suc fuel)) (vector_main level s) ≡ ok (contents s)
unfolding close_vector close flush vector_write
close_vector-contents fuel level s g short =
    let f = flush-Flushes fuel s g short in rw (f.runs, g.not_ended) (ap ok f.has_all)

-- Writes one after another.
unfoldable pub write_all : ℕ → List (List ℕ) → Main → Result Main
write_all fuel [] m = ok m
write_all fuel (bytes ∷ more) m = write fuel bytes m >>= write_all fuel more

unfoldable pub join : List (List ℕ) → List ℕ
join [] = []
join (bytes ∷ more) = bytes ++ join more

close-write_all :
    (fuel level : ℕ) (pieces : List (List ℕ)) (s : Stream)
    → IsGrowing s
    → All (λ bytes. length bytes ≤ 32) pieces
    → length (contents s) + length (join pieces) < 2 ^ 31
    → (write_all (suc (suc fuel)) pieces (vector_main level s) >>= close_vector (suc (suc fuel)))
      ≡ ok (contents s ++ join pieces)
unfolding write_all join
close-write_all fuel level [] s g h short =
    close_vector-contents fuel level s g (omega (arith, short))
    ∙ ap ok (sym (append-nil (contents s)))
close-write_all fuel level (bytes ∷ more) s g h short =
    let w = write-WritesVector fuel level bytes s g h.0 (omega (arith, short)) in
    let sum = length-append bytes (join more) in
    let fits : length (contents w.after) + length (join more) < 2 ^ 31 =
      omega (arith, short, sum, ap length w.appends, length-append (contents s) bytes) in
    ap (λ r. r >>= write_all (suc (suc fuel)) more >>= close_vector (suc (suc fuel))) w.runs
    ∙ close-write_all fuel level more w.after w.is_growing h.1 fits
    ∙ ap ok (ap (λ t. t ++ join more) w.appends ∙ append_assoc (contents s) bytes (join more))

-- For pieces of at most 32 bytes, fewer than 2 ^ 31 bytes in all, `serialize_open_vector` on the
-- null vector, one write of each piece and `serialize_close_vector` return with at least two
-- rounds of fuel for each loop, and answer all the bytes in the order of the writes, across the
-- overflow buffer and each growth of the vector, whose length is kept in 32 bits.
pub open-write-close_vector :
    (fuel : ℕ) (pieces : List (List ℕ))
    → All (λ bytes. length bytes ≤ 32) pieces
    → length (join pieces) < 2 ^ 31
    → (write_all (suc (suc fuel)) pieces (open_vector []) >>= close_vector (suc (suc fuel)))
      ≡ ok (join pieces)
unfolding open_vector open_data
open-write-close_vector fuel pieces h short =
    close-write_all fuel 0 pieces (open_vector []).stream
      (record {
        not_ended = refl;
        whole = refl;
        inside = omega arith;
        roomy = refl;
        short_overflow = omega arith;
        spills = inl refl;
      })
      h (omega (arith, short))
