-- ===== src/Stream/Data.antt =====
-- Streams on a buffer of fixed size, which `serialize_open_data` opens: what is written and read in
-- the buffer, and what happens at its end.
use clib.Common.{
  ℕ, ◌+◌, ◌-◌, ◌^◌, ◌<◌, ◌≤◌, ◌≡◌, refl, sym, ap, ◌∙◌, List, [], ◌++◌, true, ◌&&◌, leb, ◌==◌,
  length, take, drop, arith, none, length-append, length-drop, take-exact, drop-exact, drop-add,
}
use clib.Stream.{Main, Result, ok, read, write, open_data, mark_end, copy_to}
use clib.Stream.Copy.{length-copy_to, take-copy_to}

-- What has been written, and what is left to read.
abbrev pub written : Main → List ℕ
written m = take (m.stream.current_buffer_index) m.stream.buffer

abbrev pub left : Main → List ℕ
left m = drop (m.stream.current_buffer_index) m.stream.buffer

abbrev pub room : Main → ℕ
room m = m.stream.n_buffer_bytes - m.stream.current_buffer_index

-- A stream that is inside its buffer.
pub record IsOpen (m : Main) : Type 0 where
  pub no_function : m.data_function ≡ none
  pub no_overflow : m.stream.overflow_buffer ≡ []
  pub inside : m.stream.current_buffer_index ≤ m.stream.n_buffer_bytes
  pub whole : m.stream.n_buffer_bytes ≡ length m.stream.buffer

-- `f` writes `bytes`, wherever there is room for them.
pub record Writes (f : Main → Result Main) (bytes : List ℕ) (m : Main) : Type 0 where
  pub after : Main
  pub runs : f m ≡ ok after
  pub is_open : IsOpen after
  pub appends : written after ≡ written m ++ bytes
  pub uses : room after + length bytes ≡ room m
  pub same_size : length after.stream.buffer ≡ length m.stream.buffer

pub record Puts (f : Main → Result Main) (bytes : List ℕ) : Type 0 where
  pub on : (m : Main) → IsOpen m → length bytes ≤ room m → Writes f bytes m

-- `g` reads the bytes and answers `a`.
pub record Reads {ℓ} {A : Type ℓ} (g : Main → Result (A × Main)) (a : A) (m : Main) (rest : List ℕ)
    : Type ℓ where
  pub after : Main
  pub runs : g m ≡ ok (a, after)
  pub is_open : IsOpen after
  pub leaves : left after ≡ rest

pub record Gets {ℓ} {A : Type ℓ} (g : Main → Result (A × Main)) (bytes : List ℕ) (a : A)
    : Type ℓ where
  pub from : (m : Main) (rest : List ℕ) → IsOpen m → left m ≡ bytes ++ rest → Reads g a m rest

moved : Main → List ℕ → ℕ → Main
moved m buffer n = record m {
  stream = record (mark_end m n) {
    buffer = buffer;
    current_buffer_index = m.stream.current_buffer_index + n;
  };
}

pub fast_path :
    (m : Main) (n : ℕ)
    → IsOpen m
    → n ≤ room m
    → (length m.stream.overflow_buffer == 0
        && leb (m.stream.current_buffer_index + n) m.stream.n_buffer_bytes)
      ≡ true
fast_path m n o h = ground (arith, o.inside, ap length o.no_overflow)

writes :
    (fuel : ℕ) (bytes : List ℕ) (m : Main)
    → IsOpen m
    → length bytes ≤ room m
    → Writes (write fuel bytes) bytes m
writes fuel bytes m o h = record {
  after = moved m (copy_to m.stream.buffer i bytes) (length bytes);
  runs = unfold write mark_end moved in rw (fast_path m (length bytes) o h) refl;
  is_open =
      unfold moved mark_end in
      record {
        no_function = o.no_function;
        no_overflow = o.no_overflow;
        inside = omega (arith, o.inside);
        whole = o.whole ∙ sym same;
      };
  appends = unfold moved in take-copy_to m.stream.buffer i bytes (omega (arith, o.inside, o.whole));
  uses = unfold moved mark_end in omega (arith, o.inside);
  same_size = unfold moved in same;
}
  where
    i : ℕ
    i = m.stream.current_buffer_index

    same : length (copy_to m.stream.buffer i bytes) ≡ length m.stream.buffer
    same = length-copy_to m.stream.buffer i bytes (omega (arith, o.inside, o.whole))

pub write-Puts : (fuel : ℕ) (bytes : List ℕ) → Puts (write fuel bytes) bytes
write-Puts fuel bytes = record { on = writes fuel bytes }

reads :
    (fuel n : ℕ) (bytes : List ℕ)
    → length bytes ≡ n
    → (m : Main) (rest : List ℕ) → IsOpen m
    → left m ≡ bytes ++ rest
    → Reads (read fuel n) bytes m rest
reads fuel n bytes e m rest o h = record {
  after = moved m m.stream.buffer n;
  runs =
      unfold read mark_end moved in
      rw (fast_path m n o enough) (
        ap (λ t. ok (t, moved m m.stream.buffer n))
          (ap (take n) h ∙ take-exact bytes rest n (sym e)));
  is_open =
      unfold moved mark_end in
      record {
        no_function = o.no_function;
        no_overflow = o.no_overflow;
        inside = omega (arith, enough, o.inside);
        whole = o.whole;
      };
  leaves =
      unfold moved in
      (drop-add m.stream.current_buffer_index n m.stream.buffer
        ∙ ap (drop n) h
        ∙ drop-exact bytes rest n (sym e));
}
  where
    enough : n ≤ room m
    enough = omega (
      arith,
      e,
      ap length h,
      length-append bytes rest,
      length-drop m.stream.current_buffer_index m.stream.buffer,
      o.whole,
      o.inside,
    )

pub read-Gets : (fuel n : ℕ) (bytes : List ℕ) → length bytes ≡ n → Gets (read fuel n) bytes bytes
read-Gets fuel n bytes e = record { from = reads fuel n bytes e }

pub open_data-IsOpen : (bytes : List ℕ) → length bytes < 2 ^ 32 → IsOpen (open_data bytes)
unfolding open_data
open_data-IsOpen bytes small = record {
  no_function = refl;
  no_overflow = refl;
  inside = omega arith;
  whole = omega (arith, small);
}
