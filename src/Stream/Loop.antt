-- ===== src/Stream/Loop.antt =====
-- The rounds of the loop of `serialize_write_not_inline` with a data function.
use clib.Common.{
  ℕ, suc, ◌+◌, ◌-◌, ◌<◌, ◌≡◌, refl, ap, [], true, false, ◌==◌, length, take, drop, arith, some, min,
  length-drop,
}
use clib.Stream.{Stream, ok, write_loop, copy_to}

-- The stream after the overflow buffer has filled it up to `bi`.
abbrev pub filled : Stream → ℕ → ℕ → Stream
filled s bi n = record s {
  buffer = copy_to s.buffer bi (take n s.overflow_buffer);
  overflow_buffer = drop n s.overflow_buffer;
}

module _ (f : Stream → Stream) where
  pub loop-done :
      (fuel bi : ℕ) (s : Stream)
      → length s.overflow_buffer < s.n_buffer_bytes - bi
      → write_loop (suc fuel) (some f) s bi
        ≡ ok (filled s bi (length s.overflow_buffer), bi + length s.overflow_buffer)
  unfolding write_loop
  loop-done fuel bi s h =
      let o = length s.overflow_buffer in
      let n : min (s.n_buffer_bytes - bi) o ≡ o = omega arith in
      let some_room : (s.n_buffer_bytes - (bi + o) == 0) ≡ false = ground arith in
      let empty : (length (drop o s.overflow_buffer) == 0) ≡ true =
        ground (arith, length-drop o s.overflow_buffer) in
      rw (n, some_room, empty) refl

  pub loop-full_empty :
      (fuel bi : ℕ) (s : Stream)
      → s.overflow_buffer ≡ []
      → s.n_buffer_bytes - bi ≡ 0
      → (let s2 = f (record (filled s bi 0) { current_buffer_index = bi + 0 }) in
          write_loop (suc fuel) (some f) s bi ≡ ok (s2, s2.current_buffer_index))
  unfolding write_loop
  loop-full_empty fuel bi s e h =
      let n : min (s.n_buffer_bytes - bi) (length s.overflow_buffer) ≡ 0 = omega (arith, h) in
      let full : (s.n_buffer_bytes - (bi + 0) == 0) ≡ true = ground (arith, h) in
      let empty : (length s.overflow_buffer == 0) ≡ true = ground (arith, ap length e) in
      rw (n, full, empty) refl

  pub loop-full :
      (fuel bi : ℕ) (s : Stream)
      → s.n_buffer_bytes - bi < length s.overflow_buffer
      → (let r = s.n_buffer_bytes - bi in
          let s2 = f (record (filled s bi r) { current_buffer_index = bi + r }) in
          write_loop (suc fuel) (some f) s bi ≡ write_loop fuel (some f) s2 s2.current_buffer_index)
  unfolding write_loop
  loop-full fuel bi s h =
      let r = s.n_buffer_bytes - bi in
      let n : min r (length s.overflow_buffer) ≡ r = omega arith in
      let full : (s.n_buffer_bytes - (bi + r) == 0) ≡ true = ground arith in
      let more : (length (drop r s.overflow_buffer) == 0) ≡ false =
        ground (arith, length-drop r s.overflow_buffer) in
      rw (n, full, more) refl
