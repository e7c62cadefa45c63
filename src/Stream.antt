-- ===== src/Stream.antt =====
-- clib/serialize.h and clib/serialize.c: the streams that data is serialized to and unserialized
-- from. A pointer that the C returns is a place to store bytes (`write`, with the bytes that the
-- caller stores there) or bytes to load (`read`). The length of a vector and the sizes and indices
-- of a stream are kept in 32 bits: `open_data` cuts the size of its data, and a vector that doubles
-- past 2 ^ 32 bytes wraps around. An index stays within its buffer.
pub mod Compose
pub mod Copy
pub mod Data
pub mod Growing
pub mod GrowingWrites
pub mod Loop
pub mod Short
use clib.Common.{
  ℕ, zero, suc, ◌+◌, ◌-◌, ◌*◌, ◌%◌, ◌^◌, List, [], ◌∷◌, ◌++◌, Bool, true, false, not, ◌&&◌, ◌||◌,
  leb, ltb, ◌==◌, if◌then◌else◌, length, take, drop, replicate, min, Option, none, some,
}

-- `end_of_stream` is `SERIALIZE_END_OF_STREAM_ERROR`, `null_pointer` the use of a null pointer.
pub data Error : Type 0 where
  end_of_stream null_pointer assertion_failed bad_magic out_of_fuel : Error
  bad_vector_length : ℕ → Error

pub data Result {ℓ} (A : Type ℓ) : Type ℓ where
  ok : A → Result A
  err : Error → Result A

infixl 5 ◌>>=◌
abbrev pub ◌>>=◌ {ℓ κ} : {A : Type ℓ} {B : Type κ} → Result A → (A → Result B) → Result B
ok a >>= f = f a
err e >>= f = err e

-- `serialize_stream_t`
pub record Stream : Type 0 where
  pub buffer : List ℕ
  pub n_buffer_bytes : ℕ
  pub current_buffer_index : ℕ
  pub overflow_buffer : List ℕ
  pub current_overflow_index : ℕ
  pub is_end_of_stream : Bool

-- `serialize_main_t`: the header and the stream. A data function leaves the index within the buffer.
pub record Main : Type 0 where
  pub recursion_level : ℕ
  pub data_function : Option (Stream → Stream)
  pub stream : Stream

-- `memcpy` of bytes into a buffer at an index.
unfoldable pub copy_to : List ℕ → ℕ → List ℕ → List ℕ
copy_to buffer i bytes = take i buffer ++ (bytes ++ drop (i + length bytes) buffer)

abbrev pub is_null : Option (Stream → Stream) → Bool
is_null none = true
is_null (some f) = false

-- The loop of `serialize_write_not_inline`: the stream, whose index is what the C stores, and
-- `cur_bi`. A `memcpy` of no bytes changes nothing.
unfoldable pub write_loop : ℕ → Option (Stream → Stream) → Stream → ℕ → Result (Stream × ℕ)
write_loop zero fn s cur_bi = err out_of_fuel
write_loop (suc fuel) fn s cur_bi =
    let n = min (s.n_buffer_bytes - cur_bi) (length s.overflow_buffer) in
    let bi = cur_bi + n in
    let s1 = record s {
      buffer = copy_to s.buffer cur_bi (take n s.overflow_buffer);
      overflow_buffer = drop n s.overflow_buffer;
    } in
    elim fn [
      | none ↦
          let more = write_loop fuel none s1 bi in
          if s.n_buffer_bytes - bi == 0 || length s1.overflow_buffer == 0 then ok (s1, bi) else more
      | some f ↦
          let s2 = f (record s1 { current_buffer_index = bi }) in
          let called = write_loop fuel (some f) s2 s2.current_buffer_index in
          let more = write_loop fuel (some f) s1 bi in
          if s.n_buffer_bytes - bi == 0
          then (if length s1.overflow_buffer == 0 then ok (s2, s2.current_buffer_index) else called)
          else if length s1.overflow_buffer == 0
          then ok (s1, bi)
          else more
    ]

-- `serialize_write_not_inline`, where the caller stores `bytes`.
unfoldable pub write_not_inline : ℕ → Option (Stream → Stream) → Stream → List ℕ → Result Stream
write_not_inline fuel fn s bytes =
    let stored = write_loop fuel fn s s.current_buffer_index >>= λ (s1, cur_bi). ok (
      if ltb 0 (length s1.overflow_buffer) || ltb (s1.n_buffer_bytes - cur_bi) (length bytes)
      then record s1 { overflow_buffer = s1.overflow_buffer ++ bytes }
      else record s1 {
        buffer = copy_to s1.buffer cur_bi bytes;
        current_buffer_index = cur_bi + length bytes;
      }) in
    if leb s.current_buffer_index s.n_buffer_bytes then stored else err assertion_failed

-- The flag that `serialize_stream_read_write` sets first.
unfoldable pub mark_end : Main → ℕ → Stream
mark_end m n_bytes =
    let s = m.stream in
    record s {
      is_end_of_stream =
          s.is_end_of_stream
          || (s.current_buffer_index + n_bytes == s.n_buffer_bytes && is_null m.data_function);
    }

-- `serialize_get`, that is `serialize_stream_read_write` for a write, with the bytes that the
-- caller stores.
unfoldable pub write : ℕ → List ℕ → Main → Result Main
write fuel bytes m =
    let s = mark_end m (length bytes) in
    let j = s.current_buffer_index + length bytes in
    if length s.overflow_buffer == 0 && leb j s.n_buffer_bytes
    then ok (record m {
      stream = record s {
        buffer = copy_to s.buffer s.current_buffer_index bytes;
        current_buffer_index = j;
      };
    })
    else write_not_inline fuel m.data_function s bytes >>= λ s'. ok (record m { stream = s' })

-- `n` bytes from an index on; `vec_elt_at_index` asserts that the index is in the vector, and what
-- is in memory past the vector is not known.
unfoldable pub bytes_at : List ℕ → ℕ → ℕ → Result (List ℕ)
bytes_at v i n =
    if ltb i (length v) && leb (i + n) (length v)
    then ok (take n (drop i v))
    else err assertion_failed

-- The variables of the loop of `serialize_read_not_inline`: the stream, `cur_bi`, `n_left_o` and
-- `n_left_to_read`.
pub record Reading : Type 0 where
  pub stream : Stream
  pub cur_bi : ℕ
  pub n_left_o : ℕ
  pub n_left_to_read : ℕ

-- The data function, which gives a new buffer, or the end of the stream.
unfoldable pub refill : Option (Stream → Stream) → Stream → ℕ → Stream × ℕ
refill none s cur_bi = (record s { is_end_of_stream = true }, cur_bi)
refill (some f) s cur_bi = (f s, (f s).current_buffer_index)

-- What the loop does when overflow and buffer hold fewer bytes than are asked for.
unfoldable pub refill_if_short : Option (Stream → Stream) → ℕ → Reading → Reading
refill_if_short fn n r =
    let s = r.stream in
    let n_left_b = s.n_buffer_bytes - r.cur_bi in
    let saved = record s {
      overflow_buffer = s.overflow_buffer ++ take n_left_b (drop r.cur_bi s.buffer);
    } in
    let (s', bi) = refill fn saved (r.cur_bi + n_left_b) in
    if ltb (r.n_left_o + n_left_b) n
    then record {
      stream = s';
      cur_bi = bi;
      n_left_o = r.n_left_o + n_left_b;
      n_left_to_read = r.n_left_to_read - n_left_b;
    }
    else r

unfoldable pub read_loop :
    ℕ → Option (Stream → Stream) → ℕ → ℕ → ℕ → Reading → Result (List ℕ × Stream)
read_loop zero fn level n cur_oi r = err out_of_fuel
read_loop (suc fuel) fn level n cur_oi r =
    let r1 = refill_if_short fn n r in
    let s = r1.stream in
    let n_left_b = s.n_buffer_bytes - r1.cur_bi in
    let k = min r1.n_left_to_read n_left_b in
    let more = read_loop fuel fn level n cur_oi (record {
      stream = record s { overflow_buffer = s.overflow_buffer ++ take k (drop r1.cur_bi s.buffer) };
      cur_bi = r1.cur_bi + k;
      n_left_o = r1.n_left_o + k;
      n_left_to_read = r1.n_left_to_read - k;
    }) in
    if r.n_left_to_read == 0
    then (bytes_at r.stream.overflow_buffer cur_oi n >>= λ bytes. ok (
      bytes,
      record (r.stream) { current_buffer_index = r.cur_bi; current_overflow_index = cur_oi + n },
    ))
    else if r1.n_left_o == 0 && r1.n_left_to_read == n && leb r1.n_left_to_read n_left_b
    then ok (
      take n (drop r1.cur_bi s.buffer),
      record s {
        current_buffer_index = r1.cur_bi + n;
        is_end_of_stream = s.is_end_of_stream || (r1.cur_bi + n == s.n_buffer_bytes && is_null fn);
      },
    )
    else if s.is_end_of_stream
    then err (if ltb 0 level then end_of_stream else null_pointer)
    else more

-- `serialize_read_not_inline`. `cur_oi` stays as it is when the overflow buffer is reset.
unfoldable pub read_not_inline :
    ℕ → Option (Stream → Stream) → ℕ → Stream → ℕ → Result (List ℕ × Stream)
read_not_inline fuel fn level s n =
    let cur_oi = s.current_overflow_index in
    let n_left_o = length s.overflow_buffer - cur_oi in
    let s1 =
      if n_left_o == 0 then record s { overflow_buffer = []; current_overflow_index = 0 } else s in
    let loop = read_loop fuel fn level n cur_oi (record {
      stream = s1;
      cur_bi = s.current_buffer_index;
      n_left_o = n_left_o;
      n_left_to_read = n;
    }) in
    let overflow = bytes_at s.overflow_buffer cur_oi n >>= λ bytes.
    ok (bytes, record s { current_overflow_index = cur_oi + n }) in
    let found = if leb n n_left_o then overflow else loop in
    if leb s.current_buffer_index s.n_buffer_bytes then found else err assertion_failed

-- `unserialize_get`, that is `serialize_stream_read_write` for a read: the bytes, and the stream.
unfoldable pub read : ℕ → ℕ → Main → Result (List ℕ × Main)
read fuel n m =
    let s = mark_end m n in
    let i = s.current_buffer_index in
    if length s.overflow_buffer == 0 && leb (i + n) s.n_buffer_bytes
    then ok
        (take n (drop i s.buffer), record m { stream = record s { current_buffer_index = i + n } })
    else read_not_inline fuel m.data_function m.recursion_level s n >>= λ (bytes, s').
        ok (bytes, record m { stream = s' })

-- `serialize_open_data`, `unserialize_open_data`
unfoldable pub open_data : List ℕ → Main
open_data bytes = record {
  recursion_level = 0;
  data_function = none;
  stream = record {
    buffer = bytes;
    n_buffer_bytes = length bytes % 2 ^ 32;
    current_buffer_index = 0;
    overflow_buffer = [];
    current_overflow_index = 0;
    is_end_of_stream = false;
  };
}

-- `serialize_vector_write`: new memory holds zeros.
unfoldable pub vector_write : Stream → Stream
vector_write s =
    let l = length s.buffer in
    let grown = s.buffer ++ replicate (if ltb 0 l then l else 64) 0 in
    let n = length grown % 2 ^ 32 in
    if s.is_end_of_stream then s else record s { buffer = take n grown; n_buffer_bytes = n }

-- `serialize_open_vector`
unfoldable pub open_vector : List ℕ → Main
open_vector v = record (open_data v) { data_function = some vector_write }

-- The end of `serialize_read_write_close`; a data function that is not set is called all the same.
unfoldable pub flush : Option (Stream → Stream) → Stream → Result Stream
flush none s = err null_pointer
flush (some f) s = ok (record (f (record s { is_end_of_stream = true })) { overflow_buffer = [] })

-- `serialize_read_write_close`
unfoldable pub close : ℕ → Bool → Main → Result Main
close fuel is_write m =
    let s = m.stream in
    let written = if is_write then write_not_inline fuel m.data_function s [] else ok s in
    let closed = written >>= flush (m.data_function) >>= λ s'. ok (record m { stream = s' }) in
    if s.is_end_of_stream then ok m else closed

-- `serialize_close_vector`: the vector.
unfoldable pub close_vector : ℕ → Main → Result (List ℕ)
close_vector fuel m =
    close fuel true m >>= λ m'. ok (take m'.stream.current_buffer_index m'.stream.buffer)
