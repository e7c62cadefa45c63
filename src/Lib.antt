-- ===== src/Lib.antt =====
-- A model of the data structures of clib: the integer helpers, vectors, bitmaps, pools,
-- compressed vectors, fifos, sparse vectors, hash tables, serialization and the spin lock.
--
-- The program and the files that model it:
--   * Word: the unsigned machine word `uword` of clib/types.h and its C operators, each with its
--     wrap-around at 64 bits. Bits reads a number digit by digit.
--   * Bitops: the integer helpers of clib/clib.h (min_log2, first_set, max_pow2 and their like)
--     and clib/bitops.h (count_set_bits, compress_bits, next_with_same_number_of_set_bits).
--     `min_log2` is the portable C branch of the function.
--   * Vec: the vectors of clib/vec.h. A vector is the list of its elements, and the null vector
--     is the empty one.
--   * Bitmap: clib/bitmap.h, a vector of words with one bit for each index, with the null bitmap
--     as the empty vector. Bitmap/Alu has the functions that the macro `_` defines, Bitmap/Range
--     those on several bits at once, and Bitmap/Scan those that search, count or visit bits.
--     Bitmap/Random has `clib_bitmap_random`, with what the machine makes of a shift that is too wide
--     as a parameter.
--   * Pool: clib/pool.h. The pool header, a bitmap and a vector of free indices, and the vector
--     of the objects are a record. A pool calls the bitmaps (`andnoti`, `ori`, `next_clear`) and
--     the vectors (`vec_add1`, `vec_validate`).
--   * Zvec: clib/zvec.c and clib/zvec.h, arrays in an entropy code, which are fields of a bitmap
--     (`set_multiple`, `get_multiple`). An object is the unsigned number that its bytes hold.
--     The loops over the digits of a coding have 64 or 65 rounds of fuel, one for each digit; the
--     search for a coding takes its fuel as an argument.
--   * Fifo: clib/fifo.h and clib/fifo.c, queues in a circular vector. The header's two indices and
--     the vector are a record, and the null fifo is the empty one.
--   * ByteOrder: clib/byte_order.h, the byte swaps and orders of a little endian host, and the
--     bytes that memory holds for a number.
--   * Stream: the streams of clib/serialize.h and clib/serialize.c, on a buffer with an overflow
--     buffer and a data function. `serialize_get` returns a place where its caller stores bytes,
--     and `write` takes those bytes; `read` answers the bytes that `unserialize_get` points at.
--     An error that jumps out of the code is `err`, as is the use of a null pointer, a failed
--     ASSERT and the end of the fuel. The loops of a write and a read take the fuel as an
--     argument: on data of fixed size they need one round, and on a vector that grows two.
--   * Serialize: the formats of the same files, on streams: integers, strings, vectors in chunks,
--     bitmaps and magic numbers. What memory holds is a list of bytes below 256 or of elements.
--     A loop over chunks has one round of fuel for each element, and a chunk has at least one.
--   * SparseVec: clib/sparse_vec.h, vectors with few indices in use. The header and the vector are
--     a record. Vectors with ranges read a vector of flags that no function here sets.
--   * Hash: clib/hash.h and clib/hash.c, hash tables. Hash/Bucket has what `lookup` does to a
--     bucket, Hash/Table the operations on tables, Hash/Sum the sums of words and memory, and
--     Hash/KeyFunctions the functions on keys that a table can be created with. The user's own
--     functions are parameters, with the laws of Hash/Keys: the comparison is an equivalence, and
--     equal keys have equal sums. `_hash_set3` and `hash_resize` call each other; their depth is
--     bounded by an argument, and depth 1 is enough. Tables have at most 2^30 buckets, the range
--     of `1 << n` for an int; Hash/Allocated is about the exponents of the memory under the pairs.
--   * Smp: the spin lock of clib/smp.h and clib/smp.c, which several CPUs use at once. In Smp/Lock
--     a step of a CPU reads or writes memory at most once, the compare and swap of the header or
--     an element of the waiting fifo, and the steps of the CPUs come in any order; memory is
--     sequentially consistent. `clib_smp_lock_slow_path` and `clib_smp_unlock_slow_path` are the
--     steps from `lock_slow` and `unlock_slow` on. A failed ASSERT_AND_PANIC is `none`: the CPU
--     has no further step.
--   * Common has lists, order and arithmetic that the parts share, and Tests runs the theorems at
--     concrete inputs.
--
-- An operation that changes its argument returns the changed one. A failed ASSERT, a shift by 64
-- or more and a loop that ends its fuel are `none`. A loop over the set bits of a word has 65
-- rounds of fuel, one for each bit and one for the test that ends it; every other loop recurs on
-- the vector or on the number of words it has left.
--
-- The length of a vector is kept in 32 bits, as are the indices of fifos and streams. Where a fifo
-- or a stream grows, the model cuts the new length to 32 bits; elsewhere a vector is taken to be
-- shorter than 2^32, and its length does not wrap around. The memory under a
-- vector is not modelled (its alignment, its capacity and `_vec_resize` of clib/vec.c), so that
-- `vec_capacity` and the contents of new memory are arguments. Not modelled are the allocator,
-- formatting, system glue and assembly, which are not algorithms on these structures, and the
-- library's other parts: other hash tables, heaps, timing wheels, string
-- functions, the other random numbers and digests, graphs, the event log and ELF files.
-- Of clib/smp.h, the locks of readers and writers are left out, as is the null lock of one CPU.
-- Of serialization, pools, whole heaps and streams on files are left out; a floating point number
-- is the word of its bits.
pub mod Common
pub mod Bits
pub mod Word
pub mod Bitops
pub mod ByteOrder
pub mod Vec
pub mod Bitmap
pub mod Pool
pub mod Zvec
pub mod Fifo
pub mod Hash
pub mod Serialize
pub mod Smp
pub mod SparseVec
pub mod Stream
mod Tests
