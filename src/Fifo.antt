-- ===== src/Fifo.antt =====
-- clib/fifo.h and clib/fifo.c: first in/first out queues in a circular vector. The two indices of
-- the header and the vector are a record, and the null fifo is the empty one. Where the fifo is
-- full the tail index is the head index plus the length. The indices and the length of the vector
-- are kept in 32 bits; arithmetic on them is of words. What is removed is counted by a number that
-- is not negative.
pub mod Add
pub mod Contents
pub mod Queue
pub mod Resize
use clib.Common.{
  ℕ, zero, suc, ◌+◌, ◌-◌, ◌%◌, ◌^◌, List, [], ◌∷◌, ◌++◌, Bool, not, ◌&&◌, leb, ltb, ◌==◌,
  if◌then◌else◌, length, get_or, set, take, drop, replicate, Option, none, some, ◌>>=◌,
}
use clib.Bitops.{max_pow2}

pub record Fifo {ℓ} (A : Type ℓ) : Type ℓ where
  pub head_index : ℕ
  pub tail_index : ℕ
  pub items : List A

module _ {ℓ} {A : Type ℓ} where
  -- `clib_fifo_elts`
  unfoldable pub elts : Fifo A → ℕ
  elts f =
      if ltb f.tail_index f.head_index
      then f.tail_index + length f.items - f.head_index
      else f.tail_index - f.head_index

  -- `clib_fifo_free_elts`
  unfoldable pub free_elts : Fifo A → ℕ
  free_elts f = length f.items - elts f

  -- `clib_fifo_reset`
  unfoldable pub reset : Fifo A → Fifo A
  reset f = record { head_index = 0; tail_index = 0; items = [] }

  -- The elements that `_clib_fifo_resize` copies, in one part or two.
  unfoldable pub copied : Fifo A → List A
  copied f =
      let n = elts f in
      let n_first = length f.items - f.head_index in
      if ltb 0 n
      then (if leb (length f.items) (f.head_index + n)
          then take n_first (drop f.head_index f.items) ++ take (n - n_first) f.items
          else take n (drop f.head_index f.items))
      else []

  -- The new length in `_clib_fifo_resize`.
  unfoldable pub resized_len : Fifo A → ℕ → ℕ
  resized_len f n_new_elts = let n = n_new_elts + elts f in if ltb n 32 then 32 else max_pow2 n

  -- `_clib_fifo_resize`, with what empty space is set to.
  unfoldable pub resize : A → Fifo A → ℕ → Fifo A
  resize empty f n_new_elts = record {
    head_index = 0;
    tail_index = elts f % 2 ^ 32;
    items =
        take (resized_len f n_new_elts % 2 ^ 32)
          (copied f ++ replicate (resized_len f n_new_elts - elts f) empty);
  }

  -- `_clib_fifo_validate`
  unfoldable pub validate : A → Fifo A → ℕ → Fifo A
  validate empty f n_elts = if ltb (free_elts f) n_elts then resize empty f n_elts else f

  -- `_clib_fifo_advance_tail`, for a count that is not negative: the index and the fifo.
  unfoldable pub advance_tail : A → Fifo A → ℕ → ℕ × Fifo A
  advance_tail empty f n_elts =
      let f1 = validate empty f n_elts in
      let n_free = free_elts f1 - n_elts in
      let l = length f1.items in
      let n = f1.tail_index + n_elts in
      let tail =
        if n_free == 0 then (f1.head_index + l) % 2 ^ 32 else if leb l n then n - l else n in
      (if ltb 0 n_elts then f1.tail_index else tail, record f1 { tail_index = tail })

  -- `clib_fifo_advance_head`: the index and the fifo; `none` if an assertion fails.
  unfoldable pub advance_head : Fifo A → ℕ → Option (ℕ × Fifo A)
  advance_head f n_elts =
      let l = length f.items in
      let tail = if f.tail_index == f.head_index + l then f.head_index else f.tail_index in
      let n = f.head_index + n_elts in
      let head = if leb l n then n - l else n in
      if leb n_elts (elts f) && ltb head l
      then some (f.head_index, record f { head_index = head; tail_index = tail })
      else none

  -- `clib_fifo_add1`
  unfoldable pub add1 : A → Fifo A → A → Fifo A
  add1 empty f e = let (i, f1) = advance_tail empty f 1 in record f1 { items = set f1.items i e }

  -- `memcpy` of elements into a vector.
  unfoldable pub copy_to : List A → ℕ → List A → List A
  copy_to xs i [] = xs
  copy_to xs i (e ∷ es) = copy_to (set xs i e) (i + 1) es

  -- `clib_fifo_add` of all elements of a vector.
  unfoldable pub add : A → Fifo A → List A → Fifo A
  add empty f e =
      let (i, f1) = advance_tail empty f (length e) in
      let l = length f1.items in
      let n1 = i + length e - l in
      let n0 = length e - n1 in
      record f1 { items = copy_to (copy_to f1.items i (take n0 e)) 0 (drop n0 e) }

  -- `clib_fifo_sub1`
  unfoldable pub sub1 : A → Fifo A → Option (A × Fifo A)
  sub1 d f = advance_head f 1 >>= λ (i, f1). some (get_or f1.items i d, f1)

  -- `clib_fifo_elt_index`
  unfoldable pub elt_index : Fifo A → ℕ → Option ℕ
  elt_index f i =
      let result = f.head_index + i in
      let l = length f.items in
      if ltb i (elts f) then some (if leb l result then result - l else result) else none

  -- `clib_fifo_index_for_elt_index`; the assertion at its end is not computed.
  unfoldable pub index_for_elt_index : Fifo A → ℕ → ℕ
  index_for_elt_index f ei =
      if ltb ei f.head_index then ei + length f.items - f.head_index else ei - f.head_index

  -- The elements that `n` rounds of `clib_fifo_foreach` visit, from index `i` on.
  unfoldable pub foreach_from : A → ℕ → ℕ → List A → List A
  foreach_from d zero i items = []
  foreach_from d (suc n) i items =
      let next = if leb (length items) (i + 1) then 0 else i + 1 in
      get_or items i d ∷ foreach_from d n next items

  -- `clib_fifo_foreach`: the elements that it visits, in order.
  unfoldable pub foreach : A → Fifo A → List A
  foreach d f = foreach_from d (elts f) f.head_index f.items
