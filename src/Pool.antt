-- ===== src/Pool.antt =====
-- clib/pool.h: pools, vectors of objects with a free list. The header's bitmap has a bit for each
-- free index, and its vector holds the free indices, the last freed at the end. The null pool is
-- the empty one. An object is named by its index in the pool.
pub mod Invariant
pub mod Next
pub mod Put
use clib.Common.{
  ℕ, zero, suc, ◌+◌, ◌-◌, ◌*◌, ◌/◌, ◌%◌, ◌^◌, List, [], ◌∷◌, ◌++◌, Bool, true, false, not, ◌&&◌,
  length, get_or, take, ltb, ◌==◌, if◌then◌else◌, Option, none, some, bit_xor, replicate,
}
use clib.Word.{uword_bits, all_ones}
use clib.Bitops
use clib.Bitops.{min_log2}
use clib.Bitmap
use clib.Bitmap.{Bitmap}
use clib.Bitmap.Alu.{andnoti, ori}
use clib.Bitmap.Scan.{count_bits, next_clear}
use clib.Vec.{add1}
use clib.Vec

pub record Pool {ℓ} (A : Type ℓ) : Type ℓ where
  pub elts : List A
  pub free_bitmap : Bitmap
  pub free_indices : List ℕ

-- the assertion of `pool_validate` on each free index
all_marked : Bitmap → List ℕ → Bool
all_marked b [] = true
all_marked b (i ∷ is) = Bitmap.get b i && all_marked b is

module _ {ℓ} {A : Type ℓ} where
  -- `pool_validate`: whether all its assertions hold.
  unfoldable pub validate : Pool A → Bool
  unfolding all_marked
  validate p =
      count_bits p.free_bitmap == length p.free_indices && all_marked p.free_bitmap p.free_indices

  -- `pool_validate_index`: what is added is zeroed, and `zeroed` is that object.
  unfoldable pub validate_index : A → Pool A → ℕ → Pool A
  validate_index zeroed p i = record p {
    elts = Vec.validate zeroed p.elts i;
    free_bitmap = Bitmap.vec_validate p.free_bitmap (i / uword_bits);
  }

  -- `pool_elts`
  unfoldable pub elts : Pool A → ℕ
  elts p = length p.elts - length p.free_indices

  -- `pool_free_elts`, where `capacity` is what `vec_capacity` answers.
  unfoldable pub free_elts : ℕ → Pool A → ℕ
  free_elts capacity p = length p.free_indices + (capacity - length p.elts)

  -- `pool_get_aligned`: the index of the object, and the pool. `unset` is what memory holds where
  -- the vector grows.
  unfoldable pub get : A → Pool A → ℕ × Pool A
  get unset p =
      let l = length p.free_indices in
      let i = get_or p.free_indices (l - 1) 0 in
      if ltb 0 l
      then (
        i,
        record p {
          free_bitmap = andnoti p.free_bitmap i;
          free_indices = take (l - 1) p.free_indices;
        },
      )
      else (length p.elts, record p { elts = p.elts ++ unset ∷ [] })

  -- `pool_is_free_index`
  unfoldable pub is_free : Pool A → ℕ → Bool
  is_free p i = if ltb i (length p.elts) then Bitmap.get p.free_bitmap i else true

  -- `pool_put_index`; `none` if one of its two assertions fails.
  unfoldable pub put : Pool A → ℕ → Option (Pool A)
  put p i =
      if ltb i (length p.elts) && not (is_free p i)
      then some
          (record p { free_bitmap = ori p.free_bitmap i; free_indices = add1 p.free_indices i })
      else none

  -- `pool_elt_at_index`
  unfoldable pub elt_at_index : A → Pool A → ℕ → Option A
  elt_at_index d p i = if not (is_free p i) then some (get_or p.elts i d) else none

  -- `_pool_free`
  unfoldable pub free : Pool A → Pool A
  free p = record { elts = []; free_bitmap = []; free_indices = [] }

  -- `pool_next_index`
  unfoldable pub next_index : Pool A → ℕ → ℕ
  next_index p i =
      let rv = (i + 1) % 2 ^ 64 in
      if ltb rv (length p.elts) then next_clear p.free_bitmap rv else all_ones

  -- The values of `i` at which `pool_foreach_index` runs its body: `left` rounds from `i` on.
  unfoldable pub foreach_index_from : ℕ → Pool A → ℕ → List ℕ
  foreach_index_from zero p i = []
  foreach_index_from (suc left) p i =
      let rest = foreach_index_from left p (i + 1) in if not (is_free p i) then i ∷ rest else rest

  unfoldable pub foreach_index : Pool A → List ℕ
  foreach_index p = foreach_index_from (length p.elts) p 0

-- The regions `(lo, hi)` of `pool_foreach_region`, from the word `m` with index `i`, and the next
-- `lo`. Fuel is for the set bits of `m`; `in_bitmap` is `i < bl`.
unfoldable pub region_bits : ℕ → Bool → ℕ → ℕ → ℕ → ℕ → Option (List (ℕ × ℕ) × ℕ)
region_bits zero in_bitmap len i m lo = none
region_bits (suc fuel) in_bitmap len i m lo =
    let f = Bitops.first_set m in
    let hi = if in_bitmap then i * uword_bits + min_log2 f else len in
    let rest = region_bits fuel in_bitmap len i (bit_xor m f) (hi + 1) in
    if m == 0 then some ([], lo) else elim rest [
      | none ↦ none
      | some (regions, lo') ↦ some (if ltb lo hi then (lo, hi) ∷ regions else regions, lo')
    ]

-- `left` words of the bitmap from index `i` on, and then the round for `i = bl`.
unfoldable pub region_words : ℕ → Bitmap → ℕ → ℕ → ℕ → Option (List (ℕ × ℕ))
region_words zero b len i lo = elim (region_bits 65 false len i 1 lo) [
  | none ↦ none
  | some (regions, lo') ↦ some regions
]
region_words (suc left) b len i lo = elim (region_bits 65 true len i (get_or b i 0) lo) [
  | none ↦ none
  | some (regions, lo') ↦ elim (region_words left b len (i + 1) lo') [
    | none ↦ none
    | some more ↦ some (regions ++ more)
  ]
]

unfoldable pub foreach_region {ℓ} : {A : Type ℓ} → Pool A → Option (List (ℕ × ℕ))
foreach_region p = region_words (length p.free_bitmap) p.free_bitmap (length p.elts) 0 0
