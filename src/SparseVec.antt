-- ===== src/SparseVec.antt =====
-- clib/sparse_vec.h: vectors with few of their indices in use. A bitmap has a bit for each sparse
-- index in use, `member_counts` how many are in use before each word of the bitmap, and the vector
-- the elements in the order of their sparse indices, after an element for the indices not in use.
pub mod Count
pub mod Pair
use clib.Common.{
  ℕ, zero, suc, ◌+◌, ◌-◌, ◌*◌, ◌/◌, ◌%◌, ◌^◌, List, [], ◌∷◌, ◌++◌, Bool, true, false, not, ◌&&◌,
  ◌||◌, length, get_or, set, replicate, ltb, leb, ◌==◌, if◌then◌else◌, Option, none, some, bit_and,
  bit_or, to_ℕ,
}
use clib.Word.{uword_bits, add, sub, shl}
use clib.Bitops.{count_set_bits, is_pow2}
use clib.Vec

-- `sparse_vec_header_t` and the vector
pub record SparseVec {ℓ} (A : Type ℓ) : Type ℓ where
  pub elts : List A
  pub is_member_bitmap : List ℕ
  pub member_counts : List ℕ
  pub range_flags : List ℕ

-- What `sparse_vec_index_internal` answers, and stores at `insert`.
pub record Found {ℓ} (A : Type ℓ) : Type ℓ where
  pub index : ℕ
  pub inserted : Bool
  pub vec : SparseVec A

-- `member_counts[j] += 1` from index `i` on, of `u16`.
unfoldable pub count_up : List ℕ → ℕ → List ℕ
count_up [] i = []
count_up (c ∷ counts) zero = (c + 1) % 2 ^ 16 ∷ count_up counts zero
count_up (c ∷ counts) (suc i) = c ∷ count_up counts i

module _ {ℓ} {A : Type ℓ} where
  -- `sparse_vec_new`, where `unset` is what new memory holds.
  unfoldable pub new : A → ℕ → Option (SparseVec A)
  new unset sparse_index_bits =
      let n = 2 ^ (sparse_index_bits - 6) in
      if leb sparse_index_bits 16
      then some (record {
        elts = unset ∷ [];
        is_member_bitmap = replicate n 0;
        member_counts = replicate n 0;
        range_flags = [];
      })
      else none

  -- The assertions on the word of a sparse index.
  abbrev pub has_word : SparseVec A → ℕ → Bool
  has_word v i = ltb i (length v.is_member_bitmap) && ltb i (length v.member_counts)

  -- The bits below a sparse index in its word.
  unfoldable pub bits_below : SparseVec A → ℕ → ℕ
  bits_below v si =
      bit_and (get_or v.is_member_bitmap (si / uword_bits) 0) (sub (shl 1 (si % uword_bits)) 1)

  -- `d`, the number of members before a sparse index.
  unfoldable pub count_before : SparseVec A → ℕ → ℕ
  count_before v sparse_index =
      add (get_or v.member_counts (sparse_index / uword_bits) 0)
        (count_set_bits (bits_below v sparse_index))

  -- `(w & b) != 0`
  unfoldable pub is_member : SparseVec A → ℕ → Bool
  is_member v sparse_index =
      let w = get_or v.is_member_bitmap (sparse_index / uword_bits) 0 in
      not (bit_and w (shl 1 (sparse_index % uword_bits)) == 0)

  -- `is_member` under `maybe_range`; flags past the end of their vector are not known.
  unfoldable pub is_range_member : SparseVec A → ℕ → Bool → Option Bool
  is_range_member v sparse_index maybe_range =
      let d = count_before v sparse_index in
      let r = get_or v.range_flags d 0 in
      if maybe_range
      then (if ltb d (length v.range_flags)
          then some
              (if not (bit_and r 1 == 0) then not (bit_and r 2 == 0) else is_member v sparse_index)
          else none)
      else some (is_member v sparse_index)

  -- The change of the header for a sparse index that is not in use yet.
  unfoldable pub mark_member : SparseVec A → ℕ → SparseVec A
  mark_member v sparse_index =
      let i = sparse_index / uword_bits in
      let w = get_or v.is_member_bitmap i 0 in
      record v {
        is_member_bitmap = set v.is_member_bitmap i (bit_or w (shl 1 (sparse_index % uword_bits)));
        member_counts = count_up v.member_counts (i + 1);
      }

  -- `sparse_vec_index_internal`; `insert` is whether the pointer is not null.
  unfoldable pub index_internal : SparseVec A → ℕ → Bool → Bool → Option (Found A)
  index_internal v sparse_index maybe_range insert =
      let d = count_before v sparse_index in
      let found : Option (Found A) = elim (is_range_member v sparse_index maybe_range) [
        | none ↦ none
        | some member ↦ some (
            if insert
            then record {
              index = 1 + d;
              inserted = not member;
              vec = if member then v else mark_member v sparse_index;
            }
            else record {
              index = to_ℕ member + (if member then d else 0);
              inserted = false;
              vec = v;
            })
      ] in
      if has_word v (sparse_index / uword_bits) then found else none

  -- `sparse_vec_index`
  unfoldable pub index : SparseVec A → ℕ → Option ℕ
  index v sparse_index = elim (index_internal v sparse_index false false) [
    | none ↦ none
    | some found ↦ some found.index
  ]

  -- One of the two lookups of `sparse_vec_index2`, on `u32` : `speculates` is whether
  -- at most one bit is set below each index.
  unfoldable pub index_speculating : SparseVec A → ℕ → Bool → ℕ
  index_speculating v si speculates =
      let i = si / uword_bits in
      let v0 = bits_below v si in
      let one = to_ℕ (not (v0 == 0)) in
      let guess = (get_or v.member_counts i 0 + one) % 2 ^ 32 in
      let d = if speculates then guess else (guess + sub (count_set_bits v0) one) % 2 ^ 32 in
      (to_ℕ (is_member v si) + (if is_member v si then d else 0)) % 2 ^ 32

  -- `sparse_vec_index2`
  unfoldable pub index2 : SparseVec A → ℕ → ℕ → Option (ℕ × ℕ)
  index2 v si0 si1 =
      let speculates = is_pow2 (bits_below v si0) && is_pow2 (bits_below v si1) in
      if has_word v (si0 / uword_bits) && has_word v (si1 / uword_bits)
      then some (index_speculating v si0 speculates, index_speculating v si1 speculates)
      else none

  -- `sparse_vec_validate` of a vector that is not null: the index of the element. `zeroed` is a new
  -- element.
  unfoldable pub validate : A → SparseVec A → ℕ → Option (ℕ × SparseVec A)
  validate zeroed v i = elim (index_internal v i false true) [
    | none ↦ none
    | some found ↦ elim (Vec.insert_elts found.vec.elts (zeroed ∷ []) 1 found.index) [
      | none ↦ if found.inserted then none else some (found.index, found.vec)
      | some elts ↦
          some
            (found.index, if found.inserted then record (found.vec) { elts = elts } else found.vec)
    ]
  ]

  -- `sparse_vec_validate`, where `none` is the null vector.
  unfoldable pub validate_or_new : A → Option (SparseVec A) → ℕ → Option (ℕ × SparseVec A)
  validate_or_new zeroed (some v) i = validate zeroed v i
  validate_or_new zeroed none i = elim (new zeroed 16) [
    | none ↦ none
    | some v ↦ validate zeroed v i
  ]
