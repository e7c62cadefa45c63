-- ===== src/Tests/SparseVecs.antt =====
-- Sparse vectors at concrete inputs.
use clib.Common.{ℕ, ◌≡◌, [], ◌∷◌, some, arith}
use clib.SparseVec.{SparseVec, index, index2}
use clib.SparseVec.Pair.{IsSparse, index2-index}
use mathlib.Core.Option.{bind}

-- The indices 3, 5, 6 and 70 are in use.
abbrev four_members : SparseVec ℕ
four_members = record {
  elts = 0 ∷ 30 ∷ 50 ∷ 60 ∷ 700 ∷ [];
  is_member_bitmap = 0b1101000 ∷ 0b1000000 ∷ [];
  member_counts = 0 ∷ 3 ∷ [];
  range_flags = [];
}

four_members-IsSparse : IsSparse four_members
four_members-IsSparse = record {
  words = (omega arith, (omega arith, tt));
  counts = (omega arith, (omega arith, tt));
}

index2-index_example :
    index2 four_members 6 70
    ≡ bind (index four_members 6) (λ i0. bind (index four_members 70) (λ i1. some (i0, i1)))
index2-index_example = index2-index four_members four_members-IsSparse 6 70
