-- ===== src/Vec.antt =====
-- The vector macros of clib/vec.h and clib/vec_bootstrap.h on which the other components stand.
-- A vector is the list of its elements; the null vector is the empty list. Where memory lies, and
-- how it grows (`_vec_resize`), is not modelled; `vec_validate` zeroes what it adds.
pub mod Laws
use clib.Common.{
  ℕ, zero, suc, ◌+◌, ◌-◌, List, [], ◌∷◌, ◌++◌, Bool, true, false, length, get_or, set, take, drop,
  replicate, ltb, leb, ◌==◌, if◌then◌else◌, Option, none, some, ◌&&◌, min, map,
}

module _ {ℓ} {A : Type ℓ} where
  -- `vec_validate_init_empty (v, i, init)`; at `init = 0` it is `vec_validate (v, i)`.
  unfoldable pub validate : A → List A → ℕ → List A
  validate init v i = if leb (length v) i then v ++ replicate (1 + (i - length v)) init else v

  -- `vec_add1 (v, e)`
  unfoldable pub add1 : List A → A → List A
  add1 v e = v ++ e ∷ []

  -- `vec_add (v, e, n)`
  unfoldable pub add : List A → List A → ℕ → List A
  add v e n = v ++ take n e

  -- `vec_pop (v)`: the last element and the shorter vector. On the empty vector the assertion fails.
  unfoldable pub pop : A → List A → Option (A × List A)
  pop d v = let l = length v in if ltb 0 l then some (get_or v (l - 1) d, take (l - 1) v) else none

  -- `vec_insert_elts (v, e, n, m)`; at `m > vec_len (v)` the assertion fails.
  unfoldable pub insert_elts : List A → List A → ℕ → ℕ → Option (List A)
  insert_elts v e n m = if leb m (length v) then some (take m v ++ (take n e ++ drop m v)) else none

  -- `vec_delete (v, n, m)` at `n + m <= vec_len (v)`: the elements behind the deleted ones move down.
  unfoldable pub delete : List A → ℕ → ℕ → List A
  delete v n m = take m v ++ drop (m + n) v

  -- What `vec_del1 (v, i)` is written to do: the last element takes the place of the deleted one.
  unfoldable pub del1 : A → List A → ℕ → List A
  del1 d v i =
      let l = length v - 1 in let v' = if ltb i l then set v i (get_or v l d) else v in take l v'

  -- `vec_append (v1, v2)` and `vec_prepend (v1, v2)`
  unfoldable pub append : List A → List A → List A
  append v1 v2 = v1 ++ v2

  unfoldable pub prepend : List A → List A → List A
  prepend v1 v2 = v2 ++ v1

  -- `vec_set (v, val)`
  unfoldable pub set_all : List A → A → List A
  set_all [] val = []
  set_all (x ∷ v) val = val ∷ set_all v val

-- `vec_zero (v)`
unfoldable pub zero_all : List ℕ → List ℕ
unfolding set_all
zero_all v = set_all v 0

-- `vec_is_equal (v1, v2)`: the lengths, then `memcmp`.
unfoldable pub same_elements : List ℕ → List ℕ → Bool
same_elements [] v2 = true
same_elements (x ∷ v1) [] = false
same_elements (x ∷ v1) (y ∷ v2) = x == y && same_elements v1 v2

unfoldable pub is_equal : List ℕ → List ℕ → Bool
unfolding same_elements
is_equal v1 v2 = length v1 == length v2 && same_elements v1 v2
