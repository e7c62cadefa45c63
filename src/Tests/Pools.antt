-- ===== src/Tests/Pools.antt =====
-- The theorems on pools at concrete inputs.
use clib.Common.{
  ℕ, ◌+◌, ◌-◌, ◌^◌, ◌<◌, ◌≤◌, ◌⊎◌, not, ◌≡◌, refl, [], ◌∷◌, true, false, length, ◌==◌,
  if◌then◌else◌, arith, some, member,
}
use clib.Bitmap
use clib.Bitmap.Search.{IsFirst}
use clib.Pool.{Pool, get, put, is_free, elts, next_index}
use clib.Pool.Next.{next_index-IsFirst}
use clib.Pool.Invariant.{IsPool, get-IsPool, get-is_free}
use clib.Pool.Put.{put_lem, get-put}

-- Three objects, none of them free.
abbrev full : Pool ℕ
full = record { elts = 10 ∷ 11 ∷ 12 ∷ []; free_bitmap = []; free_indices = [] }

full-IsPool : IsPool full
unfolding member Bitmap.get
full-IsPool = record { words = tt; distinct = tt; agree = λ i. ground arith; inside = λ i m. cc }

get-IsPool_example : IsPool (get 0 full).1
get-IsPool_example = get-IsPool 0 full full-IsPool

get-is_free_example :
    let (i, p') = get 0 full in
    (i < length p'.elts)
    × (is_free full i ≡ true)
    × (is_free p' 1 ≡ (if i == 1 then false else is_free full 1))
get-is_free_example = get-is_free 0 full 1 full-IsPool

full-live : is_free full 1 ≡ false
unfolding is_free Bitmap.get
full-live = refl

put_lem_example :
    (p' : Pool ℕ) × (put full 1 ≡ some p')
    × IsPool p'
    × ((j : ℕ) → is_free p' j ≡ (if 1 == j then true else is_free full j))
    × (elts p' + 1 ≡ elts full)
    × (p'.elts ≡ full.elts)
put_lem_example = put_lem full 1 full-IsPool full-live

get-put_example :
    (p' : Pool ℕ) × (put full 1 ≡ some p')
    × ((get 0 p').0 ≡ 1)
    × ((get 0 p').1.elts ≡ full.elts)
    × ((get 0 p').1.free_indices ≡ full.free_indices)
    × ((j : ℕ) → Bitmap.get (get 0 p').1.free_bitmap j ≡ Bitmap.get full.free_bitmap j)
get-put_example = get-put 0 full 1 full-IsPool full-live

-- Object 1 is free, and the next one after object 0 is object 2.
abbrev gap : Pool ℕ
gap = record { elts = 10 ∷ 11 ∷ 12 ∷ []; free_bitmap = 2 ∷ []; free_indices = 1 ∷ [] }

-- From ~0 the search starts at object 0.
next_index-IsFirst_example :
    (let k = next_index gap (2 ^ 64 - 1) in
      ((3 ≤ 0) × (k ≡ 2 ^ 64 - 1))
      ⊎ IsFirst (λ j. not (is_free gap j)) 0 k
      ⊎ ((3 ≤ k) × ((j : ℕ) → 0 ≤ j → is_free gap j ≡ true))
      ⊎ ((k ≡ 0) × (0 < 64) × ((j : ℕ) → 0 ≤ j → j < 64 → is_free gap j ≡ true)))
next_index-IsFirst_example = next_index-IsFirst gap (2 ^ 64 - 1) (omega arith)
