-- ===== src/Common/Members.antt =====
-- Membership and distinctness in lists of numbers, as tests.
use Prim.Native.Nat.{ℕ, zero, suc, ◌+◌, ◌-◌, ◌<◌, ◌≤◌}
use mathlib.Core.Path.{◌≡◌, refl, ap}
use mathlib.Core.Bool.{Bool, true, false, ◌&&◌, ◌||◌}
use mathlib.Core.List.{List, [], ◌∷◌, ◌++◌}
use native.Mathlib.Omega.{arith}
use mathlib.Core.Bool.{not}
use mathlib.Core.Logic.{inl, inr}
use clib.Common.Tests.{◌==◌, if◌then◌else◌, Bool-cases}
use clib.Common.Lists.{length, get_or, take, length-append, get_or-append_right, take-length_append}

unfoldable pub member : ℕ → List ℕ → Bool
member a [] = false
member a (x ∷ xs) = x == a || member a xs

-- No element stands twice.
abbrev pub IsDistinct : List ℕ → Type 0
IsDistinct [] = Unit {0}
IsDistinct (x ∷ xs) = (member x xs ≡ false) × IsDistinct xs

pub member-append_one : (a x : ℕ) (xs : List ℕ) → member a (xs ++ x ∷ []) ≡ (x == a || member a xs)
unfolding member
member-append_one a x [] = refl
member-append_one a x (y ∷ xs) = ground (arith, member-append_one a x xs)

pub IsDistinct-append_one :
    (x : ℕ) (xs : List ℕ) → member x xs ≡ false → IsDistinct xs → IsDistinct (xs ++ x ∷ [])
unfolding member
IsDistinct-append_one x [] h d = (refl, tt)
IsDistinct-append_one x (y ∷ xs) h d =
    (ground (arith, member-append_one y x xs), IsDistinct-append_one x xs (ground arith) d.1)

pub IsDistinct-init :
    (x : ℕ) (xs : List ℕ) → IsDistinct (xs ++ x ∷ []) → IsDistinct xs × (member x xs ≡ false)
unfolding member
IsDistinct-init x [] d = (tt, refl)
IsDistinct-init x (y ∷ xs) d =
    let (r, m) = IsDistinct-init x xs d.1 in
    ((ground (arith, member-append_one y x xs), r), ground (arith, member-append_one y x xs))

-- A list that is not empty is its elements but the last, and the last.
pub take-last {ℓ} :
    {A : Type ℓ} (xs : List A) (d : A)
    → 0 < length xs
    → take (length xs - 1) xs ++ get_or xs (length xs - 1) d ∷ [] ≡ xs
take-last [] d h = elim h [ ]
take-last (x ∷ []) d h = refl
take-last (x ∷ y ∷ xs) d h =
    let e : suc (suc (length xs)) - 1 ≡ suc (suc (length xs) - 1) = omega arith in
    rw e (ap (λ t. x ∷ t) (take-last (y ∷ xs) d (omega arith)))

-- The list without the elements that are `a`.
without : ℕ → List ℕ → List ℕ
without a [] = []
without a (x ∷ xs) = if x == a then without a xs else x ∷ without a xs

member-without : (a i : ℕ) (xs : List ℕ) → member i (without a xs) ≡ (member i xs && not (a == i))
unfolding member without
member-without a i [] = refl
member-without a i (x ∷ xs) = ground (arith, member-without a i xs)

IsDistinct-without : (a : ℕ) (xs : List ℕ) → IsDistinct xs → IsDistinct (without a xs)
unfolding without
IsDistinct-without a [] d = tt
IsDistinct-without a (x ∷ xs) d = elim (Bool-cases (x == a)) [
  | inl e ↦ rw e (IsDistinct-without a xs d.1)
  | inr e ↦ rw e (ground (arith, member-without a x xs, d.0), IsDistinct-without a xs d.1)
]

length-without_absent :
    (a : ℕ) (xs : List ℕ) → member a xs ≡ false → length (without a xs) ≡ length xs
unfolding member without
length-without_absent a [] h = refl
length-without_absent a (x ∷ xs) h = ground (arith, length-without_absent a xs)

length-without : (a : ℕ) (xs : List ℕ) → IsDistinct xs → length xs ≤ suc (length (without a xs))
unfolding without
length-without a [] d = omega arith
length-without a (x ∷ xs) d = elim (Bool-cases (x == a)) [
  | inl e ↦
      rw e
        (let e' : x ≡ a = ground arith in omega (arith, length-without_absent a xs (rw (← e') d.0)))
  | inr e ↦ rw e (omega (arith, length-without a xs d.1))
]

-- A distinct list of numbers below `n` has at most `n` elements.
pub length-le_of_distinct :
    (n : ℕ) (xs : List ℕ) → IsDistinct xs → ((i : ℕ) → member i xs ≡ true → i < n) → length xs ≤ n
length-le_of_distinct n [] d h = omega arith
length-le_of_distinct zero (x ∷ xs) d h =
    absurd (omega (arith, h x (unfold member in ground arith)))
length-le_of_distinct (suc n) (x ∷ xs) d h = omega (
  arith,
  length-without n (x ∷ xs) d,
  length-le_of_distinct n (without n (x ∷ xs)) (IsDistinct-without n (x ∷ xs) d)
      (λ i m. ground (arith, h i, member-without n i (x ∷ xs))),
)

module _ {ℓ} {A : Type ℓ} (xs : List A) (x : A) where
  length-append_one : length (xs ++ x ∷ []) - 1 ≡ length xs
  length-append_one = omega (arith, length-append xs (x ∷ []))

  pub last-append_one : (d : A) → get_or (xs ++ x ∷ []) (length (xs ++ x ∷ []) - 1) d ≡ x
  last-append_one d =
      let e : length xs ≡ length xs + 0 = omega arith in
      rw (length-append_one, e) (get_or-append_right xs (x ∷ []) 0 d)

  pub init-append_one : take (length (xs ++ x ∷ []) - 1) (xs ++ x ∷ []) ≡ xs
  init-append_one = rw length-append_one (take-length_append xs (x ∷ []))
