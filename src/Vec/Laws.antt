-- ===== src/Vec/Laws.antt =====
-- What `vec_validate`, `vec_add1`, `vec_pop`, `vec_insert_elts` and `vec_delete` do to a vector.
use clib.Common.{
  take-length, take-length_append, ℕ, zero, suc, ◌+◌, ◌-◌, ◌<◌, ◌≤◌, ◌≡◌, refl, ap, List, [], ◌∷◌,
  ◌++◌, length, get_or, take, drop, replicate, leb, some, arith, All, All-append, All-replicate,
  length-append, length-replicate, get_or-append_right, get_or-replicate, Bool-cases, inl, inr,
}
use clib.Vec.{validate, add1, pop, insert_elts, delete}

module _ {ℓ} {A : Type ℓ} where
  pub length-validate : (init : A) (v : List A) (i : ℕ) → i < length (validate init v i)
  unfolding validate
  length-validate init v i = ground (
    arith,
    length-append v (replicate (1 + (i - length v)) init),
    length-replicate (1 + (i - length v)) init,
  )

  pub length-validate_le : (init : A) (v : List A) (i : ℕ) → length v ≤ length (validate init v i)
  unfolding validate
  length-validate_le init v i =
      ground (arith, length-append v (replicate (1 + (i - length v)) init))

  pub length-validate_of_lt : (init : A) (v : List A) (i : ℕ) → i < length v → validate init v i ≡ v
  unfolding validate
  length-validate_of_lt init v i h = ground arith

  pub length-validate_grown :
      (init : A) (v : List A) (i : ℕ) → length v ≤ i → length (validate init v i) ≡ suc i
  unfolding validate
  length-validate_grown init v i h = ground (
    arith,
    length-append v (replicate (1 + (i - length v)) init),
    length-replicate (1 + (i - length v)) init,
  )

  get_or-padded : (v : List A) (n j : ℕ) (d : A) → get_or (v ++ replicate n d) j d ≡ get_or v j d
  get_or-padded [] n j d = get_or-replicate n j d
  get_or-padded (x ∷ v) n zero d = refl
  get_or-padded (x ∷ v) n (suc j) d = get_or-padded v n j d

  -- A vector reads the same after `vec_validate`, where what lies beyond reads as the default.
  pub get_or-validate :
      (init : A) (v : List A) (i j : ℕ) → get_or (validate init v i) j init ≡ get_or v j init
  unfolding validate
  get_or-validate init v i j = ground (arith, get_or-padded v (1 + (i - length v)) j init)

  pub All-validate {κ} :
      (P : A → Type κ) (init : A) (v : List A) (i : ℕ)
      → All P v
      → P init
      → All P (validate init v i)
  unfolding validate
  All-validate P init v i h p = elim (Bool-cases (leb (length v) i)) [
    | inl e ↦ rw e (
        All-append P v (replicate (1 + (i - length v)) init)
          (All-replicate P (1 + (i - length v)) init p) h)
    | inr e ↦ rw e h
  ]

  -- `vec_pop` gives back what `vec_add1` put at the end, and the vector as it was.
  pub pop-add1 : (v : List A) (e d : A) → pop d (add1 v e) ≡ some (e, v)
  unfolding pop add1
  pop-add1 v e d =
      let l : length (v ++ e ∷ []) ≡ suc (length v) = omega (arith, length-append v (e ∷ [])) in
      let m : suc (length v) - 1 ≡ length v + 0 = omega arith in
      let z : length v + 0 ≡ length v = omega arith in
      ground (arith, l, m, z, get_or-append_right v (e ∷ []) 0 d, take-length_append v (e ∷ []))

  take-drop-insert : (v w : List A) (m : ℕ) → m ≤ length v → take m (take m v ++ w) ≡ take m v
  take-drop-insert v w zero h = refl
  take-drop-insert [] w (suc m) h = absurd (omega arith)
  take-drop-insert (x ∷ v) w (suc m) h = ap (λ t. x ∷ t) (take-drop-insert v w m (omega arith))

  drop-append : (v w : List A) → drop (length v) (v ++ w) ≡ w
  drop-append [] w = refl
  drop-append (x ∷ v) w = drop-append v w

  drop-inserted :
      (v e w : List A) (m : ℕ) → m ≤ length v → drop (m + length e) (take m v ++ (e ++ w)) ≡ w
  drop-inserted v e w zero h =
      let z : 0 + length e ≡ length e = omega arith in rw z (drop-append e w)
  drop-inserted [] e w (suc m) h = absurd (omega arith)
  drop-inserted (x ∷ v) e w (suc m) h =
      let z : suc m + length e ≡ suc (m + length e) = omega arith in
      rw z (drop-inserted v e w m (omega arith))

  take-append-drop : (n : ℕ) (xs : List A) → take n xs ++ drop n xs ≡ xs
  take-append-drop zero xs = refl
  take-append-drop (suc n) [] = refl
  take-append-drop (suc n) (x ∷ xs) = ap (λ t. x ∷ t) (take-append-drop n xs)

  -- For an index `m` within the vector, `vec_insert_elts` of a whole vector succeeds, the length
  -- grows by that of the vector, and `vec_delete` of as many elements at `m` gives the vector
  -- back.
  pub delete-insert_elts :
      (v e : List A) (m : ℕ)
      → m ≤ length v
      → (w : List A) × (insert_elts v e (length e) m ≡ some w)
        × (length w ≡ length v + length e)
        × (delete w (length e) m ≡ v)
  unfolding insert_elts delete
  delete-insert_elts v e m h = (
    take m v ++ (e ++ drop m v),
    ground (arith, take-length e),
    omega (
      arith,
      length-append (take m v) (e ++ drop m v),
      length-append e (drop m v),
      length-append (take m v) (drop m v),
      ap length (take-append-drop m v),
    ),
    rw (take-drop-insert v (e ++ drop m v) m h, drop-inserted v e (drop m v) m h)
        (take-append-drop m v),
  )
