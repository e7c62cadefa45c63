-- ===== src/Pool/Invariant.antt =====
-- What `pool_get` and `pool_put` keep of a pool, and what they change.
use clib.Common.{
  take-length, take-length_append, ℕ, ◌+◌, ◌-◌, ◌<◌, ◌≤◌, ◌≡◌, refl, sym, ap, ◌∙◌, List, [], ◌∷◌,
  ◌++◌, true, false, ◌||◌, length, get_or, take, ltb, ◌==◌, if◌then◌else◌, arith, member,
  IsDistinct, ◌⊎◌, member-append_one, IsDistinct-init, take-last, length-append, length-take,
  Bool-cases, inl, inr, length-le_of_distinct,
}
use clib.Bitmap
use clib.Bitmap.{Bitmap}
use clib.Bitmap.View.{IsBitmap}
use clib.Bitmap.Alu.{andnoti}
use clib.Bitmap.BitLaws.{andnoti-IsBitmap, get-andnoti}
use clib.Pool.{Pool, get, is_free, elts}

-- The two records of what is free agree, and name objects of the pool.
pub record IsPool {ℓ} {A : Type ℓ} (p : Pool A) : Type ℓ where
  pub words : IsBitmap p.free_bitmap
  pub distinct : IsDistinct p.free_indices
  pub agree : (i : ℕ) → Bitmap.get p.free_bitmap i ≡ member i p.free_indices
  pub inside : (i : ℕ) → member i p.free_indices ≡ true → i < length p.elts

empty-member : (xs : List ℕ) (i : ℕ) → length xs ≡ 0 → member i xs ≡ false
unfolding member
empty-member [] i h = refl
empty-member (x ∷ xs) i h = absurd (omega arith)

module _ {ℓ} {A : Type ℓ} where
  -- No more objects are free than there are.
  pub IsPool-room : (p : Pool A) → IsPool p → length p.free_indices ≤ length p.elts
  IsPool-room p v = length-le_of_distinct (length p.elts) p.free_indices v.distinct v.inside

  -- The stack of free indices, taken apart at its end.
  abbrev pub popped : Pool A → List ℕ
  popped p = take (length p.free_indices - 1) p.free_indices

  abbrev pub top : Pool A → ℕ
  top p = get_or p.free_indices (length p.free_indices - 1) 0

  split : (p : Pool A) → 0 < length p.free_indices → popped p ++ top p ∷ [] ≡ p.free_indices
  split p h = take-last p.free_indices 0 h

  member-popped :
      (p : Pool A) (i : ℕ)
      → IsPool p
      → 0 < length p.free_indices
      → (member i p.free_indices ≡ (top p == i || member i (popped p)))
        × (member (top p) (popped p) ≡ false)
        × IsDistinct (popped p)
  member-popped p i v h = (
    ap (member i) (sym (split p h)) ∙ member-append_one i (top p) (popped p),
    (IsDistinct-init (top p) (popped p) whole).1,
    (IsDistinct-init (top p) (popped p) whole).0,
  )
    where
      whole : IsDistinct (popped p ++ top p ∷ [])
      whole = rw (split p h) v.distinct

  pub get-cases :
      (unset : A) (p : Pool A)
      → ((0 < length p.free_indices)
          × (get unset p ≡ (
            top p,
            record p { free_bitmap = andnoti p.free_bitmap (top p); free_indices = popped p },
          )))
        ⊎ ((length p.free_indices ≡ 0)
            × (get unset p ≡ (length p.elts, record p { elts = p.elts ++ unset ∷ [] })))
  unfolding get
  get-cases unset p = elim (Bool-cases (ltb 0 (length p.free_indices))) [
    | inl e ↦ inl (ground arith, rw e)
    | inr e ↦ inr (ground arith, rw e)
  ]

  -- `pool_get` keeps the invariant: the bitmap and the vector of free indices agree, no index is
  -- twice in the vector, and each is of an object of the pool.
  pub get-IsPool : (unset : A) (p : Pool A) → IsPool p → IsPool (get unset p).1
  get-IsPool unset p v = elim (get-cases unset p) [
    | inl (h, e) ↦ rw e (record {
      words = andnoti-IsBitmap p.free_bitmap (top p) v.words;
      distinct = (member-popped p 0 v h).2;
      agree = λ i.
          get-andnoti p.free_bitmap (top p) i v.words
          ∙ ground (arith, member-popped p i v h, v.agree i);
      inside = λ i m. v.inside i (ground (arith, member-popped p i v h));
    })
    | inr (h, e) ↦ rw e (record {
      words = v.words;
      distinct = v.distinct;
      agree = v.agree;
      inside = λ i m. let e : true ≡ false = sym m ∙ empty-member p.free_indices i h in cc;
    })
  ]

  -- Of a pool that keeps the invariant, `pool_get` answers the index of an object that was free
  -- and is not free any more, and frees or takes no other.
  pub get-is_free :
      (unset : A) (p : Pool A) (j : ℕ)
      → IsPool p
      → let (i, p') = get unset p in
        (i < length p'.elts)
        × (is_free p i ≡ true)
        × (is_free p' j ≡ (if i == j then false else is_free p j))
  get-is_free unset p j v = elim (get-cases unset p) [
    | inl (h, e) ↦
        let m : member (top p) p.free_indices ≡ true =
          ground (arith, member-popped p (top p) v h) in
        rw e (
          v.inside (top p) m,
          unfold is_free in ground (arith, v.agree (top p), v.inside (top p)),
          unfold is_free in
              ground (arith, v.inside (top p), get-andnoti p.free_bitmap (top p) j v.words),
        )
    | inr (h, e) ↦ rw e (
      omega (arith, length-append p.elts (unset ∷ [])),
      unfold is_free in ground arith,
      unfold is_free in
          ground
            (arith, length-append p.elts (unset ∷ []), v.agree j, empty-member p.free_indices j h),
    )
  ]

  -- Of a pool that keeps the invariant, `pool_get` adds one to `pool_elts`, and the objects of the
  -- pool stay where and as they are: at most one is added after them.
  pub get-elts :
      (unset : A) (p : Pool A)
      → IsPool p
      → let (i, p') = get unset p in
        (elts p' ≡ elts p + 1) × (take (length p.elts) p'.elts ≡ p.elts)
  get-elts unset p v = elim (get-cases unset p) [
    | inl (h, e) ↦ rw e (
      unfold elts in
          (omega (arith, length-take (length p.free_indices - 1) p.free_indices, IsPool-room p v)),
      take-length p.elts,
    )
    | inr (h, e) ↦ rw e (
      unfold elts in (omega (arith, length-append p.elts (unset ∷ []), IsPool-room p v)),
      take-length_append p.elts (unset ∷ []),
    )
  ]
