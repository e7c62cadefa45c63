-- ===== src/Pool/Put.antt =====
-- What `pool_put` does, and `pool_get` after it.
use clib.Common.{
  ℕ, ◌+◌, ◌<◌, ◌≤◌, ◌≡◌, refl, ◌∙◌, [], ◌∷◌, ◌++◌, true, false, length, ltb, ◌==◌, if◌then◌else◌,
  none, some, arith, member, member-append_one, IsDistinct-append_one, length-append, Bool-cases,
  inl, inr, lt→ltb, last-append_one, init-append_one,
}
use clib.Bitmap
use clib.Bitmap.{Bitmap}
use clib.Bitmap.Alu.{andnoti, ori}
use clib.Bitmap.BitLaws.{ori-IsBitmap, get-ori, get-andnoti}
use clib.Vec.{add1}
use clib.Pool.{Pool, get, put, is_free, elts}
use clib.Pool.Invariant.{IsPool, IsPool-room, popped, top, get-cases}
use mathlib.Core.Path.{ap₂}

module _ {ℓ} {A : Type ℓ} where
  freed : Pool A → ℕ → Pool A
  freed p i = record p { free_bitmap = ori p.free_bitmap i; free_indices = add1 p.free_indices i }

  live-lt : (p : Pool A) (i : ℕ) → is_free p i ≡ false → i < length p.elts
  unfolding is_free
  live-lt p i live = ground arith

  live-absent :
      (p : Pool A) (i : ℕ) → IsPool p → is_free p i ≡ false → member i p.free_indices ≡ false
  unfolding is_free
  live-absent p i v live = ground (arith, v.agree i)

  put-live : (p : Pool A) (i : ℕ) → is_free p i ≡ false → put p i ≡ some (freed p i)
  unfolding put freed
  put-live p i live = rw (lt→ltb i (length p.elts) (live-lt p i live), live)

  freed-IsPool : (p : Pool A) (i : ℕ) → IsPool p → is_free p i ≡ false → IsPool (freed p i)
  unfolding freed add1
  freed-IsPool p i v live = record {
    words = ori-IsBitmap p.free_bitmap i v.words;
    distinct = IsDistinct-append_one i p.free_indices (live-absent p i v live) v.distinct;
    agree = λ j.
        get-ori p.free_bitmap i j v.words
        ∙ ground (arith, member-append_one j i p.free_indices, v.agree j);
    inside =
        λ j m. ground (arith, member-append_one j i p.free_indices, v.inside j, live-lt p i live);
  }

  is_free-freed :
      (p : Pool A) (i j : ℕ)
      → IsPool p
      → is_free (freed p i) j ≡ (if i == j then true else is_free p j)
  unfolding freed is_free
  is_free-freed p i j v = ground (arith, get-ori p.free_bitmap i j v.words)

  elts-freed : (p : Pool A) (i : ℕ) → IsPool p → is_free p i ≡ false → elts (freed p i) + 1 ≡ elts p
  unfolding elts freed add1
  elts-freed p i v live =
      let room : length (p.free_indices ++ i ∷ []) ≤ length p.elts =
        IsPool-room (freed p i) (freed-IsPool p i v live) in
      omega (arith, length-append p.free_indices (i ∷ []), room)

  -- For a live index of a pool that keeps the invariant, `pool_put` succeeds. It keeps the
  -- invariant, frees that object and no other, takes one from `pool_elts`, and moves no object.
  pub put_lem :
      (p : Pool A) (i : ℕ)
      → IsPool p
      → is_free p i ≡ false
      → (p' : Pool A) × (put p i ≡ some p')
        × IsPool p'
        × ((j : ℕ) → is_free p' j ≡ (if i == j then true else is_free p j))
        × (elts p' + 1 ≡ elts p)
        × (p'.elts ≡ p.elts)
  put_lem p i v live = (
    freed p i,
    put-live p i live,
    freed-IsPool p i v live,
    λ j. is_free-freed p i j v,
    elts-freed p i v live,
    unfold freed in refl,
  )

  -- Of an index that is free or past the end an assertion of `pool_put` fails.
  pub put-free : (p : Pool A) (i : ℕ) → is_free p i ≡ true → put p i ≡ none
  unfolding put
  put-free p i h = elim (Bool-cases (ltb i (length p.elts))) [ inl e ↦ rw (e, h) | inr e ↦ rw e ]

  top-freed : (p : Pool A) (i : ℕ) → (top (freed p i) ≡ i) × (popped (freed p i) ≡ p.free_indices)
  unfolding freed add1
  top-freed p i = (last-append_one p.free_indices i 0, init-append_one p.free_indices i)

  get-freed :
      (unset : A) (p : Pool A) (i : ℕ)
      → get unset (freed p i) ≡ (i, record p { free_bitmap = andnoti (ori p.free_bitmap i) i })
  get-freed unset p i = elim (get-cases unset (freed p i)) [
    | inl (h, e) ↦
        e
        ∙ unfold freed in
          ap₂
            (λ t is.
              (t, record p { free_bitmap = andnoti (ori p.free_bitmap i) t; free_indices = is }))
            (unfold freed in (top-freed p i).0) (unfold freed in (top-freed p i).1)
    | inr (h, e) ↦
        let l : length (p.free_indices ++ i ∷ []) ≡ 0 = unfold freed add1 in h in
        absurd (omega (arith, length-append p.free_indices (i ∷ [])))
  ]

  -- In a pool that keeps the invariant, the live object that `pool_put` frees is the one that
  -- `pool_get` returns next, and the pool then has the objects, the free indices and the free bits
  -- it had.
  pub get-put :
      (unset : A) (p : Pool A) (i : ℕ)
      → IsPool p
      → is_free p i ≡ false
      → (p' : Pool A) × (put p i ≡ some p')
        × ((get unset p').0 ≡ i)
        × ((get unset p').1.elts ≡ p.elts)
        × ((get unset p').1.free_indices ≡ p.free_indices)
        × ((j : ℕ) → Bitmap.get (get unset p').1.free_bitmap j ≡ Bitmap.get p.free_bitmap j)
  get-put unset p i v live = (
    freed p i,
    put-live p i live,
    rw (get-freed unset p i) refl,
    rw (get-freed unset p i) refl,
    rw (get-freed unset p i) refl,
    λ j. rw (get-freed unset p i) (restored j),
  )
    where
      restored :
          (j : ℕ) → Bitmap.get (andnoti (ori p.free_bitmap i) i) j ≡ Bitmap.get p.free_bitmap j
      restored j =
          get-andnoti (ori p.free_bitmap i) i j (ori-IsBitmap p.free_bitmap i v.words)
          ∙ ground (arith, get-ori p.free_bitmap i j v.words, v.agree i, live-absent p i v live)
