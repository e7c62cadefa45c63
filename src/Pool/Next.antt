-- ===== src/Pool/Next.antt =====
-- `pool_next_index`, against `pool_is_free_index`.
use clib.Common.{
  ℕ, ◌+◌, ◌*◌, ◌/◌, ◌%◌, ◌^◌, ◌≤◌, ◌<◌, ◌≡◌, refl, sym, ◌⊎◌, inl, inr, ◌∙◌, true, false, length,
  not, ltb, arith, Bool-cases,
}
use mathlib.Core.Path.{subst}
use clib.Bitmap
use clib.Bitmap.{Bitmap}
use clib.Bitmap.Scan.{next_clear}
use clib.Bitmap.Search.{IsFirst}
use clib.Bitmap.Found.{next_clear-IsFirst}
use clib.Bitmap.View.{IsBitmap}
use clib.Pool.{Pool, next_index, is_free}
use clib.Word.{all_ones}

-- A word reads as zero past the end of the bitmap.
get-past : (b : Bitmap) (i : ℕ) → length b * 64 ≤ i → Bitmap.get b i ≡ false
unfolding Bitmap.get
get-past b i h = let e : ltb (i / 64) (length b) ≡ false = ground arith in rw e refl

module _ {ℓ} {A : Type ℓ} (p : Pool A) where
  -- The objects from `lo` on that are free, to the end of the bitmap's words.
  abbrev pub AllFree : ℕ → Type 0
  AllFree lo = (j : ℕ) → lo ≤ j → j < length p.free_bitmap * 64 → is_free p j ≡ true

  marked_free : (j : ℕ) → Bitmap.get p.free_bitmap j ≡ true → is_free p j ≡ true
  unfolding is_free
  marked_free j e = ground (arith, e)

  object_free : (j : ℕ) → j < length p.elts → is_free p j ≡ Bitmap.get p.free_bitmap j
  unfolding is_free
  object_free j h = ground arith

  past_free : (j : ℕ) → length p.elts ≤ j → is_free p j ≡ true
  unfolding is_free
  past_free j h = ground arith

  clear_first :
      (lo k : ℕ)
      → IsFirst (λ j. not (Bitmap.get p.free_bitmap j)) lo k
      → k < length p.elts
      → IsFirst (λ j. not (is_free p j)) lo k
  clear_first lo k f lt = record {
    holds = rw (object_free k lt) f.holds;
    from = f.from;
    before = λ j a b.
        let e : j < length p.elts = omega (arith, b, lt) in rw (object_free j e) (f.before j a b);
  }

  clear_past :
      (lo k : ℕ)
      → IsFirst (λ j. not (Bitmap.get p.free_bitmap j)) lo k
      → length p.elts ≤ k
      → (j : ℕ) → lo ≤ j
      → is_free p j ≡ true
  clear_past lo k f past j a = elim (Bool-cases (ltb j (length p.elts))) [
    | inl t ↦
        let e : j < k = ground (arith, t, past) in
        let b = f.before j a e in marked_free j (ground (arith, b))
    | inr u ↦ past_free j (ground (arith, u))
  ]

  -- Where the search of the bitmap ends, from an object on.
  found :
      (lo : ℕ)
      → lo < length p.elts
      → IsBitmap p.free_bitmap
      → (let k = next_clear p.free_bitmap lo in
          IsFirst (λ j. not (is_free p j)) lo k
          ⊎ ((length p.elts ≤ k) × ((j : ℕ) → lo ≤ j → is_free p j ≡ true))
          ⊎ ((k ≡ lo) × (lo < length p.free_bitmap * 64) × AllFree lo))
  found lo room words = elim (next_clear-IsFirst p.free_bitmap lo words) [
    | inl f ↦ elim (Bool-cases (ltb (next_clear p.free_bitmap lo) (length p.elts))) [
      | inl t ↦ inl (clear_first lo _ f (ground (arith, t)))
      | inr u ↦
          let past : length p.elts ≤ next_clear p.free_bitmap lo = ground (arith, u) in
          inr (inl (past, clear_past lo _ f past))
    ]
    | inr (all, e) ↦ elim (Bool-cases (ltb lo (length p.free_bitmap * 64))) [
      | inl t ↦ inr (inr (e, ground (arith, t), λ j a b. marked_free j (all j a b)))
      | inr u ↦
          let clear : is_free p lo ≡ false =
            object_free lo room ∙ get-past p.free_bitmap lo (ground (arith, u)) in
          inl (
            rw e (record {
              holds = rw clear refl;
              from = omega arith;
              before = λ j a b. absurd (omega (arith, a, b));
            }))
    ]
  ]

  -- For a pool whose free bits are words, and any word `i`, `~0` included, after which the
  -- addition starts again at 0, `pool_next_index` answers one of four. It answers `~0` where `i +
  -- 1` is past the pool. It answers the first index from `i + 1` on for which `pool_is_free_index`
  -- is false. It answers an index past the pool, and every later index is free. Or it answers `i +
  -- 1` itself, which is free as is every later index to the end of the words of the bitmap.
  pub next_index-IsFirst :
      (i : ℕ)
      → IsBitmap p.free_bitmap
      → (let lo = (i + 1) % 2 ^ 64 in
          let k = next_index p i in
          ((length p.elts ≤ lo) × (k ≡ all_ones))
          ⊎ IsFirst (λ j. not (is_free p j)) lo k
          ⊎ ((length p.elts ≤ k) × ((j : ℕ) → lo ≤ j → is_free p j ≡ true))
          ⊎ ((k ≡ lo) × (lo < length p.free_bitmap * 64) × AllFree lo))
  next_index-IsFirst i words = elim (Bool-cases (ltb lo (length p.elts))) [
    | inr f ↦ inl (ground (arith, f), unfold next_index in rw f refl)
    | inl t ↦
        let same : next_index p i ≡ next_clear p.free_bitmap lo = unfold next_index in rw t refl in
        inr (
          subst
            (λ (k : ℕ).
              IsFirst (λ j. not (is_free p j)) lo k
              ⊎ ((length p.elts ≤ k) × ((j : ℕ) → lo ≤ j → is_free p j ≡ true))
              ⊎ ((k ≡ lo) × (lo < length p.free_bitmap * 64) × AllFree lo))
            (sym same) (found lo (ground (arith, t)) words))
  ]
    where
      lo : ℕ
      lo = (i + 1) % 2 ^ 64
