-- ===== src/Fifo/Contents.antt =====
-- The queue that a fifo holds: the elements that `clib_fifo_foreach` visits.
use clib.Common.{
  ℕ, zero, suc, ◌+◌, ◌-◌, ◌≤◌, ◌<◌, ◌≡◌, ◌⊎◌, inl, inr, refl, ap, ◌∙◌, List, ◌∷◌, true, ◌&&◌, leb,
  ltb, ◌==◌, if◌then◌else◌, length, get_or, some, arith,
}
use clib.Fifo.{Fifo, elts, foreach_from, foreach, advance_head, sub1}

pub record IsFifo {ℓ} {A : Type ℓ} (f : Fifo A) : Type 0 where
  pub head_fits : f.head_index ≤ length f.items - 1
  pub tail_fits :
      (f.tail_index ≤ length f.items - 1) ⊎ (f.tail_index ≡ f.head_index + length f.items)

-- An index past the end, taken around.
abbrev pub wrap : ℕ → ℕ → ℕ
wrap l i = if leb l i then i - l else i

module _ {ℓ} {A : Type ℓ} where
  pub elts-le : (f : Fifo A) → IsFifo f → elts f ≤ length f.items
  unfolding elts
  elts-le f v = elim v.tail_fits [
    | inl e ↦ ground (arith, v.head_fits, e)
    | inr e ↦ ground (arith, e)
  ]

  pub length-foreach_from :
      (d : A) (n i : ℕ) (items : List A) → length (foreach_from d n i items) ≡ n
  unfolding foreach_from
  length-foreach_from d zero i items = refl
  length-foreach_from d (suc n) i items = ap suc (length-foreach_from d n _ items)

  pub get_or-foreach_from :
      (d : A) (n i : ℕ) (items : List A) (j : ℕ)
      → i < length items
      → n ≤ length items
      → j < n
      → get_or (foreach_from d n i items) j d ≡ get_or items (wrap (length items) (i + j)) d
  unfolding foreach_from
  get_or-foreach_from d zero i items j hi hn hj = absurd (omega arith)
  get_or-foreach_from d (suc n) i items zero hi hn hj =
      ap (λ (t : ℕ). get_or items t d) (ground arith)
  get_or-foreach_from d (suc n) i items (suc j) hi hn hj =
      get_or-foreach_from d n _ items j (ground arith) (omega arith) (omega arith)
      ∙ ap (λ (t : ℕ). get_or items t d) (ground arith)

  removed : Fifo A → Fifo A
  removed f = record {
    head_index = wrap (length f.items) (f.head_index + 1);
    tail_index =
        if f.tail_index == f.head_index + length f.items then f.head_index else f.tail_index;
    items = f.items;
  }

  module _ (f : Fifo A) (v : IsFifo f) (pos : 0 < elts f) where
    head_below : f.head_index < length f.items
    head_below = omega (arith, elts-le f v, v.head_fits)

    elts-removed : elts f ≡ suc (elts (removed f))
    unfolding elts removed
    elts-removed = elim v.tail_fits [
      | inl e ↦ ground (arith, head_below, e, pos)
      | inr e ↦ ground (arith, head_below, e)
    ]

    removed-IsFifo : IsFifo (removed f)
    unfolding removed
    removed-IsFifo = record {
      head_fits = ground (arith, head_below);
      tail_fits = inl (elim v.tail_fits [
        | inl e ↦ ground (arith, head_below, e)
        | inr e ↦ ground (arith, head_below, e)
      ]);
    }

    sub1-eq : (d : A) → sub1 d f ≡ some (get_or f.items f.head_index d, removed f)
    unfolding sub1 advance_head removed
    sub1-eq d =
        let c : (leb 1 (elts f) && ltb (wrap (length f.items) (f.head_index + 1)) (length f.items))
            ≡ true =
          ground (arith, head_below) in
        rw c refl

    foreach-removed : (d : A) → foreach d f ≡ get_or f.items f.head_index d ∷ foreach d (removed f)
    unfolding foreach foreach_from removed
    foreach-removed d = rw elts-removed (
        ap (λ (t : ℕ). get_or f.items f.head_index d ∷ foreach_from d (elts (removed f)) t f.items)
          next)
      where
        next :
            (if leb (length f.items) (f.head_index + 1) then 0 else f.head_index + 1)
            ≡ wrap (length f.items) (f.head_index + 1)
        next = ground (arith, head_below)

  -- In a fifo whose indices keep the invariant and which is not empty, `clib_fifo_sub1` succeeds,
  -- answers the first of the elements that `clib_fifo_foreach` visits, leaves the others in their
  -- order, and keeps the invariant.
  pub sub1-foreach :
      (d : A) (f : Fifo A)
      → IsFifo f
      → 0 < elts f
      → (x : A) × (f' : Fifo A) × (sub1 d f ≡ some (x, f'))
        × (foreach d f ≡ x ∷ foreach d f')
        × IsFifo f'
  sub1-foreach d f v pos = (
    get_or f.items f.head_index d,
    removed f,
    sub1-eq f v pos d,
    foreach-removed f v pos d,
    removed-IsFifo f v pos,
  )
