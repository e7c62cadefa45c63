-- ===== src/Fifo/Add.antt =====
-- `clib_fifo_add1`, against the queue that the fifo holds.
use clib.Common.{
  ℕ, ◌%◌, ◌^◌, ◌+◌, ◌-◌, ◌<◌, ◌≡◌, inl, inr, refl, sym, ap, ◌∙◌, [], ◌∷◌, ◌++◌, ◌==◌, if◌then◌else◌,
  length, get_or, set, arith, Bool-cases, get_or_ext, get_or-append_left, get_or-append_right,
  length-append, length-set, get_or-set_self, get_or-set_ne, get_or-beyond,
}
use clib.Fifo.{Fifo, elts, free_elts, validate, foreach, advance_tail, add1}
use clib.Fifo.Contents.{IsFifo, wrap, length-foreach_from, get_or-foreach_from}
use native.Mathlib.Decide.{dec_lt, ℕ_discrete}

module _ {ℓ} {A : Type ℓ} where
  -- one element more, in a fifo with room for it
  pub appended : Fifo A → A → Fifo A
  appended f x = record {
    head_index = f.head_index;
    tail_index =
        if free_elts f - 1 == 0
        then f.head_index + length f.items
        else wrap (length f.items) (f.tail_index + 1);
    items = set f.items f.tail_index x;
  }

  pub length-appended : (f : Fifo A) (x : A) → length (appended f x).items ≡ length f.items
  unfolding appended
  length-appended f x = length-set f.items f.tail_index x

  pub add1-eq :
      (d : A) (f : Fifo A) (x : A)
      → (let g = validate d f 1 in g.head_index + length g.items < 2 ^ 32)
      → add1 d f x ≡ appended (validate d f 1) x
  unfolding add1 advance_tail appended
  add1-eq d f x h =
      let g = validate d f 1 in
      let e : (g.head_index + length g.items) % 2 ^ 32 ≡ g.head_index + length g.items =
        omega (arith, h) in
      rw e refl

  module _ (d : A) (f : Fifo A) (x : A) (v : IsFifo f) (room : elts f < length f.items) where
    head_below : f.head_index < length f.items
    head_below = omega (arith, v.head_fits)

    tail-eq : f.tail_index ≡ wrap (length f.items) (f.head_index + elts f)
    unfolding elts
    tail-eq = elim v.tail_fits [
      | inl e ↦ ground (arith, head_below, e)
      | inr e ↦ ground (arith, head_below, e, room)
    ]

    tail_below : f.tail_index < length f.items
    tail_below = ground (arith, tail-eq, head_below, room)

    elts-appended : elts (appended f x) ≡ elts f + 1
    unfolding appended free_elts elts
    elts-appended = ground (arith, head_below, tail_below, room, length-set f.items f.tail_index x)

    pub appended-IsFifo : IsFifo (appended f x)
    unfolding appended
    appended-IsFifo = record {
      head_fits = omega (arith, v.head_fits, length-set f.items f.tail_index x);
      tail_fits = elim (Bool-cases (free_elts f - 1 == 0)) [
        | inl e ↦ rw (e, length-set f.items f.tail_index x) (inr refl)
        | inr e ↦ rw (e, length-set f.items f.tail_index x) (inl (ground (arith, tail_below)))
      ];
    }

    get_or-appended :
        (j : ℕ)
        → j < elts f + 1
        → get_or (foreach d (appended f x)) j d
          ≡ get_or (set f.items f.tail_index x) (wrap (length f.items) (f.head_index + j)) d
    unfolding foreach appended
    get_or-appended j h =
        get_or-foreach_from d (elts (appended f x)) f.head_index (set f.items f.tail_index x) j
          (omega (arith, head_below, length-set f.items f.tail_index x))
          (omega (arith, elts-appended, length-set f.items f.tail_index x))
          (omega (arith, elts-appended))
        ∙ rw (length-set f.items f.tail_index x) refl

    length-foreach : length (foreach d f) ≡ elts f
    unfolding foreach
    length-foreach = length-foreach_from d (elts f) f.head_index f.items

    length-foreach-appended : length (foreach d (appended f x)) ≡ elts f + 1
    unfolding foreach
    length-foreach-appended = length-foreach_from d (elts (appended f x)) _ _ ∙ elts-appended

    before :
        (j : ℕ)
        → j < elts f
        → get_or (foreach d (appended f x)) j d ≡ get_or (foreach d f ++ x ∷ []) j d
    before j h =
        get_or-appended j (omega arith)
        ∙ get_or-set_ne f.items f.tail_index _ x d
            (λ q. ground (arith, q, tail-eq, head_below, room))
        ∙ sym (old j h)
        ∙ sym (get_or-append_left (foreach d f) (x ∷ []) j d (omega (arith, length-foreach)))
      where
        old :
            (j : ℕ)
            → j < elts f
            → get_or (foreach d f) j d ≡ get_or f.items (wrap (length f.items) (f.head_index + j)) d
        old j h =
            unfold foreach in
            get_or-foreach_from d (elts f) f.head_index f.items j head_below (omega (arith, room)) h

    at_end :
        get_or (foreach d (appended f x)) (elts f) d ≡ get_or (foreach d f ++ x ∷ []) (elts f) d
    at_end =
        get_or-appended (elts f) (omega arith)
        ∙ rw (← tail-eq) (get_or-set_self f.items f.tail_index x d tail_below)
        ∙ sym (get_or-append_right (foreach d f) (x ∷ []) 0 d)
        ∙ ap (λ (t : ℕ). get_or (foreach d f ++ x ∷ []) t d) (omega (arith, length-foreach))

    pub foreach-appended : foreach d (appended f x) ≡ foreach d f ++ x ∷ []
    foreach-appended =
        get_or_ext _ _ d
          (omega
            (arith, length-foreach-appended, length-append (foreach d f) (x ∷ []), length-foreach))
          (λ j. elim (dec_lt j (elts f)) [
            | yes p ↦ before j p
            | no p ↦ elim (ℕ_discrete j (elts f)) [
              | yes e ↦ rw e at_end
              | no ne ↦
                  get_or-beyond (foreach d (appended f x)) j d
                    (omega (arith, length-foreach-appended))
                  ∙ sym (
                      get_or-beyond (foreach d f ++ x ∷ []) j d
                        (omega (arith, length-append (foreach d f) (x ∷ []), length-foreach)))
            ]
          ])
