-- ===== src/Fifo/Resize.antt =====
-- `_clib_fifo_resize` keeps the queue and makes room, so that `clib_fifo_add1` appends always.
use clib.Common.{
  length-drop, take-all, ◌%◌, ℕ, zero, suc, ◌+◌, ◌-◌, ◌^◌, ◌≤◌, ◌<◌, ◌≡◌, inl, inr, refl, sym, ap,
  ◌∙◌, List, [], ◌∷◌, ◌++◌, true, leb, ltb, length, get_or, take, drop, replicate, arith,
  Bool-cases, get_or_ext, get_or-append_left, get_or-append_right, length-append, length-replicate,
  get_or-beyond, length-take,
}
use clib.Bitops.Log2.{max_pow2_bounds}
use clib.Fifo.{Fifo, elts, resize, resized_len, copied, foreach}
use clib.Fifo.Contents.{IsFifo, wrap, elts-le, length-foreach_from, get_or-foreach_from}
use native.Mathlib.Decide.{dec_lt}

module _ {ℓ} {A : Type ℓ} where
  -- What `_clib_fifo_resize` leaves if lengths fit in 32 bits.
  pub resized : A → Fifo A → ℕ → Fifo A
  resized d f n = record {
    head_index = 0;
    tail_index = elts f;
    items = copied f ++ replicate (resized_len f n - elts f) d;
  }

  get_or-drop : (n : ℕ) (xs : List A) (j : ℕ) (d : A) → get_or (drop n xs) j d ≡ get_or xs (n + j) d
  get_or-drop zero xs j d = ap (λ (t : ℕ). get_or xs t d) (omega arith)
  get_or-drop (suc n) [] j d = refl
  get_or-drop (suc n) (x ∷ xs) j d =
      get_or-drop n xs j d
      ∙ ap (λ (t : ℕ). get_or (x ∷ xs) t d) (let e : suc (n + j) ≡ suc n + j = omega arith in e)

  get_or-first :
      (n : ℕ) (xs : List A) (j : ℕ) (d : A) → j < n → get_or (take n xs) j d ≡ get_or xs j d
  get_or-first zero xs j d h = absurd (omega arith)
  get_or-first (suc n) [] j d h = refl
  get_or-first (suc n) (x ∷ xs) zero d h = refl
  get_or-first (suc n) (x ∷ xs) (suc j) d h = get_or-first n xs j d (omega arith)

  module _ (f : Fifo A) (v : IsFifo f) where
    length-copied : length (copied f) ≡ elts f
    unfolding copied
    length-copied = ground (
      arith,
      elts-le f v,
      v.head_fits,
      length-append (take (length f.items - f.head_index) (drop f.head_index f.items))
          (take (elts f - (length f.items - f.head_index)) f.items),
      length-take (length f.items - f.head_index) (drop f.head_index f.items),
      length-take (elts f - (length f.items - f.head_index)) f.items,
      length-take (elts f) (drop f.head_index f.items),
      length-drop f.head_index f.items,
    )

    n_first : ℕ
    n_first = length f.items - f.head_index

    length-first : length (take n_first (drop f.head_index f.items)) ≡ n_first
    unfolding n_first
    length-first = omega (
      arith,
      length-take (length f.items - f.head_index) (drop f.head_index f.items),
      length-drop f.head_index f.items,
    )

    -- the copied elements, in the part to the end of the vector and in the part around it
    get_or-around :
        (d : A) (j : ℕ)
        → j < elts f
        → get_or (take n_first (drop f.head_index f.items) ++ take (elts f - n_first) f.items) j d
          ≡ get_or f.items (wrap (length f.items) (f.head_index + j)) d
    unfolding n_first
    get_or-around d j h = elim (dec_lt j n_first) [
      | yes p ↦
          get_or-append_left (take n_first (drop f.head_index f.items)) _ j d
            (omega (arith, length-first))
          ∙ get_or-first n_first (drop f.head_index f.items) j d p
          ∙ get_or-drop f.head_index f.items j d
          ∙ ap (λ (t : ℕ). get_or f.items t d) (inside p)
      | no p ↦
          ap
            (λ (t : ℕ).
              get_or (take n_first (drop f.head_index f.items) ++ take (elts f - n_first) f.items) t
                d)
            (omega (arith, length-first))
          ∙ get_or-append_right (take n_first (drop f.head_index f.items)) _ (j - n_first) d
          ∙ get_or-first (elts f - n_first) f.items (j - n_first) d (omega arith)
          ∙ ap (λ (t : ℕ). get_or f.items t d) (outside (omega arith))
    ]
      where
        inside : j < n_first → f.head_index + j ≡ wrap (length f.items) (f.head_index + j)
        inside p = ground (arith, v.head_fits, elts-le f v)

        outside : n_first ≤ j → j - n_first ≡ wrap (length f.items) (f.head_index + j)
        outside p = ground (arith, v.head_fits, elts-le f v)

    get_or-copied :
        (d : A) (j : ℕ)
        → j < elts f
        → get_or (copied f) j d ≡ get_or f.items (wrap (length f.items) (f.head_index + j)) d
    unfolding copied n_first
    get_or-copied d j h =
        rw (positive h) (elim (Bool-cases (leb (length f.items) (f.head_index + elts f))) [
          | inl e ↦ rw e (get_or-around d j h)
          | inr e ↦ rw e (
              get_or-first (elts f) (drop f.head_index f.items) j d h
              ∙ get_or-drop f.head_index f.items j d
              ∙ ap (λ (t : ℕ). get_or f.items t d) (ground arith))
        ])
      where
        positive : j < elts f → ltb 0 (elts f) ≡ true
        positive h = ground arith

    module _ (d : A) (n : ℕ) (pos : 0 < n) (bound : n + elts f ≤ 2 ^ 31) where
      pub resized-small : resized_len f n ≤ 2 ^ 31
      unfolding resized_len
      resized-small = elim (Bool-cases (ltb (n + elts f) 32)) [
        | inl e ↦ rw e (omega arith)
        | inr e ↦ rw e (max_pow2_bounds 31 (n + elts f) (omega arith) (omega arith) bound).1
      ]

      pub resized-room : elts f + n ≤ resized_len f n
      unfolding resized_len
      resized-room =
          ground (arith, (max_pow2_bounds 31 (n + elts f) (omega arith) (omega arith) bound).0)

      pub length-resized : length (resized d f n).items ≡ resized_len f n
      unfolding resized
      length-resized = omega (
        arith,
        length-append (copied f) (replicate (resized_len f n - elts f) d),
        length-copied,
        length-replicate (resized_len f n - elts f) d,
        resized-room,
      )

      pub elts-resized : elts (resized d f n) ≡ elts f
      unfolding elts resized
      elts-resized = ground arith

      pub resized-IsFifo : IsFifo (resized d f n)
      unfolding resized
      resized-IsFifo = record {
        head_fits = omega arith;
        tail_fits = inl (omega (arith, length-resized, resized-room));
      }

      get_or-resized :
          (j : ℕ) → j < elts f → get_or (foreach d (resized d f n)) j d ≡ get_or (foreach d f) j d
      unfolding foreach resized
      get_or-resized j h =
          get_or-foreach_from d (elts (resized d f n)) 0 _ j
            (omega (arith, length-resized, resized-room))
            (omega (arith, elts-resized, length-resized, resized-room))
            (omega (arith, elts-resized))
          ∙ ap (λ (t : ℕ). get_or (resized d f n).items t d)
              (ground (arith, length-resized, resized-room))
          ∙ get_or-append_left (copied f) _ j d (omega (arith, length-copied))
          ∙ get_or-copied d j h
          ∙ sym (
              get_or-foreach_from d (elts f) f.head_index f.items j
                (omega (arith, v.head_fits, elts-le f v)) (elts-le f v) h)

      pub foreach-resized : foreach d (resized d f n) ≡ foreach d f
      foreach-resized =
          get_or_ext _ _ d (omega (arith, size (resized d f n), size f, elts-resized)) (λ j.
            elim (dec_lt j (elts f)) [
              | yes p ↦ get_or-resized j p
              | no p ↦
                  get_or-beyond (foreach d (resized d f n)) j d
                    (omega (arith, size (resized d f n), elts-resized))
                  ∙ sym (get_or-beyond (foreach d f) j d (omega (arith, size f)))
            ])
        where
          size : (g : Fifo A) → length (foreach d g) ≡ elts g
          size g = unfold foreach in length-foreach_from d (elts g) g.head_index g.items

      pub resize-resized : resize d f n ≡ resized d f n
      unfolding resize resized
      resize-resized =
          let whole : length (copied f ++ replicate (resized_len f n - elts f) d)
              ≡ resized_len f n =
            length-resized in
          let tail : elts f % 2 ^ 32 ≡ elts f = omega (arith, bound) in
          let len : resized_len f n % 2 ^ 32 ≡ resized_len f n = omega (arith, resized-small) in
          rw (tail, len)
            (ap (λ t. record { head_index = 0; tail_index = elts f; items = t })
              (take-all (resized_len f n) _ (omega (arith, whole))))
