-- ===== src/Fifo/Queue.antt =====
-- A fifo as a queue.
use clib.Common.{
  ◌+◌, ◌^◌, ◌<◌, ◌≤◌, ◌≡◌, refl, ap, ◌∙◌, [], ◌∷◌, ◌++◌, false, ltb, length, arith, Bool-cases, inl,
  inr,
}
use clib.Fifo.{Fifo, elts, free_elts, validate, foreach, add1}
use clib.Fifo.Contents.{IsFifo}
use clib.Fifo.Add.{add1-eq, length-appended, foreach-appended, appended-IsFifo}
use clib.Fifo.Resize.{
  resize-resized, elts-resized, resized-IsFifo, foreach-resized, length-resized, resized-room,
  resized-small,
}

module _ {ℓ} {A : Type ℓ} where
  record IsRoomy (d : A) (f g : Fifo A) : Type ℓ where
    fifo : IsFifo g
    room : elts g < length g.items
    same : foreach d g ≡ foreach d f
    small : length g.items ≤ 2 ^ 31

  validate-IsRoomy :
      (d : A) (f : Fifo A)
      → IsFifo f
      → elts f < 2 ^ 31
      → length f.items ≤ 2 ^ 31
      → IsRoomy d f (validate d f 1)
  unfolding validate
  validate-IsRoomy d f v bound len = elim (Bool-cases (ltb (free_elts f) 1)) [
    | inl e ↦
        let fits : 1 + elts f ≤ 2 ^ 31 = omega (arith, bound) in
        rw (e, resize-resized f v d 1 (omega arith) fits)
          (record {
            fifo = resized-IsFifo f v d 1 (omega arith) fits;
            room = omega (
              arith,
              elts-resized f v d 1 (omega arith) fits,
              length-resized f v d 1 (omega arith) fits,
              resized-room f v d 1 (omega arith) fits,
            );
            same = foreach-resized f v d 1 (omega arith) fits;
            small = omega (
              arith,
              length-resized f v d 1 (omega arith) fits,
              resized-small f v d 1 (omega arith) fits,
            );
          })
    | inr e ↦ rw e (record { fifo = v; room = free_room e; same = refl; small = len })
  ]
    where
      free_room : ltb (free_elts f) 1 ≡ false → elts f < length f.items
      free_room e = unfold free_elts in ground (arith, e)

  -- In a fifo whose indices keep the invariant, in a vector of at most 2 ^ 31 elements of which
  -- fewer than 2 ^ 31 are in use, `clib_fifo_add1` puts the element after all those that
  -- `clib_fifo_foreach` visits, whether or not the vector is resized, keeps the invariant, and
  -- leaves a vector of at most 2 ^ 31 elements: no length or index that is kept in 32 bits wraps
  -- around.
  pub add1-foreach :
      (d : A) (f : Fifo A) (x : A)
      → IsFifo f
      → elts f < 2 ^ 31
      → length f.items ≤ 2 ^ 31
      → (foreach d (add1 d f x) ≡ foreach d f ++ x ∷ [])
        × IsFifo (add1 d f x)
        × (length (add1 d f x).items ≤ 2 ^ 31)
  add1-foreach d f x v bound len =
      let r = validate-IsRoomy d f v bound len in
      let g = validate d f 1 in
      let fits : g.head_index + length g.items < 2 ^ 32 =
        omega (arith, r.fifo.head_fits, r.room, r.small) in
      rw (add1-eq d f x fits) (
        foreach-appended d (validate d f 1) x r.fifo r.room ∙ ap (λ t. t ++ x ∷ []) r.same,
        appended-IsFifo d (validate d f 1) x r.fifo r.room,
        omega (arith, length-appended (validate d f 1) x, r.small),
      )
