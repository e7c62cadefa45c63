-- ===== src/Tests/Fifos.antt =====
-- The theorems on fifos at concrete inputs.
use clib.Common.{◌≤◌, ◌^◌, length, ℕ, ◌++◌, ◌≡◌, refl, inr, [], ◌∷◌, some, arith}
use clib.Fifo.{Fifo, elts, foreach, foreach_from, add1, sub1}
use clib.Fifo.Contents.{IsFifo, sub1-foreach}
use clib.Fifo.Queue.{add1-foreach}

-- A full fifo, which starts inside its vector: 8, 9 and 7.
abbrev full : Fifo ℕ
full = record { head_index = 1; tail_index = 4; items = 7 ∷ 8 ∷ 9 ∷ [] }

full-IsFifo : IsFifo full
full-IsFifo = record { head_fits = omega arith; tail_fits = inr refl }

full-elts : elts full ≡ 3
unfolding elts
full-elts = refl

full-foreach : foreach 0 full ≡ 8 ∷ 9 ∷ 7 ∷ []
unfolding foreach foreach_from elts
full-foreach = refl

add1-foreach_example :
    (foreach 0 (add1 0 full 5) ≡ foreach 0 full ++ 5 ∷ [])
    × IsFifo (add1 0 full 5)
    × (length (add1 0 full 5).items ≤ 2 ^ 31)
add1-foreach_example = add1-foreach 0 full 5 full-IsFifo (omega (arith, full-elts)) (omega arith)

sub1-foreach_example :
    (x : ℕ) × (f' : Fifo ℕ) × (sub1 0 full ≡ some (x, f'))
    × (foreach 0 full ≡ x ∷ foreach 0 f')
    × IsFifo f'
sub1-foreach_example = sub1-foreach 0 full full-IsFifo (omega (arith, full-elts))
