-- ===== src/Stream/Copy.antt =====
-- Bytes copied into a buffer.
use clib.Common.{
  ℕ, ◌+◌, ◌≤◌, ◌≡◌, sym, ap, ◌∙◌, List, [], ◌++◌, length, take, drop, arith, length-append,
  length-take, length-drop, take-drop, take-exact,
}
use clib.Stream.{copy_to}
use mathlib.Core.List.{append_assoc}

pub length-copy_to :
    (b : List ℕ) (i : ℕ) (bs : List ℕ)
    → i + length bs ≤ length b
    → length (copy_to b i bs) ≡ length b
unfolding copy_to
length-copy_to b i bs h = omega (
  arith,
  length-append (take i b) (bs ++ drop (i + length bs) b),
  length-append bs (drop (i + length bs) b),
  length-take i b,
  length-drop (i + length bs) b,
)

pub take-copy_to :
    (b : List ℕ) (i : ℕ) (bs : List ℕ)
    → i ≤ length b
    → take (i + length bs) (copy_to b i bs) ≡ take i b ++ bs
unfolding copy_to
take-copy_to b i bs h =
    ap (take (i + length bs)) (sym (append_assoc (take i b) bs (drop (i + length bs) b)))
    ∙ take-exact (take i b ++ bs) (drop (i + length bs) b) (i + length bs)
        (omega (arith, length-append (take i b) bs, length-take i b))

pub copy_to-nil : (b : List ℕ) (i : ℕ) → copy_to b i [] ≡ b
unfolding copy_to
copy_to-nil b i = ap (λ (t : ℕ). take i b ++ drop t b) (omega arith) ∙ take-drop i b
