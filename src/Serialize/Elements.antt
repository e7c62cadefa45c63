-- ===== src/Serialize/Elements.antt =====
-- The elements of vectors of integers, as bytes and back.
use clib.Common.{
  ℕ, zero, suc, ◌+◌, ◌*◌, ◌^◌, ◌<◌, ◌≡◌, refl, sym, ap, ◌∙◌, List, [], ◌∷◌, ◌++◌, length, take,
  drop, arith, All, length-append, take-exact, drop-exact, drop-add,
}
use native.Mathlib.Nat.{mod-eq_of_lt}
use clib.Serialize.{integer_bytes, integer_value}
use clib.Serialize.Integers.{IsIntegerSize, length-integer_bytes, integer_value-bytes}
use clib.Serialize.Vector.{vec_bytes, vec_elements, element, serialize_vec, unserialize_vec}
use clib.Stream.Compose.{Gets-map, Gets-same}
use clib.Stream.Data.{Puts, Gets, write-Puts, read-Gets}
use mathlib.Core.List.{append_assoc, append-nil}

-- A number that a word of `k` bytes holds.
abbrev pub Fits : ℕ → ℕ → Type 0
Fits k x = x < 2 ^ (8 * k)

flat_bytes : ℕ → List ℕ → List ℕ
flat_bytes k [] = []
flat_bytes k (a ∷ s) = integer_bytes a k ++ flat_bytes k s

vec_bytes-flat : (k : ℕ) (s : List ℕ) → vec_bytes k s ≡ flat_bytes k s
unfolding vec_bytes flat_bytes
vec_bytes-flat k [] = refl
vec_bytes-flat k (a ∷ []) = sym (append-nil (integer_bytes a k))
vec_bytes-flat k (a ∷ b ∷ []) =
    ap (λ t. integer_bytes a k ++ t) (sym (append-nil (integer_bytes b k)))
vec_bytes-flat k (a ∷ b ∷ c ∷ []) = simp (append_assoc, append-nil)
vec_bytes-flat k (a ∷ b ∷ c ∷ d ∷ s) = simp (append_assoc, vec_bytes-flat k s)

length-flat_bytes : (k : ℕ) (s : List ℕ) → IsIntegerSize k → length (flat_bytes k s) ≡ k * length s
unfolding flat_bytes
length-flat_bytes k [] h = omega arith
length-flat_bytes k (a ∷ s) h =
    length-append (integer_bytes a k) (flat_bytes k s)
    ∙ ap (λ t. t + length (flat_bytes k s)) (length-integer_bytes a k h)
    ∙ ap (λ t. k + t) (length-flat_bytes k s h)
    ∙ omega arith

pub length-vec_bytes :
    (k : ℕ) (s : List ℕ) → IsIntegerSize k → length (vec_bytes k s) ≡ k * length s
length-vec_bytes k s h = ap length (vec_bytes-flat k s) ∙ length-flat_bytes k s h

each_element : ℕ → ℕ → List ℕ → List ℕ
each_element k zero p = []
each_element k (suc n) p = element k p 0 ∷ each_element k n (drop k p)

element-drop : (k i : ℕ) (p : List ℕ) → element k (drop k p) i ≡ element k p (suc i)
element-drop k i p =
    ap (λ t. integer_value k (take k t))
      (sym (drop-add k (i * k) p) ∙ ap (λ (t : ℕ). drop t p) (omega arith))

first : (k : ℕ) (p : List ℕ) → element k p 0 ≡ integer_value k (take k p)
first k p =
    ap (λ (t : ℕ). integer_value k (take k (drop t p))) (let e : 0 * k ≡ 0 = omega arith in e)

second : (k : ℕ) (p : List ℕ) → element k (drop k p) 0 ≡ element k p 1
second k p = element-drop k 0 p

third : (k : ℕ) (p : List ℕ) → element k (drop k (drop k p)) 0 ≡ element k p 2
third k p = second k (drop k p) ∙ element-drop k 1 p

fourth : (k : ℕ) (p : List ℕ) → element k (drop k (drop k (drop k p))) 0 ≡ element k p 3
fourth k p = third k (drop k p) ∙ element-drop k 2 p

drop_four : (k : ℕ) (p : List ℕ) → drop (4 * k) p ≡ drop k (drop k (drop k (drop k p)))
drop_four k p =
    ap (λ (t : ℕ). drop t p) (let e : 4 * k ≡ k + (k + (k + k)) = omega arith in e)
    ∙ drop-add k (k + (k + k)) p
    ∙ drop-add k (k + k) (drop k p)
    ∙ drop-add k k (drop k (drop k p))

vec_elements-each : (k n : ℕ) (p : List ℕ) → vec_elements k n p ≡ each_element k n p
unfolding vec_elements each_element
vec_elements-each k zero p = refl
vec_elements-each k (suc zero) p = refl
vec_elements-each k (suc (suc zero)) p = ap (λ t. element k p 0 ∷ t ∷ []) (sym (second k p))
vec_elements-each k (suc (suc (suc zero))) p =
    ap (λ t. element k p 0 ∷ t ∷ element k p 2 ∷ []) (sym (second k p))
    ∙ ap (λ t. element k p 0 ∷ element k (drop k p) 0 ∷ t ∷ []) (sym (third k p))
vec_elements-each k (suc (suc (suc (suc n)))) p =
    ap (λ t. element k p 0 ∷ t ∷ element k p 2 ∷ element k p 3 ∷ vec_elements k n (drop (4 * k) p))
      (sym (second k p))
    ∙ ap
        (λ t.
          element k p 0
          ∷ element k (drop k p) 0
          ∷ t
          ∷ element k p 3
          ∷ vec_elements k n (drop (4 * k) p))
        (sym (third k p))
    ∙ ap (λ t. each_element k 3 p ++ t ∷ vec_elements k n (drop (4 * k) p)) (sym (fourth k p))
    ∙ ap (λ t. each_element k 4 p ++ t)
        (vec_elements-each k n (drop (4 * k) p) ∙ ap (each_element k n) (drop_four k p))

each_element-flat :
    (k : ℕ) (s : List ℕ)
    → IsIntegerSize k
    → All (Fits k) s
    → each_element k (length s) (flat_bytes k s) ≡ s
unfolding each_element flat_bytes
each_element-flat k [] h fit = refl
each_element-flat k (a ∷ s) h fit =
    let bytes = integer_bytes a k in
    let size = sym (length-integer_bytes a k h) in
    ap (λ t. t ∷ each_element k (length s) (drop k (bytes ++ flat_bytes k s)))
      (first k (bytes ++ flat_bytes k s)
        ∙ ap (integer_value k) (take-exact bytes (flat_bytes k s) k size)
        ∙ integer_value-bytes a k h
        ∙ mod-eq_of_lt fit.0)
    ∙ ap (λ t. a ∷ t)
        (ap (each_element k (length s)) (drop-exact bytes (flat_bytes k s) k size)
          ∙ each_element-flat k s h fit.1)

pub vec_elements-vec_bytes :
    (k : ℕ) (s : List ℕ)
    → IsIntegerSize k
    → All (Fits k) s
    → vec_elements k (length s) (vec_bytes k s) ≡ s
vec_elements-vec_bytes k s h fit =
    vec_elements-each k (length s) (vec_bytes k s)
    ∙ ap (each_element k (length s)) (vec_bytes-flat k s)
    ∙ each_element-flat k s h fit

pub serialize_vec-Puts : (k fuel : ℕ) (s : List ℕ) → Puts (serialize_vec k fuel s) (vec_bytes k s)
unfolding serialize_vec
serialize_vec-Puts k fuel s = write-Puts fuel (vec_bytes k s)

pub unserialize_vec-Gets :
    (k fuel : ℕ) (s : List ℕ)
    → IsIntegerSize k
    → All (Fits k) s
    → Gets (unserialize_vec k fuel (length s)) (vec_bytes k s) s
unfolding unserialize_vec
unserialize_vec-Gets k fuel s h fit =
    Gets-same (λ m. refl) (vec_elements-vec_bytes k s h fit)
      (Gets-map (vec_elements k (length s))
        (read-Gets fuel (length s * k) (vec_bytes k s) (length-vec_bytes k s h ∙ omega arith)))
