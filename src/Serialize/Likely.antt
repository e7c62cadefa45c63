-- ===== src/Serialize/Likely.antt =====
-- The compact integers, through a stream and back.
use clib.Common.{
  ℕ, ◌+◌, ◌-◌, ◌*◌, ◌/◌, ◌%◌, ◌^◌, ◌<◌, ◌≤◌, ◌≡◌, refl, List, [], ◌∷◌, true, false, ltb, ◌==◌,
  if◌then◌else◌, length, arith, get_or, Bool-cases, inl, inr,
}
use mathlib.Core.Path.{subst}
use clib.ByteOrder.{store, load, host_to_little}
use clib.ByteOrder.Bytes.{length-store, load-store}
use clib.Serialize.{
  likely_small_bytes, serialize_likely_small_unsigned_integer,
  unserialize_likely_small_unsigned_integer, unserialize_rest,
  serialize_likely_small_signed_integer, unserialize_likely_small_signed_integer, sign_low,
  sign_back, is_negative,
}
use clib.Stream.Compose.{Gets-bind, Gets-ok, Gets-map, Gets-same, RoundTrip, round_trip}
use clib.Stream.Data.{Puts, Gets, write-Puts, read-Gets}

unserialize-rest :
    (fuel y x : ℕ) (ys : List ℕ)
    → Gets (unserialize_rest fuel y) ys x
    → Gets (unserialize_likely_small_unsigned_integer fuel) (y ∷ ys) x
unfolding unserialize_likely_small_unsigned_integer unserialize_rest
unserialize-rest fuel y x ys p =
    Gets-bind (λ q. unserialize_rest fuel (get_or q 0 0)) (read-Gets fuel 1 (y ∷ []) refl) p

one_byte : (fuel y x : ℕ) → y ≡ 1 + 2 * x → Gets (unserialize_rest fuel y) [] x
unfolding unserialize_rest
one_byte fuel y x e =
    let odd : (y % 2 == 1) ≡ true = ground arith in
    Gets-same (λ m. rw odd refl) (omega arith) (Gets-ok (y / 2))

two_bytes :
    (fuel y b x : ℕ)
    → y % 4 ≡ 2
    → 2 ^ 7 + (y / 4 + b * 2 ^ 6) ≡ x
    → Gets (unserialize_rest fuel y) (b ∷ []) x
unfolding unserialize_rest
two_bytes fuel y b x e sum =
    let even : (y % 2 == 1) ≡ false = ground arith in
    let odd : (y / 2 % 2 == 1) ≡ true = ground arith in
    Gets-same (λ m. rw (even, odd) refl) sum
      (Gets-map (λ q. 2 ^ 7 + (y / 4 + get_or q 0 0 * 2 ^ 6)) (read-Gets fuel 1 (b ∷ []) refl))

four_bytes :
    (fuel y b c d x : ℕ)
    → y % 8 ≡ 4
    → 2 ^ 7 + 2 ^ 14 + (y / 8 + b * 2 ^ 5 + c * 2 ^ 13 + d * 2 ^ 21) ≡ x
    → Gets (unserialize_rest fuel y) (b ∷ c ∷ d ∷ []) x
unfolding unserialize_rest
four_bytes fuel y b c d x e sum =
    let even : (y % 2 == 1) ≡ false = ground arith in
    let even2 : (y / 2 % 2 == 1) ≡ false = ground arith in
    let odd : (y / 4 % 2 == 1) ≡ true = ground arith in
    Gets-same (λ m. rw (even, even2, odd) refl) sum
      (Gets-map
        (λ q.
          2 ^ 7
          + 2 ^ 14
          + (y / 8 + get_or q 0 0 * 2 ^ 5 + get_or q 1 0 * 2 ^ 13 + get_or q 2 0 * 2 ^ 21))
        (read-Gets fuel 3 (b ∷ c ∷ d ∷ []) refl))

nine_bytes :
    (fuel x : ℕ) (bs : List ℕ) → length bs ≡ 8 → load bs ≡ x → Gets (unserialize_rest fuel 0) bs x
unfolding unserialize_rest host_to_little
nine_bytes fuel x bs e sum =
    subst (λ t. Gets (unserialize_rest fuel 0) bs t) sum (Gets-map load (read-Gets fuel 8 bs e))

pub likely_small-Gets :
    (fuel x : ℕ)
    → x < 2 ^ 64
    → Gets (unserialize_likely_small_unsigned_integer fuel) (likely_small_bytes x) x
unfolding likely_small_bytes store host_to_little
likely_small-Gets fuel x h =
    let r2 = x - 2 ^ 7 in
    let r4 = r2 - 2 ^ 14 in
    elim (Bool-cases (ltb x (2 ^ 7))) [
      | inl p ↦
          rw p (unserialize-rest fuel ((1 + 2 * x) % 256) x [] (one_byte fuel _ x (ground arith)))
      | inr p ↦ elim (Bool-cases (ltb r2 (2 ^ 14))) [
        | inl q ↦
            rw (p, q)
              (unserialize-rest fuel ((4 * r2 + 2) % 256) x _
                (two_bytes fuel _ _ x (omega arith) (ground arith)))
        | inr q ↦ elim (Bool-cases (ltb r4 (2 ^ 29))) [
          | inl r ↦
              rw (p, q, r)
                (unserialize-rest fuel ((8 * r4 + 4) % 256) x _
                  (four_bytes fuel _ _ _ _ x (omega arith) (ground arith)))
          | inr r ↦
              rw (p, q, r)
                (unserialize-rest fuel 0 x (store 8 x)
                  (nine_bytes fuel x (store 8 x) (length-store 8 x) (load-store 8 x h)))
        ]
      ]
    ]

pub length-likely_small_bytes : (x : ℕ) → length (likely_small_bytes x) ≤ 9
unfolding likely_small_bytes store
length-likely_small_bytes x = ground arith

pub likely_small-Puts :
    (fuel x : ℕ) → Puts (serialize_likely_small_unsigned_integer fuel x) (likely_small_bytes x)
unfolding serialize_likely_small_unsigned_integer
likely_small-Puts fuel x = write-Puts fuel (likely_small_bytes x)

-- For a number below `2 ^ 64` and at least 9 bytes of data, fewer than 2 ^ 32,
-- `unserialize_likely_small_unsigned_integer` reads all that
-- `serialize_likely_small_unsigned_integer` writes, in each of its four sizes, and answers the
-- number.
pub unserialize-serialize_likely_small :
    (fuel x : ℕ) (buffer : List ℕ)
    → x < 2 ^ 64
    → 9 ≤ length buffer
    → length buffer < 2 ^ 32
    → RoundTrip
        (serialize_likely_small_unsigned_integer fuel x)
        (unserialize_likely_small_unsigned_integer fuel)
        x
        (length (likely_small_bytes x))
        buffer
unserialize-serialize_likely_small fuel x buffer h room small =
    round_trip _ buffer small (likely_small-Puts fuel x) (likely_small-Gets fuel x h) refl
      (omega (arith, length-likely_small_bytes x, room))

-- For a word in two's complement and at least 9 bytes of data, fewer than 2 ^ 32,
-- `unserialize_likely_small_signed_integer` reads all that `serialize_likely_small_signed_integer`
-- writes, and answers the number if it is not negative, and the number plus one if it is.
pub unserialize-serialize_signed :
    (fuel s : ℕ) (buffer : List ℕ)
    → s < 2 ^ 64
    → 9 ≤ length buffer
    → length buffer < 2 ^ 32
    → RoundTrip
        (serialize_likely_small_signed_integer fuel s)
        (unserialize_likely_small_signed_integer fuel)
        (if is_negative s then (s + 1) % 2 ^ 64 else s)
        (length (likely_small_bytes (sign_low s)))
        buffer
unfolding serialize_likely_small_signed_integer unserialize_likely_small_signed_integer
unserialize-serialize_signed fuel s buffer h room small =
    round_trip _ buffer small (likely_small-Puts fuel (sign_low s))
      (Gets-same {b = sign_back (sign_low s)} (λ m. refl)
        (unfold sign_low sign_back in ground arith)
        (Gets-map sign_back
          (likely_small-Gets fuel (sign_low s) (unfold sign_low in ground arith))))
      refl (omega (arith, length-likely_small_bytes (sign_low s), room))
