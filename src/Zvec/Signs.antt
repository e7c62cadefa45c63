-- ===== src/Zvec/Signs.antt =====
-- Signed numbers as unsigned ones, and the objects that the compressed vectors read and store.
use clib.Common.{
  ℕ, ◌+◌, ◌-◌, ◌*◌, ◌%◌, ◌^◌, ◌≤◌, ◌<◌, ◌≡◌, sym, ap, Bool, true, false, leb, ltb, ◌&&◌,
  if◌then◌else◌, none, some, arith, Bool-cases, inl, inr, ◌⊎◌,
}
use clib.Word.{IsWord, add, neg, shr}
use clib.Zvec.{
  signed_to_unsigned, unsigned_to_signed, sign_extend, get_data, put_data, is_data_size,
}
use clib.Zvec.Steps.{and-mask}
use mathlib.Core.Path.{subst}
use native.Mathlib.Nat.{mod-eq_of_lt}

signed_to_unsigned-eq :
    (s : ℕ)
    → IsWord s
    → signed_to_unsigned s ≡ (if ltb s (2 ^ 63) then 2 * s else 2 * (2 ^ 64 - s) - 1)
unfolding signed_to_unsigned add neg
signed_to_unsigned-eq s h = ground arith

unsigned_to_signed-even : (s : ℕ) → s < 2 ^ 63 → unsigned_to_signed (2 * s) ≡ s
unfolding unsigned_to_signed shr
unsigned_to_signed-even s h = ground (arith, and-mask (2 * s) 1 (omega arith) (omega arith))

unsigned_to_signed-odd :
    (s : ℕ) → 2 ^ 63 ≤ s → IsWord s → unsigned_to_signed (2 * (2 ^ 64 - s) - 1) ≡ (s + 1) % 2 ^ 64
unfolding unsigned_to_signed shr neg
unsigned_to_signed-odd s lo h =
    ground (arith, and-mask (2 * (2 ^ 64 - s) - 1) 1 (omega arith) (omega arith))

-- For a word in two's complement, `zvec_unsigned_to_signed` of `zvec_signed_to_unsigned` is the
-- word if it is not negative, and the word plus one if it is.
pub unsigned_to_signed-signed_to_unsigned :
    (s : ℕ)
    → IsWord s
    → unsigned_to_signed (signed_to_unsigned s) ≡ (if ltb s (2 ^ 63) then s else (s + 1) % 2 ^ 64)
unsigned_to_signed-signed_to_unsigned s h =
    rw (signed_to_unsigned-eq s h) (elim (Bool-cases (ltb s (2 ^ 63))) [
      | inl e ↦ rw e (unsigned_to_signed-even s (ground arith))
      | inr e ↦ rw e (unsigned_to_signed-odd s (ground arith) h)
    ])

-- What is stored of an object of `w` bits that held `x`: `x` again, but one more than a negative
-- number.
abbrev pub restored : ℕ → Bool → ℕ → ℕ
restored w is_signed x = if is_signed && leb (2 ^ (w - 1)) x then (x + 1) % 2 ^ w else x

-- Sizes of objects in bits.
IsWidth : ℕ → Type 0
IsWidth w = (w ≡ 8) ⊎ (w ≡ 16) ⊎ (w ≡ 32) ⊎ (w ≡ 64)

at_width {ℓ} : (P : ℕ → Type ℓ) → P 8 → P 16 → P 32 → P 64 → (w : ℕ) → IsWidth w → P w
unfolding IsWidth
at_width P a b c d w (inl e) = subst P (sym e) a
at_width P a b c d w (inr (inl e)) = subst P (sym e) b
at_width P a b c d w (inr (inr (inl e))) = subst P (sym e) c
at_width P a b c d w (inr (inr (inr e))) = subst P (sym e) d

data_size-IsWidth : (n : ℕ) → is_data_size n ≡ true → IsWidth (8 * n)
unfolding IsWidth is_data_size
data_size-IsWidth n h = ground arith

extended : ℕ → ℕ → ℕ
extended w x = let s = sign_extend w x in (if ltb s (2 ^ 63) then s else (s + 1) % 2 ^ 64) % 2 ^ w

extended-restored :
    (w x : ℕ)
    → IsWidth w
    → x < 2 ^ w
    → (sign_extend w x < 2 ^ 64) × (extended w x ≡ restored w true x)
unfolding extended sign_extend
extended-restored w x hw =
    at_width (λ v. x < 2 ^ v → (sign_extend v x < 2 ^ 64) × (extended v x ≡ restored v true x))
      (λ h. (ground arith, ground arith)) (λ h. (ground arith, ground arith))
      (λ h. (ground arith, ground arith)) (λ h. (ground arith, ground arith)) w hw

pub put_data-get_data :
    (n : ℕ) (is_signed : Bool) (x d : ℕ)
    → x < 2 ^ (8 * n)
    → get_data n is_signed x ≡ some d
    → put_data n is_signed d ≡ some (restored (8 * n) is_signed x)
unfolding get_data put_data
put_data-get_data n is_signed x d h e = elim (Bool-cases (is_data_size n)) [
  | inl size ↦ rw size (stored is_signed (data_size-IsWidth n size) (rw size at e))
  | inr size ↦ let c : none ≡ some d = rw size at e in absurd (ground (arith, c))
]
  where
    stored :
        (signed : Bool)
        → IsWidth (8 * n)
        → some (if signed then signed_to_unsigned (sign_extend (8 * n) x) else x) ≡ some d
        → some ((if signed then unsigned_to_signed d else d) % 2 ^ (8 * n))
          ≡ some (restored (8 * n) signed x)
    stored true w q =
        let v : signed_to_unsigned (sign_extend (8 * n) x) ≡ d = ground (arith, q) in
        let (word, value) = extended-restored (8 * n) x w h in
        rw (← v, unsigned_to_signed-signed_to_unsigned _ word) (ap some (unfold extended in value))
    stored false w q = let v : x ≡ d = ground (arith, q) in rw (← v) (ap some (mod-eq_of_lt h))
