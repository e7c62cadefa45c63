-- ===== src/Tests/Bitmaps.antt =====
-- The theorems on bitmaps at concrete inputs.
use clib.Bitmap.Random.{random}
use clib.Common.{◌⊎◌, ℕ, zero, suc, ◌<◌, ◌≤◌, ◌≡◌, ◌↔◌, refl, [], ◌∷◌, true, false, not, arith}
use clib.Bits.{bit}
use clib.Bitmap.{Bitmap, get, set_bit, is_equal}
use clib.Bitmap.Range.{get_multiple, set_multiple}
use clib.Bitmap.View.{IsTrimmed}
use clib.Bitmap.SetGet.{get-set_bit, set_bit-IsTrimmed}
use clib.Bitmap.Equality.{is_equal_iff}
use clib.Bitmap.RangeGet.{bit-get_multiple}
use clib.Bitmap.RangeSet.{get-set_multiple}
use clib.Bitmap.Scan.{first_set, next_set, next_clear}
use clib.Bitmap.Search.{IsFirst}
use clib.Bitmap.Found.{first_set-IsFirst, next_set-IsFirst, next_clear-IsFirst}
use clib.Bitmap.RangeTrip.{get_multiple-set_multiple}
use clib.Word.{all_ones, shr}

abbrev evens : Bitmap
evens = 0x5555555555555555 ∷ 1 ∷ []

abbrev few : Bitmap
few = 0x11 ∷ []

few-IsTrimmed : IsTrimmed few
few-IsTrimmed = ground arith

evens-IsTrimmed : IsTrimmed evens
evens-IsTrimmed = ground arith

get-set_bit_example : get (set_bit few 70 1) 70 ≡ true
get-set_bit_example = get-set_bit few 70 1 70 (omega arith)

set_bit-IsTrimmed_example : IsTrimmed (set_bit few 70 1)
set_bit-IsTrimmed_example = set_bit-IsTrimmed few 70 1 few-IsTrimmed

is_equal_iff_example : (is_equal few evens ≡ true) ↔ ((i : ℕ) → get few i ≡ get evens i)
is_equal_iff_example =
    is_equal_iff few evens (omega arith) (omega arith) few-IsTrimmed evens-IsTrimmed

-- A field that reaches into the second word.
bit-get_multiple_example : bit (get_multiple evens 60 8) 4 ≡ get evens 64
bit-get_multiple_example = bit-get_multiple evens 60 8 4 (omega arith) (omega arith)

get-set_multiple_example : get (set_multiple few 60 0xab 8) 65 ≡ bit 0xab 5
get-set_multiple_example =
    get-set_multiple few 60 0xab 8 (omega arith) (omega arith) (omega arith) 65

first_set-IsFirst_example :
    IsFirst (get few) 0 (first_set few)
    ⊎ (((j : ℕ) → get few j ≡ false) × (first_set few ≡ all_ones))
first_set-IsFirst_example = first_set-IsFirst few (omega arith)

set_below : (j : ℕ) → j < 4 → not (get (0xf ∷ []) j) ≡ false
unfolding get shr
set_below zero h = refl
set_below (suc zero) h = refl
set_below (suc (suc zero)) h = refl
set_below (suc (suc (suc zero))) h = refl
set_below (suc (suc (suc (suc j)))) h = absurd (omega arith)

clear_at_4 : IsFirst (λ j. not (get (0xf ∷ []) j)) 0 4
unfolding get shr
clear_at_4 = record { holds = refl; from = omega arith; before = λ j lo hi. set_below j hi }

next_set-IsFirst_example :
    IsFirst (get evens) 63 (next_set evens 63)
    ⊎ (((j : ℕ) → 63 ≤ j → get evens j ≡ false) × (next_set evens 63 ≡ all_ones))
next_set-IsFirst_example = next_set-IsFirst evens 63 (omega arith)

-- Every bit from 60 on is set, and the answer is 60.
abbrev high : Bitmap
high = 0xf000000000000000 ∷ []

next_clear-IsFirst_example :
    IsFirst (λ j. not (get high j)) 60 (next_clear high 60)
    ⊎ (((j : ℕ) → 60 ≤ j → j < 64 → get high j ≡ true) × (next_clear high 60 ≡ 60))
next_clear-IsFirst_example = next_clear-IsFirst high 60 (omega arith)

get_multiple-set_multiple_example : get_multiple (set_multiple few 60 0xab 8) 60 8 ≡ 0xab
get_multiple-set_multiple_example =
    get_multiple-set_multiple few 60 0xab 8 (omega arith) (omega arith) (omega arith)

-- Ten random digits, where a shift of 32 bits or more answers 0.
random_ten : (random (λ a n. 0) 10 0).0 ≡ 863 ∷ []
unfolding random clib.Bitmap.vec_validate clib.Vec.validate clib.Bitops.min_log2 clib.Word.sub
    clib.Word.shl
random_ten = refl
