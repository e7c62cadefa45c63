-- ===== src/Tests/Zvecs.antt =====
-- The theorems on compressed vectors at concrete inputs.
use clib.Common.{ℕ, ◌+◌, ◌*◌, ◌%◌, ◌^◌, ◌≤◌, ◌<◌, ◌≡◌, refl, [], ◌∷◌, true, some, arith}
use clib.Word.{add, neg}
use clib.Bitmap.{Bitmap, get}
use clib.Zvec.{
  encode, decode, encode_all, decode_all, get_data, signed_to_unsigned, sign_extend, is_data_size,
}
use clib.Zvec.Laws.{decode-encode}
use clib.Zvec.Arrays.{IsEncodable, decode_all-encode_all}

-- Groups of 1, 16 and 128 values.
abbrev groups : ℕ
groups = 0x91

decode-encode_example :
    (z : ℕ) × (n : ℕ) × (encode groups 5 ≡ some (z, n))
    × (n ≤ 62)
    × (decode groups ((z + 2 ^ n * 3) % 2 ^ 64) ≡ some (5, n))
decode-encode_example = decode-encode groups 5 3 (omega arith) (omega arith)

three-IsEncodable : IsEncodable 1 true groups 3
unfolding get_data signed_to_unsigned sign_extend is_data_size add neg
three-IsEncodable = record { value = 6; object = omega arith; read = refl; covered = omega arith }

minus_three-IsEncodable : IsEncodable 1 true groups 253
unfolding get_data signed_to_unsigned sign_extend is_data_size add neg
minus_three-IsEncodable = record {
  value = 5;
  object = omega arith;
  read = refl;
  covered = omega arith;
}

-- The bytes of 3 and -3, written from bit 60 on, come back as 3 and -2.
decode_all-encode_all_example :
    (bits : Bitmap) × (end_bit : ℕ) × (encode_all 1 true groups (3 ∷ 253 ∷ []) [] 60
      ≡ some (bits, end_bit))
    × ((j : ℕ) → j < 60 → get bits j ≡ get [] j)
    × (decode_all 1 true groups 2 bits 60 ≡ some (3 ∷ 254 ∷ [], end_bit))
decode_all-encode_all_example =
    decode_all-encode_all 1 true groups (3 ∷ 253 ∷ []) [] 60 (omega arith) (omega arith)
      (omega arith) (three-IsEncodable, (minus_three-IsEncodable, tt))
