-- ===== src/Hash/Keys.antt =====
-- What a hash table relies on in the functions it is created with.
use clib.Common.{ℕ, ◌≡◌, ◌∙◌, true}
use clib.Hash.Bucket.{Functions}

-- `key_equal` is an equivalence, and keys that are equal have equal sums.
pub record IsKeys (h : Functions) : Type 0 where
  pub equal_refl : (a : ℕ) → h.key_equal a a ≡ true
  pub equal_sym : (a b : ℕ) → h.key_equal a b ≡ h.key_equal b a
  pub equal_cong : (a b c : ℕ) → h.key_equal a b ≡ true → h.key_equal c a ≡ h.key_equal c b
  pub equal_sum : (a b : ℕ) → h.key_equal a b ≡ true → h.key_sum a ≡ h.key_sum b

pub key_equal-left :
    {h : Functions} (laws : IsKeys h) (a b k : ℕ)
    → h.key_equal a b ≡ true
    → h.key_equal a k ≡ h.key_equal b k
key_equal-left laws a b k e = laws.equal_sym a k ∙ laws.equal_cong a b k e ∙ laws.equal_sym k b
