-- ===== src/Hash/KeyLaws.antt =====
-- The functions of clib/hash.c are what a table relies on.
use clib.Common.{
  ℕ, zero, suc, ◌+◌, ◌*◌, ◌^◌, ◌<◌, ◌≡◌, refl, sym, ap, ◌∙◌, Bool, true, false, not, ◌&&◌, ◌==◌,
  if◌then◌else◌, Bool-cases, inl, inr, arith, ==_iff, ==_refl, ◌⊎◌,
}
use clib.Hash.Keys.{IsKeys}
use clib.Hash.Loads.{IsSame}
use clib.Hash.Sum.{hash_memory64, hash_uword, load_bytes}
use clib.Hash.SumReads.{hash_memory64-reads}
use clib.Hash.Table.{word_keys}
use clib.Hash.KeyFunctions.{
  Memory, KeyFunc, key_func_none, key_func_pointer_uword, key_func_pointer_u32, key_func_string,
  hash_memory, same_memory, vec_key_sum, vec_key_equal, mem_key_sum, mem_key_equal, string_key_sum,
  string_key_equal, key_sum, key_equal1, key_equal, functions, vec_functions, mem_functions,
}

Bool_ext : (a b : Bool) → (a ≡ true → b ≡ true) → (b ≡ true → a ≡ true) → a ≡ b
Bool_ext true b to from = sym (to refl)
Bool_ext false true to from = from refl
Bool_ext false false to from = refl

-- A test for keys that are not one address.
pub record IsTest (sum : ℕ → ℕ) (test : ℕ → ℕ → Bool) : Type 0 where
  pub test_sym : (a b : ℕ) → test a b ≡ true → test b a ≡ true
  pub test_trans : (a b c : ℕ) → test a b ≡ true → test b c ≡ true → test a c ≡ true
  pub test_sum : (a b : ℕ) → test a b ≡ true → sum a ≡ sum b

module _ (m : Memory) (f : KeyFunc) where
  equal_cases : (a b : ℕ) → key_equal m f a b ≡ true → (a ≡ b) ⊎ (key_equal1 m f a b false ≡ true)
  unfolding key_equal
  equal_cases a b h = elim (Bool-cases (a == b)) [
    | inl e ↦ inl ((==_iff a b).0 e)
    | inr n ↦ inr (rw n at h)
  ]

  equal_self : (a : ℕ) → key_equal m f a a ≡ true
  unfolding key_equal
  equal_self a = rw (==_refl a) refl

  equal_test : (a b : ℕ) → key_equal1 m f a b false ≡ true → key_equal m f a b ≡ true
  unfolding key_equal
  equal_test a b h = elim (Bool-cases (a == b)) [ inl e ↦ rw e refl | inr n ↦ rw n h ]

  module _ (t : IsTest (key_sum m f) (λ a b. key_equal1 m f a b false)) where
    equal_flip : (a b : ℕ) → key_equal m f a b ≡ true → key_equal m f b a ≡ true
    equal_flip a b h = elim (equal_cases a b h) [
      | inl e ↦ rw e (equal_self b)
      | inr e ↦ equal_test b a (t.test_sym a b e)
    ]

    equal_join :
        (a b c : ℕ) → key_equal m f a b ≡ true → key_equal m f b c ≡ true → key_equal m f a c ≡ true
    equal_join a b c h1 h2 = elim (equal_cases a b h1) [
      | inl e ↦ rw e h2
      | inr e ↦ elim (equal_cases b c h2) [
        | inl n ↦ rw (← n) h1
        | inr n ↦ equal_test a c (t.test_trans a b c e n)
      ]
    ]

    IsTest-IsKeys : IsKeys (functions m f)
    unfolding functions
    IsTest-IsKeys = record {
      equal_refl = equal_self;
      equal_sym = λ a b. Bool_ext _ _ (equal_flip a b) (equal_flip b a);
      equal_cong = λ a b c e.
          Bool_ext _ _ (λ h. equal_join c a b h e) (λ h. equal_join c b a h (equal_flip a b e));
      equal_sum = λ a b e. elim (equal_cases a b e) [
        | inl n ↦ ap (key_sum m f) n
        | inr n ↦ t.test_sum a b n
      ];
    }

module _ (m : Memory) where
  same_memory-IsSame : (a b n : ℕ) → same_memory m a b n ≡ true → IsSame m.byte m.byte a b n
  unfolding same_memory
  same_memory-IsSame a b zero h i hi = absurd (omega arith)
  same_memory-IsSame a b (suc n) h i hi = elim (Bool-cases (i == n)) [
    | inl e ↦ let same : i ≡ n = ground (arith, e) in rw same (ground (arith, h))
    | inr e ↦ same_memory-IsSame a b n (ground (arith, h)) i (ground (arith, e, hi))
  ]

  IsSame-same_memory : (a b n : ℕ) → IsSame m.byte m.byte a b n → same_memory m a b n ≡ true
  unfolding same_memory
  IsSame-same_memory a b zero h = refl
  IsSame-same_memory a b (suc n) h =
      rw (IsSame-same_memory a b n (λ i hi. h i (omega arith)), h n (omega arith))
        (==_refl (m.byte (b + n)))

  -- A guard, a length, and the bytes.
  unfoldable bytes_test : (ℕ → Bool) → (ℕ → ℕ) → (ℕ → ℕ) → ℕ → ℕ → Bool
  bytes_test guard size len a b =
      guard a && (guard b && ((len a == len b) && same_memory m a b (size (len a))))

  module _ (bytes : (p : ℕ) → m.byte p < 2 ^ 8) (guard : ℕ → Bool) (size len : ℕ → ℕ) where
    bytes_test-parts :
        (a b : ℕ)
        → bytes_test guard size len a b ≡ true
        → (guard a ≡ true)
          × (guard b ≡ true)
          × (len a ≡ len b)
          × IsSame m.byte m.byte a b (size (len a))
    unfolding bytes_test
    bytes_test-parts a b h = (
      ground (arith, h),
      ground (arith, h),
      ground (arith, h),
      same_memory-IsSame a b (size (len a)) (ground (arith, h)),
    )

    parts-bytes_test :
        (a b : ℕ)
        → guard a ≡ true
        → guard b ≡ true
        → len a ≡ len b
        → IsSame m.byte m.byte a b (size (len a))
        → bytes_test guard size len a b ≡ true
    unfolding bytes_test
    parts-bytes_test a b x y e same =
        let t : (len a == len b) ≡ true = (==_iff (len a) (len b)).1 e in
        rw (x, y, t, IsSame-same_memory a b (size (len a)) same) refl

    bytes_test-IsTest : IsTest (λ a. hash_memory m a (size (len a)) 0) (bytes_test guard size len)
    unfolding hash_memory
    bytes_test-IsTest = record {
      test_sym = λ a b h.
          let (x, y, e, same) = bytes_test-parts a b h in
          parts-bytes_test b a y x (sym e) (λ i hi. sym (same i (rw e hi)));
      test_trans = λ a b c h1 h2.
          let (x, y, e, same) = bytes_test-parts a b h1 in
          let (x2, y2, e2, same2) = bytes_test-parts b c h2 in
          parts-bytes_test a c x y2 (e ∙ e2) (λ i hi. same i hi ∙ same2 i (rw (sym e) hi));
      test_sum = λ a b h.
          let (x, y, e, same) = bytes_test-parts a b h in
          hash_memory64-reads m.big_endian m.byte m.byte bytes bytes a b (size (len a)) 0 same
          ∙ ap (λ n. hash_memory64 m.big_endian m.byte b (size n) 0) e;
    }

  -- A test of what is loaded.
  loads-IsTest :
      (n : ℕ)
      → (let load = (λ (a : ℕ). load_bytes m.byte a m.big_endian n) in
          IsTest (λ a. hash_uword (load a)) (λ a b. load a == load b))
  loads-IsTest n = record {
    test_sym = λ a b h. ground (arith, h);
    test_trans = λ a b c h1 h2. ground (arith, h1, h2);
    test_sum = λ a b h. ap hash_uword ((==_iff _ _).0 h);
  }

  -- In a memory of bytes, the sums and comparisons of keys that are words, pointers to words of 8
  -- and 4 bytes, strings, vectors, and memory of one size keep to the laws: the comparison is an
  -- equivalence, and equal keys have equal sums.
  pub functions-IsKeys :
      ((p : ℕ) → m.byte p < 2 ^ 8)
      → IsKeys (functions m key_func_none)
        × IsKeys (functions m key_func_pointer_uword)
        × IsKeys (functions m key_func_pointer_u32)
        × IsKeys (functions m key_func_string)
        × ((user : ℕ) → IsKeys (functions m (vec_functions m user)))
        × ((user : ℕ) → IsKeys (functions m (mem_functions m user)))
  unfolding key_sum key_equal1 string_key_sum string_key_equal vec_functions mem_functions
      vec_key_sum vec_key_equal mem_key_sum mem_key_equal bytes_test
  functions-IsKeys bytes = (
    IsTest-IsKeys m key_func_none (record {
      test_sym = λ a b h. h;
      test_trans = λ a b c h1 h2. h1;
      test_sum = λ a b h. absurd (ground (arith, h));
    }),
    IsTest-IsKeys m key_func_pointer_uword (loads-IsTest 8),
    IsTest-IsKeys m key_func_pointer_u32 (loads-IsTest 4),
    IsTest-IsKeys m key_func_string
        (bytes_test-IsTest bytes (λ v. not (v == 0)) (λ n. n) m.string_length),
    λ user.
        IsTest-IsKeys m (vec_functions m user)
          (bytes_test-IsTest bytes (λ v. true) (λ n. n * user) m.vec_len),
    λ user.
        IsTest-IsKeys m (mem_functions m user)
          (bytes_test-IsTest bytes (λ v. not (v == 0)) (λ n. user) (λ v. 0)),
  )

-- The functions of `KEY_FUNC_NONE`, which need no memory.
functions-word_keys : (m : Memory) → functions m key_func_none ≡ word_keys
unfolding functions key_sum key_equal key_equal1
functions-word_keys m t = record { key_sum = hash_uword; key_equal = λ a b. same (a == b) t }
  where
    same : (e : Bool) → (if not e then e else e) ≡ e
    same true = refl
    same false = refl
