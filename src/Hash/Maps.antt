-- ===== src/Hash/Maps.antt =====
-- The operations of a client, on tables that may be null, against what `_hash_get_pair` answers.
use clib.Common.{
  ℕ, suc, ◌==◌, ==_refl, ==_iff, ◌+◌, ◌-◌, ◌*◌, ◌^◌, ◌≤◌, ◌≡◌, refl, sym, ap, ◌∙◌, not, length,
  if◌then◌else◌, Option, none, some, Bool-cases, inl, inr, arith, to_ℕ, [], replicate,
  length-replicate,
}
use clib.Bitops.{max_log2, min_log2}
use clib.Hash.Bucket.{Pair, Bucket, indirect, Functions, hash_pair_bytes, hash_pair_log2_bytes}
use clib.Hash.Sum.{hash_uword}
use clib.Hash.Allocated.{IsSmall, IsAllocated, empty-IsAllocated}
use clib.Hash.Keys.{IsKeys}
use clib.Hash.Pairs.{assign, is_some}
use clib.Hash.Lookup.{value_of}
use clib.Hash.View.{IsTable}
use clib.Hash.Refine.{old_value-set, get_pair-view}
use clib.Hash.Fill.{HasRoom}
use clib.Hash.Listing.{view-empty, empty-IsTable}
use clib.Hash.Resize.{table_size, table_size_bounds, create-some}
use clib.Hash.Operations.{IsReady, IsChanged, set3-changes, unset-changes}
use clib.Hash.Table.{
  Hash, hash_get_pair, hash_set3, set3_saving, functions_of, word_keys, hash_unset, hash_elts,
  hash_capacity,
}

module _ {ℓ} {V : Type ℓ} (h : Functions) where
  -- The invariant of a table that may be null.
  unfoldable pub IsSound : Option (Hash V) → Type ℓ
  IsSound none = Unit {ℓ}
  IsSound (some v) = IsReady h v

  -- `after` answers `x` for the keys equal to one, and as `before` for all others.
  pub record IsUpdated (before : Option (Hash V)) (key : ℕ) (x : Option (Pair V))
      (after : Option (Hash V)) : Type ℓ where
    pub sound : IsSound after
    pub answers :
        (k : ℕ)
        → hash_get_pair h after k ≡ (if h.key_equal key k then x else hash_get_pair h before k)

table_size-zero : table_size 0 ≡ 64
unfolding max_log2 min_log2
table_size-zero = refl

module _ {ℓ} {V : Type ℓ} where
  -- What the table of `hash_create (0, sizeof (uword))` starts with.
  abbrev null_header : Hash V
  null_header = record { elts = 0; flags = 0; log2_pair_size = 1; buckets = [] }

  abbrev fresh : Hash V
  fresh = record null_header { buckets = replicate (table_size 0) (indirect 0 []) }

module _ {ℓ} {V : Type ℓ} {h : Functions} (laws : IsKeys h) where
  IsChanged-IsUpdated :
      (v w : Hash V) (key n : ℕ) (x : Option (Pair V))
      → IsTable h v
      → IsChanged h v key x n w
      → IsUpdated h (some v) key x (some w)
  unfolding IsSound
  IsChanged-IsUpdated v w key n x t c = record {
    sound = c.ready;
    answers = λ k.
        get_pair-view laws w c.ready.table k
        ∙ c.answers k
        ∙ ap (λ a. if h.key_equal key k then x else a) (sym (get_pair-view laws v t k));
  }

  fresh-IsReady : IsReady {V = V} h fresh
  unfolding HasRoom
  fresh-IsReady =
      let z : Bucket V = indirect 0 [] in
      let b = table_size_bounds 0 (omega arith) in
      record {
        table = empty-IsTable h fresh (table_size 0) refl (omega (arith, b.1)) refl;
        room = λ grows. omega (arith, b.1, length-replicate (table_size 0) z);
      }

  fresh-absent : (k : ℕ) → hash_get_pair {V = V} h (some fresh) k ≡ none
  fresh-absent k =
      get_pair-view laws fresh fresh-IsReady.table k ∙ view-empty h fresh (table_size 0) refl k

  set3-some :
      (depth : ℕ) (v : Hash V) (key : ℕ) (x : V)
      → IsReady h v
      → 2 * length v.buckets ≤ 2 ^ 30
      → IsAllocated v
      → IsSmall v.log2_pair_size (v.elts + 1)
      → (let old = hash_get_pair h (some v) key in
          (w : Hash V) × (set3_saving h (suc depth) v key x ≡ some (w, value_of old))
          × IsUpdated h (some v) key (some (assign old key x)) (some w)
          × (w.elts ≡ v.elts + to_ℕ (not (is_some old)))
          × IsAllocated w)
  unfolding set3_saving
  set3-some depth v key x r small a few =
      let (w, e, c, d, q) = set3-changes laws v r key depth x small in
      let same = get_pair-view laws v r.table key in
      (
        w,
        rw (e, old_value-set laws v r.table key x, same) refl,
        rw same (IsChanged-IsUpdated v w key _ _ r.table c),
        rw same c.count,
        d a few,
      )

  null-absent : (k : ℕ) → hash_get_pair {V = V} h none k ≡ hash_get_pair h (some fresh) k
  unfolding hash_get_pair
  null-absent k = sym (fresh-absent k)

  fresh-IsUpdated :
      (key : ℕ) (y : Option (Pair V)) (w : Hash V)
      → IsUpdated h (some fresh) key y (some w)
      → IsUpdated h none key y (some w)
  fresh-IsUpdated key y w u = record {
    sound = u.sound;
    answers = λ k. u.answers k ∙ ap (λ a. if h.key_equal key k then y else a) (sym (null-absent k));
  }

-- The null table becomes a table of words, whatever the functions of others.
word_keys-IsKeys : IsKeys word_keys
word_keys-IsKeys = record {
  equal_refl = λ a. ==_refl a;
  equal_sym = λ a b. ground arith;
  equal_cong = λ a b c e. ap (λ (n : ℕ). c == n) ((==_iff a b).0 e);
  equal_sum = λ a b e. ap hash_uword ((==_iff a b).0 e);
}

fresh-IsSmall : IsSmall 1 1
unfolding hash_pair_bytes hash_pair_log2_bytes
fresh-IsSmall = (omega arith, omega arith)

fresh-IsAllocated {ℓ} : (V : Type ℓ) → IsAllocated {V = V} fresh
fresh-IsAllocated V = empty-IsAllocated fresh (table_size 0) refl

module _ {ℓ} {V : Type ℓ} where
  set3-null :
      (h : Functions) (depth key : ℕ) (x : V)
      → hash_set3 h depth none key x ≡ set3_saving word_keys depth fresh key x
  unfolding hash_set3
  set3-null h depth key x = rw (create-some 0 null_header (omega arith)) refl

  -- The memory under a table that may be null, with room for one more pair.
  unfoldable pub HasMemory : Option (Hash V) → Type 0
  HasMemory none = Unit {0}
  HasMemory (some v) = IsAllocated v × IsSmall v.log2_pair_size (v.elts + 1)

  -- For a table that keeps its invariant under key functions that keep to their laws, is below the
  -- load at which it must grow, has at most 2 ^ 29 buckets, log2_bytes of at most 29 in each, and
  -- pairs that take with one more at most 2 ^ 29 bytes, each at most 2 ^ 28; and for the null
  -- table, which `hash_create` makes a table of words: `_hash_set3` returns a table, and at depth
  -- 1 the calls between `_hash_set3` and `hash_resize` come to an end. The value it saves is the
  -- one that the key had. In the table, which keeps the invariant, is below that load and has
  -- log2_bytes of at most 29, `_hash_get_pair` answers the new value for every key equal to the
  -- one that is set, under the key that was there before if there was one, and for every other key
  -- what it answered before. `elts` is one greater if the key was not there.
  pub set3-get_pair :
      {h : Functions} (laws : IsKeys h) (depth : ℕ) (table : Option (Hash V)) (key : ℕ) (x : V)
      → IsSound h table
      → 2 * hash_capacity table ≤ 2 ^ 30
      → HasMemory table
      → (let f = functions_of h table in
          let old = hash_get_pair f table key in
          (w : Hash V) × (hash_set3 h (suc depth) table key x ≡ some (w, value_of old))
          × IsUpdated f table key (some (assign old key x)) (some w)
          × (w.elts ≡ hash_elts table + to_ℕ (not (is_some old)))
          × IsAllocated w)
  unfolding IsSound hash_capacity hash_elts functions_of HasMemory hash_set3
  set3-get_pair laws depth (some v) key x r small (a, few) =
      set3-some laws depth v key x r small a few
  set3-get_pair {h} laws depth none key x r small few =
      let z : Bucket V = indirect 0 [] in
      let fits : 2 * length fresh.buckets ≤ 2 ^ 30 =
        omega (arith, length-replicate (table_size 0) z, table_size-zero) in
      let (w, e, u, c, d) =
        set3-some word_keys-IsKeys depth fresh key x (fresh-IsReady word_keys-IsKeys) fits
          (fresh-IsAllocated V) fresh-IsSmall in
      rw (null-absent word_keys-IsKeys key)
        (w, set3-null h (suc depth) key x ∙ e, fresh-IsUpdated word_keys-IsKeys key _ w u, c, d)

module _ {ℓ} {V : Type ℓ} {h : Functions} (laws : IsKeys h) where
  null-IsUpdated : (key : ℕ) → IsUpdated {V = V} h none key none none
  unfolding IsSound hash_get_pair
  null-IsUpdated key = record {
    sound = tt;
    answers = λ k. elim (Bool-cases (h.key_equal key k)) [ inl e ↦ rw e refl | inr e ↦ rw e refl ];
  }

  null-old :
      (depth key : ℕ)
      → (hash_unset {V = V} h depth none key
          ≡ some (none, value_of (hash_get_pair {V = V} h none key)))
        × (0 ≡ 0 - to_ℕ (is_some (hash_get_pair {V = V} h none key)))
  unfolding hash_unset hash_get_pair value_of is_some
  null-old depth key = (refl, refl)

  -- For such functions and such a table, null or not, of at most 2 ^ 30 buckets, `_hash_unset`
  -- returns at any depth and saves the value that the key had. In the table, which keeps the
  -- invariant, `_hash_get_pair` finds no key equal to the one that is removed, and answers for
  -- every other key what it answered before. `elts` is one less if the key was there.
  pub unset-get_pair :
      (depth : ℕ) (table : Option (Hash V)) (key : ℕ)
      → IsSound h table
      → hash_capacity table ≤ 2 ^ 30
      → (let old = hash_get_pair h table key in
          (after : Option (Hash V)) × (hash_unset h depth table key ≡ some (after, value_of old))
          × IsUpdated h table key none after
          × (hash_elts after ≡ hash_elts table - to_ℕ (is_some old)))
  unfolding IsSound hash_capacity hash_elts
  unset-get_pair depth (some v) key r small =
      let (w, e, c) = unset-changes laws v r key depth small in
      let same = get_pair-view laws v r.table key in
      (some w, e ∙ rw same refl, IsChanged-IsUpdated laws v w key _ none r.table c, rw same c.count)
  unset-get_pair depth none key r small =
      let (e, n) = null-old depth key in (none, e, null-IsUpdated key, n)
