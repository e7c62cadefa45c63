-- ===== src/Hash/Resize.antt =====
-- `hash_resize`: the new table is the old one as a map, and the loop that fills it does not grow
-- it again.
use clib.Common.{
  ℕ, zero, suc, ◌+◌, ◌*◌, ◌^◌, ◌≤◌, ◌≡◌, refl, ◌∙◌, [], true, false, ◌==◌, length, some, inl, arith,
  bit_and, replicate, length-replicate, max, leb,
}
use clib.Bitops.{max_log2}
use clib.Bitops.Log2.{max_log2_bounds}
use clib.Hash.Bucket.{Bucket, indirect, Functions, set_value}
use clib.Hash.Allocated.{IsSmall, IsSmall-fewer, IsAllocated, empty-IsAllocated}
use clib.Hash.Keys.{IsKeys}
use clib.Hash.Pairs.{find, or_else, or_else-none}
use clib.Hash.View.{view, IsTable}
use clib.Hash.Listing.{find-all_pairs, IsMap-all_pairs, view-empty, empty-IsTable}
use clib.Hash.Table.{
  Hash, all_pairs, lookup, create, must_grow, resize_with, set3, resize_table, no_auto_grow,
}
use clib.Hash.Fill.{HasRoom, IsFilled, set_pairs-IsFilled}

-- The length of the vector that `_hash_create` makes.
abbrev pub table_size : ℕ → ℕ
table_size elts = 2 ^ max_log2 (max elts 64)

pub table_size_bounds : (n : ℕ) → n ≤ 2 ^ 30 → (n ≤ table_size n) × (64 ≤ table_size n)
table_size_bounds n h =
    let b = max_log2_bounds 30 (max n 64) (omega arith) (omega arith) (omega arith) in
    (omega (arith, b.0), omega (arith, b.0))

module _ {ℓ} {V : Type ℓ} where
  pub create-some :
      (n : ℕ) (old : Hash V)
      → n ≤ 2 ^ 30
      → create n (some old)
        ≡ some (record old { elts = 0; buckets = replicate (table_size n) (indirect 0 []) })
  unfolding create
  create-some n old h =
      let b = max_log2_bounds 30 (max n 64) (omega arith) (omega arith) (omega arith) in
      let t : leb (max_log2 (max n 64)) 30 ≡ true = ground (arith, b.1) in rw t refl

-- A table after `hash_resize`.
pub record IsResized {ℓ} {V : Type ℓ} (h : Functions) (old w : Hash V) (new_size : ℕ) : Type ℓ where
  pub table : IsTable h w
  pub answers : (k : ℕ) → view h w k ≡ view h old k
  pub size : new_size ≤ length w.buckets
  pub same_flags : w.flags ≡ old.flags
  pub count : w.elts ≡ old.elts
  pub same_pair_size : w.log2_pair_size ≡ old.log2_pair_size
  pub allocated : IsSmall old.log2_pair_size old.elts → IsAllocated w

module _ {ℓ} {V : Type ℓ} {h : Functions} (laws : IsKeys h) where
  -- `_hash_set3` in a table that need not grow.
  pub set3-sets :
      (depth : ℕ) (v : Hash V) (key : ℕ) (x : V)
      → must_grow (lookup h v key (set_value x)) ≡ false
      → set3 h depth v key x ≡ some (lookup h v key (set_value x))
  unfolding set3
  set3-sets zero v key x e = rw e refl
  set3-sets (suc depth) v key x e = rw (e, set3) refl

  -- `hash_resize` of a table that is not null, to a size at which it need not grow again.
  pub resize-IsResized :
      (depth new_size : ℕ) (old : Hash V)
      → IsTable h old
      → new_size ≤ 2 ^ 30
      → ((bit_and old.flags no_auto_grow == 0) ≡ true → 4 * (old.elts + 1) ≤ 3 * new_size)
      → (w : Hash V) × (resize_table h depth old new_size ≡ some w) × IsResized h old w new_size
  unfolding resize_table resize_with or_else HasRoom
  resize-IsResized depth new_size old t small room =
      let n = table_size new_size in
      let b = table_size_bounds new_size small in
      let start : Hash V = record old { elts = 0; buckets = replicate n (indirect 0 []) } in
      let z : Bucket V = indirect 0 [] in
      let ps = all_pairs old.buckets in
      let f : IsFilled laws (set3 h depth) (set3-sets depth) start ps =
        set_pairs-IsFilled laws (set3 h depth) (set3-sets depth) start ps
          (empty-IsTable h start n refl (omega (arith, b.1)) refl) (IsMap-all_pairs laws old t)
          (λ k. inl (view-empty h start n refl k))
          (λ grows. omega (arith, room grows, t.count, length-replicate n z, b.0)) in
      (
        f.result,
        (rw (create-some new_size old small) f.returns),
        (record {
          table = f.table;
          answers = λ k.
              f.answers k
              ∙ rw (view-empty h start n refl k)
                  (or_else-none (find h ps k) ∙ find-all_pairs laws old t k);
          size = omega (arith, f.sizes, b.0, length-replicate n z);
          same_flags = f.same_flags;
          count = omega (arith, f.count, t.count);
          same_pair_size = f.same_pair_size;
          allocated = λ few.
              f.allocated (empty-IsAllocated start n refl)
                (IsSmall-fewer old.log2_pair_size _ _ (omega (arith, t.count)) few);
        }),
      )
