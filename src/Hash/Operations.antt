-- ===== src/Hash/Operations.antt =====
-- `_hash_set3`, `_hash_unset` and `hash_dup` as operations on the map that a table is. A table
-- doubles at most once when a pair is set, so depth 1 is enough.
use clib.Common.{
  ℕ, suc, ◌+◌, ◌-◌, ◌*◌, ◌/◌, ◌^◌, ◌≤◌, ◌≡◌, refl, sym, ap, ◌∙◌, Bool, true, false, not, ◌==◌,
  length, if◌then◌else◌, Option, none, some, Bool-cases, inl, inr, arith, bit_and, to_ℕ,
}
use clib.Hash.Bucket.{Pair, Functions, set_value, unset}
use clib.Hash.Allocated.{IsSmall, IsSmall-at, IsAllocated, lookup-IsAllocated, lookup-pair_size}
use clib.Hash.Keys.{IsKeys}
use clib.Hash.Pairs.{assign, is_some}
use clib.Hash.Lookup.{value_of}
use clib.Hash.View.{view, IsTable}
use clib.Hash.Refine.{
  IsUpdate, lookup-set, elts-lookup_set, lookup-unset, elts-lookup_unset, old_value-unset,
}
use clib.Hash.Fill.{HasRoom}
use clib.Hash.Resize.{IsResized, resize-IsResized, set3-sets}
use clib.Hash.Table.{
  Hash, lookup, must_grow, must_shrink, set3, resize_table, no_auto_grow, hash_unset,
}

to_ℕ-le : (b : Bool) → to_ℕ b ≤ 1
to_ℕ-le true = omega arith
to_ℕ-le false = omega arith

module _ {ℓ} {V : Type ℓ} (h : Functions) where
  -- A table that keeps to its invariant, and is below the load at which it must grow.
  pub record IsReady (v : Hash V) : Type ℓ where
    pub table : IsTable h v
    pub room : HasRoom v 0

  -- `w` is `v` with another answer for one key, and with `n` pairs.
  pub record IsChanged (v : Hash V) (key : ℕ) (x : Option (Pair V)) (n : ℕ) (w : Hash V)
      : Type ℓ where
    pub ready : IsReady w
    pub answers : (k : ℕ) → view h w k ≡ (if h.key_equal key k then x else view h v k)
    pub same_flags : w.flags ≡ v.flags
    pub count : w.elts ≡ n

module _ {ℓ} {V : Type ℓ} {h : Functions} (laws : IsKeys h) (v : Hash V) (r : IsReady h v)
    (key : ℕ) where
  -- The update by `lookup`, in a table of another size.
  resized-IsChanged :
      (x : Option (Pair V)) (u w : Hash V) (size n : ℕ)
      → IsUpdate h v key x u
      → u.elts ≡ n
      → IsResized h u w size
      → ((bit_and u.flags no_auto_grow == 0) ≡ true → 4 * (u.elts + 1) ≤ 3 * size)
      → IsChanged h v key x n w
  unfolding HasRoom
  resized-IsChanged x u w size n up count z room = record {
    ready = record {
      table = z.table;
      room = λ grows.
          let a = room (ap (λ f. bit_and f no_auto_grow == 0) (sym z.same_flags) ∙ grows) in
          omega (arith, a, z.size, z.count);
    };
    answers = λ k. z.answers k ∙ up.answers k;
    same_flags = z.same_flags ∙ up.same_flags;
    count = z.count ∙ count;
  }

  same-IsChanged :
      (x : Option (Pair V)) (u : Hash V) (n : ℕ)
      → IsUpdate h v key x u
      → u.elts ≡ n
      → HasRoom u 0
      → IsChanged h v key x n u
  same-IsChanged x u n up count room = record {
    ready = record { table = up.table; room = room };
    answers = up.answers;
    same_flags = up.same_flags;
    count = count;
  }

  full-room : (u : Hash V) → must_grow u ≡ false → HasRoom u 0
  unfolding must_grow HasRoom
  full-room u e grows = ground (arith, e, grows)

  -- After one more pair, there is room in a vector of twice the length.
  doubled-room :
      (x : Option (Pair V)) (u : Hash V) (b : Bool)
      → IsUpdate h v key x u
      → u.elts ≡ v.elts + to_ℕ b
      → (bit_and u.flags no_auto_grow == 0) ≡ true
      → 4 * (u.elts + 1) ≤ 3 * (2 * length u.buckets)
  unfolding HasRoom
  doubled-room x u b up count grows =
      let a = r.room (ap (λ f. bit_and f no_auto_grow == 0) (sym up.same_flags) ∙ grows) in
      omega (arith, a, up.sizes, count, to_ℕ-le b)

  -- `_hash_set3` sets one key.
  pub set3-changes :
      (depth : ℕ) (x : V)
      → 2 * length v.buckets ≤ 2 ^ 30
      → (w : Hash V) × (set3 h (suc depth) v key x ≡ some w)
        × IsChanged h v key
            (some (assign (view h v key) key x))
            (v.elts + to_ℕ (not (is_some (view h v key))))
            w
        × (IsAllocated v → IsSmall v.log2_pair_size (v.elts + 1) → IsAllocated w)
        × (w.log2_pair_size ≡ v.log2_pair_size)
  unfolding set3 resize_table HasRoom
  set3-changes depth x small =
      let u = lookup h v key (set_value x) in
      let y : Option (Pair V) = some (assign (view h v key) key x) in
      let up : IsUpdate h v key y u = lookup-set laws v r.table key x in
      let count = elts-lookup_set laws v r.table key x in
      let n = v.elts + to_ℕ (not (is_some (view h v key))) in
      elim (Bool-cases (must_grow u)) [
        | inr f ↦ (
          u,
          set3-sets laws (suc depth) v key x f,
          same-IsChanged y u n up count (full-room u f),
          lookup-IsAllocated h v key x r.table,
          lookup-pair_size h v key x,
        )
        | inl t ↦
            let size = 2 * length u.buckets in
            let room : (bit_and u.flags no_auto_grow == 0) ≡ true → 4 * (u.elts + 1) ≤ 3 * size =
              doubled-room y u (not (is_some (view h v key))) up count in
            let (w, e, z) =
              resize-IsResized laws depth size u up.table (omega (arith, up.sizes)) room in
            (
              w,
              rw (t, set3) e,
              resized-IsChanged y u w size n up count z room,
              (λ a few. z.allocated (
                  IsSmall-at v.log2_pair_size _ _ _ (lookup-pair_size h v key x)
                    (omega (arith, count, to_ℕ-le (not (is_some (view h v key))))) few)),
              z.same_pair_size ∙ lookup-pair_size h v key x,
            )
      ]

  -- With no more pairs than before there is room.
  fewer-room :
      (u : Hash V) (n : ℕ) → IsUpdate h v key none u → u.elts ≡ n → n ≤ v.elts → HasRoom u 0
  unfolding HasRoom
  fewer-room u n up count fewer grows =
      let a = r.room (ap (λ f. bit_and f no_auto_grow == 0) (sym up.same_flags) ∙ grows) in
      omega (arith, a, up.sizes, count)

  shrunk-room : (u : Hash V) → must_shrink u ≡ true → 4 * (u.elts + 1) ≤ 3 * (length u.buckets / 2)
  unfolding must_shrink
  shrunk-room u e = ground (arith, e)

  -- `_hash_unset` removes one key, at any depth.
  pub unset-changes :
      (depth : ℕ)
      → length v.buckets ≤ 2 ^ 30
      → (w : Hash V) × (hash_unset h depth (some v) key ≡ some (some w, value_of (view h v key)))
        × IsChanged h v key none (v.elts - to_ℕ (is_some (view h v key))) w
  unfolding hash_unset
  unset-changes depth small =
      let u = lookup h v key unset in
      let up : IsUpdate h v key none u = lookup-unset laws v r.table key in
      let count = elts-lookup_unset laws v r.table key in
      let old = old_value-unset laws v r.table key in
      let n = v.elts - to_ℕ (is_some (view h v key)) in
      elim (Bool-cases (must_shrink u)) [
        | inr f ↦ (
          u,
          rw (f, hash_unset, old) refl,
          same-IsChanged none u n up count (fewer-room u n up count (omega arith)),
        )
        | inl t ↦
            let size = length u.buckets / 2 in
            let (w, e, z) =
              resize-IsResized laws depth size u up.table (omega (arith, up.sizes))
                (λ g. shrunk-room u t) in
            (
              w,
              rw (t, hash_unset, e, old) refl,
              resized-IsChanged none u w size n up count z (λ g. shrunk-room u t),
            )
      ]
