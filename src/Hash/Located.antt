-- ===== src/Hash/Located.antt =====
-- `get_indirect` among the pairs of a bucket, and the writes and removals at the place it finds.
use clib.Common.{
  ℕ, zero, suc, ◌-◌, ◌<◌, ◌≡◌, refl, sym, ap, ◌∙◌, List, [], ◌∷◌, ◌++◌, true, false, length, get_or,
  take, ltb, if◌then◌else◌, none, some, Bool-cases, inl, inr, arith, length-append, take-last,
}
use clib.Hash.Bucket.{Pair, Functions, get_indirect, write_value, remove_at, unset_indirect}
use clib.Hash.Table.{bucket_pairs}
use clib.Hash.Keys.{IsKeys, key_equal-left}
use clib.Hash.Pairs.{
  find, IsMap, IsPlaced, IsPlaced-append, put_pair, find-cong, IsMap-snoc, find-snoc,
}

module _ {ℓ} {V : Type ℓ} where
  remove_at-one : (r p : Pair V) → remove_at r (p ∷ []) 0 ≡ []
  unfolding remove_at
  remove_at-one r p = refl

  remove_at-first :
      (r p : Pair V) (ps : List (Pair V)) (s : Pair V)
      → remove_at r (p ∷ s ∷ ps) 0
        ≡ get_or (s ∷ ps) (length (s ∷ ps) - 1) r ∷ take (length (s ∷ ps) - 1) (s ∷ ps)
  unfolding remove_at
  remove_at-first r p ps s =
      let e : suc (suc (length ps)) - 1 ≡ suc (suc (length ps) - 1) = omega arith in
      let t : ltb 0 (suc (suc (length ps) - 1)) ≡ true = ground arith in rw (e, t) refl

  remove_at-next :
      (r p : Pair V) (ps : List (Pair V)) (q : ℕ)
      → 0 < length ps
      → remove_at r (p ∷ ps) (suc q) ≡ p ∷ remove_at r ps q
  unfolding remove_at
  remove_at-next r p ps q some_left =
      let e : suc (length ps) - 1 ≡ suc (length ps - 1) = omega arith in
      elim (Bool-cases (ltb q (length ps - 1))) [
        | inl t ↦
            let t' : ltb (suc q) (suc (length ps - 1)) ≡ true = ground arith in rw (e, t', t) refl
        | inr f ↦
            let f' : ltb (suc q) (suc (length ps - 1)) ≡ false = ground arith in rw (e, f', f) refl
      ]

  pub unset_indirect-pairs :
      (log2_bytes : ℕ) (r : Pair V) (ps : List (Pair V)) (q : ℕ)
      → q < length (r ∷ ps)
      → bucket_pairs (unset_indirect log2_bytes (r ∷ ps) q) ≡ remove_at r (r ∷ ps) q
  unfolding unset_indirect remove_at bucket_pairs
  unset_indirect-pairs log2_bytes r [] zero b = refl
  unset_indirect-pairs log2_bytes r [] (suc q) b = absurd (omega arith)
  unset_indirect-pairs log2_bytes r (s ∷ []) zero b = refl
  unset_indirect-pairs log2_bytes r (s ∷ []) (suc zero) b = refl
  unset_indirect-pairs log2_bytes r (s ∷ []) (suc (suc q)) b = absurd (omega arith)
  unset_indirect-pairs log2_bytes r (s ∷ t ∷ ps) q b = refl

module _ {ℓ} {V : Type ℓ} (h : Functions) (key : ℕ) where
  -- `rs` is `ps` without the pair of a key.
  pub record IsWithout (ps rs : List (Pair V)) : Type ℓ where
    pub others : (k : ℕ) → find h rs k ≡ (if h.key_equal key k then none else find h ps k)
    pub is_map : IsMap h rs
    pub lengths : suc (length rs) ≡ length ps
    pub placed : (mask i : ℕ) → IsPlaced h mask i ps → IsPlaced h mask i rs

  -- What `get_indirect` answers.
  pub data Located (ps : List (Pair V)) : Type ℓ where
    absent : get_indirect h ps key ≡ none → find h ps key ≡ none → Located ps
    present :
        (q : ℕ) (p : Pair V)
        → get_indirect h ps key ≡ some (q, p)
        → find h ps key ≡ some p
        → q < length ps
        → ((v : V) → write_value ps q v ≡ put_pair h ps key v)
        → ((r : Pair V) → IsWithout ps (remove_at r ps q))
        → Located ps

module _ {ℓ} {V : Type ℓ} {h : Functions} (laws : IsKeys h) (key : ℕ) where
  -- A key that is not there can be removed.
  pub absent-others :
      (ps : List (Pair V)) (k : ℕ)
      → find h ps key ≡ none
      → find h ps k ≡ (if h.key_equal key k then none else find h ps k)
  absent-others ps k n = elim (Bool-cases (h.key_equal key k)) [
    | inl e ↦ rw (e, sym (find-cong laws ps key k e)) n
    | inr e ↦ rw e refl
  ]

  -- The pairs after the only one whose key is equal.
  pub dropped :
      (p : Pair V) (xs : List (Pair V)) (k : ℕ)
      → h.key_equal p.key key ≡ true
      → find h xs p.key ≡ none
      → find h xs k ≡ (if h.key_equal key k then none else find h (p ∷ xs) k)
  unfolding find
  dropped p xs k t n = elim (Bool-cases (h.key_equal key k)) [
    | inl e ↦
        let same : h.key_equal k p.key ≡ true =
          laws.equal_sym k p.key ∙ key_equal-left laws p.key key k t ∙ e in
        rw e (find-cong laws xs k p.key same ∙ n)
    | inr e ↦ rw (e, key_equal-left laws p.key key k t, e) refl
  ]

  -- The last pair in the place of the first, whose key is looked for.
  moved :
      (p e : Pair V) (zs xs : List (Pair V))
      → zs ++ e ∷ [] ≡ xs
      → h.key_equal p.key key ≡ true
      → IsMap h (p ∷ xs)
      → IsWithout h key (p ∷ xs) (e ∷ zs)
  unfolding IsMap find IsPlaced
  moved p e zs xs same t d =
      let m : IsMap h (e ∷ zs) = IsMap-snoc laws e zs (rw same d.1) in
      let f : (k : ℕ) → find h (e ∷ zs) k ≡ find h xs k =
        (λ k. sym (find-snoc laws e zs k m.0) ∙ ap (λ us. find h us k) same) in
      record {
        others = λ k. f k ∙ dropped p xs k t d.0;
        is_map = m;
        lengths = ap suc (omega (arith, length-append zs (e ∷ []), ap length same));
        placed = λ mask i a.
            let both = (IsPlaced-append h mask i zs (e ∷ [])).1 (rw same a.1) in (both.1.0, both.0);
      }

  without_first :
      (r p : Pair V) (ps : List (Pair V))
      → h.key_equal p.key key ≡ true
      → IsMap h (p ∷ ps)
      → IsWithout h key (p ∷ ps) (remove_at r (p ∷ ps) 0)
  unfolding IsMap IsPlaced find
  without_first r p [] e d = rw (remove_at-one r p) (record {
    others = λ k. dropped p [] k e refl;
    is_map = tt;
    lengths = refl;
    placed = λ mask i a. tt;
  })
  without_first r p (s ∷ ps) e d =
      let xs = s ∷ ps in
      let last = get_or xs (length xs - 1) r in
      let zs = take (length xs - 1) xs in
      rw (remove_at-first r p ps s) (moved p last zs xs (take-last xs r (omega arith)) e d)

  without_next :
      (r p : Pair V) (ps : List (Pair V)) (q : ℕ)
      → h.key_equal p.key key ≡ false
      → IsMap h (p ∷ ps)
      → IsWithout h key ps (remove_at r ps q)
      → IsWithout h key (p ∷ ps) (remove_at r (p ∷ ps) (suc q))
  unfolding IsMap IsPlaced find
  without_next r p ps q e d rest =
      rw (remove_at-next r p ps q (omega (arith, rest.lengths))) (record {
        others = λ k. elim (Bool-cases (h.key_equal key k)) [
          | inl t ↦ rw (t, sym (laws.equal_cong key k p.key t) ∙ e) (rest.others k ∙ rw t refl)
          | inr f ↦
              let o : find h (remove_at r ps q) k ≡ find h ps k = rest.others k ∙ rw f refl in
              rw (f, o) refl
        ];
        is_map = (rest.others p.key ∙ rw (laws.equal_sym key p.key ∙ e) d.0, rest.is_map);
        lengths = omega (arith, rest.lengths);
        placed = λ mask i a. (a.0, rest.placed mask i a.1);
      })

  pub locate : (ps : List (Pair V)) → IsMap h ps → Located h key ps
  unfolding IsMap get_indirect find put_pair write_value
  locate [] d = absent refl refl
  locate (p ∷ ps) d = elim (Bool-cases (h.key_equal p.key key)) [
    | inl t ↦
        present 0 p (rw t refl) (rw t refl) (omega arith) (λ v. rw t refl)
          (λ r. without_first r p ps t d)
    | inr f ↦ elim (locate ps d.1) [
      | absent e n ↦ absent (rw (f, e) refl) (rw (f, n) refl)
      | present q s e n b w o ↦
          present (suc q) s (rw (f, e) refl) (rw (f, n) refl) (omega arith)
            (λ v. rw f (ap (λ t. p ∷ t) (w v))) (λ r. without_next r p ps q f d (o r))
    ]
  ]
