-- ===== src/Hash/SumReads.antt =====
-- The sum of some bytes of memory depends on those bytes only, although the last load of
-- `hash_memory64` reads past them.
use clib.Common.{
  ℕ, zero, suc, ◌+◌, ◌-◌, ◌/◌, ◌%◌, ◌^◌, ◌<◌, ◌≤◌, ◌≡◌, refl, ap, ◌∙◌, Bool, ltb, ◌==◌, Bool-cases,
  inl, inr, arith,
}
use clib.Word.{add}
use clib.Hash.Sum.{
  State, load_bytes, zap64, mix_block, mix_blocks, mix_rest, hash_memory64, hash_mix64, start_state,
}
use clib.Hash.Loads.{IsSame, load_bytes-same, zap64-same}

module _ (big : Bool) (memory1 memory2 : ℕ → ℕ) (bytes1 : (p : ℕ) → memory1 p < 2 ^ 8)
    (bytes2 : (p : ℕ) → memory2 p < 2 ^ 8) where
  -- Part of the bytes.
  part :
      (p1 p2 n k m : ℕ)
      → IsSame memory1 memory2 p1 p2 n
      → k + m ≤ n
      → IsSame memory1 memory2 (p1 + k) (p2 + k) m
  part p1 p2 n k m same fits i h =
      let e1 : p1 + k + i ≡ p1 + (k + i) = omega arith in
      let e2 : p2 + k + i ≡ p2 + (k + i) = omega arith in rw (e1, e2) (same (k + i) (omega arith))

  load_part :
      (p1 p2 n k : ℕ)
      → IsSame memory1 memory2 p1 p2 n
      → k + 8 ≤ n
      → load_bytes memory1 (p1 + k) big 8 ≡ load_bytes memory2 (p2 + k) big 8
  load_part p1 p2 n k same fits =
      load_bytes-same memory1 memory2 big (p1 + k) (p2 + k) 8 (part p1 p2 n k 8 same fits)

  mix_block-same :
      (q1 q2 n : ℕ) (s : State)
      → IsSame memory1 memory2 q1 q2 n
      → 24 ≤ n
      → mix_block big memory1 q1 s ≡ mix_block big memory2 q2 s
  unfolding mix_block
  mix_block-same q1 q2 n s same fits =
      rw
        (
          load_bytes-same memory1 memory2 big q1 q2 8 (λ i h. same i (omega arith)),
          load_part q1 q2 n 8 same (omega arith),
          load_part q1 q2 n 16 same (omega arith),
        )
        refl

  -- What the loop leaves of two memories.
  pub record IsRest (r1 r2 : ℕ × ℕ × State) : Type 0 where
    pub same_state : r1.2 ≡ r2.2
    pub same_left : r1.1 ≡ r2.1
    pub few : r1.1 < 24
    pub same : IsSame memory1 memory2 r1.0 r2.0 r1.1

  mix_blocks-IsRest :
      (fuel q1 q2 n : ℕ) (s : State)
      → n / 24 ≤ fuel
      → IsSame memory1 memory2 q1 q2 n
      → IsRest (mix_blocks big memory1 fuel q1 n s) (mix_blocks big memory2 fuel q2 n s)
  unfolding mix_blocks
  mix_blocks-IsRest zero q1 q2 n s enough same = record {
    same_state = refl;
    same_left = refl;
    few = omega arith;
    same = same;
  }
  mix_blocks-IsRest (suc fuel) q1 q2 n s enough same = elim (Bool-cases (ltb n 24)) [
    | inl t ↦
        rw t (record { same_state = refl; same_left = refl; few = ground (arith, t); same = same })
    | inr f ↦
        let more : 24 ≤ n = ground (arith, f) in
        rw (f, mix_block-same q1 q2 n s same more)
          (mix_blocks-IsRest fuel (q1 + 24) (q2 + 24) (n - 24) (mix_block big memory2 q2 s)
            (omega arith) (part q1 q2 n 24 (n - 24) same (omega arith)))
  ]

  zap_part :
      (p1 p2 n k : ℕ)
      → IsSame memory1 memory2 p1 p2 n
      → k + n % 8 ≤ n
      → zap64 big (load_bytes memory1 (p1 + k) big 8) (n % 8)
        ≡ zap64 big (load_bytes memory2 (p2 + k) big 8) (n % 8)
  zap_part p1 p2 n k same fits =
      zap64-same memory1 memory2 bytes1 bytes2 big (p1 + k) (p2 + k) (n % 8) (omega arith)
        (part p1 p2 n k (n % 8) same fits)

  mix_rest-same :
      (q1 q2 n : ℕ) (s : State)
      → n < 24
      → IsSame memory1 memory2 q1 q2 n
      → mix_rest big memory1 q1 n s ≡ mix_rest big memory2 q2 n s
  unfolding mix_rest
  mix_rest-same q1 q2 n s few same = elim (Bool-cases (n / 8 == 2)) [
    | inl two ↦
        let some : 16 ≤ n = ground (arith, two) in
        rw
          (
            two,
            load_bytes-same memory1 memory2 big q1 q2 8 (λ i h. same i (omega arith)),
            load_part q1 q2 n 8 same (omega arith),
            zap_part q1 q2 n 16 same (ground (arith, two)),
          )
          refl
    | inr not_two ↦ elim (Bool-cases (n / 8 == 1)) [
      | inl one ↦
          rw
            (
              not_two,
              one,
              load_bytes-same memory1 memory2 big q1 q2 8 (λ i h. same i (ground (arith, one))),
              zap_part q1 q2 n 8 same (ground (arith, one)),
            )
            refl
      | inr not_one ↦
          rw
            (
              not_two,
              not_one,
              zap64-same memory1 memory2 bytes1 bytes2 big q1 q2 (n % 8) (omega arith)
                  (λ i h. same i (omega arith)),
            )
            refl
    ]
  ]

  -- In two memories of bytes, in either byte order, `hash_memory64` of `n` bytes answers the same
  -- if the `n` bytes are the same, at any two addresses: what its last load reads behind them
  -- makes no difference.
  pub hash_memory64-reads :
      (p1 p2 n state : ℕ)
      → IsSame memory1 memory2 p1 p2 n
      → hash_memory64 big memory1 p1 n state ≡ hash_memory64 big memory2 p2 n state
  unfolding hash_memory64
  hash_memory64-reads p1 p2 n state same =
      let r1 = mix_blocks big memory1 (n / 24) p1 n (start_state state) in
      let r2 = mix_blocks big memory2 (n / 24) p2 n (start_state state) in
      let r : IsRest r1 r2 =
        mix_blocks-IsRest (n / 24) p1 p2 n (start_state state) (omega arith) same in
      let t : State → State = (λ s. record s { c = add s.c n }) in
      ap (λ s. (hash_mix64 s).c)
        (mix_rest-same r1.0 r2.0 r1.1 (t r1.2) r.few r.same
          ∙ ap (λ k. mix_rest big memory2 r2.0 k (t r1.2)) r.same_left
          ∙ ap (λ s. mix_rest big memory2 r2.0 r2.1 (t s)) r.same_state)
