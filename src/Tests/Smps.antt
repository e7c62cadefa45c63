-- ===== src/Tests/Smps.antt =====
-- Runs of clib/smp.h and clib/smp.c with two CPUs, one of which waits for the other.
use clib.Common.{true, ℕ, ◌≤◌, ◌≡◌, ◌≢◌, refl, Option, none, some, arith}
use clib.Smp.Lock.{
  header_is_equal, Lock, Pc, idle, locked, update, set_header, set_wait_type, place, try_lock,
  enter_fifo, grant_head, move, System, step, Reach, start, later, lock_init, Header, unlock_swap,
  lock_slow,
}
use clib.Smp.Assertions.{move_asserts}
use clib.Smp.Exclusion.{locked_unique}

-- The state after a step of a CPU; one that panics leaves the state.
unfoldable after : ℕ → System → System
after cpu s = elim (move 1 cpu s.lock (s.pc cpu)) [
  | none ↦ s
  | some x ↦ record { lock = x.0; pc = update s.pc cpu x.1 }
]

-- CPU 0 takes the lock; CPU 1 finds it taken and waits; CPU 0 is about to advance the fifo.
abbrev releasing : System
releasing = after 0 (
    after 0 (
      after 0 (
        after 0 (
          after 1 (
            after 1 (
              after 1 (
                after 1 (
                  after 1
                    (after 0 (after 0 (record { lock = lock_init; pc = λ cpu. idle })))))))))))

-- CPU 0 gives the lock to CPU 1.
abbrev contended : System
contended = after 1 (after 1 (after 0 (after 0 releasing)))

abbrev waited : Header
waited = record {
  head_index = 0;
  n_elts = 1;
  request_cpu = 1;
  n_readers_with_lock = 0;
  writer_has_lock = true;
}

releasing-unlock_swap : releasing.pc 0 ≡ unlock_swap waited
unfolding after move try_lock enter_fifo grant_head set_header set_wait_type header_is_equal update
    place
releasing-unlock_swap = refl

contended-locked : (contended.pc 1 ≡ locked) × (contended.pc 0 ≡ idle)
unfolding after move try_lock enter_fifo grant_head set_header set_wait_type header_is_equal update
    place
contended-locked = (refl, refl)

after-Reach : (cpu : ℕ) (s : System) → cpu ≤ 1 → Reach 1 s → Reach 1 (after cpu s)
unfolding after
after-Reach cpu s le r = go (move 1 cpu s.lock (s.pc cpu)) refl
  where
    go :
        (o : Option (Lock × Pc))
        → move 1 cpu s.lock (s.pc cpu) ≡ o
        → Reach 1 (elim o [ none ↦ s | some x ↦ record { lock = x.0; pc = update s.pc cpu x.1 } ])
    go none e = r
    go (some x) e = later r (step cpu le e)

zero-Reach : (s : System) → Reach 1 s → Reach 1 (after 0 s)
zero-Reach s = after-Reach 0 s (omega arith)

one-Reach : (s : System) → Reach 1 s → Reach 1 (after 1 s)
one-Reach s = after-Reach 1 s (omega arith)

releasing-Reach : Reach 1 releasing
releasing-Reach = zero-Reach _ (
    zero-Reach _ (
      zero-Reach _ (
        zero-Reach _ (
          one-Reach _ (
            one-Reach _
              (one-Reach _ (one-Reach _ (one-Reach _ (zero-Reach _ (zero-Reach _ start))))))))))

contended-Reach : Reach 1 contended
contended-Reach = one-Reach _ (one-Reach _ (zero-Reach _ (zero-Reach _ releasing-Reach)))

releasing-lock_slow : (h0 : Header) → releasing.pc 0 ≢ lock_slow h0
releasing-lock_slow h0 e = let a = releasing-unlock_swap in absurd cc

move_asserts_example : move 1 0 releasing.lock (releasing.pc 0) ≢ none
move_asserts_example =
    move_asserts 1 (omega arith) (omega arith) releasing releasing-Reach 0 releasing-lock_slow

locked_unique_example : contended.pc 0 ≢ locked
locked_unique_example =
    locked_unique 1 (omega arith) (omega arith) contended contended-Reach 1 0 (omega arith)
      contended-locked.0
