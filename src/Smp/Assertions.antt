-- ===== src/Smp/Assertions.antt =====
-- The assertions of `clib_smp_lock` and `clib_smp_unlock`, in all the states that CPUs can reach.
use clib.Common.{
  ℕ, ◌+◌, ◌^◌, ◌<◌, ◌≡◌, ◌≢◌, refl, Bool, true, false, not, ◌&&◌, ◌==◌, Option, none, some, inl,
  inr, arith, Bool-cases, ==_iff,
}
use mathlib.Core.Path.{subst}
use clib.Smp.Lock.{
  Header, Lock, Pc, idle, lock_top, lock_slow, lock_retry, lock_enter, lock_announce, lock_wait,
  lock_clear, locked, unlocking, unlock_top, unlock_slow, unlock_swap, unlock_wake, set_wait_type,
  move, System, Step, step, Reach, start, later,
}
use clib.Smp.Ghost.{Ghost, held, role, Fact, IsGhost, same_or_not, update_self, update_other}
use clib.Smp.Moves.{wait_cases}
use clib.Smp.Exclusion.{if-cases, IsSafe, Reach-IsSafe}
use clib.Smp.Headers.{
  enters, IsSound, Seen, IsCalm, swap-IsCalm, try_lock-IsCalm, enter_fifo-IsCalm, grant_head-IsCalm,
}

module _ (n : ℕ) (g : Ghost) (l : Lock) (cpu : ℕ) (is : IsGhost n g l)
    (sound : IsSound n l.header) where
  writer_held : g.phase ≡ held → l.header.writer_has_lock ≡ true
  writer_held e = elim (Bool-cases l.header.writer_has_lock) [
    | inl t ↦ t
    | inr u ↦ let a = is.unlocked u in absurd cc
  ]

  move-IsCalm : (p : Pc) → Fact n g l cpu (role p) → Seen n p → IsCalm n (enters p) (move n cpu l p)
  unfolding move role Fact IsCalm Seen enters set_wait_type
  move-IsCalm idle f e = (sound, sound)
  move-IsCalm (lock_top h0) f e =
      if-cases (IsCalm n false) h0.writer_has_lock (λ t. (sound, (e, t)))
        (λ u. try_lock-IsCalm n cpu l sound h0 (λ h. lock_top h) e u (λ x i. i))
  move-IsCalm (lock_slow h0) f e = enter_fifo-IsCalm n cpu l sound h0 e
  move-IsCalm (lock_retry h2) f e =
      if-cases (IsCalm n false) h2.writer_has_lock (λ t. (sound, (e, t)))
        (λ u. try_lock-IsCalm n cpu l sound h2 (λ h. lock_retry h) e u (λ x i. i))
  move-IsCalm (lock_enter s) f e = elim (wait_cases (l.waiting_fifo s)) [
    | inl t ↦ rw (t, move) (sound, tt)
    | inr (inl t) ↦ rw (t, move) (sound, tt)
    | inr (inr t) ↦ rw (t, move) (sound, tt)
  ]
  move-IsCalm (lock_announce s) f e = (sound, tt)
  move-IsCalm (lock_wait s) f e = elim (wait_cases (l.waiting_fifo s)) [
    | inl t ↦ rw (t, move) (sound, tt)
    | inr (inl t) ↦ rw (t, move) (sound, tt)
    | inr (inr t) ↦ rw (t, move) (sound, tt)
  ]
  move-IsCalm (lock_clear s) f e = (sound, tt)
  move-IsCalm locked f e = (sound, tt)
  move-IsCalm unlocking f e =
      let a = sound.unread in
      let b = writer_held f.0 in
      let c : (l.header.n_readers_with_lock == 0) ≡ true =
        (==_iff l.header.n_readers_with_lock 0).1 a in
      if-cases (IsCalm n false) (l.header.n_readers_with_lock == 0 && l.header.writer_has_lock)
        (λ t. (sound, (sound, b))) (λ u. absurd (ground arith))
  move-IsCalm (unlock_top h0) f e =
      if-cases (IsCalm n false) (h0.n_elts == 0)
        (λ z.
          swap-IsCalm n false l _ h0 idle (λ h. unlock_top h)
            (λ t. (
              record {
                unread = e.0.unread;
                head_small = e.0.head_small;
                few = e.0.few;
                unlocked = λ u. (==_iff h0.n_elts 0).0 z;
              },
              tt,
            ))
            (sound, (sound, writer_held f.0)))
        (λ z. (sound, (e.0, e.1, λ q. ground arith)))
  move-IsCalm (unlock_slow h0) f e =
      if-cases (IsCalm n false) (not (h0.n_elts == 0) && h0.writer_has_lock)
        (λ t. elim (wait_cases (l.waiting_fifo h0.head_index)) [
          | inl t ↦ rw (t, move) (sound, e)
          | inr (inl t) ↦ rw (t, move) (sound, e)
          | inr (inr t) ↦ rw (t, move) (sound, e)
        ])
        (λ u. let a = e.1 in let b = e.2 in absurd (ground arith))
  move-IsCalm (unlock_swap h0) f e = grant_head-IsCalm n cpu l sound h0 e (writer_held f.0)
  move-IsCalm (unlock_wake s) f e = (sound, tt)

entering : (p : Pc) → ((h0 : Header) → p ≢ lock_slow h0) → enters p ≢ true
unfolding enters
entering idle ne e = absurd cc
entering (lock_top h0) ne e = absurd cc
entering (lock_slow h0) ne e = ne h0 refl
entering (lock_retry h2) ne e = absurd cc
entering (lock_enter s) ne e = absurd cc
entering (lock_announce s) ne e = absurd cc
entering (lock_wait s) ne e = absurd cc
entering (lock_clear s) ne e = absurd cc
entering locked ne e = absurd cc
entering unlocking ne e = absurd cc
entering (unlock_top h0) ne e = absurd cc
entering (unlock_slow h0) ne e = absurd cc
entering (unlock_swap h0) ne e = absurd cc
entering (unlock_wake s) ne e = absurd cc

module _ (n : ℕ) where
  record AreCalm (s : System) : Type 0 where
    sound : IsSound n s.lock.header
    seen : (j : ℕ) → Seen n (s.pc j)

  calm :
      (s : System)
      → IsSafe n s
      → AreCalm s
      → (cpu : ℕ) → IsCalm n (enters (s.pc cpu)) (move n cpu s.lock (s.pc cpu))
  calm s i c cpu =
      move-IsCalm n i.ghost s.lock cpu i.is_ghost c.sound (s.pc cpu) (i.facts cpu) (c.seen cpu)

  Step-AreCalm : (s t : System) → IsSafe n s → AreCalm s → Step n s t → AreCalm t
  unfolding IsCalm
  Step-AreCalm s t i c (step cpu {l} {p} le e) =
      let x : IsSound n l.header × Seen n p =
        subst (IsCalm n (enters (s.pc cpu))) e (calm s i c cpu) in
      record {
        sound = x.0;
        seen = λ j. elim (same_or_not cpu j) [
          | inl same ↦ rw⁻¹ same (rw (update_self s.pc cpu p) x.1)
          | inr ne ↦ rw (update_other s.pc cpu p j ne) (c.seen j)
        ];
      }

  Reach-AreCalm : n + 1 < 2 ^ 16 → 0 < n → (s : System) → Reach n s → AreCalm s
  unfolding Seen
  Reach-AreCalm small some_left s start = record {
    sound = record {
      unread = refl;
      head_small = some_left;
      few = omega arith;
      unlocked = λ u. refl;
    };
    seen = λ j. tt;
  }
  Reach-AreCalm small some_left s (later r m) =
      Step-AreCalm _ _ (Reach-IsSafe n small some_left _ r) (Reach-AreCalm small some_left _ r) m

  panics : (b : Bool) (o : Option (Lock × Pc)) → IsCalm n b o → o ≡ none → b ≡ true
  unfolding IsCalm
  panics b none c e = c
  panics b (some x) c e = absurd cc

  -- In every state that the CPUs reach by steps from a new lock, over a waiting fifo of at least
  -- one and fewer than 2 ^ 16 - 1 elements, no CPU is about to fail an assertion of
  -- `clib_smp_lock` and `clib_smp_unlock`, unless it is about to add itself to the waiting fifo:
  -- whenever a CPU takes the lock at once nobody waits, a CPU that unlocks finds the lock held by
  -- a writer and no readers, and when it hands the lock on somebody waits and the head of the fifo
  -- stays within the fifo.
  pub move_asserts :
      n + 1 < 2 ^ 16
      → 0 < n
      → (s : System) → Reach n s
      → (cpu : ℕ) → ((h0 : Header) → s.pc cpu ≢ lock_slow h0)
      → move n cpu s.lock (s.pc cpu) ≢ none
  move_asserts small some_left s r cpu ne e =
      let safe = Reach-IsSafe n small some_left s r in
      let c = calm s safe (Reach-AreCalm small some_left s r) cpu in
      entering (s.pc cpu) ne (panics (enters (s.pc cpu)) (move n cpu s.lock (s.pc cpu)) c e)
