-- ===== src/Smp/Exclusion.antt =====
-- The CPUs between `clib_smp_lock` and `clib_smp_unlock`.
use clib.Common.{
  ℕ, ◌+◌, ◌^◌, ◌<◌, ◌≡◌, ◌≢◌, refl, Bool, true, false, not, ◌&&◌, ◌==◌, if◌then◌else◌, inl, inr,
  arith, ==_iff,
}
use mathlib.Core.Path.{subst}
use clib.Smp.Lock.{
  Lock, Pc, idle, lock_top, lock_slow, lock_retry, lock_enter, lock_announce, lock_wait, lock_clear,
  locked, unlocking, unlock_top, unlock_slow, unlock_swap, unlock_wake, move, System, Step, step,
  Reach, start, later,
}
use clib.Smp.Ghost.{free, Ghost, role, Fact, IsGhost, same_or_not, update_self, update_other}
use clib.Smp.Moves.{
  IsNext, IsFine, stay, try_lock-IsFine, enter_fifo-IsFine, announce-IsNext, clear-IsNext,
  wait_cases,
}
use clib.Smp.Releases.{release-IsNext, grant_head-IsFine, wake-IsNext}

-- Both branches of a test.
pub if-cases :
    {A : Type 0} (P : A → Type 0) (b : Bool) {x y : A}
    → (b ≡ true → P x)
    → (b ≡ false → P y)
    → P (if b then x else y)
if-cases P true f g = f refl
if-cases P false f g = g refl

module _ (n : ℕ) (small : n + 1 < 2 ^ 16) (g : Ghost) (l : Lock) (cpu : ℕ)
    (is : IsGhost n g l) where
  move-IsFine : (p : Pc) → Fact n g l cpu (role p) → IsFine n g l cpu (move n cpu l p)
  unfolding move role Fact IsFine
  move-IsFine idle f = stay n g l cpu is (lock_top l.header) tt
  move-IsFine (lock_top h0) f =
      if-cases (IsFine n g l cpu) h0.writer_has_lock (λ e. stay n g l cpu is (lock_slow h0) tt)
        (λ e. try_lock-IsFine n g l cpu is h0 (λ h. lock_top h) e tt)
  move-IsFine (lock_slow h0) f = enter_fifo-IsFine n g l cpu is small h0
  move-IsFine (lock_retry h2) f =
      if-cases (IsFine n g l cpu) h2.writer_has_lock (λ e. stay n g l cpu is (lock_slow h2) tt)
        (λ e. try_lock-IsFine n g l cpu is h2 (λ h. lock_retry h) e tt)
  move-IsFine (lock_enter s) f = elim (wait_cases (l.waiting_fifo s)) [
    | inl e ↦ rw (e, move) (stay n g l cpu is (lock_announce s) (f.0, f.1, e))
    | inr (inl e) ↦ rw (e, move) (stay n g l cpu is (lock_enter s) f)
    | inr (inr e) ↦ rw (e, move) (stay n g l cpu is (lock_enter s) f)
  ]
  move-IsFine (lock_announce s) f = announce-IsNext n g l cpu is s f
  move-IsFine (lock_wait s) (o, f) = elim (wait_cases (l.waiting_fifo s)) [
    | inl e ↦ rw (e, move) (stay n g l cpu is (lock_wait s) (o, f))
    | inr (inl e) ↦
        rw (e, move)
          (elim f [
            | inl w ↦ absurd cc
            | inr (w, p, k) ↦ stay n g l cpu is (lock_clear s) (o, w, p, k)
          ])
    | inr (inr e) ↦ rw (e, move) (stay n g l cpu is (lock_wait s) (o, f))
  ]
  move-IsFine (lock_clear s) f = clear-IsNext n g l cpu is s f
  move-IsFine locked f = stay n g l cpu is unlocking f
  move-IsFine unlocking f =
      if-cases (IsFine n g l cpu) (l.header.n_readers_with_lock == 0 && l.header.writer_has_lock)
        (λ e. stay n g l cpu is (unlock_top l.header) f) (λ e. tt)
  move-IsFine (unlock_top h0) f =
      if-cases (IsFine n g l cpu) (h0.n_elts == 0)
        (λ e. release-IsNext n g l cpu is h0 f ((==_iff h0.n_elts 0).0 e))
        (λ e. stay n g l cpu is (unlock_slow h0) f)
  move-IsFine (unlock_slow h0) f =
      if-cases (IsFine n g l cpu) (not (h0.n_elts == 0) && h0.writer_has_lock)
        (λ e. elim (wait_cases (l.waiting_fifo h0.head_index)) [
          | inl t ↦ rw (t, move) (stay n g l cpu is (unlock_slow h0) f)
          | inr (inl t) ↦ let a = is.dones h0.head_index t in let b = f.0 in absurd cc
          | inr (inr t) ↦ rw (t, move) (stay n g l cpu is (unlock_swap h0) (f.0, f.1, t))
        ])
        (λ e. tt)
  move-IsFine (unlock_swap h0) f = grant_head-IsFine n g l cpu is h0 f
  move-IsFine (unlock_wake s) f = wake-IsNext n g l cpu is s f

module _ (n : ℕ) where
  -- The invariant of all the CPUs.
  pub record IsSafe (s : System) : Type 0 where
    pub ghost : Ghost
    pub is_ghost : IsGhost n ghost s.lock
    pub facts : (j : ℕ) → Fact n ghost s.lock j (role (s.pc j))

  Step-IsSafe : n + 1 < 2 ^ 16 → (s t : System) → IsSafe s → Step n s t → IsSafe t
  unfolding IsFine
  Step-IsSafe small s t i (step cpu {l} {p} le e) =
      let fine = move-IsFine n small i.ghost s.lock cpu i.is_ghost (s.pc cpu) (i.facts cpu) in
      let x : IsNext n i.ghost s.lock cpu (l, p) = subst (IsFine n i.ghost s.lock cpu) e fine in
      record {
        ghost = x.ghost;
        is_ghost = x.is_ghost;
        facts = λ j. elim (same_or_not cpu j) [
          | inl same ↦ rw⁻¹ same (rw (update_self s.pc cpu p) x.own)
          | inr ne ↦ rw (update_other s.pc cpu p j ne) (x.others j ne (role (s.pc j)) (i.facts j))
        ];
      }

  pub Reach-IsSafe : n + 1 < 2 ^ 16 → 0 < n → (s : System) → Reach n s → IsSafe s
  unfolding Fact role
  Reach-IsSafe small some_left s start = record {
    ghost = record { queue = λ k. 0; owner = λ k. 0; holder = 0; phase = free };
    is_ghost = record {
      unlocked = λ u. refl;
      dones = λ k d. absurd cc;
      writers = λ k w. absurd cc;
      head_small = some_left;
      few = omega arith;
    };
    facts = λ j. tt;
  }
  Reach-IsSafe small some_left s (later r m) =
      Step-IsSafe small _ _ (Reach-IsSafe small some_left _ r) m

  locked_holder :
      (g : Ghost) (l : Lock) (i : ℕ) (p : Pc) → p ≡ locked → Fact n g l i (role p) → g.holder ≡ i
  unfolding Fact role
  locked_holder g l i p e f = (subst (λ q. Fact n g l i (role q)) e f).1

  -- If the waiting fifo has at least one element and fewer than 2 ^ 16 - 1, then in every state
  -- that the CPUs reach by steps in any order from a new lock, where each step makes at most one
  -- access to memory and a CPU whose assertion fails takes no more steps, no two CPUs have the
  -- spin lock, that is, have returned from `clib_smp_lock` and not yet called `clib_smp_unlock`.
  pub locked_unique :
      n + 1 < 2 ^ 16
      → 0 < n
      → (s : System) → Reach n s
      → (i j : ℕ) → i ≢ j
      → s.pc i ≡ locked
      → s.pc j ≢ locked
  locked_unique small some_left s r i j ne ei ej =
      let safe = Reach-IsSafe small some_left s r in
      let a = locked_holder safe.ghost s.lock i (s.pc i) ei (safe.facts i) in
      let b = locked_holder safe.ghost s.lock j (s.pc j) ej (safe.facts j) in absurd (ne cc)
