-- ===== src/Smp/Ghost.antt =====
-- What each CPU may rely on: who holds the lock, and whose the elements of the fifo are.
use clib.Common.{
  ℕ, ◌<◌, ◌≤◌, ◌≡◌, ◌≢◌, refl, false, ◌==◌, ◌⊎◌, inl, inr, arith, Bool-cases, ==_refl, ==_iff,
}
use clib.Smp.Lock.{
  Header, Lock, wait_empty, wait_done, wait_writer, Pc, idle, lock_top, lock_slow, lock_retry,
  lock_enter, lock_announce, lock_wait, lock_clear, locked, unlocking, unlock_top, unlock_slow,
  unlock_swap, unlock_wake, place, update,
}

-- The lock is free, held, or on its way to the CPU of an element of the fifo: before and after
-- `wait_done` is stored there.
pub data Phase : Type 0 where
  free : Phase
  held : Phase
  waking : ℕ → Phase
  granted : ℕ → Phase

-- `queue` has the CPU that enters at an element, and `owner` the one that waits there.
pub record Ghost : Type 0 where
  pub queue : ℕ → ℕ
  pub owner : ℕ → ℕ
  pub holder : ℕ
  pub phase : Phase

pub data Role : Type 0 where
  outside : Role
  queued : ℕ → Role
  announcing : ℕ → Role
  waiting : ℕ → Role
  clearing : ℕ → Role
  owning : Role
  ready : ℕ → Role
  wakes : ℕ → Role

unfoldable pub role : Pc → Role
role idle = outside
role (lock_top h0) = outside
role (lock_slow h0) = outside
role (lock_retry h2) = outside
role (lock_enter s) = queued s
role (lock_announce s) = announcing s
role (lock_wait s) = waiting s
role (lock_clear s) = clearing s
role locked = owning
role unlocking = owning
role (unlock_top h0) = owning
role (unlock_slow h0) = owning
role (unlock_swap h0) = ready h0.head_index
role (unlock_wake s) = wakes s

pub same_or_not : (a b : ℕ) → (a ≡ b) ⊎ (a ≢ b)
same_or_not a b = elim (Bool-cases (a == b)) [
  | inl e ↦ inl (ground (arith, e))
  | inr e ↦ inr (ground (arith, e))
]

pub update_self : {A : Type 0} (f : ℕ → A) (i : ℕ) (a : A) → update f i a i ≡ a
unfolding update
update_self f i a = rw (==_refl i) refl

pub update_other : {A : Type 0} (f : ℕ → A) (i : ℕ) (a : A) (j : ℕ) → i ≢ j → update f i a j ≡ f j
unfolding update
update_other f i a j ne = elim (Bool-cases (i == j)) [
  | inl e ↦ absurd (ne ((==_iff i j).0 e))
  | inr e ↦ rw e refl
]

module _ (n : ℕ) where
  -- An element of the fifo between its head and its tail.
  abbrev pub InFifo : Header → ℕ → Type 0
  InFifo h s = (k : ℕ) × (k < h.n_elts) × (s ≡ place n h k)

  -- What a CPU may rely on.
  unfoldable pub Fact : Ghost → Lock → ℕ → Role → Type 0
  Fact g l i outside = Unit {0}
  Fact g l i (queued s) =
      (g.queue s ≡ i) × InFifo l.header s × (l.waiting_fifo s ≡ wait_writer → g.phase ≡ waking s)
  Fact g l i (announcing s) = (g.queue s ≡ i) × InFifo l.header s × (l.waiting_fifo s ≡ wait_empty)
  Fact g l i (waiting s) =
      (g.owner s ≡ i)
      × ((l.waiting_fifo s ≡ wait_writer)
          ⊎ ((l.waiting_fifo s ≡ wait_done) × (g.phase ≡ granted s) × (g.holder ≡ i)))
  Fact g l i (clearing s) =
      (g.owner s ≡ i) × (l.waiting_fifo s ≡ wait_done) × (g.phase ≡ granted s) × (g.holder ≡ i)
  Fact g l i owning = (g.phase ≡ held) × (g.holder ≡ i)
  Fact g l i (ready s) = (g.phase ≡ held) × (g.holder ≡ i) × (l.waiting_fifo s ≡ wait_writer)
  Fact g l i (wakes s) = (g.phase ≡ waking s) × (g.holder ≡ i) × (l.waiting_fifo s ≡ wait_writer)

  pub record IsGhost (g : Ghost) (l : Lock) : Type 0 where
    pub unlocked : l.header.writer_has_lock ≡ false → g.phase ≡ free
    pub dones : (s : ℕ) → l.waiting_fifo s ≡ wait_done → g.phase ≡ granted s
    pub writers :
        (s : ℕ) → l.waiting_fifo s ≡ wait_writer → InFifo l.header s ⊎ (g.phase ≡ waking s)
    pub head_small : l.header.head_index < n
    pub few : l.header.n_elts ≤ n
