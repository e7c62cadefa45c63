-- ===== src/Smp/Handover.antt =====
-- The steps by which a CPU gives the lock up, and what the other CPUs rely on.
use clib.Common.{
  ℕ, zero, suc, ◌+◌, ◌-◌, ◌<◌, ◌≤◌, ◌≡◌, ◌≢◌, sym, ap, ◌∙◌, ◌==◌, if◌then◌else◌, inl, inr, arith,
}
use clib.Smp.Lock.{Header, Lock, wait_done, wait_writer, place, update, set_wait_type}
use clib.Smp.Ghost.{
  free, waking, granted, Ghost, Role, outside, queued, announcing, waiting, clearing, owning, ready,
  wakes, InFifo, Fact, same_or_not, update_self, update_other,
}

module _ (n : ℕ) where
  place-zero : (h : Header) → h.head_index < n → place n h 0 ≡ h.head_index
  unfolding place
  place-zero h small = ground arith

  place-next :
      (a b : Header) (k : ℕ)
      → a.head_index < n
      → b.head_index ≡ (if a.head_index + 1 == n then 0 else a.head_index + 1)
      → suc k < n
      → place n a (suc k) ≡ place n b k
  unfolding place
  place-next a b k small e few = ground arith

  -- The fifo without its head.
  pub InFifo-fewer :
      (a b : Header) (s : ℕ)
      → a.head_index < n
      → a.n_elts ≤ n
      → b.head_index ≡ (if a.head_index + 1 == n then 0 else a.head_index + 1)
      → b.n_elts ≡ a.n_elts - 1
      → a.head_index ≢ s
      → InFifo n a s
      → InFifo n b s
  InFifo-fewer a b s small few e1 e2 ne (zero, lt, e) = absurd (ne (sym (e ∙ place-zero a small)))
  InFifo-fewer a b s small few e1 e2 ne (suc k, lt, e) =
      (k, omega arith, e ∙ place-next a b k small e1 (omega arith))

  module _ (g : Ghost) (l : Lock) (i j : ℕ) (ne : i ≢ j) where
    -- The holder gives the lock up while no CPU is in the fifo.
    pub release_other :
        (h : Header)
        → Fact n g l i owning
        → l.header.n_elts ≡ 0
        → (r : Role) → Fact n g l j r
        → Fact n (record g { phase = free }) (record l { header = h }) j r
    unfolding Fact
    release_other h f e outside x = tt
    release_other h f e (queued s) (q, (k, lt, p), w) = absurd (omega arith)
    release_other h f e (announcing s) (q, (k, lt, p), w) = absurd (omega arith)
    release_other h f e (waiting s) (o, inl w) = (o, inl w)
    release_other h f e (waiting s) (o, inr w) = let a = f.1 in let b = w.2 in absurd (ne cc)
    release_other h f e (clearing s) x = let a = f.1 in let b = x.3 in absurd (ne cc)
    release_other h f e owning x = let a = f.1 in let b = x.1 in absurd (ne cc)
    release_other h f e (ready s) x = let a = f.1 in let b = x.1 in absurd (ne cc)
    release_other h f e (wakes s) x = let a = f.1 in let b = x.1 in absurd (ne cc)

    -- The holder takes the head out of the fifo.
    pub dequeue_other :
        (h : Header) (t : ℕ)
        → Fact n g l i (ready t)
        → ((s : ℕ) → t ≢ s → InFifo n l.header s → InFifo n h s)
        → (r : Role) → Fact n g l j r
        → Fact n (record g { phase = waking t }) (record l { header = h }) j r
    unfolding Fact
    dequeue_other h t f stay outside x = tt
    dequeue_other h t f stay (queued s) (q, m, w) =
        let a = f.0 in
        let b = f.2 in
        let not_writer : l.waiting_fifo s ≢ wait_writer = (λ p. let c = w p in absurd cc) in
        (q, stay s (λ e. not_writer (ap l.waiting_fifo (sym e) ∙ b)) m, λ p. absurd (not_writer p))
    dequeue_other h t f stay (announcing s) (q, m, w) =
        let b = f.2 in (q, stay s (λ e. let c = ap l.waiting_fifo e in absurd cc) m, w)
    dequeue_other h t f stay (waiting s) (o, inl w) = (o, inl w)
    dequeue_other h t f stay (waiting s) (o, inr w) = let a = f.1 in let b = w.2 in absurd (ne cc)
    dequeue_other h t f stay (clearing s) x = let a = f.1 in let b = x.3 in absurd (ne cc)
    dequeue_other h t f stay owning x = let a = f.1 in let b = x.1 in absurd (ne cc)
    dequeue_other h t f stay (ready s) x = let a = f.1 in let b = x.1 in absurd (ne cc)
    dequeue_other h t f stay (wakes s) x = let a = f.1 in let b = x.1 in absurd (ne cc)

    -- The holder stores `wait_done` in the element that was the head: the CPU that waits there
    -- holds the lock from then on.
    pub wake_other :
        (t : ℕ)
        → Fact n g l i (wakes t)
        → (r : Role) → Fact n g l j r
        → Fact n
            (record g { holder = g.owner t; phase = granted t })
            (set_wait_type l t wait_done)
            j
            r
    unfolding Fact set_wait_type
    wake_other t f outside x = tt
    wake_other t f (queued s) (q, m, w) = elim (same_or_not t s) [
      | inl e ↦
          let a = update_self l.waiting_fifo t wait_done in
          (q, m, λ p. let p' = ap (update l.waiting_fifo t wait_done) e ∙ p in absurd cc)
      | inr d ↦ (
        q,
        m,
        λ p.
            let a = w (sym (update_other l.waiting_fifo t wait_done s d) ∙ p) in
            let b = f.0 in absurd (d cc),
      )
    ]
    wake_other t f (announcing s) (q, m, w) = elim (same_or_not t s) [
      | inl e ↦ let a = f.2 in absurd cc
      | inr d ↦ (q, m, update_other l.waiting_fifo t wait_done s d ∙ w)
    ]
    wake_other t f (waiting s) (o, inl w) = elim (same_or_not t s) [
      | inl e ↦ (
        o,
        inr (
          ap (update l.waiting_fifo t wait_done) (sym e) ∙ update_self l.waiting_fifo t wait_done,
          ap granted e,
          ap g.owner e ∙ o,
        ),
      )
      | inr d ↦ (o, inl (update_other l.waiting_fifo t wait_done s d ∙ w))
    ]
    wake_other t f (waiting s) (o, inr w) = let a = f.1 in let b = w.2 in absurd (ne cc)
    wake_other t f (clearing s) x = let a = f.1 in let b = x.3 in absurd (ne cc)
    wake_other t f owning x = let a = f.1 in let b = x.1 in absurd (ne cc)
    wake_other t f (ready s) x = let a = f.1 in let b = x.1 in absurd (ne cc)
    wake_other t f (wakes s) x = let a = f.1 in let b = x.1 in absurd (ne cc)
