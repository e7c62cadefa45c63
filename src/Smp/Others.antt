-- ===== src/Smp/Others.antt =====
-- The steps by which a CPU takes the lock, and what the other CPUs rely on.
use clib.Common.{ℕ, ◌+◌, ◌≡◌, ◌≢◌, sym, ap, ◌∙◌, inl, inr, arith}
use clib.Smp.Lock.{Header, Lock, wait_empty, wait_writer, place, update, set_wait_type}
use clib.Smp.Ghost.{
  free, held, Ghost, Role, outside, queued, announcing, waiting, clearing, owning, ready, wakes,
  InFifo, Fact, same_or_not, update_self, update_other,
}

module _ (n : ℕ) where
  pub InFifo-more :
      (l : Lock) (h : Header)
      → h.head_index ≡ l.header.head_index
      → h.n_elts ≡ l.header.n_elts + 1
      → (s : ℕ) → InFifo n l.header s
      → InFifo n h s
  unfolding place
  InFifo-more l h e1 e2 s (k, lt, e) = (k, omega arith, rw e1 e)

  module _ (g : Ghost) (l : Lock) (i j : ℕ) (ne : i ≢ j) where
    -- The lock is taken while it is free.
    pub acquire_other :
        (h : Header)
        → g.phase ≡ free
        → h.head_index ≡ l.header.head_index
        → h.n_elts ≡ l.header.n_elts
        → (r : Role) → Fact n g l j r
        → Fact n (record g { holder = i; phase = held }) (record l { header = h }) j r
    unfolding Fact place
    acquire_other h f e1 e2 outside x = tt
    acquire_other h f e1 e2 (queued s) (q, m, w) = (q, rw (e1, e2) m, λ t. let p = w t in absurd cc)
    acquire_other h f e1 e2 (announcing s) (q, m, w) = (q, rw (e1, e2) m, w)
    acquire_other h f e1 e2 (waiting s) (o, inl w) = (o, inl w)
    acquire_other h f e1 e2 (waiting s) (o, inr w) = let p = w.1 in absurd cc
    acquire_other h f e1 e2 (clearing s) x = let p = x.2 in absurd cc
    acquire_other h f e1 e2 owning x = let p = x.0 in absurd cc
    acquire_other h f e1 e2 (ready s) x = let p = x.0 in absurd cc
    acquire_other h f e1 e2 (wakes s) x = let p = x.0 in absurd cc

    -- A CPU enters the fifo at its tail.
    pub enqueue_other :
        (h : Header) (t : ℕ)
        → h.head_index ≡ l.header.head_index
        → h.n_elts ≡ l.header.n_elts + 1
        → ((s : ℕ) → InFifo n l.header s → t ≢ s)
        → (r : Role) → Fact n g l j r
        → Fact n (record g { queue = update g.queue t i }) (record l { header = h }) j r
    unfolding Fact place
    enqueue_other h t e1 e2 fresh outside x = tt
    enqueue_other h t e1 e2 fresh (queued s) (q, m, w) =
        (update_other g.queue t i s (fresh s m) ∙ q, InFifo-more l h e1 e2 s m, w)
    enqueue_other h t e1 e2 fresh (announcing s) (q, m, w) =
        (update_other g.queue t i s (fresh s m) ∙ q, InFifo-more l h e1 e2 s m, w)
    enqueue_other h t e1 e2 fresh (waiting s) x = x
    enqueue_other h t e1 e2 fresh (clearing s) x = x
    enqueue_other h t e1 e2 fresh owning x = x
    enqueue_other h t e1 e2 fresh (ready s) x = x
    enqueue_other h t e1 e2 fresh (wakes s) x = x

    -- A CPU stores `wait_writer` in its element.
    pub announce_other :
        (t : ℕ)
        → Fact n g l i (announcing t)
        → (r : Role) → Fact n g l j r
        → Fact n (record g { owner = update g.owner t i }) (set_wait_type l t wait_writer) j r
    unfolding Fact set_wait_type
    announce_other t f outside x = tt
    announce_other t f (queued s) (q, m, w) = elim (same_or_not t s) [
      | inl e ↦ let a = f.0 in absurd (ne cc)
      | inr d ↦ (q, m, λ p. w (sym (update_other l.waiting_fifo t wait_writer s d) ∙ p))
    ]
    announce_other t f (announcing s) (q, m, w) = elim (same_or_not t s) [
      | inl e ↦ let a = f.0 in absurd (ne cc)
      | inr d ↦ (q, m, update_other l.waiting_fifo t wait_writer s d ∙ w)
    ]
    announce_other t f (waiting s) (o, inl w) = elim (same_or_not t s) [
      | inl e ↦ let a = f.2 in absurd cc
      | inr d ↦ (
        update_other g.owner t i s d ∙ o,
        inl (update_other l.waiting_fifo t wait_writer s d ∙ w),
      )
    ]
    announce_other t f (waiting s) (o, inr (w, p, k)) = elim (same_or_not t s) [
      | inl e ↦ let a = f.2 in absurd cc
      | inr d ↦ (
        update_other g.owner t i s d ∙ o,
        inr (update_other l.waiting_fifo t wait_writer s d ∙ w, p, k),
      )
    ]
    announce_other t f (clearing s) (o, w, p, k) = elim (same_or_not t s) [
      | inl e ↦ let a = f.2 in absurd cc
      | inr d ↦ (
        update_other g.owner t i s d ∙ o,
        update_other l.waiting_fifo t wait_writer s d ∙ w,
        p,
        k,
      )
    ]
    announce_other t f owning x = x
    announce_other t f (ready s) (p, k, w) = elim (same_or_not t s) [
      | inl e ↦ let a = f.2 in absurd cc
      | inr d ↦ (p, k, update_other l.waiting_fifo t wait_writer s d ∙ w)
    ]
    announce_other t f (wakes s) (p, k, w) = elim (same_or_not t s) [
      | inl e ↦ let a = f.2 in absurd cc
      | inr d ↦ (p, k, update_other l.waiting_fifo t wait_writer s d ∙ w)
    ]

    -- A CPU that was granted the lock stores `wait_empty` in its element.
    pub clear_other :
        (t : ℕ)
        → Fact n g l i (clearing t)
        → (r : Role) → Fact n g l j r
        → Fact n (record g { phase = held }) (set_wait_type l t wait_empty) j r
    unfolding Fact set_wait_type
    clear_other t f outside x = tt
    clear_other t f (queued s) (q, m, w) = elim (same_or_not t s) [
      | inl e ↦
          let a = update_self l.waiting_fifo t wait_empty in
          (q, m, λ p. let p' = ap (update l.waiting_fifo t wait_empty) e ∙ p in absurd cc)
      | inr d ↦ (
        q,
        m,
        λ p.
            let a = w (sym (update_other l.waiting_fifo t wait_empty s d) ∙ p) in
            let b = f.2 in absurd cc,
      )
    ]
    clear_other t f (announcing s) (q, m, w) = elim (same_or_not t s) [
      | inl e ↦ let a = f.1 in absurd cc
      | inr d ↦ (q, m, update_other l.waiting_fifo t wait_empty s d ∙ w)
    ]
    clear_other t f (waiting s) (o, inl w) = elim (same_or_not t s) [
      | inl e ↦ let a = f.1 in absurd cc
      | inr d ↦ (o, inl (update_other l.waiting_fifo t wait_empty s d ∙ w))
    ]
    clear_other t f (waiting s) (o, inr w) = let a = f.3 in let b = w.2 in absurd (ne cc)
    clear_other t f (clearing s) x = let a = f.3 in let b = x.3 in absurd (ne cc)
    clear_other t f owning x = let a = f.3 in let b = x.1 in absurd (ne cc)
    clear_other t f (ready s) x = let a = f.3 in let b = x.1 in absurd (ne cc)
    clear_other t f (wakes s) x = let a = f.3 in let b = x.1 in absurd (ne cc)
