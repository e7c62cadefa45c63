-- ===== src/Smp/Headers.antt =====
-- The headers that the CPUs have read, and the assertions that hold for them.
use clib.Common.{
  ℕ, ◌+◌, ◌-◌, ◌%◌, ◌^◌, ◌<◌, ◌≤◌, ◌≡◌, ◌≢◌, refl, Bool, true, false, ◌&&◌, ltb, leb, ◌==◌,
  if◌then◌else◌, Option, none, some, inl, inr, arith, Bool-cases, ==_iff,
}
use clib.Smp.Lock.{
  Header, Lock, Pc, idle, lock_top, lock_slow, lock_retry, lock_enter, lock_announce, lock_wait,
  lock_clear, locked, unlocking, unlock_top, unlock_slow, unlock_swap, unlock_wake, place,
  header_is_equal, set_header, try_lock, enter_fifo, grant_head,
}
use clib.Smp.Moves.{equal_headers}
use clib.Smp.Exclusion.{if-cases}

-- `lock_slow` is where a CPU enters the waiting fifo.
unfoldable pub enters : Pc → Bool
enters idle = false
enters (lock_top h0) = false
enters (lock_slow h0) = true
enters (lock_retry h2) = false
enters (lock_enter s) = false
enters (lock_announce s) = false
enters (lock_wait s) = false
enters (lock_clear s) = false
enters locked = false
enters unlocking = false
enters (unlock_top h0) = false
enters (unlock_slow h0) = false
enters (unlock_swap h0) = false
enters (unlock_wake s) = false

module _ (n : ℕ) where
  -- What holds for the header of a lock at all times.
  pub record IsSound (h : Header) : Type 0 where
    pub unread : h.n_readers_with_lock ≡ 0
    pub head_small : h.head_index < n
    pub few : h.n_elts ≤ n
    pub unlocked : h.writer_has_lock ≡ false → h.n_elts ≡ 0

  unfoldable pub Seen : Pc → Type 0
  Seen idle = Unit {0}
  Seen (lock_top h0) = IsSound h0
  Seen (lock_slow h0) = IsSound h0 × (h0.writer_has_lock ≡ true)
  Seen (lock_retry h2) = IsSound h2
  Seen (lock_enter s) = Unit {0}
  Seen (lock_announce s) = Unit {0}
  Seen (lock_wait s) = Unit {0}
  Seen (lock_clear s) = Unit {0}
  Seen locked = Unit {0}
  Seen unlocking = Unit {0}
  Seen (unlock_top h0) = IsSound h0 × (h0.writer_has_lock ≡ true)
  Seen (unlock_slow h0) = IsSound h0 × (h0.writer_has_lock ≡ true) × (h0.n_elts ≢ 0)
  Seen (unlock_swap h0) = IsSound h0 × (h0.writer_has_lock ≡ true) × (h0.n_elts ≢ 0)
  Seen (unlock_wake s) = Unit {0}

  -- A step from a place that enters the fifo may panic, and no other.
  unfoldable pub IsCalm : Bool → Option (Lock × Pc) → Type 0
  IsCalm b none = b ≡ true
  IsCalm b (some x) = IsSound x.0.header × Seen x.1

  pub swap-IsCalm :
      (b : Bool) (l : Lock) (new old : Header) (success : Pc) (failure : Header → Pc)
      → (l.header ≡ old → IsSound new × Seen success)
      → IsSound l.header × Seen (failure l.header)
      → IsCalm b (some (set_header l new old success failure))
  unfolding set_header IsCalm
  swap-IsCalm b l new old success failure to from =
      if-cases (λ (x : Lock × Pc). IsSound x.0.header × Seen x.1) (header_is_equal l.header old)
        (λ e. to (equal_headers l.header old e)) (λ e. from)

  module _ (cpu : ℕ) (l : Lock) (sound : IsSound l.header) where
    pub try_lock-IsCalm :
        (h : Header) (again : Header → Pc)
        → IsSound h
        → h.writer_has_lock ≡ false
        → ((x : Header) → IsSound x → Seen (again x))
        → IsCalm false (try_lock cpu l h again)
    unfolding try_lock IsCalm Seen
    try_lock-IsCalm h again i free more =
        let e : (h.n_elts == 0) ≡ true = (==_iff h.n_elts 0).1 (i.unlocked free) in
        rw e (
          swap-IsCalm false l _ h locked again
            (λ t. (
              record {
                unread = i.unread;
                head_small = i.head_small;
                few = i.few;
                unlocked = λ u. i.unlocked free;
              },
              tt,
            ))
            (sound, more l.header sound))

    pub enter_fifo-IsCalm : (h : Header) → Seen (lock_slow h) → IsCalm true (enter_fifo n cpu l h)
    unfolding enter_fifo IsCalm Seen
    enter_fifo-IsCalm h (i, w) =
        elim (Bool-cases (leb ((h.n_elts + 1) % 2 ^ 16) n && ltb (place n h h.n_elts) n)) [
          | inr e ↦ rw e refl
          | inl e ↦ rw e (
              swap-IsCalm true l _ h (lock_enter (place n h h.n_elts)) (λ h2. lock_retry h2)
                (λ t. (
                  record {
                    unread = i.unread;
                    head_small = i.head_small;
                    few = ground (arith, e);
                    unlocked = λ u. absurd cc;
                  },
                  tt,
                ))
                (sound, sound))
        ]

    pub grant_head-IsCalm :
        (h : Header)
        → Seen (unlock_swap h)
        → l.header.writer_has_lock ≡ true
        → IsCalm false (grant_head n cpu l h)
    unfolding grant_head IsCalm Seen
    grant_head-IsCalm h (i, w, some_left) held =
        let small = i.head_small in
        let few = i.few in
        let less : (if h.head_index + 1 == n then 0 else h.head_index + 1) < n = ground arith in
        let e : (ltb (if h.head_index + 1 == n then 0 else h.head_index + 1) n
              && leb (h.n_elts - 1) n)
            ≡ true =
          ground arith in
        rw e (
          swap-IsCalm false l _ h (unlock_wake h.head_index)
            (λ h2. if h2.n_elts == 0 then unlocking else unlock_slow h2)
            (λ t. (
              record {
                unread = i.unread;
                head_small = less;
                few = omega arith;
                unlocked = λ u. absurd cc;
              },
              tt,
            ))
            (
              sound,
              if-cases Seen (l.header.n_elts == 0) (λ z. tt)
                  (λ z. (sound, held, λ q. ground arith)),
            ))
