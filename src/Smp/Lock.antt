-- ===== src/Smp/Lock.antt =====
-- clib/smp.h and clib/smp.c: `clib_smp_lock` and `clib_smp_unlock`, one atomic access of memory at a
-- time. The type is CLIB_SMP_LOCK_TYPE_SPIN, so that no CPU is a reader. `n` is the number of
-- elements of the waiting fifo, one less than the number of CPUs.
use clib.Common.{
  ℕ, ◌+◌, ◌-◌, ◌%◌, ◌^◌, ◌≤◌, ◌≡◌, Bool, true, false, not, ◌&&◌, ltb, leb, ◌==◌, if◌then◌else◌,
  Option, none, some, to_ℕ,
}

-- `clib_smp_lock_header_t`
pub record Header : Type 0 where
  pub head_index : ℕ
  pub n_elts : ℕ
  pub request_cpu : ℕ
  pub n_readers_with_lock : ℕ
  pub writer_has_lock : Bool

-- `clib_smp_lock_header_is_equal`: the words are equal if all the fields are.
unfoldable pub header_is_equal : Header → Header → Bool
header_is_equal a b =
    a.head_index == b.head_index
    && (a.n_elts == b.n_elts
        && (a.request_cpu == b.request_cpu
            && (a.n_readers_with_lock == b.n_readers_with_lock
                && to_ℕ a.writer_has_lock == to_ℕ b.writer_has_lock)))

-- `clib_smp_lock_wait_type_t`; a spin lock has no readers.
pub data WaitType : Type 0 where
  wait_empty : WaitType
  wait_done : WaitType
  wait_writer : WaitType

-- `clib_smp_lock_t`
pub record Lock : Type 0 where
  pub header : Header
  pub waiting_fifo : ℕ → WaitType

-- Where a CPU is: the loop or the store that comes next, with the locals that are in use.
pub data Pc : Type 0 where
  idle : Pc
  lock_top : (h0 : Header) → Pc
  lock_slow : (h0 : Header) → Pc
  lock_retry : (h2 : Header) → Pc
  lock_enter : (my_tail : ℕ) → Pc
  lock_announce : (my_tail : ℕ) → Pc
  lock_wait : (my_tail : ℕ) → Pc
  lock_clear : (my_tail : ℕ) → Pc
  locked : Pc
  unlocking : Pc
  unlock_top : (h0 : Header) → Pc
  unlock_slow : (h0 : Header) → Pc
  unlock_swap : (h0 : Header) → Pc
  unlock_wake : (head_index : ℕ) → Pc

unfoldable pub update {ℓ} : {A : Type ℓ} → (ℕ → A) → ℕ → A → ℕ → A
update f i a j = if i == j then a else f j

-- `clib_smp_lock_set_header`: where the CPU goes on if the header was `old`, and else, with the
-- header that it found.
unfoldable pub set_header : Lock → Header → Header → Pc → (Header → Pc) → Lock × Pc
set_header l new old success failure =
    if header_is_equal l.header old
    then (record l { header = new }, success)
    else (l, failure l.header)

unfoldable pub set_wait_type : Lock → ℕ → WaitType → Lock
set_wait_type l s t = record l { waiting_fifo = update l.waiting_fifo s t }

-- The place in the fifo `k` after the head.
unfoldable pub place : ℕ → Header → ℕ → ℕ
place n h k = let i = h.head_index + k in if leb n i then i - n else i

-- A round of `while (! h.writer_has_lock)` that tries to get the lock.
unfoldable pub try_lock : ℕ → Lock → Header → (Header → Pc) → Option (Lock × Pc)
try_lock cpu l h again =
    if h.n_elts == 0
    then some (set_header l (record h { request_cpu = cpu; writer_has_lock = true }) h locked again)
    else none

-- A round of the loop of `clib_smp_lock_slow_path`
unfoldable pub enter_fifo : ℕ → ℕ → Lock → Header → Option (Lock × Pc)
enter_fifo n cpu l h0 =
    let my_tail = place n h0 h0.n_elts in
    let h1 = record h0 { n_elts = (h0.n_elts + 1) % 2 ^ 16; request_cpu = cpu } in
    if leb h1.n_elts n && ltb my_tail n
    then some (set_header l h1 h0 (lock_enter my_tail) (λ h2. lock_retry h2))
    else none

-- The exchange of `clib_smp_unlock_slow_path`; what follows it when the fifo has become empty is
-- `clib_smp_unlock_inline` again.
unfoldable pub grant_head : ℕ → ℕ → Lock → Header → Option (Lock × Pc)
grant_head n cpu l h0 =
    let i = h0.head_index + 1 in
    let h1 = record h0 {
      head_index = if i == n then 0 else i;
      n_elts = h0.n_elts - 1;
      request_cpu = cpu;
    } in
    if ltb h1.head_index n && leb h1.n_elts n
    then some (
        set_header l h1 h0 (unlock_wake h0.head_index)
          (λ h2. if h2.n_elts == 0 then unlocking else unlock_slow h2))
    else none

-- One step of a CPU; `none` is a failed assertion, at which the program panics.
unfoldable pub move : ℕ → ℕ → Lock → Pc → Option (Lock × Pc)
move n cpu l idle = some (l, lock_top l.header)
move n cpu l (lock_top h0) =
    if h0.writer_has_lock then some (l, lock_slow h0) else try_lock cpu l h0 (λ h. lock_top h)
move n cpu l (lock_slow h0) = enter_fifo n cpu l h0
move n cpu l (lock_retry h2) =
    if h2.writer_has_lock then some (l, lock_slow h2) else try_lock cpu l h2 (λ h. lock_retry h)
move n cpu l (lock_enter s) = elim (l.waiting_fifo s) [
  | wait_empty ↦ some (l, lock_announce s)
  | wait_done ↦ some (l, lock_enter s)
  | wait_writer ↦ some (l, lock_enter s)
]
move n cpu l (lock_announce s) = some (set_wait_type l s wait_writer, lock_wait s)
move n cpu l (lock_wait s) = elim (l.waiting_fifo s) [
  | wait_done ↦ some (l, lock_clear s)
  | wait_empty ↦ some (l, lock_wait s)
  | wait_writer ↦ some (l, lock_wait s)
]
move n cpu l (lock_clear s) = some (set_wait_type l s wait_empty, locked)
move n cpu l locked = some (l, unlocking)
move n cpu l unlocking =
    if l.header.n_readers_with_lock == 0 && l.header.writer_has_lock
    then some (l, unlock_top l.header)
    else none
move n cpu l (unlock_top h0) =
    if h0.n_elts == 0
    then some (
        set_header l (record h0 { request_cpu = cpu; writer_has_lock = false }) h0 idle
          (λ h. unlock_top h))
    else some (l, unlock_slow h0)
move n cpu l (unlock_slow h0) =
    if not (h0.n_elts == 0) && h0.writer_has_lock
    then elim (l.waiting_fifo h0.head_index) [
      | wait_empty ↦ some (l, unlock_slow h0)
      | wait_done ↦ some (l, unlock_swap h0)
      | wait_writer ↦ some (l, unlock_swap h0)
    ]
    else none
move n cpu l (unlock_swap h0) = grant_head n cpu l h0
move n cpu l (unlock_wake s) = some (set_wait_type l s wait_done, idle)

-- The CPUs over one lock, in any order.
pub record System : Type 0 where
  pub lock : Lock
  pub pc : ℕ → Pc

pub data Step (n : ℕ) (s : System) : System → Type 0 where
  step :
      (cpu : ℕ) {l : Lock} {p : Pc}
      → cpu ≤ n
      → move n cpu s.lock (s.pc cpu) ≡ some (l, p)
      → Step n s (record { lock = l; pc = update s.pc cpu p })

-- `clib_smp_lock_init`
abbrev pub lock_init : Lock
lock_init = record {
  header = record {
    head_index = 0;
    n_elts = 0;
    request_cpu = 0;
    n_readers_with_lock = 0;
    writer_has_lock = false;
  };
  waiting_fifo = λ i. wait_empty;
}

pub data Reach (n : ℕ) : System → Type 0 where
  start : Reach n (record { lock = lock_init; pc = λ cpu. idle })
  later : {s t : System} → Reach n s → Step n s t → Reach n t
