-- ===== src/Smp/Moves.antt =====
-- The steps of one CPU, with what all of them rely on: those that take the lock.
use clib.Common.{
  ℕ, ◌+◌, ◌%◌, ◌^◌, ◌<◌, ◌≡◌, ◌≢◌, refl, sym, ap, ◌∙◌, Bool, true, false, ◌&&◌, ltb, leb, ◌==◌,
  Option, none, some, to_ℕ, ◌⊎◌, inl, inr, arith, Bool-cases,
}
use clib.Smp.Lock.{
  Header, Lock, WaitType, wait_empty, wait_done, wait_writer, Pc, lock_retry, lock_enter, lock_wait,
  locked, place, update, set_wait_type, header_is_equal, set_header, try_lock, enter_fifo,
}
use clib.Smp.Ghost.{
  free, held, Ghost, Role, announcing, clearing, role, InFifo, Fact, IsGhost, same_or_not,
  update_self, update_other,
}
use clib.Smp.Others.{acquire_other, enqueue_other, announce_other, clear_other, InFifo-more}

to_ℕ-injective : (a b : Bool) → to_ℕ a ≡ to_ℕ b → a ≡ b
to_ℕ-injective true true e = refl
to_ℕ-injective true false e = absurd (omega (arith, e))
to_ℕ-injective false true e = absurd (omega (arith, e))
to_ℕ-injective false false e = refl

pub equal_headers : (a b : Header) → header_is_equal a b ≡ true → a ≡ b
unfolding header_is_equal
equal_headers a b e =
    let e0 : a.head_index ≡ b.head_index = ground (arith, e) in
    let e1 : a.n_elts ≡ b.n_elts = ground (arith, e) in
    let e2 : a.request_cpu ≡ b.request_cpu = ground (arith, e) in
    let e3 : a.n_readers_with_lock ≡ b.n_readers_with_lock = ground (arith, e) in
    let e4 : to_ℕ a.writer_has_lock ≡ to_ℕ b.writer_has_lock = ground (arith, e) in
    let e5 = to_ℕ-injective a.writer_has_lock b.writer_has_lock e4 in
    λ t. record {
      head_index = e0 t;
      n_elts = e1 t;
      request_cpu = e2 t;
      n_readers_with_lock = e3 t;
      writer_has_lock = e5 t;
    }

pub wait_cases : (t : WaitType) → (t ≡ wait_empty) ⊎ ((t ≡ wait_done) ⊎ (t ≡ wait_writer))
wait_cases wait_empty = inl refl
wait_cases wait_done = inr (inl refl)
wait_cases wait_writer = inr (inr refl)

place-head :
    (n : ℕ) (a b : Header) (k : ℕ) → a.head_index ≡ b.head_index → place n a k ≡ place n b k
unfolding place
place-head n a b k e = rw e refl

module _ (n : ℕ) (g : Ghost) (l : Lock) (cpu : ℕ) where
  -- What a step of a CPU leaves.
  pub record IsNext (x : Lock × Pc) : Type 0 where
    pub ghost : Ghost
    pub is_ghost : IsGhost n ghost x.0
    pub own : Fact n ghost x.0 cpu (role x.1)
    pub others : (j : ℕ) → cpu ≢ j → (r : Role) → Fact n g l j r → Fact n ghost x.0 j r

  -- A step that panics leaves nothing to show.
  unfoldable pub IsFine : Option (Lock × Pc) → Type 0
  IsFine none = Unit {0}
  IsFine (some x) = IsNext x

module _ (n : ℕ) (g : Ghost) (l : Lock) (cpu : ℕ) (is : IsGhost n g l) where
  pub stay : (p : Pc) → Fact n g l cpu (role p) → IsNext n g l cpu (l, p)
  stay p f = record { ghost = g; is_ghost = is; own = f; others = λ j ne r x. x }

  pub set_header-IsNext :
      (new old : Header) (success : Pc) (failure : Header → Pc)
      → (l.header ≡ old → IsNext n g l cpu (record l { header = new }, success))
      → Fact n g l cpu (role (failure l.header))
      → IsNext n g l cpu (set_header l new old success failure)
  unfolding set_header
  set_header-IsNext new old success failure to from =
      elim (Bool-cases (header_is_equal l.header old)) [
        | inl e ↦ rw e (to (equal_headers l.header old e))
        | inr e ↦ rw e (stay (failure l.header) from)
      ]

  pub try_lock-IsFine :
      (h : Header) (again : Header → Pc)
      → h.writer_has_lock ≡ false
      → Fact n g l cpu (role (again l.header))
      → IsFine n g l cpu (try_lock cpu l h again)
  unfolding try_lock IsFine Fact role place
  try_lock-IsFine h again unlocked f = elim (Bool-cases (h.n_elts == 0)) [
    | inr e ↦ rw e tt
    | inl e ↦
        let new = record h { request_cpu = cpu; writer_has_lock = true } in
        rw e (
          set_header-IsNext new h locked again
            (λ same.
              let is_free : g.phase ≡ free =
                is.unlocked (ap (λ (h : Header). h.writer_has_lock) same ∙ unlocked) in
              record {
                ghost = record g { holder = cpu; phase = held };
                is_ghost = record {
                  unlocked = λ t. let t' = t in absurd cc;
                  dones = λ s d. let p = is.dones s d in absurd cc;
                  writers = λ s w. elim (is.writers s w) [
                    | inl m ↦ inl (rw (← same) m)
                    | inr p ↦ absurd cc
                  ];
                  head_small = rw (← same) is.head_small;
                  few = rw (← same) is.few;
                };
                own = (refl, refl);
                others = λ j ne r x.
                    acquire_other n g l cpu j ne new is_free
                      (ap (λ (h : Header). h.head_index) (sym same))
                      (ap (λ (h : Header). h.n_elts) (sym same)) r x;
              })
            f)
  ]

  -- The tail is no element of the fifo.
  tail-fresh :
      l.header.n_elts < n → (s : ℕ) → InFifo n l.header s → place n l.header l.header.n_elts ≢ s
  unfolding place
  tail-fresh room s (k, lt, e) same =
      let small = is.head_small in
      let p : place n l.header l.header.n_elts ≡ place n l.header k = same ∙ e in
      absurd (ground (arith, p, small))

  pub enter_fifo-IsFine : n + 1 < 2 ^ 16 → (h0 : Header) → IsFine n g l cpu (enter_fifo n cpu l h0)
  unfolding enter_fifo IsFine Fact role
  enter_fifo-IsFine small h0 =
      let t = place n h0 h0.n_elts in
      let c = (h0.n_elts + 1) % 2 ^ 16 in
      let new = record h0 { n_elts = c; request_cpu = cpu } in
      elim (Bool-cases (leb c n && ltb t n)) [
        | inr e ↦ rw e tt
        | inl e ↦ rw e (
            set_header-IsNext new h0 (lock_enter t) (λ h. lock_retry h)
              (λ same.
                let elts : l.header.n_elts ≡ h0.n_elts = ap (λ (h : Header). h.n_elts) same in
                let head : h0.head_index ≡ l.header.head_index =
                  ap (λ (h : Header). h.head_index) (sym same) in
                let few = is.few in
                let more : c ≡ l.header.n_elts + 1 = omega (arith, few, elts) in
                let room : l.header.n_elts < n = ground (arith, e, more) in
                let tail : place n l.header l.header.n_elts ≡ t =
                  ap (λ (h : Header). place n h h.n_elts) same in
                let fresh : (s : ℕ) → InFifo n l.header s → t ≢ s =
                  (λ s m d. tail-fresh room s m (tail ∙ d)) in
                let new_in : InFifo n new t =
                  (h0.n_elts, omega (arith, more, elts), place-head n h0 new h0.n_elts refl) in
                record {
                  ghost = record g { queue = update g.queue t cpu };
                  is_ghost = record {
                    unlocked = λ u. is.unlocked (ap (λ (h : Header). h.writer_has_lock) same ∙ u);
                    dones = is.dones;
                    writers = λ s w. elim (is.writers s w) [
                      | inl m ↦ inl (InFifo-more n l new head more s m)
                      | inr p ↦ inr p
                    ];
                    head_small = rw head is.head_small;
                    few = omega (arith, more, room);
                  };
                  own = (
                    update_self g.queue t cpu,
                    new_in,
                    λ w. elim (is.writers t w) [ inl m ↦ absurd (fresh t m refl) | inr p ↦ p ],
                  );
                  others = λ j ne r x. enqueue_other n g l cpu j ne new t head more fresh r x;
                })
              tt)
      ]

  pub announce-IsNext :
      (s : ℕ)
      → Fact n g l cpu (announcing s)
      → IsNext n g l cpu (set_wait_type l s wait_writer, lock_wait s)
  unfolding Fact role set_wait_type
  announce-IsNext s f = record {
    ghost = record g { owner = update g.owner s cpu };
    is_ghost = record {
      unlocked = is.unlocked;
      dones = λ t d. elim (same_or_not s t) [
        | inl e ↦
            let a = update_self l.waiting_fifo s wait_writer in
            let b = ap (update l.waiting_fifo s wait_writer) e ∙ d in absurd cc
        | inr ne ↦ is.dones t (sym (update_other l.waiting_fifo s wait_writer t ne) ∙ d)
      ];
      writers = λ t w. elim (same_or_not s t) [
        | inl e ↦ inl (rw (← e) f.1)
        | inr ne ↦ is.writers t (sym (update_other l.waiting_fifo s wait_writer t ne) ∙ w)
      ];
      head_small = is.head_small;
      few = is.few;
    };
    own = (update_self g.owner s cpu, inl (update_self l.waiting_fifo s wait_writer));
    others = λ j ne r x. announce_other n g l cpu j ne s f r x;
  }

  pub clear-IsNext :
      (s : ℕ)
      → Fact n g l cpu (clearing s)
      → IsNext n g l cpu (set_wait_type l s wait_empty, locked)
  unfolding Fact role set_wait_type
  clear-IsNext s f = record {
    ghost = record g { phase = held };
    is_ghost = record {
      unlocked = λ u. let a = is.unlocked u in let b = f.2 in absurd cc;
      dones = λ t d. elim (same_or_not s t) [
        | inl e ↦
            let a = update_self l.waiting_fifo s wait_empty in
            let b = ap (update l.waiting_fifo s wait_empty) e ∙ d in absurd cc
        | inr ne ↦
            let a = is.dones t (sym (update_other l.waiting_fifo s wait_empty t ne) ∙ d) in
            let b = f.2 in absurd (ne cc)
      ];
      writers = λ t w. elim (same_or_not s t) [
        | inl e ↦
            let a = update_self l.waiting_fifo s wait_empty in
            let b = ap (update l.waiting_fifo s wait_empty) e ∙ w in absurd cc
        | inr ne ↦ elim (is.writers t (sym (update_other l.waiting_fifo s wait_empty t ne) ∙ w)) [
          | inl m ↦ inl m
          | inr p ↦ let b = f.2 in absurd cc
        ]
      ];
      head_small = is.head_small;
      few = is.few;
    };
    own = (refl, f.3);
    others = λ j ne r x. clear_other n g l cpu j ne s f r x;
  }
