-- ===== src/Smp/Releases.antt =====
-- The steps of one CPU, with what all of them rely on: those that give the lock up.
use clib.Common.{
  ℕ, ◌+◌, ◌-◌, ◌<◌, ◌≡◌, ◌≢◌, refl, sym, ap, ◌∙◌, false, ◌&&◌, ltb, leb, ◌==◌, if◌then◌else◌, inl,
  inr, arith, Bool-cases,
}
use clib.Smp.Lock.{
  Header, Lock, wait_done, idle, unlocking, unlock_top, unlock_slow, unlock_wake, place, update,
  set_wait_type, set_header, grant_head,
}
use clib.Smp.Ghost.{
  free, waking, granted, Ghost, owning, ready, wakes, role, InFifo, Fact, IsGhost, same_or_not,
  update_self, update_other,
}
use clib.Smp.Handover.{release_other, dequeue_other, wake_other, InFifo-fewer}
use clib.Smp.Moves.{IsNext, IsFine, set_header-IsNext}

module _ (n : ℕ) (g : Ghost) (l : Lock) (cpu : ℕ) (is : IsGhost n g l) where
  pub release-IsNext :
      (h0 : Header)
      → Fact n g l cpu owning
      → h0.n_elts ≡ 0
      → IsNext n g l cpu (
          set_header l
            (record h0 { request_cpu = cpu; writer_has_lock = false })
            h0
            idle
            (λ h. unlock_top h))
  unfolding Fact role place
  release-IsNext h0 f e =
      let new = record h0 { request_cpu = cpu; writer_has_lock = false } in
      set_header-IsNext n g l cpu is new h0 idle (λ h. unlock_top h)
        (λ same.
          let a = f.0 in
          record {
            ghost = record g { phase = free };
            is_ghost = record {
              unlocked = λ u. refl;
              dones = λ s d. let p = is.dones s d in absurd cc;
              writers =
                  λ s w. elim (is.writers s w) [ inl m ↦ inl (rw (← same) m) | inr p ↦ absurd cc ];
              head_small = rw (← same) is.head_small;
              few = rw (← same) is.few;
            };
            own = tt;
            others = λ j ne r x.
                release_other n g l cpu j ne new f (ap (λ (h : Header). h.n_elts) same ∙ e) r x;
          })
        f

  dequeue :
      (new : Header) (i : ℕ)
      → l.header.head_index ≡ i
      → Fact n g l cpu (ready i)
      → new.head_index ≡ (if i + 1 == n then 0 else i + 1)
      → new.n_elts ≡ l.header.n_elts - 1
      → new.writer_has_lock ≡ l.header.writer_has_lock
      → new.head_index < n
      → IsNext n g l cpu (record l { header = new }, unlock_wake i)
  unfolding Fact role
  dequeue new i head f e1 e2 e3 small =
      let few = is.few in
      let a = f.0 in
      let fewer : (s : ℕ) → i ≢ s → InFifo n l.header s → InFifo n new s = (λ s ne m.
        InFifo-fewer n l.header new s is.head_small few (rw head e1) e2 (λ e. ne (sym head ∙ e))
          m) in
      record {
        ghost = record g { phase = waking i };
        is_ghost = record {
          unlocked = λ u. let b = is.unlocked (sym e3 ∙ u) in absurd cc;
          dones = λ s d. let b = is.dones s d in absurd cc;
          writers = λ s w. elim (same_or_not i s) [
            | inl e ↦ inr (ap waking e)
            | inr ne ↦ elim (is.writers s w) [ inl m ↦ inl (fewer s ne m) | inr p ↦ absurd cc ]
          ];
          head_small = small;
          few = omega (arith, few, e2);
        };
        own = (refl, f.1, f.2);
        others = λ j ne r x. dequeue_other n g l cpu j ne new i f fewer r x;
      }

  pub grant_head-IsFine :
      (h0 : Header)
      → Fact n g l cpu (ready h0.head_index)
      → IsFine n g l cpu (grant_head n cpu l h0)
  unfolding grant_head IsFine Fact role
  grant_head-IsFine h0 f =
      let i = h0.head_index + 1 in
      let new = record h0 {
        head_index = if i == n then 0 else i;
        n_elts = h0.n_elts - 1;
        request_cpu = cpu;
      } in
      elim (Bool-cases (ltb new.head_index n && leb new.n_elts n)) [
        | inr e ↦ rw e tt
        | inl e ↦ rw e (
            set_header-IsNext n g l cpu is new h0 (unlock_wake h0.head_index)
              (λ h2. if h2.n_elts == 0 then unlocking else unlock_slow h2)
              (λ same.
                let elts : l.header.n_elts ≡ h0.n_elts = ap (λ (h : Header). h.n_elts) same in
                let head : l.header.head_index ≡ h0.head_index =
                  ap (λ (h : Header). h.head_index) same in
                let small : new.head_index < n = ground (arith, e) in
                let bit : h0.writer_has_lock ≡ l.header.writer_has_lock =
                  ap (λ (h : Header). h.writer_has_lock) (sym same) in
                dequeue new h0.head_index head f refl (omega (arith, elts)) bit small)
              (elim (Bool-cases (l.header.n_elts == 0)) [
                | inl z ↦ rw z (f.0, f.1)
                | inr z ↦ rw z (f.0, f.1)
              ]))
      ]

  pub wake-IsNext :
      (s : ℕ) → Fact n g l cpu (wakes s) → IsNext n g l cpu (set_wait_type l s wait_done, idle)
  unfolding Fact role set_wait_type
  wake-IsNext s f = record {
    ghost = record g { holder = g.owner s; phase = granted s };
    is_ghost = record {
      unlocked = λ u. let a = is.unlocked u in let b = f.0 in absurd cc;
      dones = λ t d. elim (same_or_not s t) [
        | inl e ↦ ap granted e
        | inr ne ↦
            let a = is.dones t (sym (update_other l.waiting_fifo s wait_done t ne) ∙ d) in
            let b = f.0 in absurd cc
      ];
      writers = λ t w. elim (same_or_not s t) [
        | inl e ↦
            let a = update_self l.waiting_fifo s wait_done in
            let b = ap (update l.waiting_fifo s wait_done) e ∙ w in absurd cc
        | inr ne ↦ elim (is.writers t (sym (update_other l.waiting_fifo s wait_done t ne) ∙ w)) [
          | inl m ↦ inl m
          | inr p ↦ let b = f.0 in absurd (ne cc)
        ]
      ];
      head_small = is.head_small;
      few = is.few;
    };
    own = tt;
    others = λ j ne r x. wake_other n g l cpu j ne s f r x;
  }
