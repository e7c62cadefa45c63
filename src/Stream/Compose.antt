-- ===== src/Stream/Compose.antt =====
-- Serializers run one after another, and read back by unserializers.
use clib.Common.{
  ◌<◌, ◌^◌, ℕ, ◌≤◌, ◌≡◌, refl, sym, ap, ◌∙◌, List, [], ◌++◌, length, arith, length-append,
}
use clib.Stream.{Main, Result, ok, open_data, ◌>>=◌}
use mathlib.Core.List.{append_assoc, append-nil}
use clib.Stream.Data.{written, left, Puts, Gets, open_data-IsOpen}

-- Runs of one serializer after another, and of one unserializer after another.
pub Puts-bind :
    {f g : Main → Result Main} {xs ys : List ℕ}
    → Puts f xs
    → Puts g ys
    → Puts (λ m. f m >>= g) (xs ++ ys)
Puts-bind {g = g} {xs = xs} {ys = ys} p q = record {
  on = λ m o h.
      let first = p.on m o (omega (arith, h, length-append xs ys)) in
      let second =
        q.on first.after first.is_open (omega (arith, h, length-append xs ys, first.uses)) in
      record {
        after = second.after;
        runs = ap (λ r. r >>= g) first.runs ∙ second.runs;
        is_open = second.is_open;
        appends = second.appends ∙ ap (λ t. t ++ ys) first.appends ∙ append_assoc (written m) xs ys;
        uses = omega (arith, second.uses, first.uses, length-append xs ys);
        same_size = second.same_size ∙ first.same_size;
      };
}

pub Puts-ok : Puts ok []
Puts-ok = record {
  on = λ m o h. record {
    after = m;
    runs = refl;
    is_open = o;
    appends = sym (append-nil (written m));
    uses = omega arith;
    same_size = refl;
  };
}

pub Gets-bind {ℓ κ} :
    {A : Type ℓ} {B : Type κ} {g : Main → Result (A × Main)} {xs ys : List ℕ} {a : A} {b : B}
    (k : A → Main → Result (B × Main))
    → Gets g xs a
    → Gets (k a) ys b
    → Gets (λ m. g m >>= λ (x, m'). k x m') (xs ++ ys) b
Gets-bind {xs = xs} {ys = ys} k p q = record {
  from = λ m rest o h.
      let first = p.from m (ys ++ rest) o (h ∙ append_assoc xs ys rest) in
      let second = q.from first.after rest first.is_open first.leaves in
      record {
        after = second.after;
        runs = ap (λ r. r >>= λ (x, m'). k x m') first.runs ∙ second.runs;
        is_open = second.is_open;
        leaves = second.leaves;
      };
}

pub Gets-ok {ℓ} : {A : Type ℓ} (a : A) → Gets (λ m. ok (a, m)) [] a
Gets-ok a = record {
  from = λ m rest o h. record { after = m; runs = refl; is_open = o; leaves = h };
}

-- What is read, put through a function.
pub Gets-map {ℓ κ} :
    {A : Type ℓ} {B : Type κ} {g : Main → Result (A × Main)} {xs : List ℕ} {a : A} (f : A → B)
    → Gets g xs a
    → Gets (λ m. g m >>= λ (x, m'). ok (f x, m')) xs (f a)
Gets-map f p = record {
  from = λ m rest o h.
      let first = p.from m rest o h in
      record {
        after = first.after;
        runs = ap (λ r. r >>= λ (x, m'). ok (f x, m')) first.runs;
        is_open = first.is_open;
        leaves = first.leaves;
      };
}

-- Functions that run alike.
pub Puts-same :
    {f g : Main → Result Main} {xs : List ℕ} → ((m : Main) → f m ≡ g m) → Puts g xs → Puts f xs
Puts-same e p = record {
  on = λ m o h.
      let run = p.on m o h in
      record {
        after = run.after;
        runs = e m ∙ run.runs;
        is_open = run.is_open;
        appends = run.appends;
        uses = run.uses;
        same_size = run.same_size;
      };
}

pub Gets-same {ℓ} :
    {A : Type ℓ} {f g : Main → Result (A × Main)} {xs : List ℕ} {a b : A}
    → ((m : Main) → f m ≡ g m)
    → b ≡ a
    → Gets g xs b
    → Gets f xs a
Gets-same e same p = record {
  from = λ m rest o h.
      let run = p.from m rest o h in
      record {
        after = run.after;
        runs = e m ∙ run.runs ∙ ap (λ t. ok (t, run.after)) same;
        is_open = run.is_open;
        leaves = run.leaves;
      };
}

-- A serializer, then an unserializer on what was written: `size` bytes, that read back as `a`.
pub record RoundTrip {ℓ} {A : Type ℓ} (f : Main → Result Main) (g : Main → Result (A × Main))
    (a : A) (size : ℕ) (buffer : List ℕ) : Type ℓ where
  pub closed : Main
  pub writes_it : f (open_data buffer) ≡ ok closed
  pub has_size : length (written closed) ≡ size
  pub at_end : Main
  pub reads_it : g (open_data (written closed)) ≡ ok (a, at_end)
  pub reads_all : left at_end ≡ []

pub round_trip {ℓ} :
    {A : Type ℓ} {f : Main → Result Main} {g : Main → Result (A × Main)} {bytes : List ℕ} {a : A}
    (size : ℕ) (buffer : List ℕ)
    → length buffer < 2 ^ 32
    → Puts f bytes
    → Gets g bytes a
    → length bytes ≡ size
    → size ≤ length buffer
    → RoundTrip f g a size buffer
unfolding open_data
round_trip {bytes = bytes} size buffer small p q e h =
    let first =
      p.on (open_data buffer) (open_data-IsOpen buffer small) (omega (arith, e, h, small)) in
    let fits : length (written first.after) < 2 ^ 32 =
      omega (arith, ap length first.appends ∙ e, h, small) in
    let second =
      q.from (open_data (written first.after)) [] (open_data-IsOpen _ fits)
        (first.appends ∙ sym (append-nil bytes)) in
    record {
      closed = first.after;
      writes_it = first.runs;
      has_size = ap length first.appends ∙ e;
      at_end = second.after;
      reads_it = second.runs;
      reads_all = second.leaves;
    }
