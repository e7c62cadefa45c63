-- ===== src/Serialize/Strings.antt =====
-- Strings and magic numbers, through a stream and back.
use clib.Common.{
  ℕ, suc, ◌+◌, ◌%◌, ◌^◌, ◌<◌, ◌≤◌, ◌≡◌, ◌≢◌, refl, sym, ap, ◌∙◌, ltb, true, false, List, [], ◌∷◌,
  ◌++◌, Bool-cases, inl, inr, ◌⊎◌, if◌then◌else◌, ◌==◌, length, take, arith, All, Option, none,
  some, length-append, length-drop, take-exact,
}
use mathlib.Core.Path.{subst}
use native.Mathlib.Nat.{mod-eq_of_lt}
use clib.Serialize.{integer_bytes, likely_small_bytes, unserialize_integer}
use clib.Serialize.Integers.{
  four, length-integer_bytes, serialize_integer-Puts, unserialize_integer-Gets,
}
use clib.Serialize.Likely.{likely_small-Puts, likely_small-Gets, length-likely_small_bytes}
use clib.Serialize.Values.{
  strlen, serialize_cstring, unserialize_cstring, serialize_magic, unserialize_check_magic,
  write_place, same_bytes,
}
use clib.Stream.{Main, Result, ok, err, bad_magic, ◌>>=◌, read, write, open_data}
use clib.Stream.Compose.{
  Puts-bind, Puts-ok, Puts-same, Gets-bind, Gets-ok, Gets-map, Gets-same, RoundTrip, round_trip,
}
use clib.Stream.Data.{
  written, left, room, IsOpen, Puts, Gets, read-Gets, write-Puts, open_data-IsOpen, fast_path,
}
use mathlib.Core.List.{append-nil}

-- A string of characters that are not 0.
strlen-terminated : (s after : List ℕ) → All (λ c. c ≢ 0) s → strlen (s ++ 0 ∷ after) ≡ length s
unfolding strlen
strlen-terminated [] after h = refl
strlen-terminated (c ∷ s) after h =
    let e : (c == 0) ≡ false = ground (arith, h.0) in rw e (ap suc (strlen-terminated s after h.1))

-- What `unserialize_cstring` makes of a string: the null pointer if it is empty.
abbrev pub string_read : List ℕ → Option (List ℕ)
string_read s = if ltb 0 (length s) then some (s ++ 0 ∷ []) else none

cstring-Puts :
    (fuel : ℕ) (s after : List ℕ)
    → All (λ c. c ≢ 0) s
    → length s < 2 ^ 32
    → Puts (serialize_cstring fuel (some (s ++ 0 ∷ after))) (likely_small_bytes (length s) ++ s)
unfolding serialize_cstring
cstring-Puts fuel s after h fits =
    Puts-same (λ m. rw len refl)
      (Puts-bind (likely_small-Puts fuel (length s)) (characters s after))
  where
    len : strlen (s ++ 0 ∷ after) % 2 ^ 32 ≡ length s
    len = omega (arith, strlen-terminated s after h, fits)

    characters :
        (s after : List ℕ)
        → Puts
            (λ m.
              if ltb 0 (length s) then write fuel (take (length s) (s ++ 0 ∷ after)) m else ok m)
            s
    characters [] after = Puts-ok
    characters (c ∷ s) after =
        Puts-same
          (λ m.
            let e : ltb 0 (length (c ∷ s)) ≡ true = ground arith in
            rw (e, take-exact (c ∷ s) (0 ∷ after) (length (c ∷ s)) refl) refl)
          (write-Puts fuel (c ∷ s))

string_rest : ℕ → ℕ → Main → Result (Option (List ℕ) × Main)
string_rest fuel len m1 =
    let string = read fuel len m1 >>= λ (p, m2). ok (some (p ++ 0 ∷ []), m2) in
    if ltb 0 len then string else ok (none, m1)

string_rest-Gets : (fuel : ℕ) (s : List ℕ) → Gets (string_rest fuel (length s)) s (string_read s)
unfolding string_rest
string_rest-Gets fuel [] = Gets-ok none
string_rest-Gets fuel (c ∷ s) =
    let e : ltb 0 (length (c ∷ s)) ≡ true = ground arith in
    Gets-same (λ m. rw e refl) (rw e refl)
      (Gets-map (λ p. some (p ++ 0 ∷ [])) (read-Gets fuel (length (c ∷ s)) (c ∷ s) refl))

cstring-Gets :
    (fuel : ℕ) (s : List ℕ)
    → length s < 2 ^ 32
    → Gets (unserialize_cstring fuel) (likely_small_bytes (length s) ++ s) (string_read s)
unfolding unserialize_cstring string_rest
cstring-Gets fuel s fits =
    Gets-bind (λ l. string_rest fuel (l % 2 ^ 32)) (likely_small-Gets fuel (length s) (omega arith))
      (rw (mod-eq_of_lt fits) (string_rest-Gets fuel s))

-- For a string that ends at its first 0, shorter than `2 ^ 32`, and enough bytes of data, fewer than 2 ^ 32,
-- `serialize_cstring` writes the length and the characters, and `unserialize_cstring` reads all of
-- it and answers the string with its 0, or the null pointer if the string is empty.
pub unserialize-serialize_cstring :
    (fuel : ℕ) (s after buffer : List ℕ)
    → All (λ c. c ≢ 0) s
    → length s < 2 ^ 32
    → 9 + length s ≤ length buffer
    → length buffer < 2 ^ 32
    → RoundTrip
        (serialize_cstring fuel (some (s ++ 0 ∷ after)))
        (unserialize_cstring fuel)
        (string_read s)
        (length (likely_small_bytes (length s)) + length s)
        buffer
unserialize-serialize_cstring fuel s after buffer h fits enough small =
    round_trip _ buffer small (cstring-Puts fuel s after h fits) (cstring-Gets fuel s fits)
      (length-append (likely_small_bytes (length s)) s)
      (omega (arith, length-likely_small_bytes (length s)))

same_bytes_refl : (xs : List ℕ) → same_bytes xs xs ≡ true
unfolding same_bytes
same_bytes_refl [] = refl
same_bytes_refl (x ∷ xs) = ground (arith, same_bytes_refl xs)

eq_of_same_bytes : (xs ys : List ℕ) → same_bytes xs ys ≡ true → xs ≡ ys
unfolding same_bytes
eq_of_same_bytes [] [] h = refl
eq_of_same_bytes [] (y ∷ ys) h = absurd (ground arith)
eq_of_same_bytes (x ∷ xs) [] h = absurd (ground arith)
eq_of_same_bytes (x ∷ xs) (y ∷ ys) h =
    let e : x ≡ y = ground arith in
    let rest : same_bytes xs ys ≡ true = ground arith in
    rw e (ap (λ t. y ∷ t) (eq_of_same_bytes xs ys rest))

write_place-fast :
    (fuel n : ℕ) (unset : List ℕ) (m : Main)
    → IsOpen m
    → n ≤ room m
    → write_place fuel unset n m ≡ read fuel n m
unfolding write_place
write_place-fast fuel n unset m o h = rw (fast_path m n o h) refl

magic_bytes : List ℕ → List ℕ
magic_bytes magic = integer_bytes (length magic) 4 ++ magic

magic-Puts : (fuel : ℕ) (magic : List ℕ) → Puts (serialize_magic fuel magic) (magic_bytes magic)
unfolding serialize_magic magic_bytes
magic-Puts fuel magic =
    Puts-bind (serialize_integer-Puts fuel (length magic) 4 four) (write-Puts fuel magic)

-- The length and the bytes of what is checked.
magic_length-Gets :
    (fuel : ℕ) (magic : List ℕ)
    → length magic < 2 ^ 32
    → Gets (unserialize_integer fuel 4) (integer_bytes (length magic) 4) (length magic)
magic_length-Gets fuel magic h =
    Gets-same (λ m. refl) (mod-eq_of_lt h) (unserialize_integer-Gets fuel (length magic) 4 four)

same_bytes_ne : (xs ys : List ℕ) → same_bytes xs ys ≡ false → ys ≢ xs
same_bytes_ne xs ys e same =
    let t = ap (same_bytes xs) same ∙ same_bytes_refl xs in absurd (ground arith)

-- A check of a magic number succeeds if the numbers are equal, and else it fails.
pub record Verdict (run : Result Main) (magic other : List ℕ) : Type 0 where
  pub at_end : Main
  pub outcome : ((magic ≡ other) × (run ≡ ok at_end)) ⊎ ((magic ≢ other) × (run ≡ err bad_magic))

compare_magic : ℕ → List ℕ → List ℕ → ℕ → Main → Result Main
compare_magic fuel unset other l m1 =
    let compared = write_place fuel unset (length other) m1 >>= λ (d, m2).
    if same_bytes other d then ok m2 else err bad_magic in
    if l == length other then compared else err bad_magic

compare_magic-Verdict :
    (fuel : ℕ) (unset magic other : List ℕ) (m : Main)
    → IsOpen m
    → left m ≡ magic
    → Verdict (compare_magic fuel unset other (length magic) m) magic other
unfolding compare_magic
compare_magic-Verdict fuel unset magic other m o h =
    elim (Bool-cases (length magic == length other)) [
      | inr e ↦ record {
        at_end = m;
        outcome = inr (λ same. let t = ap length same in absurd (ground arith), rw e refl);
      }
      | inl e ↦
          let size : length magic ≡ length other = ground arith in
          let d =
            (read-Gets fuel (length other) magic size).from m [] o (h ∙ sym (append-nil magic)) in
          let place =
            write_place-fast fuel (length other) unset m o (
              omega (
                arith,
                size,
                ap length h,
                o.whole,
                length-drop m.stream.current_buffer_index m.stream.buffer,
              ))
            ∙ d.runs in
          record {
            at_end = d.after;
            outcome = elim (Bool-cases (same_bytes other magic)) [
              | inl s ↦ inl (sym (eq_of_same_bytes other magic s), rw (e, place, s) refl)
              | inr s ↦ inr (same_bytes_ne other magic s, rw (e, place, s) refl)
            ];
          }
    ]

check-Verdict :
    (fuel : ℕ) (unset magic other : List ℕ) (m : Main)
    → length magic < 2 ^ 32
    → IsOpen m
    → left m ≡ magic_bytes magic
    → Verdict (unserialize_check_magic fuel unset other m) magic other
unfolding unserialize_check_magic magic_bytes compare_magic
check-Verdict fuel unset magic other m h o e =
    let l = (magic_length-Gets fuel magic h).from m magic o e in
    subst (λ r. Verdict r magic other)
      (sym (ap (λ r. r >>= λ (n, m1). compare_magic fuel unset other n m1) l.runs))
      (compare_magic-Verdict fuel unset magic other l.after l.is_open l.leaves)

length-magic_bytes : (magic : List ℕ) → length (magic_bytes magic) ≡ 4 + length magic
unfolding magic_bytes
length-magic_bytes magic = omega (
  arith,
  length-append (integer_bytes (length magic) 4) magic,
  length-integer_bytes (length magic) 4 four,
)

-- The check of the bytes that `serialize_magic` wrote against another magic number.
pub record MagicVerdict (fuel : ℕ) (unset magic other buffer : List ℕ) : Type 0 where
  pub closed : Main
  pub writes_it : serialize_magic fuel magic (open_data buffer) ≡ ok closed
  pub verdict :
      Verdict (unserialize_check_magic fuel unset other (open_data (written closed))) magic other

-- For a magic number shorter than `2 ^ 32` bytes that fits into the data, itself shorter than
-- that, `unserialize_check_magic` on what `serialize_magic` wrote succeeds if it checks the same
-- magic number, and fails with the bad magic error if it checks another.
pub check-serialize_magic :
    (fuel : ℕ) (unset magic other buffer : List ℕ)
    → length magic < 2 ^ 32
    → 4 + length magic ≤ length buffer
    → length buffer < 2 ^ 32
    → MagicVerdict fuel unset magic other buffer
unfolding open_data
check-serialize_magic fuel unset magic other buffer h enough small =
    let w =
      (magic-Puts fuel magic).on (open_data buffer) (open_data-IsOpen buffer small)
        (omega (arith, length-magic_bytes magic, enough, small)) in
    let fits : length (written w.after) < 2 ^ 32 =
      omega (arith, ap length w.appends, length-magic_bytes magic, enough, small) in
    record {
      closed = w.after;
      writes_it = w.runs;
      verdict =
          check-Verdict fuel unset magic other (open_data (written w.after)) h
            (open_data-IsOpen _ fits) w.appends;
    }
