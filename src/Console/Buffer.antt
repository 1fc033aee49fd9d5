-- ===== src/Console/Buffer.antt =====
-- The ring buffer of kernel/console.c is a queue of at most 1023 characters.
use ccos.Common.{
  ℕ, ◌+◌, ◌-◌, ◌≤◌, ◌<◌, ◌≡◌, refl, sym, ◌≢◌, inl, inr, List, [], ◌∷◌, ◌++◌, arith, leb,
  if◌then◌else◌, Bool-cases, length, length-append, ◌%◌, false, true, take, drop, suc, zero,
}
use ccos.Kernel.{update, Kernel}
use ccos.Console.{
  console_rbuf_size, Ring, rb_is_full, console_init, store_char, console_read_nonblock, take_char,
  rb_is_empty,
}
use mathlib.Core.Path.{subst}

-- The characters from place `t` on are `xs`.
abbrev Stored : (ℕ → ℕ) → ℕ → List ℕ → Type 0
Stored buf t [] = Unit {0}
Stored buf t (x ∷ xs) = (buf t ≡ x) × Stored buf ((t + 1) % console_rbuf_size) xs

-- The ring holds the characters `xs`, the oldest first.
pub record Holds (r : Ring) (xs : List ℕ) : Type 0 where
  pub stored : Stored r.buf r.tail xs
  pub tail : r.tail < console_rbuf_size
  pub room : length xs < console_rbuf_size
  pub head : r.head ≡ (r.tail + length xs) % console_rbuf_size

Stored-append :
    (buf : ℕ → ℕ) (t h ch : ℕ) (xs : List ℕ)
    → t < console_rbuf_size
    → length xs < console_rbuf_size
    → h ≡ (t + length xs) % console_rbuf_size
    → Stored buf t xs
    → Stored (update buf h ch) t (xs ++ ch ∷ [])
Stored-append buf t h ch [] lt room e s = let here : h ≡ t = omega arith in (ground arith, tt)
Stored-append buf t h ch (x ∷ xs) lt room e s =
    let away : h ≢ t = λ p. omega arith in
    (
      ground (arith, s.0),
      Stored-append buf ((t + 1) % console_rbuf_size) h ch xs (omega arith) (omega arith)
          (omega arith) s.1,
    )

-- A fresh ring holds nothing.
pub console_init-Holds : (r : Ring) (k : Kernel) → Holds (console_init r k).0 []
unfolding console_init
console_init-Holds r k = record { stored = tt; tail = omega arith; room = omega arith; head = refl }

full-leb :
    (r : Ring) (xs : List ℕ) → Holds r xs → rb_is_full r ≡ leb (console_rbuf_size - 1) (length xs)
full-leb r xs o = elim (Bool-cases (leb (console_rbuf_size - 1) (length xs))) [
  | inl e ↦
      let long : console_rbuf_size - 1 ≤ length xs = ground arith in
      let same : (r.head + 1) % console_rbuf_size ≡ r.tail =
        omega (arith, o.head, o.room, o.tail) in
      ground arith
  | inr e ↦
      let short : length xs < console_rbuf_size - 1 = ground arith in
      let apart : (r.head + 1) % console_rbuf_size ≢ r.tail =
        λ p. omega (arith, o.head, o.room, o.tail) in
      ground arith
]

-- A character that arrives goes behind those that wait, unless 1023 wait: then it is dropped.
pub store_char-append :
    (ch : ℕ) (r : Ring) (xs : List ℕ)
    → Holds r xs
    → Holds
        (store_char ch r)
        (if leb (console_rbuf_size - 1) (length xs) then xs else xs ++ ch ∷ [])
unfolding store_char
store_char-append ch r xs o = elim (Bool-cases (leb (console_rbuf_size - 1) (length xs))) [
  | inl e ↦ rw (full-leb r xs o, e) o
  | inr e ↦
      let short : length xs < console_rbuf_size - 1 = ground arith in
      let grow : (P : ℕ → Type 0) → P (length xs + 1) → P (length (xs ++ ch ∷ [])) =
        λ P. subst P (sym (length-append xs (ch ∷ []))) in
      rw (full-leb r xs o, e)
        (record {
          stored = Stored-append r.buf r.tail r.head ch xs o.tail o.room o.head o.stored;
          tail = o.tail;
          room = grow (λ n. n < console_rbuf_size) (omega arith);
          head =
              grow (λ n. (r.head + 1) % console_rbuf_size ≡ (r.tail + n) % console_rbuf_size)
                (omega (arith, o.head));
        })
]

-- Without its oldest character.
take_char-Holds : (r : Ring) (x : ℕ) (xs : List ℕ) → Holds r (x ∷ xs) → Holds (take_char r) xs
take_char-Holds r x xs o = record {
  stored = o.stored.1;
  tail = omega arith;
  room = omega (arith, o.room);
  head = omega (arith, o.head, o.room, o.tail);
}

empty-nil : (r : Ring) → Holds r [] → rb_is_empty r ≡ true
empty-nil r o = let same : r.head ≡ r.tail = omega (arith, o.head, o.tail) in ground arith

empty-cons : (r : Ring) (x : ℕ) (xs : List ℕ) → Holds r (x ∷ xs) → rb_is_empty r ≡ false
empty-cons r x xs o =
    let apart : r.head ≢ r.tail = λ p. omega (arith, o.head, o.tail, o.room) in ground arith

-- A read takes the oldest `len` characters, or all of them if there are fewer, in the order in
-- which they came, and leaves the others.
pub console_read_nonblock-take :
    (len : ℕ) (r : Ring) (xs : List ℕ)
    → Holds r xs
    → ((console_read_nonblock len r).0 ≡ take len xs)
      × Holds (console_read_nonblock len r).1 (drop len xs)
unfolding console_read_nonblock
console_read_nonblock-take zero r xs o = (refl, o)
console_read_nonblock-take (suc n) r [] o = rw (empty-nil r o) (refl, o)
console_read_nonblock-take (suc n) r (x ∷ xs) o =
    let (taken, left) = console_read_nonblock-take n (take_char r) xs (take_char-Holds r x xs o) in
    rw (empty-cons r x xs o) (ground (arith, taken, o.stored.0), left)
