-- ===== src/Log/Ring/Queue.antt =====
-- The ring buffer of lib/log.c is a queue that forgets its oldest bytes when it is full.
use ccos.Common.{
  ℕ, zero, suc, ◌+◌, ◌-◌, ◌≤◌, ◌<◌, ◌≡◌, refl, sym, ap, ◌∙◌, inl, inr, true, false, ◌||◌, List, [],
  ◌∷◌, ◌++◌, arith, ltb, ◌==◌, if◌then◌else◌, Bool-cases, length, length-append, take, drop, nth,
  append_nil, append_assoc, length-drop, drop-drop, drop-append, drop_all, length-take,
  drop-length-take, take_all, latest, latest-short, latest-append, nth-append, nth-snoc, take-drop,
  ◌%◌,
}
use ccos.Kernel.{update}
use ccos.Log.Ring.{
  log_ring_buffer_size, LogRing, empty_ring, ring_copy, ring_put, ring_write, peek_loop,
  ring_peek_internal, log_ring_read, log_ring_clear,
}

-- The bytes written last stand in the buffer, each at its number in the history `h` modulo its size.
Bytes : List ℕ → (ℕ → ℕ) → Type 0
Bytes h b =
    (j : ℕ)
    → j < length h
    → length h ≤ j + log_ring_buffer_size
    → b (j % log_ring_buffer_size) ≡ nth h j

-- The ring stands at the end of the history `h`.
record Recorded (h : List ℕ) (r : LogRing) : Type 0 where
  head : r.head ≡ length h % log_ring_buffer_size
  old : r.size ≤ length h
  small : r.size ≤ log_ring_buffer_size
  bytes : Bytes h r.buf

-- The ring holds the bytes `q`, the oldest first.
pub HoldsBytes : LogRing → List ℕ → Type 0
HoldsBytes r q = (h : List ℕ) × Recorded h r × (q ≡ drop (length h - r.size) h)

pub empty_ring-HoldsBytes : HoldsBytes empty_ring []
unfolding HoldsBytes Bytes
empty_ring-HoldsBytes = (
  [],
  record {
    head = refl;
    old = omega arith;
    small = omega arith;
    bytes = λ j lt. absurd (omega arith);
  },
  refl,
)

Bytes-snoc :
    (h : List ℕ) (b : ℕ → ℕ) (c i : ℕ)
    → i ≡ length h % log_ring_buffer_size
    → Bytes h b
    → Bytes (h ++ c ∷ []) (update b i c)
unfolding Bytes
Bytes-snoc h b c i e all j lt near =
    let n : length (h ++ c ∷ []) ≡ length h + 1 = length-append h (c ∷ []) in
    elim (Bool-cases (j == length h)) [
      | inl here ↦
          let p : j ≡ length h = ground arith in
          let hit : (j % log_ring_buffer_size == i) ≡ true = ground arith in
          rw hit (sym (rw p (nth-snoc h c)))
      | inr there ↦
          let miss : (j % log_ring_buffer_size == i) ≡ false = ground arith in
          rw miss
            (all j (ground arith) (omega arith) ∙ sym (nth-append h (c ∷ []) j (ground arith)))
    ]

ring_copy-Bytes :
    (xs : List ℕ) (h : List ℕ) (b : ℕ → ℕ) (head i : ℕ)
    → (head + i) % log_ring_buffer_size ≡ length h % log_ring_buffer_size
    → Bytes h b
    → Bytes (h ++ xs) (ring_copy head i xs b)
unfolding ring_copy
ring_copy-Bytes [] h b head i e all = rw (append_nil h) all
ring_copy-Bytes (c ∷ xs) h b head i e all = rw (← append_assoc h (c ∷ []) xs) (
    ring_copy-Bytes xs (h ++ c ∷ []) (update b ((head + i) % log_ring_buffer_size) c) head (i + 1)
      (omega (arith, length-append h (c ∷ []))) (Bytes-snoc h b c _ e all))

-- What fits the buffer is recorded.
ring_put-Recorded :
    (xs h : List ℕ) (r : LogRing)
    → length xs ≤ log_ring_buffer_size
    → Recorded h r
    → Recorded (h ++ xs) (ring_put xs r)
unfolding ring_put
ring_put-Recorded xs h r fits v = record {
  head = omega (arith, length-append h xs, v.head);
  old = ground (arith, length-append h xs, v.old);
  small = ground arith;
  bytes = ring_copy-Bytes xs h r.buf r.head 0 (omega (arith, v.head)) v.bytes;
}

-- The end of a longer history.
latest-drop :
    (a s : ℕ) (h : List ℕ)
    → length h - a - log_ring_buffer_size + a ≡ length h - s
    → latest log_ring_buffer_size (drop a h) ≡ drop (length h - s) h
latest-drop a s h e =
    rw length-drop (drop-drop (length h - a - log_ring_buffer_size) a h ∙ ap (λ k. drop k h) e)

ring_put-HoldsBytes :
    (xs q : List ℕ) (r : LogRing)
    → length xs ≤ log_ring_buffer_size
    → HoldsBytes r q
    → HoldsBytes (ring_put xs r) (latest log_ring_buffer_size (q ++ xs))
unfolding HoldsBytes ring_put
ring_put-HoldsBytes xs q r fits (h, v, e) =
    let from = drop-append (length h - r.size) h xs (omega arith) in
    (
      h ++ xs,
      ring_put-Recorded xs h r fits v,
      ap (latest log_ring_buffer_size) (ap (λ l. l ++ xs) e ∙ sym from)
          ∙ latest-drop (length h - r.size) (ring_put xs r).size (h ++ xs)
              (ground (arith, length-append h xs, v.old, v.small)),
    )

pub HoldsBytes-length : (q : List ℕ) (r : LogRing) → HoldsBytes r q → length q ≡ r.size
unfolding HoldsBytes
HoldsBytes-length q r (h, v, e) =
    ap length e ∙ length-drop (length h - r.size) h ∙ omega (arith, v.old)

HoldsBytes-small : (q : List ℕ) (r : LogRing) → HoldsBytes r q → r.size ≤ log_ring_buffer_size
unfolding HoldsBytes
HoldsBytes-small q r (h, v, e) = v.small

pub HoldsBytes-nil :
    (q : List ℕ) (r : LogRing)
    → HoldsBytes r q
    → HoldsBytes r (latest log_ring_buffer_size (q ++ []))
HoldsBytes-nil q r v = rw append_nil (
    rw
      (← latest-short log_ring_buffer_size q
        (omega (arith, HoldsBytes-length q r v, HoldsBytes-small q r v)))
      at v)

-- What is written goes to the end; the oldest bytes are forgotten so that no more than 2048 are left.
pub ring_write-HoldsBytes :
    (xs q : List ℕ) (r : LogRing)
    → HoldsBytes r q
    → HoldsBytes (ring_write xs r) (latest log_ring_buffer_size (q ++ xs))
unfolding ring_write
ring_write-HoldsBytes [] q r v = HoldsBytes-nil q r v
ring_write-HoldsBytes (x ∷ xs) q r v =
    elim (Bool-cases (ltb log_ring_buffer_size (length (x ∷ xs)))) [
      | inl long ↦
          let n : length (x ∷ xs) - log_ring_buffer_size ≤ length (x ∷ xs) = omega arith in
          let end = latest log_ring_buffer_size (x ∷ xs) in
          let full : length end ≡ log_ring_buffer_size =
            length-drop (length (x ∷ xs) - log_ring_buffer_size) (x ∷ xs) ∙ ground arith in
          let same_end : latest log_ring_buffer_size (q ++ end)
              ≡ latest log_ring_buffer_size (q ++ x ∷ xs) =
            latest-append log_ring_buffer_size q end (omega arith)
            ∙ latest-short log_ring_buffer_size end (omega arith)
            ∙ sym (latest-append log_ring_buffer_size q (x ∷ xs) (ground arith)) in
          let some_bytes : (length (x ∷ xs) == 0) ≡ false = ground arith in
          rw (some_bytes, long, ← same_end) (ring_put-HoldsBytes end q r (omega arith) v)
      | inr short ↦
          let some_bytes : (length (x ∷ xs) == 0) ≡ false = ground arith in
          rw (some_bytes, short) (ring_put-HoldsBytes (x ∷ xs) q r (ground arith) v)
    ]

peek_loop-take :
    (n i tail j : ℕ) (h : List ℕ) (b : ℕ → ℕ)
    → (tail + i) % log_ring_buffer_size ≡ j % log_ring_buffer_size
    → j + n ≤ length h
    → length h ≤ j + log_ring_buffer_size
    → Bytes h b
    → peek_loop n tail i b ≡ take n (drop j h)
unfolding peek_loop Bytes
peek_loop-take zero i tail j h b e fits near all = refl
peek_loop-take (suc n) i tail j h b e fits near all =
    rw (e, take-drop n j h (omega arith), all j (omega arith) near)
      (ap (λ l. nth h j ∷ l)
        (peek_loop-take n (i + 1) tail (suc j) h b (omega arith) (omega arith) (omega arith) all))

-- The limit on what is read makes no difference.
take_limited :
    (k s : ℕ) (xs : List ℕ) → length xs ≡ s → take (if ltb s k then s else k) xs ≡ take k xs
take_limited k s xs e = elim (Bool-cases (ltb s k)) [
  | inl less ↦ rw less (take_all s xs (omega arith) ∙ sym (take_all k xs (ground arith)))
  | inr more ↦ rw more refl
]

take_none : (k : ℕ) (xs : List ℕ) → (length xs == 0 || k == 0) ≡ true → take k xs ≡ []
take_none zero xs e = refl
take_none (suc k) [] e = refl
take_none (suc k) (x ∷ xs) e = absurd (ground arith)

-- A read sees the oldest bytes, as many as there is room for.
pub ring_peek_internal-take :
    (maxlen : ℕ) (q : List ℕ) (r : LogRing)
    → HoldsBytes r q
    → ring_peek_internal maxlen r ≡ take maxlen q
unfolding ring_peek_internal HoldsBytes
ring_peek_internal-take maxlen q r (h, v, e) =
    let n : length q ≡ r.size = HoldsBytes-length q r (h, v, e) in
    elim (Bool-cases (r.size == 0 || maxlen == 0)) [
      | inl none_read ↦ rw none_read (sym (take_none maxlen q (rw n none_read)))
      | inr some_read ↦ rw some_read (
          peek_loop-take (if ltb r.size maxlen then r.size else maxlen) 0
            ((r.head + log_ring_buffer_size - r.size) % log_ring_buffer_size) (length h - r.size) h
            r.buf (omega (arith, v.head, v.old, v.small)) (ground (arith, v.old))
            (omega (arith, v.old, v.small)) v.bytes
          ∙ ap (take (if ltb r.size maxlen then r.size else maxlen)) (sym e)
          ∙ take_limited maxlen r.size q n)
    ]

shrunk-HoldsBytes :
    (out q : List ℕ) (maxlen : ℕ) (r : LogRing)
    → out ≡ take maxlen q
    → HoldsBytes r q
    → HoldsBytes
        (if ltb 0 (length out) then record r { size = r.size - length out } else r)
        (drop maxlen q)
unfolding HoldsBytes
shrunk-HoldsBytes out q maxlen r e (h, v, from) =
    let n : length q ≡ r.size = HoldsBytes-length q r (h, v, from) in
    let less : length out ≤ r.size = rw e (omega (arith, length-take maxlen q, n)) in
    let left : drop (length out) q ≡ drop maxlen q = rw e (drop-length-take maxlen q) in
    let place : length out + (length h - r.size) ≡ length h - (r.size - length out) =
      omega (arith, v.old) in
    let rest =
      sym left ∙ ap (drop (length out)) from ∙ drop-drop (length out) (length h - r.size) h in
    elim (Bool-cases (ltb 0 (length out))) [
      | inl got ↦ rw got (
        h,
        record {
          head = v.head;
          old = omega (arith, v.old);
          small = omega (arith, v.small);
          bytes = v.bytes;
        },
        rest ∙ ap (λ k. drop k h) place,
      )
      | inr got ↦
          let none_out : length out ≡ 0 = ground arith in
          rw got (h, v, rest ∙ ap (λ k. drop k h) (omega (arith, none_out)))
    ]

pub log_ring_read-HoldsBytes :
    (maxlen : ℕ) (q : List ℕ) (r : LogRing)
    → HoldsBytes r q
    → let (out, r') = log_ring_read maxlen r in
      (out ≡ take maxlen q) × HoldsBytes r' (drop maxlen q)
unfolding log_ring_read
log_ring_read-HoldsBytes maxlen q r v =
    let out = ring_peek_internal-take maxlen q r v in
    (out, rw out (shrunk-HoldsBytes (take maxlen q) q maxlen r refl v))

pub log_ring_clear-HoldsBytes :
    (q : List ℕ) (r : LogRing) → HoldsBytes r q → HoldsBytes (log_ring_clear r) []
unfolding log_ring_clear HoldsBytes
log_ring_clear-HoldsBytes q r (h, v, e) = (
  h,
  record { head = v.head; old = omega arith; small = omega arith; bytes = v.bytes },
  sym (drop_all (length h - 0) h (omega arith)),
)
