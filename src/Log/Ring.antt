-- ===== src/Log/Ring.antt =====
-- lib/log.c: the ring buffer that keeps the last bytes of the log. A byte of the buffer is found by its
-- index; the lock that the calls take makes each of them one step.
pub mod Queue
pub mod Runs
use ccos.Common.{
  ℕ, zero, suc, ◌+◌, ◌-◌, ◌||◌, List, [], ◌∷◌, ltb, leb, ◌==◌, if◌then◌else◌, length, drop, ◌%◌,
}
use ccos.Kernel.{update}

abbrev pub log_ring_buffer_size : ℕ
log_ring_buffer_size = 2048

-- `s_ring_buf`, `s_ring_head` (the place of the next write) and `s_ring_size` (the bytes in use).
pub record LogRing : Type 0 where
  pub buf : ℕ → ℕ
  pub head : ℕ
  pub size : ℕ

abbrev pub empty_ring : LogRing
empty_ring = record { buf = λ _. 0; head = 0; size = 0 }

-- The copying loop of `ring_write`, from the counter `i` on.
pub ring_copy : (head i : ℕ) → List ℕ → (ℕ → ℕ) → ℕ → ℕ
ring_copy head i [] buf = buf
ring_copy head i (c ∷ bytes) buf =
    ring_copy head (i + 1) bytes (update buf ((head + i) % log_ring_buffer_size) c)

-- What `ring_write` does once the bytes fit the buffer.
pub ring_put : List ℕ → LogRing → LogRing
ring_put bytes r = record {
  buf = ring_copy r.head 0 bytes r.buf;
  head = (r.head + length bytes) % log_ring_buffer_size;
  size =
      if leb log_ring_buffer_size (r.size + length bytes)
      then log_ring_buffer_size
      else r.size + length bytes;
}

-- Of more bytes than the buffer holds, only the end is written.
pub ring_write : List ℕ → LogRing → LogRing
unfolding ring_put
ring_write bytes r =
    if length bytes == 0
    then r
    else ring_put
        (if ltb log_ring_buffer_size (length bytes)
          then drop (length bytes - log_ring_buffer_size) bytes
          else bytes)
        r

pub peek_loop : (n tail i : ℕ) → (ℕ → ℕ) → List ℕ
peek_loop zero tail i buf = []
peek_loop (suc n) tail i buf =
    buf ((tail + i) % log_ring_buffer_size) ∷ peek_loop n tail (i + 1) buf

-- The bytes that are stored in `out`; the result of the function is their number.
pub ring_peek_internal : (maxlen : ℕ) → LogRing → List ℕ
ring_peek_internal maxlen r =
    if r.size == 0 || maxlen == 0
    then []
    else peek_loop (if ltb r.size maxlen then r.size else maxlen)
        ((r.head + log_ring_buffer_size - r.size) % log_ring_buffer_size) 0 r.buf

pub log_ring_peek : (maxlen : ℕ) → LogRing → List ℕ
log_ring_peek maxlen r = ring_peek_internal maxlen r

pub log_ring_read : (maxlen : ℕ) → LogRing → List ℕ × LogRing
log_ring_read maxlen r =
    let out = ring_peek_internal maxlen r in
    (out, if ltb 0 (length out) then record r { size = r.size - length out } else r)

pub log_ring_clear : LogRing → LogRing
log_ring_clear r = record r { size = 0 }

abbrev pub log_ring_size : LogRing → ℕ
log_ring_size r = r.size

abbrev pub log_ring_capacity : ℕ
log_ring_capacity = log_ring_buffer_size
