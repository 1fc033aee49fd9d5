-- ===== src/Log/Ring/Runs.antt =====
-- Calls of the ring buffer of lib/log.c, one behind the other, against the queue that they stand for.
use ccos.Common.{ℕ, ◌≡◌, refl, sym, ap, List, [], ◌∷◌, ◌++◌, length, take, drop, latest}
use ccos.Log.Ring.{
  LogRing, empty_ring, ring_write, log_ring_peek, log_ring_read, log_ring_clear, log_ring_size,
  log_ring_capacity,
}
use ccos.Log.Ring.Queue.{
  HoldsBytes, empty_ring-HoldsBytes, HoldsBytes-length, ring_write-HoldsBytes,
  ring_peek_internal-take, log_ring_read-HoldsBytes, log_ring_clear-HoldsBytes,
}

pub data RingCall : Type 0 where
  write : List ℕ → RingCall
  peek : ℕ → RingCall
  read : ℕ → RingCall
  clear : RingCall
  used : RingCall

-- The bytes that a call answers (for `log_ring_size` its number), and the ring behind it.
unfoldable pub ring_call : RingCall → LogRing → List ℕ × LogRing
ring_call (write xs) r = ([], ring_write xs r)
ring_call (peek n) r = (log_ring_peek n r, r)
ring_call (read n) r = log_ring_read n r
ring_call clear r = ([], log_ring_clear r)
ring_call used r = (log_ring_size r ∷ [], r)

-- The same of a queue that keeps its last bytes.
unfoldable pub queue_call : RingCall → List ℕ → List ℕ × List ℕ
queue_call (write xs) q = ([], latest log_ring_capacity (q ++ xs))
queue_call (peek n) q = (take n q, q)
queue_call (read n) q = (take n q, drop n q)
queue_call clear q = ([], [])
queue_call used q = (length q ∷ [], q)

unfoldable pub ring_run : List RingCall → LogRing → List (List ℕ)
ring_run [] r = []
ring_run (c ∷ calls) r = let (out, r') = ring_call c r in out ∷ ring_run calls r'

unfoldable pub queue_run : List RingCall → List ℕ → List (List ℕ)
queue_run [] q = []
queue_run (c ∷ calls) q = let (out, q') = queue_call c q in out ∷ queue_run calls q'

ring_call-HoldsBytes :
    (c : RingCall) (q : List ℕ) (r : LogRing)
    → HoldsBytes r q
    → ((ring_call c r).0 ≡ (queue_call c q).0) × HoldsBytes (ring_call c r).1 (queue_call c q).1
unfolding ring_call queue_call log_ring_peek
ring_call-HoldsBytes (write xs) q r v = (refl, ring_write-HoldsBytes xs q r v)
ring_call-HoldsBytes (peek n) q r v = (ring_peek_internal-take n q r v, v)
ring_call-HoldsBytes (read n) q r v = log_ring_read-HoldsBytes n q r v
ring_call-HoldsBytes clear q r v = (refl, log_ring_clear-HoldsBytes q r v)
ring_call-HoldsBytes used q r v = (ap (λ n. n ∷ []) (sym (HoldsBytes-length q r v)), v)

ring_run-same :
    (calls : List RingCall) (q : List ℕ) (r : LogRing)
    → HoldsBytes r q
    → ring_run calls r ≡ queue_run calls q
unfolding ring_run queue_run
ring_run-same [] q r v = refl
ring_run-same (c ∷ calls) q r v =
    let (out, rest) = ring_call-HoldsBytes c q r v in
    rw (out, ring_run-same calls (queue_call c q).1 (ring_call c r).1 rest) refl

-- No sequence of calls tells the ring buffer of the log from the queue of the last 2048 bytes that were
-- written and not read: a write may be longer than the buffer, a read takes the oldest bytes, a peek
-- leaves them, and the size is the number of bytes held.
pub ring_run-queue_run : (calls : List RingCall) → ring_run calls empty_ring ≡ queue_run calls []
ring_run-queue_run calls = ring_run-same calls [] empty_ring empty_ring-HoldsBytes
