-- ===== src/Console.antt =====
-- kernel/console.c: the ring buffer of received characters. Output goes to the UART and is not
-- modelled; Sysfile.antt has the interrupt and the read over the ring.
pub mod Buffer
use ccos.Common.{ℕ, zero, suc, ◌+◌, Bool, none, List, [], ◌∷◌, ◌==◌, if◌then◌else◌, ◌%◌}
use ccos.Kernel.{Kernel, update}

-- CONSOLE_RBUF_SIZE
abbrev pub console_rbuf_size : ℕ
console_rbuf_size = 1024

-- `g_rx_buf`, `g_rx_head` and `g_rx_tail`.
pub record Ring : Type 0 where
  pub buf : ℕ → ℕ
  pub head : ℕ
  pub tail : ℕ

abbrev pub rb_is_empty : Ring → Bool
rb_is_empty r = r.head == r.tail

abbrev pub rb_is_full : Ring → Bool
rb_is_full r = (r.head + 1) % console_rbuf_size == r.tail

pub console_init : Ring → Kernel → Ring × Kernel
console_init r k = (record r { head = 0; tail = 0 }, record k { stdin_waiter = none })

-- The step of `console_on_char_from_irq` that stores the character, or drops it.
pub store_char : ℕ → Ring → Ring
store_char ch r =
    if rb_is_full r
    then r
    else record r { buf = update r.buf r.head ch; head = (r.head + 1) % console_rbuf_size }

-- The character at `tail` is taken out.
abbrev take_char : Ring → Ring
take_char r = record r { tail = (r.tail + 1) % console_rbuf_size }

-- The characters that are put into the caller's buffer, in order, and the ring that is left; their
-- number is the value returned. The first argument is `len - n`.
pub console_read_nonblock : ℕ → Ring → List ℕ × Ring
console_read_nonblock zero r = ([], r)
console_read_nonblock (suc n) r =
    let (rest, left) = console_read_nonblock n (take_char r) in
    if rb_is_empty r then ([], r) else (r.buf r.tail ∷ rest, left)
