-- ===== src/Platform/External.antt =====
-- External interrupts keep the kernel sound (platform/qemu-virt-sbi).
use ccos.Common.{
  ℕ, ◌<◌, ◌≡◌, refl, Option, none, some, List, [], ◌∷◌, ltb, if◌then◌else◌, ◌+◌, length, ◌^◌, ap,
  ◌∙◌,
}
use ccos.Kernel.{max_harts, Kernel}
use ccos.Kernel.Run.{done, Cmd, pure, ◌>>=◌}
use ccos.Console.{Ring}
use ccos.Platform.{
  max_irq, IrqHandler, uart16550, IrqTable, UartEvent, rx, line_status, modem_status,
  transmitter_empty, other, uart16550_irq_handler, Claim, platform_handle_s_external, call_handler,
  uart_event, rx_loop,
}
use ccos.Platform.Stats.{
  note_all, noted, note_irq-noted, handler_of-done, stat_after, times_of, note_all-stat_after,
  note_all-handlers,
}
use ccos.Sysfile.{console_on_char_from_irq}
use ccos.Sysfile.Read.{console_on_char_from_irq-IsSound}
use ccos.Thread.Invariant.{IsSound}
use ccos.Thread.Frame.{SameHart, SameHart-refl, SameHart-trans}

-- A command that ends, keeps the kernel sound, leaves the harts to what they run and answers what
-- `P` holds of.
abbrev pub Serves : {A : Type 0} → (A → Type 0) → Kernel → Cmd A → Type 0
Serves {A} P k m =
    (k' : Kernel) × (a : A) × (m k ≡ done a k')
    × IsSound k'
    × ((h : ℕ) → SameHart (k.cpus h) (k'.cpus h))
    × P a

-- Any answer.
abbrev Any : {A : Type 0} → A → Type 0
Any a = Unit {0}

-- One such command after another.
Serves-bind :
    {A B : Type 0} {P : A → Type 0} {Q : B → Type 0} {k : Kernel} (m : Cmd A) (f : A → Cmd B)
    → Serves P k m
    → ((a : A) (l : Kernel) → IsSound l → Serves Q l (f a))
    → Serves Q k (m >>= f)
Serves-bind m f (l, a, run, sound, harts, p) next =
    let (k', b, run', sound', harts', q) = next a l sound in
    (k', b, rw (run, run') refl, sound', λ h. SameHart-trans (harts h) (harts' h), q)

Serves-pure :
    {A : Type 0} {P : A → Type 0} (a : A) (k : Kernel) → IsSound k → P a → Serves P k (pure a)
Serves-pure a k sound p = (k, a, refl, sound, λ h. SameHart-refl, p)

module _ (self : ℕ) (lt : self < max_harts) where
  rx_loop-Serves :
      (chs : List ℕ) (r : Ring) (k : Kernel) → IsSound k → Serves Any k (rx_loop self chs r)
  unfolding rx_loop
  rx_loop-Serves [] r k sound = Serves-pure r k sound (tt {0})
  rx_loop-Serves (ch ∷ chs) r k sound =
      let (k', left, run, nobody, sound', harts) =
        console_on_char_from_irq-IsSound self ch r lt sound in
      Serves-bind {P = Any} (console_on_char_from_irq self ch r) (rx_loop self chs)
        (k', left, run, sound', harts, tt {0}) (rx_loop-Serves chs)

  uart_event-Serves :
      (e : UartEvent) (r : Ring) (k : Kernel) → IsSound k → Serves Any k (uart_event self e r)
  unfolding uart_event
  uart_event-Serves (rx chs) r k sound = rx_loop-Serves chs r k sound
  uart_event-Serves line_status r k sound = Serves-pure r k sound (tt {0})
  uart_event-Serves modem_status r k sound = Serves-pure r k sound (tt {0})
  uart_event-Serves transmitter_empty r k sound = Serves-pure r k sound (tt {0})
  uart_event-Serves other r k sound = Serves-pure r k sound (tt {0})

  uart16550_irq_handler-Serves :
      (es : List UartEvent) (r : Ring) (k : Kernel)
      → IsSound k
      → Serves Any k (uart16550_irq_handler self es r)
  unfolding uart16550_irq_handler
  uart16550_irq_handler-Serves [] r k sound = Serves-pure r k sound (tt {0})
  uart16550_irq_handler-Serves (e ∷ es) r k sound =
      Serves-bind {P = Any} (uart_event self e r) (uart16550_irq_handler self es)
        (uart_event-Serves e r k sound) (uart16550_irq_handler-Serves es)

  call_handler-Serves :
      (o : Option IrqHandler) (es : List UartEvent) (r : Ring) (k : Kernel)
      → IsSound k
      → Serves Any k (call_handler self o es r)
  unfolding call_handler
  call_handler-Serves none es r k sound = Serves-pure r k sound (tt {0})
  call_handler-Serves (some uart16550) es r k sound = uart16550_irq_handler-Serves es r k sound

  -- The same with the table that the interrupts noted one by one make.
  pub platform_handle_s_external-Serves :
      (cs : List Claim) (t : IrqTable) (r : Ring) (k : Kernel)
      → IsSound k
      → Serves (λ a. a.0 ≡ note_all cs t) k (platform_handle_s_external self cs t r)
  unfolding platform_handle_s_external note_all
  platform_handle_s_external-Serves [] t r k sound = Serves-pure (t, r) k sound refl
  platform_handle_s_external-Serves (c ∷ cs) t r k sound =
      let t' = noted c.irq c.now t in
      let o = if ltb c.irq max_irq then t'.handlers c.irq else none in
      let (k', a, run, sound', harts, table) =
        Serves-bind {P = Any} {Q = λ a. a.0 ≡ note_all cs t'} (call_handler self o c.uart r)
          (λ r'. platform_handle_s_external self cs t' r') (call_handler-Serves o c.uart r k sound)
          (λ r' l ok. platform_handle_s_external-Serves cs t' r' l ok) in
      (
        k',
        a,
        rw (note_irq-noted c.irq c.now t k, handler_of-done c.irq t' k) run,
        sound',
        harts,
        table,
      )

  -- Whatever interrupts the PLIC hands out, registered or not, and whatever characters the UART has
  -- received, an external interrupt is served to its end, without a panic or an access behind the tables
  -- of interrupts, in a sound kernel; no hart changes what it runs. Where no count of an interrupt
  -- overflows, the statistics of each interrupt in the table are the count, the first and the last time
  -- and the longest gap of its claims, taken on from what they were; no other statistics, and no handler,
  -- change.
  pub platform_handle_s_external-IsSound :
      (cs : List Claim) (t : IrqTable) (r : Ring) {k : Kernel}
      → IsSound k
      → ((irq : ℕ) → (t.stats irq).count + length cs < 2 ^ 64)
      → (k' : Kernel) × (a : IrqTable × Ring) × (platform_handle_s_external self cs t r k
          ≡ done a k')
        × IsSound k'
        × ((h : ℕ) → SameHart (k.cpus h) (k'.cpus h))
        × ((irq : ℕ)
            → a.0.stats irq ≡ (
                if ltb irq max_irq
                then stat_after (t.stats irq) (times_of irq cs)
                else t.stats irq))
        × (a.0.handlers ≡ t.handlers)
  platform_handle_s_external-IsSound cs t r {k} sound fits =
      let (k', a, run, sound', harts, same_table) =
        platform_handle_s_external-Serves cs t r k sound in
      (
        k',
        a,
        run,
        sound',
        harts,
        λ irq. ap (λ u. u.stats irq) same_table ∙ note_all-stat_after irq cs t (fits irq),
        ap (λ u. u.handlers) same_table ∙ note_all-handlers cs t,
      )
