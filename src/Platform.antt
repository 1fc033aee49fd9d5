-- ===== src/Platform.antt =====
-- platform/qemu-virt-sbi: the table of interrupt handlers and its statistics (platform.c), and the
-- interrupt handler of the UART (uart_16550.c). What the devices answer is an argument: the
-- interrupts that the PLIC hands out, and what the UART reports for each, in order.
pub mod Stats
pub mod External
pub mod Plic
pub mod Clock
pub mod Uart
pub mod Output
use ccos.Common.{
  ℕ, zero, suc, ◌+◌, ◌-◌, Option, none, some, List, [], ◌∷◌, map, ltb, leb, ◌==◌, if◌then◌else◌,
  take, ◌%◌, ◌^◌,
}
use ccos.Kernel.{update}
use ccos.Kernel.Run.{Cmd, done, fault, pure, ◌>>=◌, ◌>>◌}
use ccos.Console.{Ring}
use ccos.Sysfile.{console_on_char_from_irq}

-- MAX_IRQ
abbrev pub max_irq : ℕ
max_irq = 64

-- `irq_stat_t`
pub record IrqStat : Type 0 where
  pub count : ℕ
  pub last_tick : ℕ
  pub first_tick : ℕ
  pub max_delta : ℕ

-- The handlers that the source registers: that of the UART.
pub data IrqHandler : Type 0 where
  uart16550 : IrqHandler

-- `s_irq_table`, `s_irq_stats` and `s_irq_name`.
pub record IrqTable : Type 0 where
  pub handlers : ℕ → Option IrqHandler
  pub stats : ℕ → IrqStat
  pub names : ℕ → Option (List ℕ)

pub platform_irq_table_init : IrqTable → IrqTable
platform_irq_table_init t = record t {
  handlers = λ irq. if ltb irq max_irq then none else t.handlers irq;
}

-- The priority and the enable bit, which are set in the PLIC next, are registers of the device.
pub platform_register_irq_handler : ℕ → IrqHandler → List ℕ → IrqTable → IrqTable
platform_register_irq_handler irq handler name t = if leb max_irq irq then t else record t {
  handlers = update t.handlers irq (some handler);
  names = update t.names irq (some name);
}

-- One reading of the UART's IIR with a source pending, and for received data the characters read
-- until LSR reports no more.
pub data UartEvent : Type 0 where
  rx : List ℕ → UartEvent
  line_status modem_status transmitter_empty other : UartEvent

-- `while (uart_lsr_read() & UART_LSR_DR)`
rx_loop : ℕ → List ℕ → Ring → Cmd Ring
rx_loop self [] r = pure r
rx_loop self (ch ∷ chs) r = do r' ← console_on_char_from_irq self ch r; rx_loop self chs r'

uart_event : ℕ → UartEvent → Ring → Cmd Ring
unfolding rx_loop
uart_event self (rx chs) r = rx_loop self chs r
uart_event self line_status r = pure r
uart_event self modem_status r = pure r
uart_event self transmitter_empty r = pure r
uart_event self other r = pure r

-- The events are those until IIR reports that nothing is pending.
pub uart16550_irq_handler : ℕ → List UartEvent → Ring → Cmd Ring
unfolding uart_event
uart16550_irq_handler self [] r = pure r
uart16550_irq_handler self (e ∷ es) r = do
  r' ← uart_event self e r
  uart16550_irq_handler self es r'

-- What a claim of an interrupt meets: its number, the time, and what the UART then reports.
pub record Claim : Type 0 where
  pub irq : ℕ
  pub now : ℕ
  pub uart : List UartEvent

-- `delta` of 64 bits.
abbrev pub delta_of : ℕ → ℕ → ℕ
delta_of now last = (now + 2 ^ 64 - last) % 2 ^ 64

-- The statistics after an interrupt at `now`.
pub count_irq : ℕ → IrqStat → IrqStat
count_irq now st = record {
  count = (st.count + 1) % 2 ^ 64;
  last_tick = now;
  first_tick = if st.count == 0 then now else st.first_tick;
  max_delta =
      if st.count == 0
      then st.max_delta
      else if ltb st.max_delta (delta_of now st.last_tick)
      then delta_of now st.last_tick
      else st.max_delta;
}

-- `s_irq_stats` and `s_irq_table` have MAX_IRQ entries; an access behind them is a fault.
unfoldable pub irq_slot : ℕ → Cmd (Unit {0})
irq_slot irq k = if ltb irq max_irq then done tt k else fault

unfoldable pub note_irq : ℕ → ℕ → IrqTable → Cmd IrqTable
unfolding count_irq irq_slot
note_irq irq now t =
    if ltb irq max_irq
    then (do
      irq_slot irq
      pure (record t { stats = update t.stats irq (count_irq now (t.stats irq)) }))
    else pure t

-- The handler of an interrupt, if it has one.
unfoldable pub handler_of : ℕ → IrqTable → Cmd (Option IrqHandler)
unfolding irq_slot
handler_of irq t = if ltb irq max_irq then (do irq_slot irq; pure (t.handlers irq)) else pure none

-- `handler(irq, arg)`; an interrupt that has no handler is only reported.
call_handler : ℕ → Option IrqHandler → List UartEvent → Ring → Cmd Ring
call_handler self none es r = pure r
call_handler self (some uart16550) es r = uart16550_irq_handler self es r

-- The claims are those until the PLIC answers 0.
pub platform_handle_s_external : ℕ → List Claim → IrqTable → Ring → Cmd (IrqTable × Ring)
unfolding call_handler
platform_handle_s_external self [] t r = pure (t, r)
platform_handle_s_external self (c ∷ cs) t r = do
  t' ← note_irq c.irq c.now t
  handler ← handler_of c.irq t'
  r' ← call_handler self handler c.uart r
  platform_handle_s_external self cs t' r'

-- `platform_irq_stat_t`
pub record IrqReport : Type 0 where
  pub irq : ℕ
  pub stat : IrqStat
  pub name : Option (List ℕ)

-- The entries from `i` on.
report_loop : ℕ → ℕ → IrqTable → List IrqReport
report_loop zero i t = []
report_loop (suc n) i t =
    record { irq = i; stat = t.stats i; name = t.names i } ∷ report_loop n (suc i) t

pub platform_irq_get_stats : ℕ → IrqTable → List IrqReport
unfolding report_loop
platform_irq_get_stats max t = report_loop (if ltb max max_irq then max else max_irq) 0 t

-- IRQSTAT_MAX_IRQ
abbrev irqstat_max_irq : ℕ
irqstat_max_irq = 64

-- IRQSTAT_MAX_NAME - 1, the bytes of a name in front of its terminator.
abbrev irqstat_name_max : ℕ
irqstat_name_max = 15

-- An interrupt that has no name is given an empty one, and a longer name is cut.
user_report : IrqReport → IrqReport
user_report e = record e {
  name = some (elim e.name [ none ↦ [] | some s ↦ take irqstat_name_max s ]);
}

-- kernel/sysfile.c: what is written to the user's array; none is the result -1.
pub sys_irq_get_stats : ℕ → ℕ → IrqTable → Option (List IrqReport)
unfolding user_report
sys_irq_get_stats ubuf n t =
    if ubuf == 0
    then none
    else some (
        map user_report
          (platform_irq_get_stats (if ltb irqstat_max_irq n then irqstat_max_irq else n) t))
