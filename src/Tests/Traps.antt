-- ===== src/Tests/Traps.antt =====
-- The theorems on traps and device interrupts at a kernel in which hart 0 runs thread 4.
use ccos.Common.{ℕ, ◌≡◌, refl, false, none, some, List, [], ◌∷◌, arith, ◌==◌, if◌then◌else◌, ltb}
use ccos.Kernel.{zero_tf, TfPtr, frame_of, Kernel}
use ccos.Kernel.Run.{done}
use ccos.Console.{Ring}
use ccos.Platform.{
  IrqStat, uart16550, IrqTable, rx, line_status, Claim, platform_handle_s_external, max_irq,
}
use ccos.Trap.{Devices, Outside, syscall_of, cause_of, trap_entry_c}
use ccos.Platform.Stats.{times_of, stat_after, longest_gap}
use ccos.Platform.External.{platform_handle_s_external-IsSound}
use ccos.Trap.Calls.{IsCallable, framed, framed-IsSound}
use ccos.Trap.Sound.{IsHandled, trap_entry_c-IsSound}
use ccos.Thread.Invariant.{IsSound}
use ccos.Thread.Frame.{SameHart}
use ccos.Tests.Busy.{machine, busy, busy-IsSound}

abbrev quiet_stat : IrqStat
quiet_stat = record { count = 0; last_tick = 0; first_tick = 0; max_delta = 0 }

abbrev uart_table : IrqTable
uart_table = record {
  handlers = λ i. if i == 10 then some uart16550 else none;
  stats = λ i. quiet_stat;
  names = λ i. none;
}

-- The UART interrupts at 100 and at 130, the first time with two characters.
abbrev two_claims : List Claim
two_claims =
    record { irq = 10; now = 100; uart = rx (104 ∷ 105 ∷ []) ∷ [] }
    ∷ record { irq = 10; now = 130; uart = line_status ∷ [] }
    ∷ []

abbrev no_chars : Ring
no_chars = record { buf = λ i. 0; head = 7; tail = 7 }

all_times : times_of 10 two_claims ≡ 100 ∷ 130 ∷ []
unfolding times_of
all_times = refl

platform_handle_s_external-IsSound_example :
    (k' : Kernel) × (a : IrqTable × Ring) × (platform_handle_s_external 0 two_claims uart_table
        no_chars busy
      ≡ done a k')
    × IsSound k'
    × ((h : ℕ) → SameHart (busy.cpus h) (k'.cpus h))
    × ((irq : ℕ)
        → a.0.stats irq ≡ (
            if ltb irq max_irq
            then stat_after quiet_stat (times_of irq two_claims)
            else quiet_stat))
    × (a.0.handlers ≡ uart_table.handlers)
platform_handle_s_external-IsSound_example =
    platform_handle_s_external-IsSound 0 (omega arith) two_claims uart_table no_chars busy-IsSound
      (λ irq. omega arith)

-- The second claim came 30 later.
uart_stat :
    stat_after quiet_stat (times_of 10 two_claims)
    ≡ record { count = 2; last_tick = 130; first_tick = 100; max_delta = 30 }
unfolding stat_after times_of longest_gap
uart_stat = refl

abbrev devices : Devices
devices = record {
  probes = record {
    illegal_enabled = false;
    illegal_hit = false;
    wfi_enabled = false;
    wfi_fired = false;
    wfi_pc = 0;
  };
  irqs = uart_table;
  ring = no_chars;
}

abbrev outside : Outside
outside = record {
  machine = machine;
  boot_real_ns = 0;
  now_ns = 5;
  text_at = λ a. none;
  claims = two_claims;
}

-- Thread 4 has made the system call that yields.
abbrev yielding : Kernel
yielding = framed 4 (record zero_tf { scause = 8; a0 = 12 }) busy

yields :
    IsHandled yielding 4
      (yielding.threads 4).tf
      devices.probes
      (cause_of (yielding.threads 4).tf.scause)
unfolding IsHandled IsCallable cause_of syscall_of
yields = tt

trap_entry_c-IsSound_example :
    (k' : Kernel) × (tf : TfPtr) × (d' : Devices) × (trap_entry_c outside 0
        (frame_of 4)
        devices
        yielding
      ≡ done (tf, d') k')
    × IsSound k'
    × ((t : ℕ) → (k'.cpus 0).current_tid ≡ some t → tf ≡ frame_of t)
trap_entry_c-IsSound_example =
    trap_entry_c-IsSound outside 0 4 (omega arith) devices {k = yielding}
      (framed-IsSound 4 (record zero_tf { scause = 8; a0 = 12 }) busy-IsSound) refl yields
