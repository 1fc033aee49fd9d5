-- ===== src/Lib.antt =====
-- The kernel of ccos: an S-mode RISC-V kernel with threads, a run queue for each hart, a preemptive
-- round-robin scheduler, system calls and a console, and the programs that run on it. This library
-- models its traps, its threads and their scheduling, the input of the console, the kernel's time, its
-- device drivers and its log, the C libraries of the kernel and of its user programs, and these programs.
--
-- The parts and how they interact. A trap (arch/riscv/trap.S, kernel/trap.c) takes the kernel lock
-- and calls one handler: a system call of kernel/thread.c, or an interrupt of kernel/sched.c. The
-- handlers change the thread table `g_threads`, the run queues of kernel/runqueue.c and the harts'
-- own state of kernel/cpu.c, and switch threads by `schedule`. Threads that become RUNNABLE go to
-- the queue of the hart that `sched_pick_target_hart` chooses, and that hart is sent an interrupt.
--
-- Which file models what:
--   Kernel.antt      the constants and the state: `Thread` for kernel/include/thread.h, `Cpu` for
--                    kernel/include/cpu.h, `Runqueue` for runqueue_t, `Kernel` for all globals
--   Kernel/Run.antt  commands on that state, with panics and faults as results
--   Runqueue.antt    kernel/runqueue.c, with the queues as lists in Runqueue/Links.antt
--   Cpu.antt         kernel/cpu.c
--   Sched.antt       kernel/sched.c: the choice of a hart
--   Thread.antt      kernel/thread.c: the table, creation and recycling
--   Thread/Switch.antt    `schedule`, `threads_tick`, `thread_block`, `thread_wake`
--   Thread/Syscalls.antt  sleep, yield, create, exit, join, detach
--   Thread/Kill.antt      kill
--   Thread/Stdin.antt     the blocking read
--   Thread/Info.antt      the calls that list threads and queues
--   Thread/Init.antt      `threads_init`, `cpu_enter_idle` of kernel/cpu.c, and the order in which
--                         kernel/main.c runs them
--   Thread/Irq.antt       kernel/sched.c: the timer and the inter-processor interrupt; who is served
--                         when, in Thread/Irq/Turns.antt
--   Thread/Invariant.antt the invariant of table, queues and harts
--   Thread/Steps.antt     every handler as a step, and what all reachable kernels satisfy
--   Console.antt     kernel/console.c: the ring buffer, as a queue in Console/Buffer.antt
--   Sysfile.antt     kernel/sysfile.c; the arrival of a character in kernel/console.c
--   Time.antt        kernel/time.c, over the reading of the platform's clock
--   Platform.antt    platform/qemu-virt-sbi: external interrupts and their statistics (platform.c),
--                    and the interrupt handler of the UART (uart_16550.c); its children Platform/Plic.antt
--                    the interrupt controller (plic.c), Platform/Clock.antt the clock and the timer
--                    (platform.c, timer.c), Platform/Uart.antt the device tree and the settings of the
--                    UART (fdt_helper.c, uart_16550.c), Platform/Output.antt what is printed
--   Trap.antt        kernel/trap.c: every trap, its cause and its system call
--   Memory.antt      lib/string.c: blocks of memory
--   Text.antt        lib/string.c and user/ulib_string.c: C strings
--   Number.antt      user/ulib_string.c and user/ulib_stdio.c: numbers and their digits
--   Print.antt       user/ulib_stdio.c: formatted output; its child Print/Stdout.antt what is written
--   Lines.antt       user/ulib_stdio.c: the readers of lines
--   Datetime.antt    user/datetime.c
--   Log.antt         lib/log.c: the formatter; its children Log/Ring.antt the ring buffer, Log/Line.antt
--                    a line with its prefix and the writer of lib/log_baremetal.c, Log/Hexdump.antt
--   Shell.antt       user/shell.c: a command line, its words and its command, and the slots of
--                    commands that run in a thread of their own
--                    Shell/Dispatch.antt the command of a line, Shell/Commands.antt the commands
--   Spawn.antt       user/spawn.c: the table of test workers; its child Spawn/Command.antt the command
--   Monitor.antt     user/monitor.c: the monitors and their slots
--   Tests.antt            concrete kernels, and the theorems at them
--
-- How state and operations correspond. An array is a function from its index. A `tid_t` that may be
-- -1 is an `Option`, none for any negative number. A pointer to a trapframe is a `TfPtr`: null, the
-- frame of the boot code, or that of a thread. A function of the source that changes state is a
-- command on `Kernel`, with the hart `self` that runs it as an argument where the source reads `tp`.
-- A panic, and an access through a null pointer or at the index -1, are results of their own, so that
-- a theorem that a handler ends with `done` says that neither happens. A 64-bit or 32-bit counter
-- wraps as in C. In the C libraries memory is a function from addresses to bytes; a string that is only
-- read is the list of its characters before the NUL.
--
-- Bounds and fuel. THREAD_MAX is 64, and MAX_HARTS is 4, the default of kernel/include/cpu_defs.h.
-- `rq_remove` and the loop of `schedule` have fuel for one round more than the queue is long, and
-- each round goes one thread on; the theorems on them say that they end. `rq_snapshot` is bounded by
-- its argument, and the digits of a hart number by the ten places of its buffer. The loops over C
-- strings and formats have fuel for each character, `u_itoa` for the 64 bytes of its buffer, and the
-- search for a year for every year that the seconds can reach; the theorems say that this is enough.
--
-- Not modelled: the hardware and the firmware (the control registers, the loops that wait for a device,
-- the errors that SBI returns, which are only logged), what the start of the kernel does to devices, a
-- hart that does not come online, the assembly code, what system calls store in user memory, of which
-- only the int stores of join are kept, the device tree library, which is another project's, of the
-- shell the commands that only print (help, uptime) and its endless loop, and the traps of
-- user/syscall.c. The release build, in which a breakpoint is a panic, is not modelled either. The
-- invariant speaks of the time when every hart has run `cpu_init_this_hart`, which the start of the
-- kernel leads to.
pub mod Common
pub mod Kernel
pub mod Runqueue
pub mod Cpu
pub mod Datetime
pub mod Console
pub mod Sysfile
pub mod Time
pub mod Platform
pub mod Trap
pub mod Memory
pub mod Monitor
pub mod Number
pub mod Print
pub mod Lines
pub mod Shell
pub mod Spawn
pub mod Log
pub mod Text
pub mod Sched
pub mod Thread
pub mod Tests
