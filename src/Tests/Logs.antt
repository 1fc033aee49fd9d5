-- ===== src/Tests/Logs.antt =====
-- The theorems on the log at small examples.
use ccos.Common.{ℕ, ◌≡◌, refl, true, none, some, List, [], ◌∷◌, ◌++◌, arith, codes, length, latest}
use ccos.Print.{Args, read_width, signed_arg}
use ccos.Log.{
  append_all, log_digits, log_pad, log_append_uint, read_longs, read_pad, log_append_int,
  log_conversion, overrun, text, item_of, log_item, format_loop, log_vformat,
}
use ccos.Log.Format.{IsPlain, log_vformat-overruns}
use ccos.Log.Ring.{log_ring_buffer_size, empty_ring}
use ccos.Log.Ring.Queue.{HoldsBytes, empty_ring-HoldsBytes}
use ccos.Log.Ring.Runs.{
  RingCall, write, peek, read, clear, used, queue_call, ring_run, queue_run, ring_run-queue_run,
}
use ccos.Log.Line.{path_basename, Logger, strip_loop, file_to_print, returned, log_vprintf}
use ccos.Log.Line.Printed.{IsPrinted, log_vprintf-IsPrinted}
use ccos.Log.Line.Lines.{emit_all, AllFit, join_lines}
use ccos.Log.Hexdump.{row_loop, log_hexdump}
use ccos.Log.Hexdump.Dumped.{log_hexdump-lines}

-- "tid=%d" and the number -3.
abbrev tid_format : List ℕ
tid_format = 116 ∷ 105 ∷ 100 ∷ 61 ∷ 37 ∷ 100 ∷ []

abbrev minus_3 : Args
minus_3 i = record { bits = 18446744073709551613; text = none }

tid_run : log_vformat 7 256 tid_format minus_3 ≡ text (116 ∷ 105 ∷ 100 ∷ 61 ∷ 45 ∷ 51 ∷ [])
unfolding log_vformat format_loop log_item item_of read_pad read_width read_longs log_conversion
    log_append_int log_append_uint append_all log_pad log_digits signed_arg
tid_run = refl

abbrev load : List ℕ
load = 53 ∷ 48 ∷ []

load-IsPlain : IsPlain load
unfolding IsPlain
load-IsPlain = (refl, (refl, tt))

log_vformat-overruns_example : log_vformat 9 256 (load ++ (37 ∷ [])) minus_3 ≡ overrun
log_vformat-overruns_example =
    log_vformat-overruns 9 256 load minus_3 load-IsPlain (omega arith) (omega arith)

abbrev some_calls : List RingCall
some_calls = write (65 ∷ 66 ∷ 67 ∷ []) ∷ peek 1 ∷ read 2 ∷ used ∷ clear ∷ read 5 ∷ []

ring_run-queue_run_example : ring_run some_calls empty_ring ≡ queue_run some_calls []
ring_run-queue_run_example = ring_run-queue_run some_calls

queue_run_answers :
    queue_run some_calls [] ≡ [] ∷ (65 ∷ []) ∷ (65 ∷ 66 ∷ []) ∷ (1 ∷ []) ∷ [] ∷ [] ∷ []
unfolding queue_run queue_call
queue_run_answers = refl

-- Everything up to INFO is logged.
abbrev logger : Logger
logger = record {
  write_fn = true;
  log_level = 3;
  path_mode = path_basename;
  ring = empty_ring;
  console = [];
}

log_vprintf-IsPrinted_example : IsPrinted [] 3 logger (
    log_vprintf 7 3
      (some (codes "kernel/main.c"))
      41
      (some (codes "main"))
      tid_format
      minus_3
      logger)
log_vprintf-IsPrinted_example =
    log_vprintf-IsPrinted 7 3 (some (codes "kernel/main.c")) 41 (some (codes "main")) tid_format
      minus_3 [] logger (omega arith) empty_ring-HoldsBytes

file_to_print-main : file_to_print path_basename (codes "kernel/main.c") ≡ codes "main.c"
unfolding file_to_print strip_loop
file_to_print-main = refl

row_of_two : row_loop (65 ∷ 10 ∷ []) [] [] ≡ (codes "41 0A ", codes "A.")
unfolding row_loop
row_of_two = refl

log_hexdump-lines_example :
    (lines : List (List ℕ)) × (log_hexdump 2 3 none 7 none (65 ∷ 10 ∷ []) none logger
      ≡ returned 0 (emit_all lines logger))
    × (length lines ≡ 1)
    × AllFit lines
    × HoldsBytes (emit_all lines logger).ring (latest log_ring_buffer_size (join_lines lines))
log_hexdump-lines_example =
    log_hexdump-lines 2 3 none 7 none (65 ∷ 10 ∷ []) none [] logger (omega arith) refl
      empty_ring-HoldsBytes
