-- ===== src/Log/Line.antt =====
-- lib/log.c: a line of the log, from its prefix to the ring buffer and the writer, with the settings of
-- config/log_config.h (no timestamp). A level is its number, of which 0 is LOG_LEVEL_OFF. The writer is
-- that of lib/log_baremetal.c, whose bytes go to the console.
pub mod Printed
pub mod Basename
pub mod Lines
use ccos.Common.{
  ℕ, ◌+◌, ◌-◌, Bool, false, ◌||◌, Option, none, some, List, [], ◌∷◌, ◌++◌, ltb, leb, ◌==◌,
  if◌then◌else◌, codes, length,
}
use ccos.Print.{Args, len_none, signed_arg}
use ccos.Log.{
  log_append_char, append_all, log_append_uint, Formatted, out_of_fuel, overrun, text, log_vformat,
}
use ccos.Log.Ring.{LogRing, ring_write}

abbrev pub log_buffer_size : ℕ
log_buffer_size = 256

pub data LogPathMode : Type 0 where
  path_none path_basename path_full : LogPathMode

-- The static variables of log.c, and what has been sent to the console.
pub record Logger : Type 0 where
  pub write_fn : Bool
  pub log_level : ℕ
  pub path_mode : LogPathMode
  pub ring : LogRing
  pub console : List ℕ

pub log_set_level : ℕ → Logger → Logger
log_set_level level l = record l { log_level = level }

abbrev pub log_get_level : Logger → ℕ
log_get_level l = l.log_level

pub log_set_path_mode : LogPathMode → Logger → Logger
log_set_path_mode mode l = record l { path_mode = mode }

abbrev pub log_get_path_mode : Logger → LogPathMode
log_get_path_mode l = l.path_mode

-- `log_init` with the writer of log_baremetal.c, or with NULL.
pub log_init : Bool → Logger → Logger
log_init fn l = record l { write_fn = fn }

unfoldable pub log_level_to_string : ℕ → List ℕ
log_level_to_string level =
    if level == 1
    then 69 ∷ []
    else if level == 2
    then 87 ∷ []
    else if level == 3
    then 73 ∷ []
    else if level == 4
    then 68 ∷ []
    else if level == 5
    then 84 ∷ []
    else 63 ∷ []

unfoldable pub log_level_to_full_string : ℕ → List ℕ
log_level_to_full_string level =
    if level == 0
    then codes "OFF"
    else if level == 1
    then codes "ERROR"
    else if level == 2
    then codes "WARN"
    else if level == 3
    then codes "INFO"
    else if level == 4
    then codes "DEBUG"
    else if level == 5
    then codes "TRACE"
    else codes "UNKNOWN"

-- The loop that strips the directories: `base` moves behind each `/` and each `\`.
unfoldable pub strip_loop : (base p : List ℕ) → List ℕ
strip_loop base [] = base
strip_loop base (c ∷ p) = if c == 47 || c == 92 then strip_loop p p else strip_loop base p

unfoldable pub file_to_print : LogPathMode → List ℕ → List ℕ
file_to_print path_none file = file
file_to_print path_basename file = strip_loop file file
file_to_print path_full file = file

-- "file:line ", where the line is an `int`.
append_place : LogPathMode → (file : List ℕ) (line : ℕ) → List ℕ → List ℕ
append_place mode file line buf = log_append_char log_buffer_size 32 (
    log_append_uint log_buffer_size (signed_arg len_none line) 10 false 0 32 (
      log_append_char log_buffer_size 58
        (append_all log_buffer_size (file_to_print mode file) buf)))

pub append_file : LogPathMode → (file : Option (List ℕ)) (line : ℕ) → List ℕ → List ℕ
append_file path_none file line buf = buf
append_file path_basename none line buf = buf
append_file path_basename (some file) line buf = append_place path_basename file line buf
append_file path_full none line buf = buf
append_file path_full (some file) line buf = append_place path_full file line buf

-- "func(): "
pub append_func : Option (List ℕ) → List ℕ → List ℕ
append_func none buf = buf
append_func (some func) buf =
    append_all log_buffer_size (codes "(): ") (append_all log_buffer_size func buf)

-- "[I] file:line func(): "
pub log_prefix :
    (level : ℕ) (file : Option (List ℕ)) (line : ℕ) (func : Option (List ℕ)) → LogPathMode → List ℕ
log_prefix level file line func mode = append_func func (
    append_file mode file line (
      log_append_char log_buffer_size 32 (
        log_append_char log_buffer_size 93 (
          append_all log_buffer_size (log_level_to_string level)
            (log_append_char log_buffer_size 91 [])))))

pub end_line : List ℕ → List ℕ
end_line buf = if ltb (length buf) (log_buffer_size - 1) then buf ++ 10 ∷ [] else buf

-- `log_platform_writer` of log_baremetal.c.
pub log_platform_writer : List ℕ → List ℕ
log_platform_writer [] = []
log_platform_writer (c ∷ buf) =
    if c == 10 then 13 ∷ c ∷ log_platform_writer buf else c ∷ log_platform_writer buf

-- The line goes to the ring buffer, and to the writer if there is one.
pub emit : List ℕ → Logger → Logger
emit buf l = record l {
  ring = ring_write buf l.ring;
  console = if l.write_fn then l.console ++ log_platform_writer buf else l.console;
}

-- What a call of the log ends in: its result and the state that it leaves.
pub data LogRun : Type 0 where
  no_fuel : LogRun
  reads_on : LogRun
  returned : ℕ → Logger → LogRun

pub finish_line : (prefix : List ℕ) → Formatted → Logger → LogRun
finish_line prefix Formatted.out_of_fuel l = no_fuel
finish_line prefix overrun l = reads_on
finish_line prefix (text dst) l =
    let buf = end_line (prefix ++ dst) in returned (length buf) (emit buf l)

-- The level is off, or above what is logged.
abbrev pub is_silent : ℕ → Logger → Bool
is_silent level l = leb level 0 || ltb l.log_level level

pub log_vprintf :
    (fuel level : ℕ) (file : Option (List ℕ)) (line : ℕ) (func : Option (List ℕ)) (fmt : List ℕ)
    → Args
    → Logger
    → LogRun
log_vprintf fuel level file line func fmt args l =
    let prefix = log_prefix level file line func l.path_mode in
    if is_silent level l
    then returned 0 l
    else finish_line prefix (log_vformat fuel (log_buffer_size - length prefix) fmt args) l

abbrev pub log_printf :
    (fuel level : ℕ) (file : Option (List ℕ)) (line : ℕ) (func : Option (List ℕ)) (fmt : List ℕ)
    → Args
    → Logger
    → LogRun
log_printf = log_vprintf

-- What `log_panicf_internal` logs before it stops.
pub log_panicf_internal :
    (fuel : ℕ) (file : List ℕ) (line : ℕ) (fmt : List ℕ) → Args → Logger → LogRun
log_panicf_internal fuel file line fmt args l =
    log_vprintf fuel 1 (some file) line (some (codes "PANIC")) fmt args l
