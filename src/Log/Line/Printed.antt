-- ===== src/Log/Line/Printed.antt =====
-- What a call of the log leaves in the ring buffer and on the console (lib/log.c).
use ccos.Common.{
  ℕ, ◌-◌, ◌<◌, ◌≡◌, refl, inl, inr, true, false, Option, none, some, List, [], ◌∷◌, ◌++◌, arith,
  if◌then◌else◌, codes, Bool-cases, length, length-append, latest,
}
use ccos.Print.{Args, len_none, signed_arg}
use ccos.Log.{Formatted}
use ccos.Log.Format.{
  Fits, log_append_char-Fits, append_all-Fits, log_append_uint-Fits, IsFormatted, fits, overruns,
  log_vformat-IsFormatted,
}
use ccos.Log.Ring.{log_ring_buffer_size}
use ccos.Log.Ring.Queue.{HoldsBytes, ring_write-HoldsBytes}
use ccos.Log.Line.{
  log_buffer_size, LogPathMode, path_none, path_basename, path_full, Logger, log_level_to_string,
  file_to_print, append_file, append_func, log_prefix, end_line, log_platform_writer, emit, LogRun,
  reads_on, returned, finish_line, is_silent, log_vprintf, append_place,
}

append_place-Fits :
    (mode : LogPathMode) (file : List ℕ) (line : ℕ) (buf : List ℕ)
    → Fits log_buffer_size buf
    → Fits log_buffer_size (append_place mode file line buf)
unfolding append_place
append_place-Fits mode file line buf room = log_append_char-Fits log_buffer_size 32 _ (
    log_append_uint-Fits log_buffer_size (signed_arg len_none line) 10 false 0 32 _ (
      log_append_char-Fits log_buffer_size 58 _
        (append_all-Fits log_buffer_size (file_to_print mode file) buf room)))

append_file-Fits :
    (mode : LogPathMode) (file : Option (List ℕ)) (line : ℕ) (buf : List ℕ)
    → Fits log_buffer_size buf
    → Fits log_buffer_size (append_file mode file line buf)
unfolding append_file
append_file-Fits path_none file line buf room = room
append_file-Fits path_basename none line buf room = room
append_file-Fits path_basename (some file) line buf room =
    append_place-Fits path_basename file line buf room
append_file-Fits path_full none line buf room = room
append_file-Fits path_full (some file) line buf room =
    append_place-Fits path_full file line buf room

append_func-Fits :
    (func : Option (List ℕ)) (buf : List ℕ)
    → Fits log_buffer_size buf
    → Fits log_buffer_size (append_func func buf)
unfolding append_func
append_func-Fits none buf room = room
append_func-Fits (some func) buf room =
    append_all-Fits log_buffer_size (codes "(): ") _ (append_all-Fits log_buffer_size func buf room)

pub log_prefix-Fits :
    (level : ℕ) (file : Option (List ℕ)) (line : ℕ) (func : Option (List ℕ)) (mode : LogPathMode)
    → Fits log_buffer_size (log_prefix level file line func mode)
unfolding log_prefix
log_prefix-Fits level file line func mode = append_func-Fits func _ (
    append_file-Fits mode file line _ (
      log_append_char-Fits log_buffer_size 32 _ (
        log_append_char-Fits log_buffer_size 93 _ (
          append_all-Fits log_buffer_size (log_level_to_string level) _
            (log_append_char-Fits log_buffer_size 91 [] (omega arith))))))

pub end_line-length :
    (buf : List ℕ)
    → length buf < log_buffer_size
    → (0 < length (end_line buf)) × (length (end_line buf) < log_buffer_size)
unfolding end_line
end_line-length buf room = ground (arith, length-append buf (10 ∷ []))

-- What a call may end in: nothing, a line in both places, or a read behind the format.
pub data IsPrinted (q : List ℕ) (level : ℕ) (l : Logger) : LogRun → Type 0 where
  silent : is_silent level l ≡ true → IsPrinted q level l (returned 0 l)
  strays : is_silent level l ≡ false → IsPrinted q level l reads_on
  printed :
      (line : List ℕ) (l' : Logger)
      → is_silent level l ≡ false
      → 0 < length line
      → length line < log_buffer_size
      → HoldsBytes l'.ring (latest log_ring_buffer_size (q ++ line))
      → l'.console ≡ (if l.write_fn then l.console ++ log_platform_writer line else l.console)
      → IsPrinted q level l (returned (length line) l')

finish_line-IsPrinted :
    (prefix q : List ℕ) (level : ℕ) (l : Logger) (f : Formatted)
    → is_silent level l ≡ false
    → length prefix < log_buffer_size
    → IsFormatted (log_buffer_size - length prefix) f
    → HoldsBytes l.ring q
    → IsPrinted q level l (finish_line prefix f l)
unfolding finish_line emit
finish_line-IsPrinted prefix q level l _ loud room (fits dst short) held =
    let (some_bytes, small) =
      end_line-length (prefix ++ dst) (omega (arith, length-append prefix dst)) in
    let line = end_line (prefix ++ dst) in
    printed line _ loud some_bytes small (ring_write-HoldsBytes line q l.ring held) refl
finish_line-IsPrinted prefix q level l _ loud room overruns held = strays loud

-- With more fuel than the format has characters, log_vprintf ends. At a level that is off or not logged
-- it returns 0 and changes nothing. Otherwise, unless it reads behind the format, it returns the length of
-- a line of 1 to 255 characters; the ring buffer then holds the last 2048 bytes of what it held and the line,
-- and the line goes to the console, if a writer is installed.
pub log_vprintf-IsPrinted :
    (fuel level : ℕ) (file : Option (List ℕ)) (line : ℕ) (func : Option (List ℕ)) (fmt : List ℕ)
    (args : Args) (q : List ℕ) (l : Logger)
    → length fmt < fuel
    → HoldsBytes l.ring q
    → IsPrinted q level l (log_vprintf fuel level file line func fmt args l)
unfolding log_vprintf
log_vprintf-IsPrinted fuel level file line func fmt args q l deep held =
    let prefix = log_prefix level file line func l.path_mode in
    let room = log_prefix-Fits level file line func l.path_mode in
    elim (Bool-cases (is_silent level l)) [
      | inl off ↦ rw off (silent off)
      | inr on ↦ rw on (
          finish_line-IsPrinted prefix q level l _ on room
            (log_vformat-IsFormatted fuel (log_buffer_size - length prefix) fmt args deep
              (omega arith))
            held)
    ]
