-- ===== src/Log/Line/Lines.antt =====
-- Lines of the log that are sure to be printed, and several of them (lib/log.c).
use ccos.Common.{
  ℕ, ◌-◌, ◌<◌, ◌≡◌, refl, ap, false, Option, List, [], ◌∷◌, ◌++◌, arith, length, length-append,
  drop, append_assoc, length-drop, drop-drop, drop-append, latest,
}
use ccos.Print.{Args}
use ccos.Log.Format.Complete.{IsComplete, log_vformat_complete}
use ccos.Log.Ring.{log_ring_buffer_size}
use ccos.Log.Ring.Queue.{HoldsBytes-nil, HoldsBytes, ring_write-HoldsBytes}
use ccos.Log.Line.{
  log_buffer_size, Logger, log_prefix, end_line, emit, returned, finish_line, is_silent,
  log_vprintf,
}
use ccos.Log.Line.Printed.{log_prefix-Fits, end_line-length}

module _ (level : ℕ) (file : Option (List ℕ)) (line : ℕ) (func : Option (List ℕ)) where
  -- A format that ends is logged as a line.
  pub log_vprintf-line :
      (fuel : ℕ) (fmt : List ℕ) (args : Args) (l : Logger)
      → IsComplete fmt
      → length fmt < fuel
      → is_silent level l ≡ false
      → (out : List ℕ) × (log_vprintf fuel level file line func fmt args l
          ≡ returned (length out) (emit out l))
        × (0 < length out)
        × (length out < log_buffer_size)
  unfolding log_vprintf finish_line
  log_vprintf-line fuel fmt args l c deep loud =
      let prefix = log_prefix level file line func l.path_mode in
      let room = log_prefix-Fits level file line func l.path_mode in
      let (dst, e, short) =
        log_vformat_complete fuel (log_buffer_size - length prefix) fmt args c deep (omega arith) in
      let (some_bytes, small) =
        end_line-length (prefix ++ dst) (omega (arith, length-append prefix dst)) in
      (end_line (prefix ++ dst), rw (loud, e) refl, some_bytes, small)

-- The lines, one behind the other.
abbrev pub emit_all : List (List ℕ) → Logger → Logger
emit_all [] l = l
emit_all (out ∷ lines) l = emit_all lines (emit out l)

abbrev pub AllFit : List (List ℕ) → Type 0
AllFit [] = Unit {0}
AllFit (out ∷ lines) = ((0 < length out) × (length out < log_buffer_size)) × AllFit lines

pub emit-silent :
    (level : ℕ) (out : List ℕ) (l : Logger) → is_silent level (emit out l) ≡ is_silent level l
unfolding emit
emit-silent level out l = refl

abbrev pub join_lines : List (List ℕ) → List ℕ
join_lines [] = []
join_lines (out ∷ lines) = out ++ join_lines lines

-- Bytes that go through the queue in two parts go through it as a whole.
latest-parts : (n : ℕ) (xs ys : List ℕ) → latest n (latest n xs ++ ys) ≡ latest n (xs ++ ys)
latest-parts n xs ys =
    let k = length xs - n in
    let part = drop-append k xs ys (omega arith) in
    rw (← part, length-drop k (xs ++ ys), drop-drop)
      (ap (λ m. drop m (xs ++ ys)) (omega (arith, length-append xs ys)))

pub emit_all-HoldsBytes :
    (lines : List (List ℕ)) (q : List ℕ) (l : Logger)
    → HoldsBytes l.ring q
    → HoldsBytes (emit_all lines l).ring (latest log_ring_buffer_size (q ++ join_lines lines))
unfolding emit
emit_all-HoldsBytes [] q l held = HoldsBytes-nil q l.ring held
emit_all-HoldsBytes (out ∷ lines) q l held =
    rw
      (
        ← append_assoc q out (join_lines lines),
        ← latest-parts log_ring_buffer_size (q ++ out) (join_lines lines),
      )
      (emit_all-HoldsBytes lines (latest log_ring_buffer_size (q ++ out)) (emit out l)
        (ring_write-HoldsBytes out q l.ring held))
