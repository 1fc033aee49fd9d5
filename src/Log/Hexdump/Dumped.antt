-- ===== src/Log/Hexdump/Dumped.antt =====
-- The lines of `log_hexdump`, taken together (lib/log.c).
use ccos.Common.{
  ℕ, zero, suc, ◌+◌, ◌≤◌, ◌≡◌, refl, ◌∙◌, false, Option, List, [], ◌∷◌, ◌++◌, arith, length, take,
  drop, length-drop, latest, ◌*◌, ◌/◌,
}
use ccos.Log.Ring.{log_ring_buffer_size}
use ccos.Log.Ring.Queue.{HoldsBytes}
use ccos.Log.Line.{Logger, emit, returned, is_silent}
use ccos.Log.Line.Lines.{
  log_vprintf-line, emit_all, AllFit, emit-silent, join_lines, emit_all-HoldsBytes,
}
use ccos.Log.Hexdump.{row_loop, row_format, row_args, dump_loop, log_hexdump}
use ccos.Log.Hexdump.Rows.{row_format-IsComplete}

module _ (level : ℕ) (file : Option (List ℕ)) (line : ℕ) (func prefix : Option (List ℕ)) where
  dump_loop-lines :
      (rounds offset : ℕ) (p : List ℕ) (l : Logger)
      → length p + 16 ≤ 16 * rounds
      → is_silent level l ≡ false
      → (lines : List (List ℕ)) × (dump_loop rounds level file line func prefix offset p l
          ≡ returned 0 (emit_all lines l))
        × (length lines ≡ (length p + 15) / 16)
        × AllFit lines
  unfolding dump_loop
  dump_loop-lines zero offset p l deep loud = absurd (omega arith)
  dump_loop-lines (suc rounds) offset [] l deep loud = ([], refl, refl, tt)
  dump_loop-lines (suc rounds) offset (b ∷ p) l deep loud =
      let chunk = take 16 (b ∷ p) in
      let texts = row_loop chunk [] [] in
      let (out, run, some_bytes, small) =
        log_vprintf-line level file line func 14 row_format (row_args prefix offset texts.0 texts.1)
          l row_format-IsComplete (omega arith) loud in
      let left = length-drop 16 (b ∷ p) in
      let (lines, rest, count, fits_all) =
        dump_loop-lines rounds (offset + length chunk) (drop 16 (b ∷ p)) (emit out l) (omega arith)
          (emit-silent level out l ∙ loud) in
      (out ∷ lines, rw run rest, omega (arith, left, count), ((some_bytes, small), fits_all))

-- With a round for each 16 bytes begun and one more, log_hexdump ends. At a level that is logged it logs one
-- line, of 1 to 255 characters, for each 16 bytes begun, and the ring buffer holds the last 2048 bytes
-- of what it held and these lines.
pub log_hexdump-lines :
    (rounds level : ℕ) (file : Option (List ℕ)) (line : ℕ) (func : Option (List ℕ)) (bytes : List ℕ)
    (prefix : Option (List ℕ)) (q : List ℕ) (l : Logger)
    → length bytes + 16 ≤ 16 * rounds
    → is_silent level l ≡ false
    → HoldsBytes l.ring q
    → (lines : List (List ℕ)) × (log_hexdump rounds level file line func bytes prefix l
        ≡ returned 0 (emit_all lines l))
      × (length lines ≡ (length bytes + 15) / 16)
      × AllFit lines
      × HoldsBytes (emit_all lines l).ring (latest log_ring_buffer_size (q ++ join_lines lines))
unfolding log_hexdump
log_hexdump-lines rounds level file line func bytes prefix q l deep loud held =
    let (lines, run, count, fits_all) =
      dump_loop-lines level file line func prefix rounds 0 bytes l deep loud in
    (lines, rw loud run, count, fits_all, emit_all-HoldsBytes lines q l held)
