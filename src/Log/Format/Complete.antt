-- ===== src/Log/Format/Complete.antt =====
-- The formats that the formatter of lib/log.c does not read behind.
use ccos.Common.{
  ℕ, zero, suc, ◌+◌, ◌-◌, ◌<◌, ◌≡◌, refl, ◌≢◌, inl, inr, false, List, [], ◌∷◌, arith, leb, ◌==◌,
  Bool-cases, length,
}
use ccos.Print.{Args, LengthMod}
use ccos.Log.{
  log_append_char, log_conversion, Formatted, overrun, text, a_percent, an_item, log_item,
  format_loop, log_vformat,
}
use ccos.Log.Format.{IsFormatted, fits, overruns, log_vformat-IsFormatted}

-- Every conversion of the format ends.
pub data IsComplete : List ℕ → Type 0 where
  ended : IsComplete []
  plain : (c : ℕ) (p : List ℕ) → (c == 37) ≡ false → IsComplete p → IsComplete (c ∷ p)
  both_percent :
      (p after : List ℕ) → log_item p ≡ a_percent after → IsComplete after → IsComplete (37 ∷ p)
  converts :
      (p : List ℕ) (spec pad width : ℕ) (len : LengthMod) (after : List ℕ)
      → log_item p ≡ an_item spec pad width len after
      → IsComplete after
      → IsComplete (37 ∷ p)

format_loop_complete :
    (fuel max : ℕ) (p : List ℕ) (args : Args) (k : ℕ) (dst : List ℕ)
    → IsComplete p
    → format_loop fuel max p args k dst ≢ overrun
unfolding format_loop
format_loop_complete zero max p args k dst c = λ e. absurd (ground arith)
format_loop_complete (suc fuel) max [] args k dst ended = λ e. absurd (ground arith)
format_loop_complete (suc fuel) max (c ∷ p) args k dst (plain _ _ e all) =
    elim (Bool-cases (leb (max - 1) (length dst))) [
      | inl full ↦ rw full λ e'. absurd (ground arith)
      | inr room ↦
          rw (room, e) (format_loop_complete fuel max p args k (log_append_char max c dst) all)
    ]
format_loop_complete (suc fuel) max (_ ∷ p) args k dst (both_percent _ after e all) =
    elim (Bool-cases (leb (max - 1) (length dst))) [
      | inl full ↦ rw full λ e'. absurd (ground arith)
      | inr room ↦
          rw (room, e) (format_loop_complete fuel max after args k (log_append_char max 37 dst) all)
    ]
format_loop_complete (suc fuel) max (_ ∷ p) args k dst (converts _ spec pad width len after e all) =
    let out = log_conversion max spec pad width len (args k) dst in
    elim (Bool-cases (leb (max - 1) (length dst))) [
      | inl full ↦ rw full λ e'. absurd (ground arith)
      | inr room ↦ rw (room, e) (format_loop_complete fuel max after args (k + out.1) out.0 all)
    ]

-- A formatter that has not read behind its format has made a text that fits.
text_of :
    (size : ℕ) {f : Formatted}
    → IsFormatted size f
    → f ≢ overrun
    → (dst : List ℕ) × (f ≡ text dst) × (length dst < size)
text_of size (fits dst short) ne = (dst, refl, short)
text_of size overruns ne = absurd (ne refl)

pub log_vformat_complete :
    (fuel size : ℕ) (fmt : List ℕ) (args : Args)
    → IsComplete fmt
    → length fmt < fuel
    → 0 < size
    → (dst : List ℕ) × (log_vformat fuel size fmt args ≡ text dst) × (length dst < size)
unfolding log_vformat
log_vformat_complete fuel size fmt args c deep room =
    text_of size (log_vformat-IsFormatted fuel size fmt args deep room)
      (format_loop_complete fuel size fmt args 0 [] c)
