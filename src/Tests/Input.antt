-- ===== src/Tests/Input.antt =====
-- The theorems on standard input at a ring that holds two characters.
use ccos.Common.{◌≡◌, refl, some, [], ◌∷◌, arith, ◌==◌, if◌then◌else◌}
use ccos.Kernel.{frame_of}
use ccos.Kernel.Run.{done}
use ccos.Console.{Ring}
use ccos.Console.Buffer.{Holds}
use ccos.Sysfile.{ReadResult, sys_read}
use ccos.Sysfile.Read.{sys_read-take}
use ccos.Tests.Busy.{busy}

-- The second character is at the start of the buffer.
abbrev two_chars : Ring
two_chars = record { buf = λ i. if i == 1023 then 104 else 105; head = 1; tail = 1023 }

two_chars-Holds : Holds two_chars (104 ∷ 105 ∷ [])
two_chars-Holds = record {
  stored = (refl, (refl, tt));
  tail = omega arith;
  room = omega arith;
  head = refl;
}

abbrev no_chars : Ring
no_chars = record { buf = λ i. 0; head = 7; tail = 7 }

no_chars-Holds : Holds no_chars []
no_chars-Holds = record { stored = tt; tail = omega arith; room = omega arith; head = refl }

sys_read-take_example :
    (res : ReadResult) × (sys_read 0 0 512 8 (frame_of 4) two_chars busy ≡ done res busy)
    × (res.bytes ≡ 104 ∷ 105 ∷ [])
    × (res.value ≡ some 2)
    × Holds res.ring []
sys_read-take_example =
    sys_read-take 0 512 8 104 (frame_of 4) two_chars (105 ∷ []) busy two_chars-Holds (omega arith)
