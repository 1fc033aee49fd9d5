-- ===== src/Sysfile/Read.antt =====
-- Reading standard input (kernel/sysfile.c, kernel/console.c).
use ccos.Common.{
  ℕ, zero, suc, ◌<◌, ◌≡◌, refl, ap, ◌∙◌, inl, inr, true, false, none, some, List, [], ◌∷◌, arith,
  ◌==◌, Option-cases, length, take, drop, Bool-cases, not,
}
use ccos.Kernel.{max_harts, Tid, TfPtr, frame_of, Kernel}
use ccos.Kernel.Run.{done}
use ccos.Console.{Ring, store_char, console_read_nonblock}
use ccos.Console.Buffer.{Holds, console_read_nonblock-take}
use ccos.Sysfile.{console_on_char_from_irq, ReadResult, sys_read, serve_waiter, reader}
use ccos.Thread.Stdin.Sound.{thread_wait_for_stdin-IsSound, thread_read_from_stdin-IsSound}
use ccos.Thread.Invariant.{Inv, IsSound}
use ccos.Thread.Frame.{SameHart, SameHart-refl, Inv-cpus}
use ccos.Thread.Switch.Schedule.{first_or}
use ccos.Thread.Syscalls.{minus}

-- A read of standard input that finds characters returns how many of them it took: the oldest, as
-- many as were asked for or as there are. They leave the ring, and no thread is touched.
pub sys_read-take :
    (self buf len x : ℕ) (tf : TfPtr) (r : Ring) (xs : List ℕ) (k : Kernel)
    → Holds r (x ∷ xs)
    → 0 < len
    → (res : ReadResult) × (sys_read self 0 buf len tf r k ≡ done res k)
      × (res.bytes ≡ take len (x ∷ xs))
      × (res.value ≡ some (length (take len (x ∷ xs))))
      × Holds res.ring (drop len (x ∷ xs))
unfolding sys_read
sys_read-take self buf zero x tf r xs k o lt = absurd (omega (arith, lt))
sys_read-take self buf (suc n) x tf r xs k o lt =
    let (taken, left) = console_read_nonblock-take (suc n) r (x ∷ xs) o in
    let some_read : (length (console_read_nonblock (suc n) r).0 == 0) ≡ false =
      rw taken (ground arith) in
    (_, rw some_read refl, taken, ap (λ cs. some (length cs)) taken, left)

take-nil : (n : ℕ) → (length (take {A = ℕ} n []) == 0) ≡ true
take-nil zero = refl
take-nil (suc n) = refl

-- A read that finds no character blocks its caller, and the hart runs the next thread, in a sound
-- kernel and without a panic.
pub sys_read-IsSound :
    (self cur buf len : ℕ) (r : Ring)
    → self < max_harts
    → Holds r []
    → {k : Kernel} {q : ℕ → List ℕ} {own : ℕ → Tid} → Inv k q own
    → (k.cpus self).current_tid ≡ some cur
    → (k' : Kernel) × (res : ReadResult) × (sys_read self 0 buf len (frame_of cur) r k
        ≡ done res k')
      × (res.value ≡ none)
      × ((k'.cpus self).current_tid ≡ some (first_or self (q self)))
      × IsSound k'
unfolding sys_read
sys_read-IsSound self cur buf len r lt o {k} v now =
    let (taken, left) = console_read_nonblock-take len r [] o in
    let nothing : (length (console_read_nonblock len r).0 == 0) ≡ true = rw taken (take-nil len) in
    let (k', run, next, sound) = thread_wait_for_stdin-IsSound self cur buf len lt v now in
    let (cs, rest) = console_read_nonblock len r in
    (
      k',
      record { value = none; bytes = cs; ring = rest },
      rw (nothing, run) refl,
      refl,
      next,
      sound,
    )

-- A read of any file, of any length and whatever the ring holds, ends in a sound kernel.
pub sys_read-ends :
    (self cur fd buf len : ℕ) (r : Ring) {k : Kernel}
    → self < max_harts
    → IsSound k
    → (k.cpus self).current_tid ≡ some cur
    → (k' : Kernel) × (res : ReadResult) × (sys_read self fd buf len (frame_of cur) r k
        ≡ done res k')
      × IsSound k'
unfolding sys_read
sys_read-ends self cur fd buf len r {k} lt (q, own, v) now =
    let (cs, left) = console_read_nonblock len r in
    let blocked : ReadResult = record { value = none; bytes = cs; ring = left } in
    let taken : ReadResult = record { value = some (length cs); bytes = cs; ring = left } in
    let refused : ReadResult = record { value = some (minus 1); bytes = []; ring = r } in
    elim (Bool-cases (not (fd == 0))) [
      | inl e ↦ (k, refused, rw e refl, (q, own, v))
      | inr e ↦ elim (Bool-cases (not (length cs == 0))) [
        | inl some_read ↦ (k, taken, rw (e, some_read) refl, (q, own, v))
        | inr nothing ↦
            let (k', run, next, sound) = thread_wait_for_stdin-IsSound self cur buf len lt v now in
            (k', blocked, rw (e, nothing, run) refl, sound)
      ]
    ]

-- A character that arrives leaves a sound kernel, whoever waits for input, and after it nobody
-- waits; no hart changes what it runs, and nothing panics.
pub console_on_char_from_irq-IsSound :
    (self ch : ℕ) (r : Ring) {k : Kernel}
    → self < max_harts
    → IsSound k
    → (k' : Kernel) × (left : Ring) × (console_on_char_from_irq self ch r k ≡ done left k')
      × (k'.stdin_waiter ≡ none)
      × IsSound k'
      × ((h : ℕ) → SameHart (k.cpus h) (k'.cpus h))
unfolding console_on_char_from_irq serve_waiter
console_on_char_from_irq-IsSound self ch r {k} lt sound = elim (Option-cases k.stdin_waiter) [
  | inl e ↦ (
    k,
    store_char ch r,
    ap (λ o. serve_waiter self o (store_char ch r) k) e,
    e,
    sound,
    λ h. SameHart-refl,
  )
  | inr (w, e) ↦
      let (k1, left, run, (q, own, v), harts) =
        thread_read_from_stdin-IsSound self w reader (store_char ch r) lt sound e in
      let k2 = record k1 { stdin_waiter = none } in
      let v2 : Inv k2 q own = Inv-cpus k1 k2 q own v refl refl (λ h. SameHart-refl) in
      (
        k2,
        left,
        ap (λ o. serve_waiter self o (store_char ch r) k) e ∙ rw run refl,
        refl,
        (q, own, v2),
        harts,
      )
]
