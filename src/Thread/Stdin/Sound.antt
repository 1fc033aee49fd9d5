-- ===== src/Thread/Stdin/Sound.antt =====
-- The blocking read of kernel/thread.c keeps the kernel sound.
use ccos.Common.{ℕ, ◌<◌, ◌≡◌, refl, ap, ◌∙◌, inl, inr, ◌||◌, some, List, ◌==◌, ℤ, Bool-cases}
use ccos.Kernel.{max_harts, Tid, frame_of, Kernel, set_thread}
use ccos.Kernel.Run.{done, and_then, the_tid}
use ccos.Thread.Stdin.{thread_wait_for_stdin, thread_read_from_stdin, deliver_read, read_for}
use ccos.Thread.Switch.Tick.{thread_wake-IsSound}
use ccos.Thread.Switch.Block.{thread_block-IsSound}
use ccos.Thread.Switch.Schedule.{first_or}
use ccos.Thread.Invariant.{Inv, IsSound}
use ccos.Thread.Frame.{SameHart, SameHart-refl, Inv-cpus}
use ccos.Thread.Wake.{set_thread-Inv}

-- A read that finds no input blocks its caller: the hart runs the head of its queue, or its idle
-- thread, in a sound kernel, without a panic.
pub thread_wait_for_stdin-IsSound :
    (self cur buf len : ℕ)
    → self < max_harts
    → {k : Kernel} {q : ℕ → List ℕ} {own : ℕ → Tid} → Inv k q own
    → (k.cpus self).current_tid ≡ some cur
    → (k' : Kernel) × (thread_wait_for_stdin self buf len (frame_of cur) k ≡ done tt k')
      × ((k'.cpus self).current_tid ≡ some (first_or self (q self)))
      × IsSound k'
unfolding thread_wait_for_stdin
thread_wait_for_stdin-IsSound self cur buf len lt {k} {q} {own} v now =
    let u = record (k.threads cur) { pending_read_buf = buf; pending_read_len = len } in
    let k1 = set_thread cur u k in
    let k2 = record k1 { stdin_waiter = some (k1.threads cur).id } in
    let v1 : Inv k1 q own =
      set_thread-Inv cur u v
        (record { state = refl; on_rq = refl; running_hart = refl; rq_next = refl }) in
    let v2 : Inv k2 q own = Inv-cpus k1 k2 q own v1 refl refl (λ h. SameHart-refl) in
    let (k', run, next, sound) = thread_block-IsSound self cur lt v2 now in
    (k', rw now run, next, sound)

deliver_read-IsSound :
    (self waiter : ℕ) (n : ℤ) {k : Kernel}
    → self < max_harts
    → IsSound k
    → (k' : Kernel) × (deliver_read self waiter n k ≡ done tt k')
      × IsSound k'
      × ((h : ℕ) → SameHart (k.cpus h) (k'.cpus h))
unfolding deliver_read
deliver_read-IsSound self waiter (ℤ.negsuc n) {k} lt sound = (k, refl, sound, λ h. SameHart-refl)
deliver_read-IsSound self waiter (ℤ.pos n) {k} lt (q, own, v) = elim (Bool-cases (n == 0)) [
  | inl e ↦ (k, rw e refl, (q, own, v), λ h. SameHart-refl)
  | inr e ↦
      let t = k.threads waiter in
      let u = record t {
        tf = record t.tf { a0 = n };
        pending_read_buf = 0;
        pending_read_len = 0;
      } in
      let k1 = set_thread waiter u k in
      let v1 : Inv k1 q own =
        set_thread-Inv waiter u v
          (record { state = refl; on_rq = refl; running_hart = refl; rq_next = refl }) in
      let (k', run, sound', harts) = thread_wake-IsSound self k.stdin_waiter (q, own, v1) lt in
      (k', rw e run, sound', harts)
]

read_for-IsSound :
    {S : Type 0} (self waiter : ℕ) (read : ℕ → ℕ → S → ℤ × S) (s : S) {k : Kernel}
    → self < max_harts
    → IsSound k
    → (k' : Kernel) × (s' : S) × (read_for self read s waiter k ≡ done s' k')
      × IsSound k'
      × ((h : ℕ) → SameHart (k.cpus h) (k'.cpus h))
unfolding read_for
read_for-IsSound self waiter read s {k} lt sound =
    let t = k.threads waiter in
    elim (Bool-cases (t.pending_read_buf == 0 || t.pending_read_len == 0)) [
      | inl e ↦
          let (k', run, sound', harts) = thread_wake-IsSound self k.stdin_waiter sound lt in
          (k', s, rw (e, run) refl, sound', harts)
      | inr e ↦
          let (n, s') = read t.pending_read_buf t.pending_read_len s in
          let (k', run, sound', harts) = deliver_read-IsSound self waiter n lt sound in
          (k', s', rw (e, run) refl, sound', harts)
    ]

-- Input wakes the thread that waits for it, and answers its read with the count of the bytes in a0;
-- a reader that has nothing leaves it waiting. Either way the kernel stays sound, no hart changes
-- what it runs, and nothing panics.
pub thread_read_from_stdin-IsSound :
    {S : Type 0} (self waiter : ℕ) (read : ℕ → ℕ → S → ℤ × S) (s : S) {k : Kernel}
    → self < max_harts
    → IsSound k
    → k.stdin_waiter ≡ some waiter
    → (k' : Kernel) × (s' : S) × (thread_read_from_stdin self read s k ≡ done s' k')
      × IsSound k'
      × ((h : ℕ) → SameHart (k.cpus h) (k'.cpus h))
unfolding thread_read_from_stdin
thread_read_from_stdin-IsSound self waiter read s {k} lt sound e =
    let (k', s', run, sound', harts) = read_for-IsSound self waiter read s lt sound in
    (k', s', ap (λ o. and_then (the_tid o k) (read_for self read s)) e ∙ run, sound', harts)
