-- ===== src/Thread/Kill/Sound.antt =====
-- `thread_sys_kill` of kernel/thread.c keeps the kernel sound.
use ccos.Common.{
  ℕ, ◌<◌, ◌≡◌, refl, inl, inr, ◌&&◌, none, some, List, arith, ltb, Bool-cases, ◌≢◌, ◌==◌, leb, ap,
  sym, ◌∙◌,
}
use ccos.Kernel.{thread_max, max_harts, Tid, zombie, frame_of, Kernel, set_thread, in_state, unused}
use ccos.Kernel.Run.{done}
use ccos.Thread.{recycle_thread}
use ccos.Thread.Kill.{at_rest, settle, kill_target, slay, thread_sys_kill, kick_victim}
use ccos.Thread.Invariant.{Inv, IsSound, IsAway}
use ccos.Thread.Syscalls.Exit.{release_joiner-IsSound}
use ccos.Thread.Syscalls.{minus}
use ccos.Thread.Kill.Slain.{removed, kick_victim-Inv}
use ccos.Thread.Recycle.{join_waiter-Inv, return_a0-IsSound, recycle_thread-Inv}

settle-IsSound :
    (self t : ℕ) (o : Tid) {k : Kernel} {q : ℕ → List ℕ} {own : ℕ → Tid}
    → Inv k q own
    → self < max_harts
    → ((j : ℕ) → o ≡ some j → (k.threads j).state ≡ zombie → IsAway k j)
    → (k' : Kernel) × (settle self t o k ≡ done tt k') × IsSound k'
unfolding settle
settle-IsSound self t none {k} {q} {own} v lt dead =
    let k1 = set_thread t (record (k.threads t) { join_waiter = none }) k in
    let v1 : Inv k1 q own = join_waiter-Inv t none v in
    elim (Bool-cases ((k1.threads t).detached && at_rest (k1.threads t))) [
      | inl e ↦ (_, rw e, (q, own, recycle_thread-Inv t v1 (ground arith)))
      | inr e ↦ (_, rw e, (q, own, v1))
    ]
settle-IsSound self t (some j) {k} {q} {own} v lt dead = elim (Bool-cases (ltb j thread_max)) [
  | inl e ↦
      let (k1, run, (q1, own1, v1), d) =
        release_joiner-IsSound self j (k.threads t).exit_code v lt (dead j refl) in
      elim (Bool-cases (at_rest (k1.threads t))) [
        | inl rest ↦
            (recycle_thread t k1, rw (e, run, rest), (q1, own1, recycle_thread-Inv t v1 rest))
        | inr busy ↦ (_, rw (e, run, busy), (q1, own1, join_waiter-Inv t (some j) v1))
      ]
  | inr e ↦ (k, rw e, (q, own, v))
]

slay-IsSound :
    (self t : ℕ) {k : Kernel} {q : ℕ → List ℕ} {own : ℕ → Tid}
    → Inv k q own
    → self < max_harts
    → ((j : ℕ)
        → (k.threads t).join_waiter ≡ some j
        → (j ≢ t) × ((k.threads j).state ≡ zombie → IsAway k j))
    → (k' : Kernel) × (slay self t k ≡ done tt k') × IsSound k'
unfolding slay
slay-IsSound self t {k} v lt dead =
    let (k1, run, (q1, own1, v1), d, _) = removed t v in
    let (v2, d2, ts) = kick_victim-Inv self t v1 in
    let k2 = kick_victim self t k1 in
    let away : (j : ℕ)
        → (k.threads t).join_waiter ≡ some j
        → (k2.threads j).state ≡ zombie
        → IsAway k2 j =
      λ j e z h small now.
        let (apart, gone) = dead j e in
        let state = ap (λ u. u.state) (d.threads j apart) in
        gone (ground (arith, state, ts)) h small
          (sym ((d2.harts h).current ∙ (d.harts h).current) ∙ now) in
    let (k3, end, sound) = settle-IsSound self t (k.threads t).join_waiter v2 lt away in
    (k3, rw (run, end), sound)

-- What kill asks of the thread that waits for its victim: it is another thread, and it is not a
-- dead thread that some hart still runs.
abbrev pub IsKillable : Kernel → Tid → Type 0
IsKillable k none = Unit {0}
IsKillable k (some t) =
    (j : ℕ)
    → (k.threads t).join_waiter ≡ some j
    → (j ≢ t) × ((k.threads j).state ≡ zombie → IsAway k j)

module _ (self cur : ℕ) (lt : self < max_harts) {k : Kernel} (sound : IsSound k)
    (now : (k.cpus self).current_tid ≡ some cur) where
  kill_target-IsSound :
      (t : ℕ)
      → IsKillable k (some t)
      → (k' : Kernel) × (kill_target self (frame_of cur) cur t k ≡ done tt k') × IsSound k'
  unfolding kill_target
  kill_target-IsSound t dead =
      let u = k.threads t in
      let refuse = λ (n : ℕ). return_a0-IsSound cur n k sound in
      let (k1, run, sound1) = slay-IsSound self t sound.2 lt dead in
      let (k2, end, sound2) = return_a0-IsSound cur 0 k1 sound1 in
      elim (Bool-cases (t == 0)) [
        | inl e ↦ rw e (refuse (minus 2))
        | inr e0 ↦ elim (Bool-cases (t == cur)) [
          | inl e ↦ rw (e0, e) (refuse (minus 4))
          | inr e1 ↦ elim (Bool-cases u.can_be_killed) [
            | inl e2 ↦ elim (Bool-cases (in_state u.state unused)) [
              | inl e ↦ rw (e0, e1, e2, e) (refuse (minus 3))
              | inr e3 ↦ elim (Bool-cases (in_state u.state zombie)) [
                | inl e ↦ rw (e0, e1, e2, e3, e) (refuse 0)
                | inr e4 ↦ rw (e0, e1, e2, e3, e4) (k2, rw (run, end), sound2)
              ]
            ]
            | inr e ↦ rw (e0, e1, e) (refuse (minus 3))
          ]
        ]
      ]

  -- A kill, of whatever thread number, ends without a panic in a sound kernel; the victim's joiner
  -- must not be the victim nor a dead thread that some hart still runs.
  pub thread_sys_kill-IsSound :
      (target : Tid)
      → IsKillable k target
      → (k' : Kernel) × (thread_sys_kill self (frame_of cur) target k ≡ done tt k') × IsSound k'
  unfolding thread_sys_kill
  thread_sys_kill-IsSound none dead = rw now (return_a0-IsSound cur (minus 1) k sound)
  thread_sys_kill-IsSound (some t) dead = elim (Bool-cases (leb thread_max t)) [
    | inl e ↦ rw (now, e) (return_a0-IsSound cur (minus 1) k sound)
    | inr e ↦ rw (now, e) (kill_target-IsSound t dead)
  ]
