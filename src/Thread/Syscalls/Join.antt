-- ===== src/Thread/Syscalls/Join.antt =====
-- `thread_sys_join` and `thread_sys_detach` of kernel/thread.c keep the kernel sound.
pub mod Early
use ccos.Common.{
  ℕ, ◌<◌, ◌≡◌, refl, ◌≢◌, inl, inr, true, ◌||◌, none, some, List, ◌∷◌, arith, ltb, leb, ◌==◌,
  if◌then◌else◌, is_some, ℤ, Bool-cases,
}
use ccos.Kernel.{
  thread_max, max_harts, Tid, unused, waiting, zombie, in_state, frame_of, Kernel, set_thread,
}
use ccos.Kernel.Run.{done, return_a0}
use ccos.Thread.{recycle_thread, at_rest}
use ccos.Thread.Syscalls.{
  minus, store_int, joined_by_other, thread_sys_join, thread_sys_detach, join_wait, join_target,
}
use ccos.Thread.Invariant.{Inv, IsSound, IsAway, Leaving}
use ccos.Thread.Frame.{SameHart-refl, Inv-cpus, stopped-Leaving}
use ccos.Thread.Wake.{set_thread-Inv}
use ccos.Thread.Recycle.{return_a0-IsSound, recycle_thread-Inv, join_waiter-Inv, at_rest_of_zombie}
use ccos.Thread.Syscalls.Sleep.{reschedule-Inv}

-- A thread that is dead is run by no hart.
abbrev pub IsGone : Kernel → Tid → Type 0
IsGone k none = Unit {0}
IsGone k (some t) = (k.threads t).state ≡ zombie → IsAway k t

store_int-Inv :
    (p : ℕ) (code : ℤ) {k : Kernel} {q : ℕ → List ℕ} {own : ℕ → Tid}
    → Inv k q own
    → Inv (store_int p code k) q own
store_int-Inv p code {k} {q} {own} v = elim (Bool-cases (p == 0)) [
  | inl e ↦ rw e v
  | inr e ↦ rw e (
      Inv-cpus k (record k { stores = (p, code) ∷ k.stores }) q own v refl refl
        (λ h. SameHart-refl))
]

module _ (self cur : ℕ) (lt : self < max_harts) {k : Kernel} {q : ℕ → List ℕ} {own : ℕ → Tid}
    (v : Inv k q own) (now : (k.cpus self).current_tid ≡ some cur) where
  refusal : (n : ℕ) → (k' : Kernel) × (return_a0 (frame_of cur) n k ≡ done tt k') × IsSound k'
  refusal n = return_a0-IsSound cur n k (q, own, v)

  module _ (t p : ℕ) where
    -- The caller waits, and the target knows it.
    abbrev waiting_on : Kernel
    waiting_on =
        let k1 =
          set_thread cur
            (record (k.threads cur) { state = waiting; waiting_for = some t; join_status_ptr = p })
            k in
        set_thread t (record (k1.threads t) { join_waiter = some cur }) k1

    waiting_on-Leaving : t ≢ cur → Leaving self cur waiting_on q own
    waiting_on-Leaving apart =
        let k0 = set_thread t (record (k.threads t) { join_waiter = some cur }) k in
        stopped-Leaving self cur k0 waiting_on q own (join_waiter-Inv t (some cur) v) lt now
          (λ a ne. ground arith) refl refl
          (ground (arith, v.queues.flagged cur, (v.current self cur lt now).unqueued))
          (inl (ground arith)) (λ e. ground arith)

    -- A join that has to wait: the caller leaves the hart to the head of the queue.
    join_wait-IsSound :
        t ≢ cur
        → (k' : Kernel) × (join_wait self (frame_of cur) cur t p k ≡ done tt k') × IsSound k'
    unfolding join_wait
    join_wait-IsSound apart =
        let (k', own', run, next, inv) = reschedule-Inv self cur lt (waiting_on-Leaving apart) in
        (k', run, (_, own', inv))

    -- A join with a thread that is dead already.
    reaped-IsSound :
        (k.threads t).state ≡ zombie
        → IsAway k t
        → (k' : Kernel) × (return_a0
              (frame_of cur)
              0
              (recycle_thread t (store_int p (k.threads t).exit_code k))
            ≡ done tt k')
          × IsSound k'
    reaped-IsSound dead away =
        let code = (k.threads t).exit_code in
        let rest : at_rest ((store_int p code k).threads t) ≡ true =
          ground (arith, at_rest_of_zombie t v dead away) in
        return_a0-IsSound cur 0 _ (q, own, recycle_thread-Inv t (store_int-Inv p code v) rest)

    join_target-IsSound :
        IsGone k (some t)
        → (k' : Kernel) × (join_target self (frame_of cur) cur t p k ≡ done tt k') × IsSound k'
    unfolding join_target
    join_target-IsSound gone =
        let u = k.threads t in
        elim (Bool-cases (t == cur)) [
          | inl e ↦ rw e (refusal (minus 2))
          | inr e0 ↦ elim (Bool-cases (in_state u.state unused)) [
            | inl e ↦ rw (e0, e) (refusal (minus 3))
            | inr e1 ↦ elim (Bool-cases u.detached) [
              | inl e ↦ rw (e0, e1, e) (refusal (minus 5))
              | inr e2 ↦ elim (Bool-cases (joined_by_other u cur)) [
                | inl e ↦ elim (Bool-cases (in_state u.state zombie)) [
                  | inl z ↦ rw (e0, e1, e2, z, e) (refusal (minus 4))
                  | inr z ↦ rw (e0, e1, e2, z, e) (refusal (minus 4))
                ]
                | inr e ↦ elim (Bool-cases (in_state u.state zombie)) [
                  | inl z ↦
                      let dead : u.state ≡ zombie = ground arith in
                      rw (e0, e1, e2, z, e) (reaped-IsSound dead (gone dead))
                  | inr z ↦ rw (e0, e1, e2, z, e) (join_wait-IsSound (ground arith))
                ]
              ]
            ]
          ]
        ]

  -- A join, of whatever thread number, ends without a panic in a sound kernel, unless the target is
  -- a dead thread that some hart still runs.
  pub thread_sys_join-IsSound :
      (target : Tid) (p : ℕ)
      → IsGone k target
      → (k' : Kernel) × (thread_sys_join self (frame_of cur) target p k ≡ done tt k') × IsSound k'
  unfolding thread_sys_join
  thread_sys_join-IsSound none p gone = rw now (refusal (minus 1))
  thread_sys_join-IsSound (some t) p gone = elim (Bool-cases (t == 0 || leb thread_max t)) [
    | inl e ↦ rw (now, e) (refusal (minus 1))
    | inr e ↦ rw (now, e) (join_target-IsSound t p gone)
  ]

  -- The end of a detach that succeeds.
  detached-IsSound :
      (t : ℕ)
      → IsGone k (some t)
      → let k1 = set_thread t (record (k.threads t) { detached = true }) k in
        (k' : Kernel) × (return_a0
            (frame_of cur)
            0
            (if in_state (k.threads t).state zombie then recycle_thread t k1 else k1)
          ≡ done tt k')
        × IsSound k'
  detached-IsSound t gone =
      let k1 = set_thread t (record (k.threads t) { detached = true }) k in
      let v1 : Inv k1 q own =
        set_thread-Inv t _ v
          (record { state = refl; on_rq = refl; running_hart = refl; rq_next = refl }) in
      elim (Bool-cases (in_state (k.threads t).state zombie)) [
        | inl e ↦
            let dead : (k.threads t).state ≡ zombie = ground arith in
            let rest : at_rest (k1.threads t) ≡ true =
              ground (arith, at_rest_of_zombie t v dead (gone dead)) in
            rw e (return_a0-IsSound cur 0 _ (q, own, recycle_thread-Inv t v1 rest))
        | inr e ↦ rw e (return_a0-IsSound cur 0 k1 (q, own, v1))
      ]

  -- A detach, of whatever thread number, ends without a panic in a sound kernel, unless the target
  -- is a dead thread that some hart still runs.
  pub thread_sys_detach-IsSound :
      (target : Tid)
      → IsGone k target
      → (k' : Kernel) × (thread_sys_detach self (frame_of cur) target k ≡ done tt k') × IsSound k'
  unfolding thread_sys_detach
  thread_sys_detach-IsSound none gone = refusal (minus 1)
  thread_sys_detach-IsSound (some t) gone =
      let u = k.threads t in
      elim (Bool-cases (t == 0 || leb thread_max t)) [
        | inl e ↦ rw e (refusal (minus 1))
        | inr e0 ↦ elim (Bool-cases (in_state u.state unused)) [
          | inl e ↦ rw (e0, e) (refusal (minus 3))
          | inr e1 ↦ elim (Bool-cases (ltb t max_harts)) [
            | inl e ↦ rw (e0, e1, e) (refusal (minus 2))
            | inr e2 ↦ elim (Bool-cases (is_some u.join_waiter)) [
              | inl e ↦ rw (e0, e1, e2, e) (refusal (minus 4))
              | inr e3 ↦ elim (Bool-cases u.detached) [
                | inl e ↦ rw (e0, e1, e2, e3, e) (refusal 0)
                | inr e4 ↦ rw (e0, e1, e2, e3, e4) (detached-IsSound t gone)
              ]
            ]
          ]
        ]
      ]
