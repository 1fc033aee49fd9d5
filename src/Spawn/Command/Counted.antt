-- ===== src/Spawn/Command/Counted.antt =====
-- The count of workers of user/spawn.c, whatever the command `spawn` is called with.
use ccos.Common.{
  ℕ, zero, suc, ◌+◌, ◌≡◌, refl, ◌∙◌, inl, inr, true, none, some, List, [], ◌∷◌, arith,
  if◌then◌else◌, is_some, codes, Bool-cases, length,
}
use ccos.Kernel.{Tid}
use ccos.Spawn.{
  spawn_max, mode_spin, mode_yield, mode_sleep, SpawnCfg, Spawned, spawn_init_once, Killing,
}
use ccos.Shell.Commands.{same_text}
use ccos.Number.{u_atoi}
use ccos.Spawn.Counts.{
  filled, live, IsCounted, spawn_init_once-IsCounted, add_loop-IsCounted, spawn_kill-IsCounted,
}
use ccos.Spawn.Command.{
  listed_workers, worker_count, results, print_every_of, sleep_args, start_workers, mode_args,
  spawn_args, spawn,
}

filled_lem : (t : Tid) → filled t ≡ (if is_some t then 1 else 0)
filled_lem none = refl
filled_lem (some t) = refl

length-listed_workers :
    (n i : ℕ) (cfg : ℕ → SpawnCfg) → length (listed_workers n i cfg) ≡ live n i cfg
unfolding listed_workers live
length-listed_workers zero i cfg = refl
length-listed_workers (suc n) i cfg = elim (Bool-cases (is_some (cfg i).tid)) [
  | inl busy ↦ rw (filled_lem (cfg i).tid, busy, length-listed_workers n (i + 1) cfg) (omega arith)
  | inr free ↦ rw (filled_lem (cfg i).tid, free, length-listed_workers n (i + 1) cfg) (omega arith)
]

sleep_args-IsCounted :
    (made : List Tid) (args : List (List ℕ)) (s : Spawned)
    → IsCounted s
    → IsCounted (sleep_args made args s).1
unfolding sleep_args
sleep_args-IsCounted made [] s counted = counted
sleep_args-IsCounted made (ticks ∷ args) s counted =
    add_loop-IsCounted mode_sleep (u_atoi ticks) (print_every_of args) made s counted

start_workers-IsCounted :
    (sub : List ℕ) (made : List Tid) (args : List (List ℕ)) (s : Spawned)
    → IsCounted s
    → IsCounted (start_workers sub made args s).1
unfolding start_workers
start_workers-IsCounted sub made args s counted = elim (Bool-cases (same_text sub (codes "spin"))) [
  | inl spin ↦ rw spin (add_loop-IsCounted mode_spin 0 (print_every_of args) made s counted)
  | inr no_spin ↦ elim (Bool-cases (same_text sub (codes "yield"))) [
    | inl yield ↦
        rw (no_spin, yield) (add_loop-IsCounted mode_yield 0 (print_every_of args) made s counted)
    | inr no_yield ↦ elim (Bool-cases (same_text sub (codes "sleep"))) [
      | inl sleep ↦ rw (no_spin, no_yield, sleep) (sleep_args-IsCounted made args s counted)
      | inr other ↦ rw (no_spin, no_yield, other) counted
    ]
  ]
]

mode_args-IsCounted :
    (sub : List ℕ) (made : ℕ → Tid) (args : List (List ℕ)) (s : Spawned)
    → IsCounted s
    → IsCounted (mode_args sub made args s).1
unfolding mode_args
mode_args-IsCounted sub made [] s counted = counted
mode_args-IsCounted sub made (count ∷ args) s counted =
    start_workers-IsCounted sub (results (worker_count (u_atoi count)) 0 made) args s counted

spawn_args-IsCounted :
    (k : Killing) (made : ℕ → Tid) (argv : List (List ℕ)) (s : Spawned)
    → IsCounted s
    → IsCounted (spawn_args k made argv s).1
unfolding spawn_args
spawn_args-IsCounted k made [] s counted = counted
spawn_args-IsCounted k made (name ∷ []) s counted = counted
spawn_args-IsCounted k made (name ∷ sub ∷ args) s counted =
    elim (Bool-cases (same_text sub (codes "list"))) [
      | inl list ↦ rw list counted
      | inr no_list ↦ elim (Bool-cases (same_text sub (codes "kill"))) [
        | inl kill ↦ rw (no_list, kill) (spawn_kill-IsCounted k s counted).0
        | inr other ↦ rw (no_list, other) (mode_args-IsCounted sub made args s counted)
      ]
    ]

-- Whatever the words are and the system calls answer, after `spawn` the count is the number of slots with
-- a thread, which is how many `spawn list` shows, if it was so before or the table is not yet in use.
pub spawn-IsCounted :
    (k : Killing) (made : ℕ → Tid) (argv : List (List ℕ)) (s : Spawned)
    → (s.inited ≡ true → IsCounted s)
    → IsCounted (spawn k made argv s).1
      × (length (listed_workers spawn_max 0 (spawn k made argv s).1.cfg)
          ≡ (spawn k made argv s).1.active)
unfolding IsCounted
spawn-IsCounted k made argv s counted =
    let done =
      spawn_args-IsCounted k made argv (spawn_init_once s) (spawn_init_once-IsCounted s counted) in
    (done, length-listed_workers spawn_max 0 (spawn k made argv s).1.cfg ∙ done)
