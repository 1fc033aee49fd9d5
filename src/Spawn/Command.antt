-- ===== src/Spawn/Command.antt =====
-- user/spawn.c: the command `spawn` with its words. `made` is what `thread_create` answers for one
-- worker after the other.
pub mod Counted
use ccos.Common.{ℕ, zero, suc, ◌+◌, List, [], ◌∷◌, ltb, if◌then◌else◌, is_some, codes}
use ccos.Kernel.{Tid}
use ccos.Spawn.{
  spawn_max, mode_spin, mode_yield, mode_sleep, SpawnCfg, Spawned, spawn_init_once, add_loop,
  Killing, Killed, spawn_kill,
}
use ccos.Shell.Commands.{same_text, is_not_positive}
use ccos.Number.{u_atoi}

-- What the command ends in.
pub data SpawnAnswer : Type 0 where
  spawn_usage : SpawnAnswer
  spawn_list : List SpawnCfg → SpawnAnswer
  spawn_killed : Killed → SpawnAnswer
  spawn_started : SpawnAnswer

-- The slots with a thread among the `rounds` from `i` on.
pub listed_workers : (rounds i : ℕ) → (ℕ → SpawnCfg) → List SpawnCfg
listed_workers zero i cfg = []
listed_workers (suc rounds) i cfg =
    let rest = listed_workers rounds (i + 1) cfg in
    if is_some (cfg i).tid then cfg i ∷ rest else rest

-- At least one worker and at most SPAWN_MAX.
abbrev pub worker_count : ℕ → ℕ
worker_count n = if is_not_positive n then 1 else if ltb spawn_max n then spawn_max else n

pub results : (n i : ℕ) → (ℕ → Tid) → List Tid
results zero i made = []
results (suc n) i made = made i ∷ results n (i + 1) made

-- 0 if it is not given.
abbrev pub print_every_of : List (List ℕ) → ℕ
print_every_of [] = 0
print_every_of (word ∷ args) = u_atoi word

pub sleep_args : List Tid → List (List ℕ) → Spawned → SpawnAnswer × Spawned
sleep_args made [] s = (spawn_usage, s)
sleep_args made (ticks ∷ args) s =
    (spawn_started, add_loop mode_sleep (u_atoi ticks) (print_every_of args) made s)

pub start_workers : (sub : List ℕ) → List Tid → List (List ℕ) → Spawned → SpawnAnswer × Spawned
start_workers sub made args s =
    if same_text sub (codes "spin")
    then (spawn_started, add_loop mode_spin 0 (print_every_of args) made s)
    else if same_text sub (codes "yield")
    then (spawn_started, add_loop mode_yield 0 (print_every_of args) made s)
    else if same_text sub (codes "sleep")
    then sleep_args made args s
    else (spawn_usage, s)

pub mode_args : (sub : List ℕ) → (ℕ → Tid) → List (List ℕ) → Spawned → SpawnAnswer × Spawned
mode_args sub made [] s = (spawn_usage, s)
mode_args sub made (count ∷ args) s =
    start_workers sub (results (worker_count (u_atoi count)) 0 made) args s

pub spawn_args : Killing → (ℕ → Tid) → List (List ℕ) → Spawned → SpawnAnswer × Spawned
spawn_args k made [] s = (spawn_usage, s)
spawn_args k made (name ∷ []) s = (spawn_usage, s)
spawn_args k made (name ∷ sub ∷ args) s =
    if same_text sub (codes "list")
    then (spawn_list (listed_workers spawn_max 0 s.cfg), s)
    else if same_text sub (codes "kill")
    then (let (s', c) = spawn_kill k s in (spawn_killed c, s'))
    else mode_args sub made args s

abbrev pub spawn : Killing → (ℕ → Tid) → (argv : List (List ℕ)) → Spawned → SpawnAnswer × Spawned
spawn k made argv s = spawn_args k made argv (spawn_init_once s)
