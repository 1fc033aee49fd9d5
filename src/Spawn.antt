-- ===== src/Spawn.antt =====
-- user/spawn.c: the table of test workers and its count. What the system calls answer are arguments:
-- the number of the thread that `thread_create` makes, none for a failure, and the results of
-- `thread_kill` and `thread_join` for a thread.
pub mod Counts
pub mod Command
use ccos.Common.{
  ℕ, zero, suc, ◌+◌, ◌-◌, Bool, true, false, not, ◌&&◌, Option, none, some, List, [], ◌∷◌, ◌++◌,
  ltb, ◌==◌, if◌then◌else◌, is_some, ℤ, length, take, ◌%◌, ◌^◌,
}
use ccos.Kernel.{Tid, update}

abbrev pub spawn_max : ℕ
spawn_max = 16

pub data SpawnMode : Type 0 where
  mode_spin mode_yield mode_sleep : SpawnMode

-- `tid` and `last_hart` are none for -1.
pub record SpawnCfg : Type 0 where
  pub wid : ℕ
  pub tid : Tid
  pub mode : SpawnMode
  pub work_loops : ℕ
  pub sleep_ticks : ℕ
  pub print_every : ℕ
  pub last_hart : Option ℕ
  pub migrations : ℕ
  pub prints : ℕ

-- `s_spawn_cfg`, `s_spawn_active` and `s_spawn_inited`.
pub record Spawned : Type 0 where
  pub cfg : ℕ → SpawnCfg
  pub active : ℕ
  pub inited : Bool

-- `prefix` and the last digit of `n`, as far as the buffer goes.
pub make_name : (buf_len : ℕ) (prefix : List ℕ) (n : ℕ) → List ℕ
make_name buf_len prefix n =
    let head = take (buf_len - 1) prefix in
    if ltb (length head) (buf_len - 1) then head ++ ((48 + n % 10) ∷ []) else head

-- The rounds that are left before `i` is SPAWN_MAX.
pub init_slots : (rounds i : ℕ) → (ℕ → SpawnCfg) → ℕ → SpawnCfg
init_slots zero i cfg = cfg
init_slots (suc rounds) i cfg =
    init_slots rounds (i + 1) (update cfg i (record (cfg i) { wid = i; tid = none }))

unfoldable pub spawn_init_once : Spawned → Spawned
spawn_init_once s =
    if s.inited then s else record { cfg = init_slots spawn_max 0 s.cfg; active = 0; inited = true }

pub find_free : (rounds i : ℕ) → (ℕ → SpawnCfg) → Option ℕ
find_free zero i cfg = none
find_free (suc rounds) i cfg =
    let rest = find_free rounds (i + 1) cfg in if is_some (cfg i).tid then rest else some i

unfoldable pub spawn_find_free_wid : Spawned → Option ℕ
spawn_find_free_wid s = find_free spawn_max 0 s.cfg

abbrev pub spawn_cfg_init : (wid : ℕ) → SpawnMode → (sleep_ticks print_every : ℕ) → SpawnCfg
spawn_cfg_init wid mode sleep_ticks print_every = record {
  wid = wid;
  tid = none;
  mode = mode;
  work_loops = 200000;
  sleep_ticks = sleep_ticks;
  print_every = print_every;
  last_hart = none;
  migrations = 0;
  prints = 0;
}

-- The table once the worker `wid` has been created, or not.
pub start_worker : (wid : ℕ) → SpawnCfg → Tid → Spawned → ℤ × Spawned
start_worker wid c none s = (ℤ.negsuc 1, record s { cfg = update s.cfg wid c })
start_worker wid c (some tid) s = (
  ℤ.pos tid,
  record s { cfg = update s.cfg wid (record c { tid = some tid }); active = s.active + 1 },
)

unfoldable pub spawn_add :
    SpawnMode → (sleep_ticks print_every : ℕ) → (created : Tid) → Spawned → ℤ × Spawned
spawn_add mode sleep_ticks print_every created s = elim (spawn_find_free_wid s) [
  | none ↦ (ℤ.negsuc 0, s)
  | some wid ↦ start_worker wid (spawn_cfg_init wid mode sleep_ticks print_every) created s
]

abbrev pub is_negative_result : ℤ → Bool
is_negative_result (ℤ.pos n) = false
is_negative_result (ℤ.negsuc n) = true

-- The loop of `spawn` for the three modes: one result of `thread_create` for each worker, and no more
-- workers after a failure.
pub add_loop : SpawnMode → (sleep_ticks print_every : ℕ) → List Tid → Spawned → Spawned
add_loop mode sleep_ticks print_every [] s = s
add_loop mode sleep_ticks print_every (created ∷ later) s =
    let (tid, s') = spawn_add mode sleep_ticks print_every created s in
    let rest = add_loop mode sleep_ticks print_every later s' in
    if is_negative_result tid then s' else rest

-- What `thread_kill` and then `thread_join` answer for a thread.
pub record Killing : Type 0 where
  pub kill : ℕ → ℤ
  pub join : ℕ → ℤ

-- The three numbers that the command reports.
pub record Killed : Type 0 where
  pub requested : ℕ
  pub joined : ℕ
  pub errors : ℕ

abbrev pub is_joined : ℤ → Bool
is_joined (ℤ.pos n) = n == 0
is_joined (ℤ.negsuc n) = n == 2

pub count_kill : Killing → (tid : ℕ) → Killed → Killed
count_kill k tid c =
    let c' = record c { requested = c.requested + 1 } in
    if is_negative_result (k.kill tid)
    then record c' { errors = c'.errors + 1 }
    else if is_joined (k.join tid)
    then record c' { joined = c'.joined + 1 }
    else record c' { errors = c'.errors + 1 }

-- A slot of the table, and the numbers so far.
pub kill_slot : Killing → (i : ℕ) → Tid → (ℕ → SpawnCfg) × Killed → (ℕ → SpawnCfg) × Killed
kill_slot k i none (cfg, c) = (cfg, c)
kill_slot k i (some tid) (cfg, c) =
    (update cfg i (record (cfg i) { tid = none }), count_kill k tid c)

pub kill_loop : Killing → (rounds i : ℕ) → (ℕ → SpawnCfg) × Killed → (ℕ → SpawnCfg) × Killed
kill_loop k zero i p = p
kill_loop k (suc rounds) i p = kill_loop k rounds (i + 1) (kill_slot k i (p.0 i).tid p)

unfoldable pub spawn_kill : Killing → Spawned → Spawned × Killed
spawn_kill k s =
    let (cfg, c) =
      kill_loop k spawn_max 0 (s.cfg, record { requested = 0; joined = 0; errors = 0 }) in
    (record s { cfg = cfg; active = 0 }, c)

-- Steps 3 and 4 of a round of a worker that finds itself on `hart` in its round `it`.
unfoldable pub worker_round : (hart it : ℕ) → SpawnCfg → SpawnCfg
worker_round hart it c =
    let moved : Bool = elim c.last_hart [ none ↦ false | some last ↦ not (last == hart) ] in
    let noted = if moved then (c.migrations + 1) % 2 ^ 32 else c.migrations in
    let c' = record c { migrations = noted; last_hart = some hart } in
    if not (c'.print_every == 0) && it % c'.print_every == 0
    then record c' { prints = (c'.prints + 1) % 2 ^ 32 }
    else c'
