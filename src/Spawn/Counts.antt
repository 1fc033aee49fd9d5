-- ===== src/Spawn/Counts.antt =====
-- The count of workers of user/spawn.c.
use ccos.Common.{
  ℕ, zero, suc, ◌+◌, ◌≤◌, ◌<◌, ◌≡◌, refl, sym, ap, ◌⊎◌, inl, inr, false, none, some, arith, ◌==◌,
  is_some, ==_iff, Bool-cases, true, List, Option-cases, ◌∷◌, [],
}
use ccos.Kernel.{Tid, update}
use ccos.Spawn.{
  spawn_max, SpawnMode, SpawnCfg, Spawned, init_slots, spawn_init_once, find_free,
  spawn_find_free_wid, spawn_cfg_init, start_worker, spawn_add, is_negative_result, add_loop,
  Killing, Killed, is_joined, count_kill, kill_slot, kill_loop, spawn_kill,
}
use mathlib.Core.Path.{subst}

abbrev pub filled : Tid → ℕ
filled none = 0
filled (some t) = 1

-- How many of the `n` slots from `i` on have a thread.
unfoldable pub live : (n i : ℕ) → (ℕ → SpawnCfg) → ℕ
live zero i cfg = 0
live (suc n) i cfg = filled (cfg i).tid + live n (i + 1) cfg

-- `s_spawn_active` is the number of slots with a thread.
unfoldable pub IsCounted : Spawned → Type 0
IsCounted s = live spawn_max 0 s.cfg ≡ s.active

live-outside :
    (n i w : ℕ) (cfg : ℕ → SpawnCfg) (c : SpawnCfg)
    → (w < i) ⊎ (i + n ≤ w)
    → live n i (update cfg w c) ≡ live n i cfg
unfolding live
live-outside zero i w cfg c out = refl
live-outside (suc n) i w cfg c out =
    let here : update cfg w c i ≡ cfg i = ground arith in
    rw here (ap (λ k. filled (cfg i).tid + k) (live-outside n (i + 1) w cfg c (ground arith)))

live-set :
    (n i w : ℕ) (cfg : ℕ → SpawnCfg) (c : SpawnCfg)
    → i ≤ w
    → w < i + n
    → live n i (update cfg w c) + filled (cfg w).tid ≡ live n i cfg + filled c.tid
unfolding live
live-set zero i w cfg c low high = absurd (omega arith)
live-set (suc n) i w cfg c low high = elim (Bool-cases (i == w)) [
  | inl here ↦
      let eq : w ≡ i = sym ((==_iff i w).0 here) in
      let same_slot : cfg w ≡ cfg i = ap cfg eq in
      let set : update cfg w c i ≡ c = ground arith in
      rw (set, same_slot, live-outside n (i + 1) w cfg c (inl (omega arith))) (omega arith)
  | inr later ↦
      let kept : update cfg w c i ≡ cfg i = ground arith in
      rw kept (omega (arith, live-set n (i + 1) w cfg c (ground arith) (omega arith)))
]

none_of : (t : Tid) → is_some t ≡ false → t ≡ none
none_of none e = refl
none_of (some t) e = absurd (ground arith)

find_free-free :
    (n i w : ℕ) (cfg : ℕ → SpawnCfg)
    → find_free n i cfg ≡ some w
    → (i ≤ w) × ((w < i + n) × ((cfg w).tid ≡ none))
unfolding find_free
find_free-free zero i w cfg e = absurd (ground arith)
find_free-free (suc n) i w cfg e = elim (Bool-cases (is_some (cfg i).tid)) [
  | inl taken ↦
      let (low, (high, free)) = find_free-free n (i + 1) w cfg (ground (arith, e)) in
      (omega arith, (omega arith, free))
  | inr free ↦
      let eq : i ≡ w = ground (arith, e) in
      (omega arith, (omega arith, subst (λ j. (cfg j).tid ≡ none) eq (none_of (cfg i).tid free)))
]

live-none :
    (n i : ℕ) (cfg : ℕ → SpawnCfg)
    → ((j : ℕ) → i ≤ j → j < i + n → (cfg j).tid ≡ none)
    → live n i cfg ≡ 0
unfolding live
live-none zero i cfg free = refl
live-none (suc n) i cfg free =
    rw (free i (omega arith) (omega arith))
      (omega (arith, live-none n (i + 1) cfg (λ j low high. free j (omega arith) (omega arith))))

init_slots-free :
    (n i j : ℕ) (cfg : ℕ → SpawnCfg)
    → ((j < i) × ((cfg j).tid ≡ none)) ⊎ ((i ≤ j) × (j < i + n))
    → (init_slots n i cfg j).tid ≡ none
unfolding init_slots
init_slots-free zero i j cfg (inl before) = before.1
init_slots-free zero i j cfg (inr within) = absurd (omega arith)
init_slots-free (suc n) i j cfg where_j =
    init_slots-free n (i + 1) j (update cfg i (record (cfg i) { wid = i; tid = none }))
      (elim (Bool-cases (j == i)) [
        | inl here ↦ inl (ground arith, ground arith)
        | inr other ↦ elim where_j [
          | inl before ↦ inl (omega (arith, before.0), ground (arith, before.1))
          | inr within ↦ inr (ground arith, omega (arith, within.1))
        ]
      ])

pub spawn_init_once-IsCounted :
    (s : Spawned) → (s.inited ≡ true → IsCounted s) → IsCounted (spawn_init_once s)
unfolding spawn_init_once IsCounted
spawn_init_once-IsCounted s counted = elim (Bool-cases s.inited) [
  | inl e ↦ rw e (counted e)
  | inr e ↦ rw e (
      live-none spawn_max 0 (init_slots spawn_max 0 s.cfg)
        (λ j low high. init_slots-free spawn_max 0 j s.cfg (inr (low, high))))
]

none-0 : (t : Tid) → t ≡ none → filled t ≡ 0
none-0 t e = ap filled e

start_worker-IsCounted :
    (w : ℕ) (c : SpawnCfg) (created : Tid) (s : Spawned)
    → w < spawn_max
    → (s.cfg w).tid ≡ none
    → c.tid ≡ none
    → IsCounted s
    → IsCounted (start_worker w c created s).1
unfolding start_worker IsCounted
start_worker-IsCounted w c none s fits free fresh counted =
    let set = live-set spawn_max 0 w s.cfg c (omega arith) (omega arith) in
    omega (arith, counted, set, none-0 (s.cfg w).tid free, none-0 c.tid fresh)
start_worker-IsCounted w c (some tid) s fits free fresh counted =
    let set =
      live-set spawn_max 0 w s.cfg (record c { tid = some tid }) (omega arith) (omega arith) in
    omega (arith, counted, set, none-0 (s.cfg w).tid free)

spawn_add-IsCounted :
    (mode : SpawnMode) (sleep_ticks print_every : ℕ) (created : Tid) (s : Spawned)
    → IsCounted s
    → IsCounted (spawn_add mode sleep_ticks print_every created s).1
unfolding spawn_add spawn_find_free_wid
spawn_add-IsCounted mode sleep_ticks print_every created s counted =
    elim (Option-cases (find_free spawn_max 0 s.cfg)) [
      | inl full ↦ rw (spawn_add, spawn_find_free_wid, full) counted
      | inr (wid, found) ↦
          let (low, (high, free)) = find_free-free spawn_max 0 wid s.cfg found in
          rw (spawn_add, spawn_find_free_wid, found)
            (start_worker-IsCounted wid (spawn_cfg_init wid mode sleep_ticks print_every) created s
              (omega arith) free refl counted)
    ]

-- Starting workers, with any results of `thread_create`, keeps the count.
pub add_loop-IsCounted :
    (mode : SpawnMode) (sleep_ticks print_every : ℕ) (results : List Tid) (s : Spawned)
    → IsCounted s
    → IsCounted (add_loop mode sleep_ticks print_every results s)
unfolding add_loop
add_loop-IsCounted mode sleep_ticks print_every [] s counted = counted
add_loop-IsCounted mode sleep_ticks print_every (created ∷ later) s counted =
    let next = spawn_add mode sleep_ticks print_every created s in
    let kept = spawn_add-IsCounted mode sleep_ticks print_every created s counted in
    elim (Bool-cases (is_negative_result next.0)) [
      | inl failed ↦ rw failed kept
      | inr made ↦ rw made (add_loop-IsCounted mode sleep_ticks print_every later next.1 kept)
    ]

count_kill-sum :
    (k : Killing) (t : ℕ) (c : Killed)
    → ((count_kill k t c).requested ≡ c.requested + 1)
      × ((count_kill k t c).joined + (count_kill k t c).errors ≡ c.joined + c.errors + 1)
unfolding count_kill
count_kill-sum k t c = elim (Bool-cases (is_negative_result (k.kill t))) [
  | inl failed ↦ rw failed (refl, omega arith)
  | inr sent ↦ elim (Bool-cases (is_joined (k.join t))) [
    | inl joined ↦ rw (sent, joined) (refl, omega arith)
    | inr lost ↦ rw (sent, lost) (refl, omega arith)
  ]
]

-- The slots before `i` have been cleared, `n` are left, and the numbers add up.
record IsClearing (n i total : ℕ) (p : (ℕ → SpawnCfg) × Killed) : Type 0 where
  cleared : (j : ℕ) → j < i → (p.0 j).tid ≡ none
  sum : p.1.joined + p.1.errors ≡ p.1.requested
  left : p.1.requested + live n i p.0 ≡ total

kill_slot-IsClearing :
    (k : Killing) (n i total : ℕ) (t : Tid) (p : (ℕ → SpawnCfg) × Killed)
    → (p.0 i).tid ≡ t
    → IsClearing (suc n) i total p
    → IsClearing n (i + 1) total (kill_slot k i t p)
unfolding kill_slot live
kill_slot-IsClearing k n i total none (cfg, c) e now = record {
  cleared = λ j lt. elim (Bool-cases (j == i)) [
    | inl here ↦ subst (λ h. (cfg h).tid ≡ none) (sym ((==_iff j i).0 here)) e
    | inr other ↦ now.cleared j (ground arith)
  ];
  sum = now.sum;
  left = omega (arith, now.left, none-0 (cfg i).tid e);
}
kill_slot-IsClearing k n i total (some t) (cfg, c) e now =
    let (one, all) = count_kill-sum k t c in
    let was : filled (cfg i).tid ≡ 1 = ap filled e in
    record {
      cleared = λ j lt. elim (Bool-cases (j == i)) [
        | inl here ↦ ground arith
        | inr other ↦ ground (arith, now.cleared j (ground arith))
      ];
      sum = omega (arith, now.sum, one, all);
      left = omega (
        arith,
        now.left,
        one,
        was,
        live-outside n (i + 1) i cfg (record (cfg i) { tid = none }) (inl (omega arith)),
      );
    }

kill_loop-IsClearing :
    (k : Killing) (n i total : ℕ) (p : (ℕ → SpawnCfg) × Killed)
    → IsClearing n i total p
    → IsClearing 0 (i + n) total (kill_loop k n i p)
unfolding kill_loop
kill_loop-IsClearing k zero i total p now = subst (λ j. IsClearing 0 j total p) (omega arith) now
kill_loop-IsClearing k (suc n) i total p now =
    subst (λ j. IsClearing 0 j total (kill_loop k n (i + 1) (kill_slot k i (p.0 i).tid p)))
      (omega arith)
      (kill_loop-IsClearing k n (i + 1) total (kill_slot k i (p.0 i).tid p)
        (kill_slot-IsClearing k n i total (p.0 i).tid p refl now))

-- Where the count is the number of slots with a thread, `spawn kill` asks for just so many threads, each
-- of which it counts as joined or as an error, and no slot has a thread afterwards, as the count says.
pub spawn_kill-IsCounted :
    (k : Killing) (s : Spawned)
    → IsCounted s
    → IsCounted (spawn_kill k s).0
      × (((spawn_kill k s).0.active ≡ 0)
          × (((spawn_kill k s).1.requested ≡ s.active)
              × ((spawn_kill k s).1.joined + (spawn_kill k s).1.errors ≡ s.active)))
unfolding spawn_kill IsCounted live
spawn_kill-IsCounted k s counted =
    let zeros : Killed = record { requested = 0; joined = 0; errors = 0 } in
    let begun : IsClearing 16 0 s.active (s.cfg, zeros) = record {
      cleared = λ j lt. absurd (omega arith);
      sum = refl;
      left = omega (arith, counted);
    } in
    let done = kill_loop-IsClearing k 16 0 s.active (s.cfg, zeros) begun in
    let r = kill_loop k 16 0 (s.cfg, zeros) in
    (
      live-none 16 0 r.0 (λ j low high. done.cleared j (omega arith)),
      (refl, (omega (arith, done.left), omega (arith, done.left, done.sum))),
    )
