-- ===== src/Platform/Stats.antt =====
-- The statistics of platform/qemu-virt-sbi/platform.c count what happened.
use ccos.Common.{
  ℕ, suc, ◌+◌, ◌<◌, ◌≡◌, refl, ap, ◌∙◌, inl, inr, true, false, List, [], ◌∷◌, arith, ltb, ◌==◌,
  if◌then◌else◌, Bool-cases, length, get_last_or, ◌^◌, ◌%◌, ◌≤◌, none,
}
use ccos.Platform.{
  max_irq, IrqStat, IrqTable, Claim, delta_of, count_irq, note_irq, irq_slot, handler_of,
}
use ccos.Kernel.{update, Kernel}
use ccos.Kernel.Run.{done}

-- The table after an interrupt.
unfoldable pub noted : ℕ → ℕ → IrqTable → IrqTable
noted irq now t =
    if ltb irq max_irq
    then record t { stats = update t.stats irq (count_irq now (t.stats irq)) }
    else t

irq_slot-done : (irq : ℕ) (k : Kernel) → ltb irq max_irq ≡ true → irq_slot irq k ≡ done tt k
unfolding irq_slot
irq_slot-done irq k e = rw e refl

-- No access is behind the arrays.
pub note_irq-noted :
    (irq now : ℕ) (t : IrqTable) (k : Kernel) → note_irq irq now t k ≡ done (noted irq now t) k
unfolding note_irq noted
note_irq-noted irq now t k = elim (Bool-cases (ltb irq max_irq)) [
  | inl e ↦ rw (e, irq_slot-done irq k e) refl
  | inr e ↦ rw e refl
]

pub handler_of-done :
    (irq : ℕ) (t : IrqTable) (k : Kernel)
    → handler_of irq t k ≡ done (if ltb irq max_irq then t.handlers irq else none) k
unfolding handler_of
handler_of-done irq t k = elim (Bool-cases (ltb irq max_irq)) [
  | inl e ↦ rw (e, irq_slot-done irq k e) refl
  | inr e ↦ rw e refl
]

-- The table after the claims `cs`.
unfoldable pub note_all : List Claim → IrqTable → IrqTable
note_all [] t = t
note_all (c ∷ cs) t = note_all cs (noted c.irq c.now t)

-- When the interrupt `irq` was claimed.
unfoldable pub times_of : ℕ → List Claim → List ℕ
times_of irq [] = []
times_of irq (c ∷ cs) = if c.irq == irq then c.now ∷ times_of irq cs else times_of irq cs

count_all : List ℕ → IrqStat → IrqStat
count_all [] st = st
count_all (now ∷ ts) st = count_all ts (count_irq now st)

note_all-count_all :
    (irq : ℕ) (cs : List Claim) (t : IrqTable)
    → irq < max_irq
    → (note_all cs t).stats irq ≡ count_all (times_of irq cs) (t.stats irq)
unfolding note_all noted times_of count_all
note_all-count_all irq [] t lt = refl
note_all-count_all irq (c ∷ cs) t lt =
    let ih = note_all-count_all irq cs (noted c.irq c.now t) lt in
    elim (Bool-cases (c.irq == irq)) [
      | inl e ↦
          let small : ltb c.irq max_irq ≡ true = ground arith in
          let same_irq : c.irq ≡ irq = ground arith in
          let here : (irq == irq) ≡ true = ground arith in
          let there : (noted c.irq c.now t).stats irq ≡ count_irq c.now (t.stats irq) =
            ground (arith, small, same_irq) in
          ih ∙ rw (e, there) refl
      | inr e ↦
          let there : (noted c.irq c.now t).stats irq ≡ t.stats irq = ground arith in
          ih ∙ rw (e, there) refl
    ]

-- The largest of the gaps between the times, the first after `last`, and of `most`.
unfoldable pub longest_gap : ℕ → ℕ → List ℕ → ℕ
longest_gap most last [] = most
longest_gap most last (now ∷ ts) =
    longest_gap (if ltb most (delta_of now last) then delta_of now last else most) now ts

-- The statistics of an interrupt that has been counted already.
count_all-next :
    (ts : List ℕ) (st : IrqStat)
    → 0 < st.count
    → st.count + length ts < 2 ^ 64
    → count_all ts st ≡ record {
      count = st.count + length ts;
      last_tick = get_last_or ts st.last_tick;
      first_tick = st.first_tick;
      max_delta = longest_gap st.max_delta st.last_tick ts;
    }
unfolding count_all longest_gap count_irq
count_all-next [] st pos fits = ground arith
count_all-next (now ∷ ts) st pos fits =
    let counted : (st.count == 0) ≡ false = ground arith in
    let fits' : (st.count + 1) % 2 ^ 64 ≡ st.count + 1 = omega arith in
    let ih = count_all-next ts (count_irq now st) (omega (arith, fits')) (omega (arith, fits')) in
    let shift : st.count + 1 + length ts ≡ st.count + suc (length ts) = omega arith in
    ih
    ∙ rw (counted, fits')
        (ap {A = ℕ}
          (λ n. record {
            count = n;
            last_tick = get_last_or ts now;
            first_tick = st.first_tick;
            max_delta = longest_gap st.max_delta st.last_tick (now ∷ ts);
          })
          shift)

-- The statistics of an interrupt, `st` before, once it has come at the times: how often it came, first and
-- last, and the longest time between two of its comings.
unfoldable pub stat_after : IrqStat → List ℕ → IrqStat
stat_after st [] = st
stat_after st (first ∷ ts) =
    if st.count == 0
    then record {
      count = 1 + length ts;
      last_tick = get_last_or ts first;
      first_tick = first;
      max_delta = longest_gap st.max_delta first ts;
    }
    else record {
      count = st.count + suc (length ts);
      last_tick = get_last_or ts first;
      first_tick = st.first_tick;
      max_delta = longest_gap st.max_delta st.last_tick (first ∷ ts);
    }

count_all-stat_after :
    (ts : List ℕ) (st : IrqStat)
    → st.count + length ts < 2 ^ 64
    → count_all ts st ≡ stat_after st ts
unfolding count_all count_irq stat_after
count_all-stat_after [] st fits = refl
count_all-stat_after (first ∷ ts) st fits = elim (Bool-cases (st.count == 0)) [
  | inl fresh ↦
      let seen : IrqStat = record {
        count = 1;
        last_tick = first;
        first_tick = first;
        max_delta = st.max_delta;
      } in
      let one : (st.count + 1) % 2 ^ 64 ≡ 1 = ground arith in
      rw (fresh, one) (count_all-next ts seen (omega arith) (omega arith))
  | inr old ↦ count_all-next (first ∷ ts) st (ground arith) fits ∙ rw old refl
]

length-times_of : (irq : ℕ) (cs : List Claim) → length (times_of irq cs) ≤ length cs
unfolding times_of
length-times_of irq [] = omega arith
length-times_of irq (c ∷ cs) = elim (Bool-cases (c.irq == irq)) [
  | inl e ↦ rw e (omega (arith, length-times_of irq cs))
  | inr e ↦ rw e (omega (arith, length-times_of irq cs))
]

-- An interrupt behind the array is not counted.
note_all-outside :
    (irq : ℕ) (cs : List Claim) (t : IrqTable)
    → max_irq ≤ irq
    → (note_all cs t).stats irq ≡ t.stats irq
unfolding note_all noted
note_all-outside irq [] t le = refl
note_all-outside irq (c ∷ cs) t le = note_all-outside irq cs (noted c.irq c.now t) le ∙ ground arith

pub note_all-stat_after :
    (irq : ℕ) (cs : List Claim) (t : IrqTable)
    → (t.stats irq).count + length cs < 2 ^ 64
    → (note_all cs t).stats irq
      ≡ (if ltb irq max_irq then stat_after (t.stats irq) (times_of irq cs) else t.stats irq)
note_all-stat_after irq cs t fits = elim (Bool-cases (ltb irq max_irq)) [
  | inl known ↦ rw known (
      note_all-count_all irq cs t (ground arith)
      ∙ count_all-stat_after (times_of irq cs) (t.stats irq)
          (omega (arith, length-times_of irq cs)))
  | inr behind ↦ rw behind (note_all-outside irq cs t (ground arith))
]

pub note_all-handlers : (cs : List Claim) (t : IrqTable) → (note_all cs t).handlers ≡ t.handlers
unfolding note_all noted
note_all-handlers [] t = refl
note_all-handlers (c ∷ cs) t = note_all-handlers cs (noted c.irq c.now t) ∙ ground arith
