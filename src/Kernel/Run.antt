-- ===== src/Kernel/Run.antt =====
-- Commands on the kernel's state. A command may panic (PANICF, ASSERT), may use a null pointer or
-- the index -1 (`fault`), and a loop of the model may lack fuel.
use ccos.Common.{ℕ, Bool, true, false, none, some}
use ccos.Kernel.{
  Kernel, Thread, Cpu, Tid, Trapframe, TfPtr, null, bootstrap, frame_of, set_thread, set_cpu,
}

pub data Run {ℓ} (A : Type ℓ) : Type ℓ where
  done : A → Kernel → Run A
  panicked : Run A
  fault : Run A
  out_of_fuel : Run A

abbrev pub Cmd {ℓ} : Type ℓ → Type ℓ
Cmd A = Kernel → Run A

abbrev pub pure {ℓ} : {A : Type ℓ} → A → Cmd A
pure = done

abbrev pub and_then {ℓ κ} : {A : Type ℓ} {B : Type κ} → Run A → (A → Cmd B) → Run B
and_then (done a k) f = f a k
and_then panicked f = panicked
and_then fault f = fault
and_then out_of_fuel f = out_of_fuel

infixl 5 ◌>>=◌ ◌>>◌
abbrev pub ◌>>=◌ {ℓ κ} : {A : Type ℓ} {B : Type κ} → Cmd A → (A → Cmd B) → Cmd B
◌>>=◌ m f k = and_then (m k) f

abbrev pub ◌>>◌ {ℓ} : {B : Type ℓ} → Cmd (Unit {0}) → Cmd B → Cmd B
m >> n = m >>= λ _. n

abbrev pub get : Cmd Kernel
get k = done k k

abbrev pub modify : (Kernel → Kernel) → Cmd (Unit {0})
modify f k = done tt (f k)

-- ASSERT of a debug build.
abbrev pub assert : Bool → Cmd (Unit {0})
assert true k = done tt k
assert false k = panicked

abbrev pub when : Bool → Cmd (Unit {0}) → Cmd (Unit {0})
when true m = m
when false m = pure tt

-- `t->… = …` through a pointer to `g_threads[t]`, and the same for `g_cpus[h]`.
abbrev pub edit : ℕ → (Thread → Thread) → Cmd (Unit {0})
edit t f k = done tt (set_thread t (f (k.threads t)) k)

abbrev pub edit_cpu : ℕ → (Cpu → Cpu) → Cmd (Unit {0})
edit_cpu h f k = done tt (set_cpu h (f (k.cpus h)) k)

-- `&g_threads[tid]` for a tid that must not be -1.
abbrev pub the_tid : Tid → Cmd ℕ
the_tid none k = fault
the_tid (some t) k = done t k

-- The trapframe behind a pointer.
abbrev pub read_tf : TfPtr → Cmd Trapframe
read_tf null k = fault
read_tf bootstrap k = done k.bootstrap_tf k
read_tf (frame_of t) k = done (k.threads t).tf k

abbrev pub edit_tf : TfPtr → (Trapframe → Trapframe) → Cmd (Unit {0})
edit_tf null f k = fault
edit_tf bootstrap f k = done tt (record k { bootstrap_tf = f k.bootstrap_tf })
edit_tf (frame_of t) f k =
    done tt (set_thread t (record (k.threads t) { tf = f (k.threads t).tf }) k)

-- `tf->a0 = v`
abbrev pub return_a0 : TfPtr → ℕ → Cmd (Unit {0})
return_a0 tf v = edit_tf tf λ r. record r { a0 = v }
