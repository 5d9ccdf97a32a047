-- ===== src/Kernel/Run.antt =====
-- Kernel code as functions of the state: it returns, leaves the CPU to another task, halts or faults.
use rados.Base.{ℕ, Bool, true, false, Option, none, some, update}
use rados.Kernel.{Kernel, Task, TaskQueue, Timer}

-- `switched` ends the caller's part of a call: after `arch_context_switch` the CPU goes on in the task
-- that is now current, and the caller's rest is in its saved context. `halted` is `os_halt`; `fault` is
-- undefined behaviour, such as a write through NULL.
pub data Outcome (A : Type 0) : Type 0 where
  ok : A → Kernel → Outcome A
  switched : Kernel → Outcome A
  halted : Kernel → Outcome A
  fault : Outcome A

abbrev pub M : Type 0 → Type 0
M A = Kernel → Outcome A

abbrev pub pure : {A : Type 0} → A → M A
pure a k = ok a k

module _ {A B : Type 0} where
  abbrev pub and_then : Outcome A → (A → M B) → Outcome B
  and_then (ok a k) f = f a k
  and_then (switched k) f = switched k
  and_then (halted k) f = halted k
  and_then fault f = fault

  infixl 5 ◌>>=◌ ◌>>◌
  abbrev pub ◌>>=◌ : M A → (A → M B) → M B
  m >>= f = λ k. and_then (m k) f

  abbrev pub ◌>>◌ : M A → M B → M B
  m >> n = m >>= λ _. n

abbrev pub get : M Kernel
get k = ok k k

abbrev pub modify : (Kernel → Kernel) → M (Unit {0})
modify f k = ok tt (f k)

-- A failed assertion, and `os_halt` itself.
abbrev pub os_halt : M (Unit {0})
os_halt k = halted (record k { dint = true; sched_lock = 1 })

abbrev pub os_assert : Bool → M (Unit {0})
os_assert true = pure tt
os_assert false = os_halt

abbrev pub crash : {A : Type 0} → M A
crash k = fault

-- Interrupts off, with what the matching exit restores.
abbrev pub arch_critical_enter : M Bool
arch_critical_enter k = ok k.dint (record k { dint = true })

abbrev pub arch_critical_exit : Bool → M (Unit {0})
arch_critical_exit c k = ok tt (record k { dint = c })

-- Writes to the fields of one object.
abbrev pub set_task : ℕ → Task → Kernel → Kernel
set_task t v k = record k { tasks = update k.tasks t v }

abbrev pub set_queue : ℕ → TaskQueue → Kernel → Kernel
set_queue q v k = record k { queues = update k.queues q v }

abbrev pub set_timer : ℕ → Timer → Kernel → Kernel
set_timer i v k = record k { timers = update k.timers i v }

abbrev pub is_none {ℓ} : {A : Type ℓ} → Option A → Bool
is_none none = true
is_none (some a) = false
