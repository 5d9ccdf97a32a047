-- ===== src/System/Keeps.antt =====
-- What a piece of kernel code leads to, and code that keeps the kernel valid wherever it leads.
use rados.Base.{ℕ, ◌≡◌, refl, ◌⊎◌, inl, inr, Bool, true, false, subst, if◌then◌else◌, Bool-cases}
use rados.Kernel.{Kernel, Context}
use rados.Kernel.Run.{
  Outcome, ok, switched, halted, fault, M, pure, and_then, ◌>>=◌, get, modify, os_assert,
  arch_critical_enter, arch_critical_exit, crash,
}
use rados.Kernel.Runs.{Runs, returns, switches}
use rados.Sched.{os_schedule}
use rados.Sched.Valid.{KernelValid, same-KernelValid}
use rados.Sched.Schedule.{os_schedule-Schedules}
use rados.Sched.Exit.{Schedules-Runs}

-- The code returns with the kernel `k'`, or leaves it to another task. Code that halts or faults leads
-- nowhere.
abbrev pub Leads : {A : Type 0} → Outcome A → Kernel → Type 0
Leads {A} r k' = ((a : A) × (r ≡ ok a k')) ⊎ (r ≡ switched k')

abbrev pub Keeps : {A : Type 0} → M A → Type 0
Keeps m = (k k' : Kernel) → KernelValid k → Leads (m k) k' → KernelValid k'

pub Runs-Leads :
    {A : Type 0} {r : Outcome A} {k' : Kernel}
    → Runs KernelValid (λ _. KernelValid) r
    → Leads r k'
    → KernelValid k'
Runs-Leads (returns q) (inl (a, e)) = subst KernelValid (cc) q
Runs-Leads (returns q) (inr e) = absurd (cc)
Runs-Leads (switches q) (inl (a, e)) = absurd (cc)
Runs-Leads (switches q) (inr e) = subst KernelValid (cc) q

pub ok-Leads :
    {A : Type 0} {r : Outcome A} {a : A} {k1 k' : Kernel}
    → r ≡ ok a k1
    → KernelValid k1
    → Leads r k'
    → KernelValid k'
ok-Leads e v (inl (a, h)) = subst KernelValid (cc) v
ok-Leads e v (inr h) = absurd (cc)

pub switched-Leads :
    {A : Type 0} {r : Outcome A} {k1 k' : Kernel}
    → r ≡ switched k1
    → KernelValid k1
    → Leads r k'
    → KernelValid k'
switched-Leads e v (inl (a, h)) = absurd (cc)
switched-Leads e v (inr h) = subst KernelValid (cc) v

pub nowhere-Leads :
    {A : Type 0} {r : Outcome A} {k' : Kernel}
    → ((k1 : Kernel) × (r ≡ halted k1)) ⊎ (r ≡ fault)
    → Leads r k'
    → KernelValid k'
nowhere-Leads (inl (k1, e)) (inl (a, h)) = absurd (cc)
nowhere-Leads (inl (k1, e)) (inr h) = absurd (cc)
nowhere-Leads (inr e) (inl (a, h)) = absurd (cc)
nowhere-Leads (inr e) (inr h) = absurd (cc)

module _ {A B : Type 0} where
  pub bind_step :
      (r : Outcome A) (f : A → M B) (k' : Kernel)
      → ((k1 : Kernel) → Leads r k1 → KernelValid k1)
      → ((a : A) → Keeps (f a))
      → Leads (and_then r f) k'
      → KernelValid k'
  bind_step (ok a k1) f k' first next l = next a k1 k' (first k1 (inl (a, refl))) l
  bind_step (switched k1) f k' first next l = switched-Leads refl (first k1 (inr refl)) l
  bind_step (halted k1) f k' first next l = nowhere-Leads (inl (k1, refl)) l
  bind_step fault f k' first next l = nowhere-Leads (inr refl) l

  pub Keeps-bind : (m : M A) (f : A → M B) → Keeps m → ((a : A) → Keeps (f a)) → Keeps (m >>= f)
  Keeps-bind m f first next k k' v l = bind_step (m k) f k' (λ k1. first k k1 v) next l

pub Keeps-pure : {A : Type 0} (a : A) → Keeps (pure a)
Keeps-pure a k k' v l = ok-Leads refl v l

pub Keeps-get : Keeps get
Keeps-get k k' v l = ok-Leads refl v l

pub Keeps-modify :
    (f : Kernel → Kernel) → ((k : Kernel) → KernelValid k → KernelValid (f k)) → Keeps (modify f)
Keeps-modify f keeps k k' v l = ok-Leads refl (keeps k v) l

pub Keeps-os_assert : (b : Bool) → Keeps (os_assert b)
Keeps-os_assert true k k' v l = ok-Leads refl v l
Keeps-os_assert false k k' v l = nowhere-Leads (inl (_, refl)) l

pub Keeps-crash : {A : Type 0} → Keeps (crash {A = A})
Keeps-crash k k' v l = nowhere-Leads (inr refl) l

pub Keeps-if : {A : Type 0} (b : Bool) (m n : M A) → Keeps m → Keeps n → Keeps (if b then m else n)
Keeps-if true m n keeps_m keeps_n = keeps_m
Keeps-if false m n keeps_m keeps_n = keeps_n

pub Keeps-arch_critical_enter : Keeps arch_critical_enter
Keeps-arch_critical_enter k k' v l =
    ok-Leads refl (same-KernelValid k _ refl refl refl (λ i e. e) v) l

pub Keeps-arch_critical_exit : (c : Bool) → Keeps (arch_critical_exit c)
Keeps-arch_critical_exit c k k' v l =
    ok-Leads refl (same-KernelValid k _ refl refl refl (λ i e. e) v) l

-- With interrupts on `os_schedule` halts.
os_schedule-on :
    (higher_prio : ℕ) (ctx : Context) (k : Kernel)
    → k.dint ≡ false
    → os_schedule higher_prio ctx k ≡ halted (record k { dint = true; sched_lock = 1 })
unfolding os_schedule
os_schedule-on higher_prio ctx k on = rw on refl

pub Keeps-os_schedule : (higher_prio : ℕ) (ctx : Context) → Keeps (os_schedule higher_prio ctx)
Keeps-os_schedule higher_prio ctx k k' v l = elim (Bool-cases k.dint) [
  | inl off ↦ Runs-Leads (Schedules-Runs v (os_schedule-Schedules k v ctx higher_prio off)) l
  | inr on ↦ nowhere-Leads (inl (_, os_schedule-on higher_prio ctx k on)) l
]

-- Where what the first part leaves is known.
module _ {A B : Type 0} where
  into_step :
      (r : Outcome A) (f : A → M B) (k' : Kernel)
      → ((a : A) (k1 : Kernel) → r ≡ ok a k1 → Leads (f a k1) k' → KernelValid k')
      → ((k1 : Kernel) → r ≡ switched k1 → KernelValid k1)
      → Leads (and_then r f) k'
      → KernelValid k'
  into_step (ok a k1) f k' next other l = next a k1 refl l
  into_step (switched k1) f k' next other l = switched-Leads refl (other k1 refl) l
  into_step (halted k1) f k' next other l = nowhere-Leads (inl (k1, refl)) l
  into_step fault f k' next other l = nowhere-Leads (inr refl) l

  pub bind_into :
      (m : M A) (f : A → M B) (k k' : Kernel)
      → ((a : A) (k1 : Kernel) → m k ≡ ok a k1 → Leads (f a k1) k' → KernelValid k')
      → ((k1 : Kernel) → m k ≡ switched k1 → KernelValid k1)
      → Leads ((m >>= f) k) k'
      → KernelValid k'
  bind_into m f k k' next other l = into_step (m k) f k' next other l

-- An assertion that fails leads nowhere.
pub assert_step :
    {B : Type 0} (b : Bool) (f : Unit {0} → M B) (k k' : Kernel)
    → (b ≡ true → Leads (f tt k) k' → KernelValid k')
    → Leads ((os_assert b >>= f) k) k'
    → KernelValid k'
assert_step true f k k' next l = next refl l
assert_step false f k k' next l = nowhere-Leads (inl (_, refl)) l
