-- ===== src/System/Steady.antt =====
-- Code that leaves every mutex and every task's list of mutexes as they are, wherever it leads: one
-- rule for each way to build code, and the ruleset by which `search` goes through a `do` block.
pub mod Queues
pub mod Waking
pub mod Ticks
pub mod Calls
pub mod Tasks
pub mod Prios
use rados.Base.{
  ℕ, ◌≡◌, refl, inl, inr, Bool, true, false, Option, none, some, List, [], ◌∷◌, if◌then◌else◌,
  arith, ◌∙◌, Bool-cases,
}
use rados.Kernel.{Kernel, Task, TaskQueue, Timer, Context}
use rados.Kernel.Run.{
  Outcome, ok, switched, halted, fault, M, pure, and_then, ◌>>=◌, ◌>>◌, get, modify, os_assert,
  os_halt, arch_critical_enter, arch_critical_exit, crash, set_task, set_queue, set_timer,
}
use rados.System.Keeps.{Leads}

-- The mutexes and the lists are those of `k`.
pub record SameMtxs (k k' : Kernel) : Type 0 where
  pub mtxs : k'.mtxs ≡ k.mtxs
  pub lists : (t : ℕ) → (k'.tasks t).mtx_list ≡ (k.tasks t).mtx_list

pub record Steady {A : Type 0} (m : M A) : Type 0 where
  pub at : (k k' : Kernel) → Leads (m k) k' → SameMtxs k k'

pub SameMtxs-refl : (k : Kernel) → SameMtxs k k
SameMtxs-refl k = record { mtxs = refl; lists = λ t. refl }

pub SameMtxs-trans : {k k1 k' : Kernel} → SameMtxs k k1 → SameMtxs k1 k' → SameMtxs k k'
SameMtxs-trans s t = record { mtxs = t.mtxs ∙ s.mtxs; lists = λ a. t.lists a ∙ s.lists a }

pub ok-SameMtxs :
    {A : Type 0} {a : A} {k k1 k' : Kernel} → SameMtxs k k1 → Leads (ok a k1) k' → SameMtxs k k'
ok-SameMtxs s (inl (a, e)) = record { mtxs = cc (s.mtxs, e); lists = λ t. cc (s.lists t, e) }
ok-SameMtxs s (inr e) = absurd (cc)

pub switched-SameMtxs :
    {A : Type 0} {k k1 k' : Kernel} → SameMtxs k k1 → Leads {A = A} (switched k1) k' → SameMtxs k k'
switched-SameMtxs s (inl (a, e)) = absurd (cc)
switched-SameMtxs s (inr e) = record { mtxs = cc (s.mtxs, e); lists = λ t. cc (s.lists t, e) }

pub halted-SameMtxs : {A : Type 0} {k k1 k' : Kernel} → Leads {A = A} (halted k1) k' → SameMtxs k k'
halted-SameMtxs (inl (a, e)) = absurd (cc)
halted-SameMtxs (inr e) = absurd (cc)

pub fault-SameMtxs : {A : Type 0} {k k' : Kernel} → Leads {A = A} fault k' → SameMtxs k k'
fault-SameMtxs (inl (a, e)) = absurd (cc)
fault-SameMtxs (inr e) = absurd (cc)

module _ {A B : Type 0} where
  pub and_then-SameMtxs :
      (r : Outcome A) (f : A → M B) (k k' : Kernel)
      → ((k1 : Kernel) → Leads r k1 → SameMtxs k k1)
      → ((a : A) → Steady (f a))
      → Leads (and_then r f) k'
      → SameMtxs k k'
  and_then-SameMtxs (ok a k1) f k k' first next l =
      SameMtxs-trans (first k1 (inl (a, refl))) ((next a).at k1 k' l)
  and_then-SameMtxs (switched k1) f k k' first next l = switched-SameMtxs (first k1 (inr refl)) l
  and_then-SameMtxs (halted k1) f k k' first next l = halted-SameMtxs l
  and_then-SameMtxs fault f k k' first next l = fault-SameMtxs l

  pub Steady-bind : (m : M A) (f : A → M B) → Steady m → ((a : A) → Steady (f a)) → Steady (m >>= f)
  Steady-bind m f first next = record {
    at = λ k k' l. and_then-SameMtxs (m k) f k k' (λ k1 l. first.at k k1 l) next l;
  }

  pub Steady-option :
      (o : Option A) (m : M B) (f : A → M B)
      → Steady m
      → ((a : A) → Steady (f a))
      → Steady (elim o [ none ↦ m | some a ↦ f a ])
  Steady-option none m f left right = left
  Steady-option (some a) m f left right = right a

module _ {A B : Type 0} where
  pub Steady-bind-option :
      (m : M (Option A)) (n : M B) (f : A → M B)
      → Steady m
      → Steady n
      → ((a : A) → Steady (f a))
      → Steady (m >>= λ o. elim o [ none ↦ n | some a ↦ f a ])
  Steady-bind-option m n f first left right =
      Steady-bind m _ first λ o. Steady-option o n f left right

module _ {A B C : Type 0} where
  pub Steady-bind-option-then :
      (m : M (Option A)) (n : M B) (f : A → M B) (rest : M C)
      → Steady m
      → Steady n
      → ((a : A) → Steady (f a))
      → Steady rest
      → Steady (m >>= λ o. (elim o [ none ↦ n | some a ↦ f a ]) >> rest)
  Steady-bind-option-then m n f rest first left right last =
      Steady-bind m _ first λ o. Steady-bind _ _ (Steady-option o n f left right) λ _. last

module _ {A : Type 0} where
  pub Steady-pure : (a : A) → Steady (pure a)
  Steady-pure a = record { at = λ k k' l. ok-SameMtxs (SameMtxs-refl k) l }

  pub Steady-crash : Steady (crash {A = A})
  Steady-crash = record { at = λ k k' l. fault-SameMtxs l }

  pub Steady-if : (b : Bool) (m n : M A) → Steady m → Steady n → Steady (if b then m else n)
  Steady-if true m n left right = left
  Steady-if false m n left right = right

pub Steady-get : Steady get
Steady-get = record { at = λ k k' l. ok-SameMtxs (SameMtxs-refl k) l }

pub Steady-modify : (f : Kernel → Kernel) → ((k : Kernel) → SameMtxs k (f k)) → Steady (modify f)
Steady-modify f same = record { at = λ k k' l. ok-SameMtxs (same k) l }

pub Steady-os_assert : (b : Bool) → Steady (os_assert b)
Steady-os_assert true = Steady-pure tt
Steady-os_assert false = record { at = λ k k' l. halted-SameMtxs l }

pub Steady-os_halt : Steady os_halt
Steady-os_halt = record { at = λ k k' l. halted-SameMtxs l }

pub Steady-arch_critical_enter : Steady arch_critical_enter
Steady-arch_critical_enter = record {
  at = λ k k' l. ok-SameMtxs (record { mtxs = refl; lists = λ t. refl }) l;
}

pub Steady-arch_critical_exit : (c : Bool) → Steady (arch_critical_exit c)
Steady-arch_critical_exit c = record {
  at = λ k k' l. ok-SameMtxs (record { mtxs = refl; lists = λ t. refl }) l;
}

-- What the code that starts in `k` comes to, for code that is written with its kernel.
pub record SteadyAt {A : Type 0} (k : Kernel) (r : Outcome A) : Type 0 where
  pub leads : (k' : Kernel) → Leads r k' → SameMtxs k k'

pub Steady-at : {A : Type 0} (m : M A) → ((k : Kernel) → SteadyAt k (m k)) → Steady m
Steady-at m each = record { at = λ k k' l. (each k).leads k' l }

module _ {A : Type 0} (k : Kernel) where
  pub SteadyAt-ok : (a : A) (k1 : Kernel) → SameMtxs k k1 → SteadyAt k (ok a k1)
  SteadyAt-ok a k1 s = record { leads = λ k' l. ok-SameMtxs s l }

  pub SteadyAt-switched : (k1 : Kernel) → SameMtxs k k1 → SteadyAt {A = A} k (switched k1)
  SteadyAt-switched k1 s = record { leads = λ k' l. switched-SameMtxs s l }

  pub SteadyAt-fault : SteadyAt {A = A} k fault
  SteadyAt-fault = record { leads = λ k' l. fault-SameMtxs l }

  pub SteadyAt-if :
      (b : Bool) (r s : Outcome A) → SteadyAt k r → SteadyAt k s → SteadyAt k (if b then r else s)
  SteadyAt-if true r s left right = left
  SteadyAt-if false r s left right = right

module _ {A B : Type 0} (k : Kernel) where
  pub SteadyAt-option :
      (o : Option A) (r : Outcome B) (f : A → Outcome B)
      → SteadyAt k r
      → ((a : A) → SteadyAt k (f a))
      → SteadyAt k (elim o [ none ↦ r | some a ↦ f a ])
  SteadyAt-option none r f left right = left
  SteadyAt-option (some a) r f left right = right a

  pub SteadyAt-list :
      (xs : List A) (r : Outcome B) (f : A → List A → Outcome B)
      → SteadyAt k r
      → ((x : A) (rest : List A) → SteadyAt k (f x rest))
      → SteadyAt k (elim xs [ [] ↦ r | x ∷ rest ↦ f x rest ])
  SteadyAt-list [] r f left right = left
  SteadyAt-list (x ∷ rest) r f left right = right x rest

-- Writes to one object.
pub set_task-SameMtxs :
    (t : ℕ) (v : Task) (k : Kernel)
    → v.mtx_list ≡ (k.tasks t).mtx_list
    → SameMtxs k (set_task t v k)
set_task-SameMtxs t v k e = record { mtxs = refl; lists = λ a. ground arith }

pub ruleset steady_rules = (
  Steady-bind, Steady-bind-option, Steady-bind-option-then, Steady-pure, Steady-crash, Steady-if,
  Steady-get, Steady-modify, Steady-os_assert, Steady-os_halt, Steady-arch_critical_enter,
  Steady-arch_critical_exit,
)

pub ruleset at_rules =
    (Steady-at, SteadyAt-ok, SteadyAt-switched, SteadyAt-fault, SteadyAt-if, SameMtxs-refl)
