-- ===== src/Kernel/Runs.antt =====
-- Correctness of a piece of kernel code: it neither halts nor faults, what it returns meets `Q`, and
-- where it gives the CPU away it leaves a kernel that meets `P`.
use rados.Base.{◌≡◌, Bool, true}
use rados.Kernel.{Kernel}
use rados.Kernel.Run.{Outcome, ok, switched, M, and_then, os_assert}

pub data Runs {A : Type 0} (P : Kernel → Type 0) (Q : A → Kernel → Type 0)
    : Outcome A → Type 0 where
  returns : {a : A} {k : Kernel} → Q a k → Runs P Q (ok a k)
  switches : {k : Kernel} → P k → Runs P Q (switched k)

module _ {A : Type 0} {P : Kernel → Type 0} {Q : A → Kernel → Type 0} where
  pub bind :
      {B : Type 0} {R : B → Kernel → Type 0} {r : Outcome A} {f : A → M B}
      → Runs P Q r
      → ((a : A) (k : Kernel) → Q a k → Runs P R (f a k))
      → Runs P R (and_then r f)
  bind (returns q) next = next _ _ q
  bind (switches p) next = switches p

  pub mono :
      {R : A → Kernel → Type 0} {r : Outcome A}
      → Runs P Q r
      → ((a : A) (k : Kernel) → Q a k → R a k)
      → Runs P R r
  mono (returns q) weaken = returns (weaken _ _ q)
  mono (switches p) weaken = switches p

  pub of_ok : {a : A} {k : Kernel} {r : Outcome A} → r ≡ ok a k → Q a k → Runs P Q r
  of_ok e q = rw e (returns q)

  -- An assertion that holds goes by.
  pub assert_true :
      {b : Bool} {k : Kernel} (f : Unit {0} → M A)
      → b ≡ true
      → Runs P Q (f tt k)
      → Runs P Q (and_then (os_assert b k) f)
  assert_true f e h = rw e h
