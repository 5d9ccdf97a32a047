-- ===== src/System/Owners/From.antt =====
-- Code that starts where mutexes and lists are those of a kernel with the owners in agreement.
use rados.Base.{◌≡◌, refl, inl, inr, Bool, true, false, Option, none, some, if◌then◌else◌}
use rados.Kernel.{Kernel}
use rados.Kernel.Run.{Outcome, ok, switched, halted, fault, M, and_then, ◌>>=◌, ◌>>◌, get, modify}
use rados.System.Keeps.{Leads}
use rados.System.Steady.{
  SameMtxs, SameMtxs-refl, SameMtxs-trans, Steady, switched-SameMtxs, halted-SameMtxs,
  fault-SameMtxs,
}
use rados.System.Owners.{Owned, SameMtxs-Owned}

-- Wherever `m` leads from a kernel with the mutexes and lists of `k`, the owners agree.
pub record From {A : Type 0} (k : Kernel) (m : M A) : Type 0 where
  pub at : (k1 k' : Kernel) → SameMtxs k k1 → Leads (m k1) k' → Owned k'

-- It keeps the agreement.
pub record KeepsOwned {A : Type 0} (m : M A) : Type 0 where
  pub at : (k k' : Kernel) → Owned k → Leads (m k) k' → Owned k'

pub From-KeepsOwned : {A : Type 0} (m : M A) → ((k : Kernel) → Owned k → From k m) → KeepsOwned m
From-KeepsOwned m each = record { at = λ k k' o l. (each k o).at k k' (SameMtxs-refl k) l }

module _ (k : Kernel) (o : Owned k) where
  pub KeepsOwned-From : {A : Type 0} (m : M A) → KeepsOwned m → From k m
  KeepsOwned-From m keeps = record { at = λ k1 k' s l. keeps.at k1 k' (SameMtxs-Owned o s) l }

  pub Steady-From : {A : Type 0} (m : M A) → Steady m → From k m
  Steady-From m steady = record {
    at = λ k1 k' s l. SameMtxs-Owned o (SameMtxs-trans s (steady.at k1 k' l));
  }

  module _ {A B : Type 0} where
    and_then-From :
        (r : Outcome A) (f : A → M B) (k' : Kernel)
        → ((k1 : Kernel) → Leads r k1 → SameMtxs k k1)
        → ((a : A) → From k (f a))
        → Leads (and_then r f) k'
        → Owned k'
    and_then-From (ok a k1) f k' first next l = (next a).at k1 k' (first k1 (inl (a, refl))) l
    and_then-From (switched k1) f k' first next l =
        SameMtxs-Owned o (switched-SameMtxs (first k1 (inr refl)) l)
    and_then-From (halted k1) f k' first next l = SameMtxs-Owned o (halted-SameMtxs l)
    and_then-From fault f k' first next l = SameMtxs-Owned o (fault-SameMtxs l)

    -- A part that leaves the mutexes alone comes first.
    pub From-bind : (m : M A) (f : A → M B) → Steady m → ((a : A) → From k (f a)) → From k (m >>= f)
    From-bind m f steady next = record {
      at = λ k1 k' s l.
          and_then-From (m k1) f k' (λ k2 l. SameMtxs-trans s (steady.at k1 k2 l)) next l;
    }

-- A write comes first.
pub From-modify :
    {B : Type 0} (k : Kernel) (f : Kernel → Kernel) (rest : M B)
    → ((k1 : Kernel) → SameMtxs k k1 → From (f k1) rest)
    → From k (modify f >> rest)
From-modify k f rest writes = record {
  at = λ k1 k' s l. (writes k1 s).at (f k1) k' (SameMtxs-refl (f k1)) l;
}

-- The kernel is read first.
pub From-get :
    {B : Type 0} (k : Kernel) (f : Kernel → M B)
    → ((k1 : Kernel) → SameMtxs k k1 → From k (f k1))
    → From k (get >>= f)
From-get k f reads = record { at = λ k1 k' s l. (reads k1 s).at k1 k' s l }

and_then_assoc :
    {A B C : Type 0} (r : Outcome A) (f : A → M B) (g : B → M C)
    → and_then (and_then r f) g ≡ and_then r (λ a. f a >>= g)
and_then_assoc (ok a k) f g = refl
and_then_assoc (switched k) f g = refl
and_then_assoc (halted k) f g = refl
and_then_assoc fault f g = refl

pub From-assoc :
    {A B C : Type 0} (k : Kernel) (m : M A) (f : A → M B) (g : B → M C)
    → From k (m >>= λ a. f a >>= g)
    → From k ((m >>= f) >>= g)
From-assoc k m f g h = record {
  at = λ k1 k' s l. h.at k1 k' s (rw (and_then_assoc (m k1) f g) at l);
}

pub From-if :
    {A : Type 0} (k : Kernel) (b : Bool) (m n : M A)
    → From k m
    → From k n
    → From k (if b then m else n)
From-if k true m n left right = left
From-if k false m n left right = right

pub From-option :
    {A B : Type 0} (k : Kernel) (o : Option A) (m : M B) (f : A → M B)
    → (o ≡ none → From k m)
    → ((a : A) → o ≡ some a → From k (f a))
    → From k (elim o [ none ↦ m | some a ↦ f a ])
From-option k none m f left right = left refl
From-option k (some a) m f left right = right a refl

-- Code that keeps the agreement comes first.
module _ {A B : Type 0} where
  and_then-Owned :
      (r : Outcome A) (f : A → M B) (k k' : Kernel)
      → Owned k
      → ((k1 : Kernel) → Leads r k1 → Owned k1)
      → ((a : A) → KeepsOwned (f a))
      → Leads (and_then r f) k'
      → Owned k'
  and_then-Owned (ok a k1) f k k' o first next l = (next a).at k1 k' (first k1 (inl (a, refl))) l
  and_then-Owned (switched k1) f k k' o first next l =
      SameMtxs-Owned (first k1 (inr refl)) (switched-SameMtxs (SameMtxs-refl k1) l)
  and_then-Owned (halted k1) f k k' o first next l = SameMtxs-Owned o (halted-SameMtxs l)
  and_then-Owned fault f k k' o first next l = SameMtxs-Owned o (fault-SameMtxs l)

  pub KeepsOwned-bind :
      (m : M A) (f : A → M B) → KeepsOwned m → ((a : A) → KeepsOwned (f a)) → KeepsOwned (m >>= f)
  KeepsOwned-bind m f first next = record {
    at = λ k k' o l. and_then-Owned (m k) f k k' o (λ k1. first.at k k1 o) next l;
  }

pub Steady-KeepsOwned : {A : Type 0} (m : M A) → Steady m → KeepsOwned m
Steady-KeepsOwned m steady = From-KeepsOwned m λ k o. Steady-From k o m steady
