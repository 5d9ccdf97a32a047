-- ===== src/System/Owners.antt =====
-- Who owns a mutex: the owner that a mutex of source/os_mtx.c names and the mutex lists of the tasks
-- agree in every kernel that is reached.
pub mod From
pub mod Locks
pub mod Reach
use rados.Base.{
  ℕ, ◌≡◌, refl, ◌∙◌, sym, inl, inr, true, false, Option, none, some, List, [], ◌∷◌, ◌++◌, arith,
  ◌==◌, ◌||◌, mem, erase, Distinct, mem-append, mem-erase, Distinct-erase, Distinct-snoc,
  Option-cases, subst, Bool-cases, if◌then◌else◌,
}
use rados.Kernel.{Kernel, Mtx}
use rados.Kernel.Run.{set_task}
use rados.Mtx.{set_mtx, set_mtx_list, os_mtx_set_owner, os_mtx_clear_owner, set_recur}
use rados.System.Steady.{SameMtxs}

-- A task owns exactly the mutexes in its list, each of which stands there once.
pub record Owned (k : Kernel) : Type 0 where
  pub listed : (m t : ℕ) → (k.mtxs m).owner ≡ some t → mem m (k.tasks t).mtx_list ≡ true
  pub owner : (m t : ℕ) → mem m (k.tasks t).mtx_list ≡ true → (k.mtxs m).owner ≡ some t
  pub once : (t : ℕ) → Distinct (k.tasks t).mtx_list

pub SameMtxs-Owned : {k k' : Kernel} → Owned k → SameMtxs k k' → Owned k'
SameMtxs-Owned o s = record {
  listed = λ m t e. rw (s.lists t) (o.listed m t (rw s.mtxs at e));
  owner = λ m t e. rw s.mtxs (o.owner m t (rw (s.lists t) at e));
  once = λ t. rw (s.lists t) (o.once t);
}

-- In no list of a task.
pub free-mem :
    {k : Kernel}
    → Owned k
    → (m t : ℕ) → (k.mtxs m).owner ≡ none
    → mem m (k.tasks t).mtx_list ≡ false
free-mem {k} o m t free = elim (Bool-cases (mem m (k.tasks t).mtx_list)) [
  | inl there ↦ absurd (cc (o.owner m t there, free))
  | inr out ↦ out
]

pub set_recur-Owned : (m n : ℕ) (k : Kernel) → Owned k → Owned (set_recur m n k)
unfolding set_recur set_mtx
set_recur-Owned m n k o = record {
  listed = λ a t e. o.listed a t (ground arith);
  owner = λ a t e. ground (arith, o.owner a t e);
  once = o.once;
}

-- A mutex that has no owner is set up, and one that gets its owner.
pub fresh-Owned :
    (m : ℕ) (k : Kernel)
    → Owned k
    → (k.mtxs m).owner ≡ none
    → Owned (set_mtx m (record { owner = none; recur = 0 }) k)
unfolding set_mtx
fresh-Owned m k o free = record {
  listed = λ a t e. o.listed a t (ground arith);
  owner = λ a t e. ground (arith, o.owner a t e);
  once = o.once;
}

pub os_mtx_set_owner-Owned :
    (m t : ℕ) (k : Kernel) → Owned k → (k.mtxs m).owner ≡ none → Owned (os_mtx_set_owner m t k)
unfolding os_mtx_set_owner set_mtx set_mtx_list
os_mtx_set_owner-Owned m t k o free = record {
  listed = λ a u e. ground (arith, o.listed a u, mem-append a (k.tasks t).mtx_list (m ∷ []));
  owner = λ a u e.
      ground (arith, o.owner a u, free-mem o m u free, mem-append a (k.tasks t).mtx_list (m ∷ []));
  once = λ u. elim (Bool-cases (u == t)) [
    | inl same ↦ rw same (Distinct-snoc (k.tasks t).mtx_list m (o.once t) (free-mem o m t free))
    | inr other ↦ rw other (o.once u)
  ];
}

-- A mutex is given up.
pub os_mtx_clear_owner-Owned :
    (m : ℕ) (k : Kernel)
    → Owned k
    → Owned (os_mtx_clear_owner m k) × (((os_mtx_clear_owner m k).mtxs m).owner ≡ none)
unfolding os_mtx_clear_owner set_mtx set_mtx_list
os_mtx_clear_owner-Owned m k o = elim (Option-cases (k.mtxs m).owner) [
  | inl free ↦
      rw (os_mtx_clear_owner, free)
        (
          record {
            listed = λ a u e. o.listed a u (ground arith);
            owner = λ a u e. ground (arith, o.owner a u e, free);
            once = o.once;
          },
          ground arith,
        )
  | inr (t, mine) ↦
      let gone = λ (a : ℕ). mem-erase a m (k.tasks t).mtx_list (o.once t) in
      rw (os_mtx_clear_owner, mine)
        (
          record {
            listed = λ a u e. ground (arith, o.listed a u, gone a, mine);
            owner = λ a u e. ground (arith, o.owner a u, o.owner m u, gone a, mine);
            once = λ u. elim (Bool-cases (u == t)) [
              | inl same ↦ rw same (Distinct-erase m (k.tasks t).mtx_list (o.once t))
              | inr other ↦ rw other (o.once u)
            ];
          },
          ground arith,
        )
]
