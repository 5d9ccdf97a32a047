-- ===== src/Mtx/Lock.antt =====
-- `os_mtx_lock`, on every branch.
use rados.Base.{
  ℕ, ◌+◌, ◌%◌, ◌^◌, ◌≤◌, ◌≡◌, refl, ◌∙◌, true, false, none, some, List, [], ◌∷◌, ◌++◌, arith, ◌==◌,
  ltb, if◌then◌else◌, length,
}
use rados.Kernel.{Kernel, TaskBlock, in_mtx_lock, task_idle, mtx_queue, os_ok}
use rados.Kernel.Run.{ok, switched, is_none}
use rados.Sched.Valid.{KernelValid, same-KernelValid}
use rados.Block.Wake.{set_task-KernelValid}
use rados.Block.Switch.{Blocked, os_task_block_switch-Blocked}
use rados.Mtx.{set_mtx, set_mtx_list, os_mtx_set_owner, set_recur, os_mtx_lock}
use rados.Mtx.Boost.{Chain, Boosted, Chain-same, os_mtx_lock_prio_boost-Boosted}
use rados.Sem.Down.{inside}

-- What the assertions of `os_mtx_lock` ask for.
pub record MayLock (k : Kernel) : Type 0 where
  pub in_task : (k.isr_nesting == 0) ≡ true
  pub busy : (k.task_current == task_idle) ≡ false
  pub unprepared : is_none k.waitqueue_current ≡ true

-- What a call that takes a free mutex does.
pub record Taken (m : ℕ) (k k' : Kernel) : Type 0 where
  pub valid : KernelValid k'
  pub mtx : k'.mtxs m ≡ record { owner = some k.task_current; recur = 1 }
  pub task :
      k'.tasks k.task_current
      ≡ record (k.tasks k.task_current) { mtx_list = (k.tasks k.task_current).mtx_list ++ m ∷ [] }
  pub others : (a : ℕ) → (a == k.task_current) ≡ false → k'.tasks a ≡ k.tasks a
  pub rest : k' ≡ record k { tasks = k'.tasks; mtxs = k'.mtxs }

module _ (k : Kernel) (v : KernelValid k) (may : MayLock k) (fuel m : ℕ) where
  -- In a valid kernel that meets the assertions of `os_mtx_lock`, the call for a mutex without
  -- owner returns OS_OK: the current task owns it with recursion level 1 and has it last in its
  -- list, no other task changes, and the kernel stays valid.
  pub os_mtx_lock-Taken :
      (k.mtxs m).owner ≡ none → (k' : Kernel) × (os_mtx_lock fuel m k ≡ ok os_ok k') × Taken m k k'
  unfolding os_mtx_lock os_mtx_set_owner set_mtx set_mtx_list
  os_mtx_lock-Taken free =
      let t = k.task_current in
      let task = record (k.tasks t) { mtx_list = (k.tasks t).mtx_list ++ m ∷ [] } in
      let v1 = set_task-KernelValid k v t task refl refl refl (λ i e. e) in
      (
        record (os_mtx_set_owner m t k) { dint = k.dint },
        rw (may.in_task, may.busy, may.unprepared, free) refl,
        record {
          valid = same-KernelValid _ _ refl refl refl (λ i e. e) v1;
          mtx = ground arith;
          task = ground arith;
          others = λ a n. ground arith;
          rest = refl;
        },
      )

  -- A mutex of the current task is locked once more.
  pub os_mtx_lock-set_recur :
      (k.mtxs m).owner ≡ some k.task_current
      → os_mtx_lock fuel m k
        ≡ ok os_ok (
            set_mtx m
              (record { owner = some k.task_current; recur = ((k.mtxs m).recur + 1) % 2 ^ 8 })
              k)
  unfolding os_mtx_lock set_recur set_mtx
  os_mtx_lock-set_recur mine =
      let same : (k.task_current == k.task_current) ≡ true = ground arith in
      rw (may.in_task, may.busy, may.unprepared, mine, same, mine) refl

  -- In a valid kernel that meets the assertions of `os_mtx_lock`, for a mutex that was created and
  -- that another task owns, with a finite chain of owners and fuel for it, the call boosts the
  -- owners of the chain where the first has a lower priority than the current task, and then blocks
  -- the current task in the queue of the mutex.
  pub os_mtx_lock-Blocked :
      {owner : ℕ} {ts : List ℕ}
      → (k.mtxs m).owner ≡ some owner
      → (owner == k.task_current) ≡ false
      → Chain k owner ts
      → length ts ≤ fuel
      → (k.queues (mtx_queue m)).linked ≡ true
      → let prio = (k.tasks k.task_current).prio_current in
        (k1 k' : Kernel) × (os_mtx_lock fuel m k ≡ switched k')
        × Boosted prio (if ltb (k.tasks owner).prio_current prio then ts else []) (inside k) k1
        × Blocked (mtx_queue m) TaskBlock.mtx (in_mtx_lock k.dint) k1 k'
  unfolding os_mtx_lock
  os_mtx_lock-Blocked {owner} {ts} eo other c enough link =
      let v1 = same-KernelValid k (inside k) refl refl refl (λ i e. e) v in
      let c1 = Chain-same k (inside k) (λ a. refl) refl c in
      let (k1, e, b) = os_mtx_lock_prio_boost-Boosted fuel m (inside k) v1 eo c1 enough in
      let current : k1.task_current ≡ k.task_current = ground (arith, b.rest) in
      let (k', runs, blocked) =
        os_task_block_switch-Blocked k1 b.valid (mtx_queue m) TaskBlock.mtx (in_mtx_lock k.dint)
          (b.linked (mtx_queue m) ∙ link) (ground arith) (rw current may.busy) {A = ℕ} in
      (k1, k', rw (may.in_task, may.busy, may.unprepared, eo, other, e) runs, b, blocked)
