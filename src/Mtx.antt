-- ===== src/Mtx.antt =====
-- source/os_mtx.c: recursive mutexes with priority inheritance.
pub mod Boost
pub mod Lock
pub mod Waiters
pub mod Reset
pub mod Unlock
pub mod Handover
pub mod Destroy
use rados.Base.{
  ℕ, zero, suc, ◌+◌, ◌%◌, ◌^◌, Bool, true, false, not, Option, none, some, List, [], ◌∷◌, ◌++◌,
  ◌==◌, ◌&&◌, ltb, if◌then◌else◌, update, erase,
}
use rados.Kernel.{
  Kernel, Task, TaskBlock, Mtx, in_schedule, in_mtx_lock, task_idle, mtx_queue, mtx_of_queue, os_ok,
  os_destroyed,
}
use rados.Kernel.Run.{
  M, pure, ◌>>=◌, ◌>>◌, get, modify, crash, os_assert, arch_critical_enter, arch_critical_exit,
  set_task, is_none,
}
use rados.TaskQueue.{
  os_taskqueue_init, os_taskqueue_dequeue, os_taskqueue_peek, os_taskqueue_reprio, set_prio_current,
}
use rados.Sched.{os_schedule, os_task_makeready}
use rados.Block.{os_task_block_switch, set_block_code, wake_all, clear_queue, is_waiting}

unfoldable pub set_mtx : ℕ → Mtx → Kernel → Kernel
set_mtx m mtx k = record k { mtxs = update k.mtxs m mtx }

unfoldable pub set_mtx_list : ℕ → List ℕ → Kernel → Kernel
set_mtx_list t ms k = set_task t (record (k.tasks t) { mtx_list = ms }) k

unfoldable pub os_mtx_set_owner : ℕ → ℕ → Kernel → Kernel
os_mtx_set_owner m t k =
    set_mtx m (record { owner = some t; recur = 1 })
      (set_mtx_list t ((k.tasks t).mtx_list ++ m ∷ []) k)

-- The mutex stands in the list of its owner.
unfoldable pub os_mtx_clear_owner : ℕ → Kernel → Kernel
os_mtx_clear_owner m k =
    let freed = set_mtx m (record (k.mtxs m) { owner = none }) k in
    elim (k.mtxs m).owner [
      | none ↦ freed
      | some t ↦ set_mtx_list t (erase m (k.tasks t).mtx_list) freed
    ]

-- `os_max`.
abbrev pub os_max : ℕ → ℕ → ℕ
os_max x y = if ltb y x then x else y

abbrev pub is_mtx : TaskBlock → Bool
is_mtx TaskBlock.mtx = true
is_mtx _ = false

abbrev pub blocked_on_mtx : Task → Bool
blocked_on_mtx task = is_waiting task.state && is_mtx task.block_type

-- The loop of `os_mtx_lock_prio_boost`, on fuel: it follows the owners along the chain of mutexes on
-- which they wait. A NULL on the way is a fault.
unfoldable pub boost_loop : ℕ → ℕ → ℕ → M (Unit {0})
boost_loop zero task task_current_prio = crash
boost_loop (suc fuel) task task_current_prio = do
  k ← get
  os_taskqueue_reprio task (os_max (k.tasks k.task_current).prio_current task_current_prio)
  k ← get
  if blocked_on_mtx (k.tasks task)
      then elim (k.tasks task).task_queue [
        | none ↦ crash
        | some q ↦ elim (k.mtxs (mtx_of_queue q)).owner [
          | none ↦ crash
          | some owner ↦ boost_loop fuel owner task_current_prio
        ]
      ]
      else pure tt

unfoldable pub os_mtx_lock_prio_boost : ℕ → ℕ → M (Unit {0})
os_mtx_lock_prio_boost fuel m = do
  k ← get
  let task_current_prio = (k.tasks k.task_current).prio_current
  elim (k.mtxs m).owner [
    | none ↦ crash
    | some task ↦
        if ltb (k.tasks task).prio_current task_current_prio
        then boost_loop fuel task task_current_prio
        else pure tt
  ]

-- The highest priority among `prio` and the tasks that wait for the mutexes of a list.
unfoldable pub highest_waiter : List ℕ → ℕ → M ℕ
highest_waiter [] prio_new = pure prio_new
highest_waiter (itr ∷ rest) prio_new = do
  task ← os_taskqueue_peek (mtx_queue itr)
  k ← get
  highest_waiter rest
      (elim task [ none ↦ prio_new | some t ↦ os_max prio_new (k.tasks t).prio_current ])

unfoldable pub os_mtx_unlock_prio_reset : M (Unit {0})
os_mtx_unlock_prio_reset = do
  k ← get
  let task = k.tasks k.task_current
  if task.prio_current == task.prio_base then pure tt else do
    prio_new ← highest_waiter task.mtx_list task.prio_base
    modify (set_prio_current k.task_current prio_new)

unfoldable pub os_mtx_create : ℕ → M (Unit {0})
os_mtx_create m = do
  k ← get
  os_assert (k.isr_nesting == 0)
  os_assert (is_none k.waitqueue_current)
  modify (set_mtx m (record { owner = none; recur = 0 }))
  modify (os_taskqueue_init (mtx_queue m))

-- No timer guards a wait for a mutex.
unfoldable pub wake_from_mtx : ℕ → ℕ → M (Unit {0})
wake_from_mtx code t = do modify (set_block_code t code); os_task_makeready t

-- The part of `os_mtx_destroy` for a locked mutex.
unfoldable pub destroy_locked : ℕ → ℕ → ℕ → M (Unit {0})
destroy_locked fuel m owner = do
  k ← get
  os_assert (owner == k.task_current)
  modify (os_mtx_clear_owner m)
  os_mtx_unlock_prio_reset
  wake_all fuel (wake_from_mtx os_destroyed) (mtx_queue m)

unfoldable pub os_mtx_destroy : ℕ → ℕ → M (Unit {0})
os_mtx_destroy fuel m = do
  k ← get
  os_assert (k.isr_nesting == 0)
  os_assert (is_none k.waitqueue_current)
  cristate ← arch_critical_enter
  elim (k.mtxs m).owner [ none ↦ pure tt | some owner ↦ destroy_locked fuel m owner ]
  modify (set_mtx m (record { owner = none; recur = 0 }))
  modify (clear_queue (mtx_queue m))
  os_schedule 1 (in_schedule cristate)
  arch_critical_exit cristate

-- `recur` is a `uint_fast8_t`.
unfoldable pub set_recur : ℕ → ℕ → Kernel → Kernel
set_recur m n k = set_mtx m (record (k.mtxs m) { recur = n }) k

unfoldable pub os_mtx_lock : ℕ → ℕ → M ℕ
os_mtx_lock fuel m = do
  k ← get
  os_assert (k.isr_nesting == 0)
  os_assert (not (k.task_current == task_idle))
  os_assert (is_none k.waitqueue_current)
  cristate ← arch_critical_enter
  elim (k.mtxs m).owner [
    | none ↦ (do
      modify (os_mtx_set_owner m k.task_current)
      arch_critical_exit cristate
      pure os_ok)
    | some owner ↦
        if owner == k.task_current
        then (do
          modify (set_recur m (((k.mtxs m).recur + 1) % 2 ^ 8))
          arch_critical_exit cristate
          pure os_ok)
        else (do
          os_mtx_lock_prio_boost fuel m
          os_task_block_switch (mtx_queue m) TaskBlock.mtx (in_mtx_lock cristate))
  ]

-- The part of `os_mtx_unlock` that gives the mutex up.
unfoldable pub pass_on : ℕ → Bool → M (Unit {0})
pass_on m cristate = do
  modify (os_mtx_clear_owner m)
  os_mtx_unlock_prio_reset
  task ← os_taskqueue_dequeue (mtx_queue m)
  elim task [
    | none ↦ pure tt
    | some t ↦ (do
      modify (os_mtx_set_owner m t)
      wake_from_mtx os_ok t
      os_schedule 1 (in_schedule cristate))
  ]

abbrev pub owned_by : Option ℕ → ℕ → Bool
owned_by none t = false
owned_by (some owner) t = owner == t

unfoldable pub os_mtx_unlock : ℕ → M (Unit {0})
os_mtx_unlock m = do
  k ← get
  os_assert (k.isr_nesting == 0)
  os_assert (owned_by (k.mtxs m).owner k.task_current)
  os_assert (is_none k.waitqueue_current)
  cristate ← arch_critical_enter
  let recur = ((k.mtxs m).recur + 255) % 2 ^ 8
  modify (set_recur m recur)
  if ltb 0 recur then pure tt else pass_on m cristate
  arch_critical_exit cristate
