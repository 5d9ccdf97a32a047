-- ===== src/TaskQueue.antt =====
-- The task queues of source/os_sched.c: one list of tasks for each priority, and a mask of the
-- priorities in use. They serve as the ready queue and as the queue of every blocking object.
pub mod Valid
pub mod Ops
pub mod Dequeue
pub mod Arrival
pub mod Serve
use rados.Base.{
  ℕ, zero, suc, ◌-◌, ◌<◌, Bool, true, false, Option, none, some, List, [], ◌∷◌, ◌++◌, ◌==◌, ◌&&◌,
  ltb, if◌then◌else◌, update, is_empty, erase, not,
}
use rados.Bitmask.{arch_bitmask_set, arch_bitmask_clear, arch_bitmask_fls}
use rados.Kernel.{Kernel, Task, TaskQueue, priocnt}
use rados.Kernel.Run.{
  M, ok, fault, pure, and_then, ◌>>=◌, ◌>>◌, get, modify, crash, set_task, set_queue,
}

unfoldable pub os_taskqueue_init : ℕ → Kernel → Kernel
os_taskqueue_init q k = set_queue q (record { tasks = λ i. []; mask = 0; linked = true }) k

-- The queue with the bucket `prio` changed, and the mask bit cleared if the bucket is empty now.
unfoldable pub without : TaskQueue → ℕ → List ℕ → TaskQueue
without tq prio left = record tq {
  tasks = update tq.tasks prio left;
  mask = if is_empty left then arch_bitmask_clear tq.mask prio else tq.mask;
}

unfoldable pub appended : TaskQueue → ℕ → ℕ → TaskQueue
appended tq prio t = record tq {
  tasks = update tq.tasks prio (tq.tasks prio ++ t ∷ []);
  mask = arch_bitmask_set tq.mask prio;
}

-- The writes of `os_taskqueue_enqueue`.
unfoldable pub enqueued : ℕ → ℕ → Kernel → Kernel
unfolding appended
enqueued q t k =
    set_task t (record (k.tasks t) { task_queue = some q })
      (set_queue q (appended (k.queues q) (k.tasks t).prio_current t) k)

-- A bucket beyond the array, or one whose head was never linked, is undefined behaviour.
unfoldable pub os_taskqueue_enqueue : ℕ → ℕ → M (Unit {0})
os_taskqueue_enqueue q t k =
    if ltb (k.tasks t).prio_current priocnt && (k.queues q).linked
    then modify (enqueued q t) k
    else crash k

-- The writes of the functions that take a task off a queue: its bucket is left with `left`.
unfoldable pub removed : ℕ → ℕ → List ℕ → ℕ → Kernel → Kernel
unfolding without
removed q prio left t k =
    set_task t (record (k.tasks t) { task_queue = none })
      (set_queue q (without (k.queues q) prio left) k)

unfoldable pub os_taskqueue_unlink : ℕ → M (Unit {0})
os_taskqueue_unlink t k =
    let prio = (k.tasks t).prio_current in
    elim (k.tasks t).task_queue [
      | none ↦ crash k
      | some q ↦ modify (removed q prio (erase t ((k.queues q).tasks prio)) t) k
    ]

unfoldable pub set_prio_current : ℕ → ℕ → Kernel → Kernel
set_prio_current t prio k = set_task t (record (k.tasks t) { prio_current = prio }) k

unfoldable pub os_taskqueue_reprio : ℕ → ℕ → M (Unit {0})
os_taskqueue_reprio t new_prio k =
    if (k.tasks t).prio_current == new_prio then ok tt k else elim (k.tasks t).task_queue [
      | none ↦ modify (set_prio_current t new_prio) k
      | some q ↦
          (do os_taskqueue_unlink t; modify (set_prio_current t new_prio); os_taskqueue_enqueue q t)
            k
    ]

-- An empty bucket gives a pointer computed from NULL, and the write through it is a fault.
unfoldable pub os_taskqueue_intdequeue : ℕ → ℕ → M (Option ℕ)
os_taskqueue_intdequeue q maxprio k = elim ((k.queues q).tasks maxprio) [
  | [] ↦ crash k
  | t ∷ left ↦ ok (some t) (removed q maxprio left t k)
]

unfoldable pub os_taskqueue_dequeue : ℕ → M (Option ℕ)
os_taskqueue_dequeue q k =
    let maxprio = arch_bitmask_fls (k.queues q).mask in
    if maxprio == 0 then ok none k else os_taskqueue_intdequeue q (maxprio - 1) k

unfoldable pub os_taskqueue_dequeue_prio : ℕ → ℕ → M (Option ℕ)
os_taskqueue_dequeue_prio q prio k =
    let maxprio = arch_bitmask_fls (k.queues q).mask in
    if maxprio == 0
    then ok none k
    else if ltb (maxprio - 1) prio
    then ok none k
    else os_taskqueue_intdequeue q (maxprio - 1) k

unfoldable pub os_taskqueue_peek : ℕ → M (Option ℕ)
os_taskqueue_peek q k =
    let maxprio = arch_bitmask_fls (k.queues q).mask in
    if maxprio == 0
    then ok none k
    else elim ((k.queues q).tasks (maxprio - 1)) [ [] ↦ crash k | t ∷ left ↦ ok (some t) k ]
