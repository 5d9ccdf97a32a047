-- ===== src/Sched.antt =====
-- The scheduler of source/os_sched.c, with the inline functions of source/os_private.h. Where a call
-- may leave the CPU, its last argument is the context in which the caller goes on later.
pub mod Valid
pub mod Schedule
pub mod Exit
pub mod Init
pub mod Lock
use rados.Base.{
  ℕ, ◌+◌, ◌-◌, ◌%◌, ◌^◌, Bool, true, false, Option, none, some, [], ◌==◌, ◌&&◌, not, leb,
  if◌then◌else◌, update,
}
use rados.Kernel.{Kernel, Task, TaskState, TaskBlock, Context, in_schedule, task_idle, ready_queue}
use rados.Kernel.Run.{
  M, ok, switched, pure, and_then, ◌>>=◌, ◌>>◌, get, modify, os_assert, arch_critical_enter,
  arch_critical_exit, set_task, is_none,
}
use rados.TaskQueue.{os_taskqueue_enqueue, os_taskqueue_dequeue, os_taskqueue_dequeue_prio}

unfoldable pub set_state : ℕ → TaskState → Kernel → Kernel
set_state t s k = set_task t (record (k.tasks t) { state = s }) k

unfoldable pub os_task_makeready : ℕ → M (Unit {0})
os_task_makeready t = do modify (set_state t TaskState.ready); os_taskqueue_enqueue ready_queue t

unfoldable pub set_waiting : TaskBlock → Kernel → Kernel
set_waiting block_type k =
    set_task k.task_current
      (record (k.tasks k.task_current) { state = TaskState.wait; block_type = block_type }) k

unfoldable pub os_task_makewait : ℕ → TaskBlock → M (Unit {0})
os_task_makewait q block_type = do
  modify (set_waiting block_type)
  k ← get
  os_taskqueue_enqueue q k.task_current

-- The registers of the current task are saved, and the CPU goes on where the new task left it.
unfoldable pub arch_context_switch : {A : Type 0} → ℕ → Context → M A
arch_context_switch new_task ctx k =
    switched (record (set_task k.task_current (record (k.tasks k.task_current) { ctx = ctx }) k) {
      task_current = new_task;
    })

-- Both callers run the current task.
unfoldable pub set_running : Kernel → Kernel
unfolding set_state
set_running k = set_state k.task_current TaskState.running k

-- From an interrupt only `task_current` changes: the interrupted code was saved on entry, and the
-- registers of the new task are restored on exit.
unfoldable pub switch_to : ℕ → Context → M (Unit {0})
switch_to new_task ctx = do
  k ← get
  os_task_makeready k.task_current
  if k.isr_nesting == 0
      then arch_context_switch new_task ctx
      else modify (λ k. record k { task_current = new_task })
  modify set_running

-- The part of `os_schedule` under its test. The sum is an `int`, and is passed as a `uint_fast8_t`.
unfoldable pub choose : ℕ → Context → M (Unit {0})
choose higher_prio ctx = do
  k ← get
  new_task ←
      os_taskqueue_dequeue_prio ready_queue
        (((k.tasks k.task_current).prio_current + higher_prio) % 2 ^ 8)
  elim new_task [ none ↦ pure tt | some t ↦ switch_to t ctx ]

unfoldable pub os_schedule : ℕ → Context → M (Unit {0})
os_schedule higher_prio ctx = do
  k ← get
  os_assert k.dint
  if leb k.isr_nesting 1 && k.sched_lock == 0 then choose higher_prio ctx else pure tt
