-- ===== src/Block.antt =====
-- What every blocking object does with tasks: source/os_private.h (`os_blocktimer_create`,
-- `os_blocktimer_destroy`), `os_task_block_switch` of os_sched.c, and the loops that wake tasks up.
pub mod Wake
pub mod Ready
pub mod Guard
pub mod Switch
pub mod Drain
use rados.Base.{
  ℕ, zero, suc, ◌-◌, Bool, true, false, Option, none, some, [], ◌==◌, ◌||◌, ltb, if◌then◌else◌,
  update,
}
use rados.Kernel.{
  Kernel, Task, TaskState, TaskBlock, Context, Callback, ready_queue, os_ok, os_timeout,
}
use rados.Kernel.Run.{
  M, ok, pure, and_then, ◌>>=◌, ◌>>◌, get, modify, crash, os_assert, set_task, set_queue, is_none,
}
use rados.TaskQueue.{os_taskqueue_dequeue, os_taskqueue_unlink}
use rados.Sched.{os_task_makeready, os_task_makewait, arch_context_switch}
use rados.Timer.{os_timer_create, os_timer_destroy}

unfoldable pub set_task_timer : ℕ → Option ℕ → Kernel → Kernel
set_task_timer t timer k = set_task t (record (k.tasks t) { timer = timer }) k

unfoldable pub os_blocktimer_create : ℕ → Callback → ℕ → M (Unit {0})
os_blocktimer_create timer clbck timeout_ticks = do
  k ← get
  os_assert (is_none (k.tasks k.task_current).timer)
  os_timer_create timer clbck k.task_current timeout_ticks 0
  modify (set_task_timer k.task_current (some timer))

unfoldable pub os_blocktimer_destroy : ℕ → M (Unit {0})
os_blocktimer_destroy t = do
  k ← get
  elim (k.tasks t).timer [
    | none ↦ pure tt
    | some timer ↦ (do os_timer_destroy timer; modify (set_task_timer t none))
  ]

-- `block_code` shares its memory with `ret_value`.
unfoldable pub set_block_code : ℕ → ℕ → Kernel → Kernel
set_block_code t code k = set_task t (record (k.tasks t) { ret_value = code }) k

-- A context switch to NULL is a fault.
unfoldable pub switch_to_ready : {A : Type 0} → Context → M A
switch_to_ready ctx = do
  new_task ← os_taskqueue_dequeue ready_queue
  elim new_task [ none ↦ crash | some t ↦ arch_context_switch t ctx ]

unfoldable pub os_task_block_switch : {A : Type 0} → ℕ → TaskBlock → Context → M A
os_task_block_switch q block_type ctx = do os_task_makewait q block_type; switch_to_ready ctx

-- A task that left its queue becomes ready with the code that its call will return.
unfoldable pub wake : ℕ → ℕ → M (Unit {0})
wake code t = do os_blocktimer_destroy t; modify (set_block_code t code); os_task_makeready t

-- The loops of the destroy functions, on fuel.
unfoldable pub wake_all : ℕ → (ℕ → M (Unit {0})) → ℕ → M (Unit {0})
wake_all zero waking q = crash
wake_all (suc fuel) waking q = do
  task ← os_taskqueue_dequeue q
  elim task [ none ↦ pure tt | some t ↦ (do waking t; wake_all fuel waking q) ]

-- The memory of a task queue after `memset`.
unfoldable pub clear_queue : ℕ → Kernel → Kernel
clear_queue q k = set_queue q (record { tasks = λ i. []; mask = 0; linked = false }) k

abbrev pub is_waiting : TaskState → Bool
is_waiting TaskState.wait = true
is_waiting _ = false

-- `os_sem_timerclbck` and `os_waitqueue_timerclbck` have the same text.
unfoldable pub time_out_task : ℕ → M (Unit {0})
time_out_task t = do
  k ← get
  os_assert (is_waiting (k.tasks t).state)
  os_taskqueue_unlink t
  modify (set_block_code t os_timeout)
  os_task_makeready t
