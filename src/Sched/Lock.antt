-- ===== src/Sched/Lock.antt =====
-- `os_scheduler_lock`, `os_scheduler_unlock`, `os_yield`, `os_init` and `os_start` of os_sched.c.
use rados.Base.{ℕ, ◌+◌, ◌%◌, ◌^◌, Bool, true, false, not, none, [], ◌==◌, ◌&&◌, if◌then◌else◌}
use rados.Kernel.{Kernel, TaskState, TaskBlock, user_code, in_schedule, task_idle, ready_queue}
use rados.Kernel.Run.{
  M, pure, ◌>>=◌, ◌>>◌, get, modify, os_assert, arch_critical_enter, arch_critical_exit, set_task,
  is_none,
}
use rados.TaskQueue.{os_taskqueue_init}
use rados.Sched.{set_state, os_schedule}

-- `arch_atomic_t` has 8 bits.
unfoldable pub set_sched_lock : ℕ → Kernel → Kernel
set_sched_lock n k = record k { sched_lock = n }

unfoldable pub os_scheduler_lock : M (Unit {0})
os_scheduler_lock = do
  k ← get
  os_assert (k.isr_nesting == 0)
  os_assert (is_none k.waitqueue_current)
  modify (set_sched_lock ((k.sched_lock + 1) % 2 ^ 8))

-- A section of its own around `os_schedule`.
unfoldable pub schedule_section : ℕ → M (Unit {0})
schedule_section higher_prio = do
  cristate ← arch_critical_enter
  os_schedule higher_prio (in_schedule cristate)
  arch_critical_exit cristate

unfoldable pub os_scheduler_unlock : Bool → M (Unit {0})
os_scheduler_unlock sync = do
  k ← get
  os_assert (k.isr_nesting == 0)
  os_assert (is_none k.waitqueue_current)
  modify (set_sched_lock ((k.sched_lock + 255) % 2 ^ 8))
  if not sync && (k.sched_lock + 255) % 2 ^ 8 == 0 then schedule_section 1 else pure tt

unfoldable pub os_yield : M (Unit {0})
os_yield = do
  k ← get
  os_assert (k.isr_nesting == 0)
  os_assert (not (k.task_current == task_idle))
  os_assert (is_none k.waitqueue_current)
  schedule_section 0

-- `os_task_init`: the memory of the task is cleared and its links are set up.
unfoldable pub os_task_init : ℕ → ℕ → Kernel → Kernel
os_task_init t prio k =
    set_task t
      (record {
        ctx = user_code;
        prio_base = prio;
        prio_current = prio;
        state = TaskState.ready;
        task_queue = none;
        block_type = TaskBlock.invalid;
        timer = none;
        mtx_list = [];
        join_sem = none;
        ret_value = 0;
        stack_end = 0;
        stack_size = 0;
      })
      k

-- `os_timers_init` is the clearing of the timer list; `arch_os_init` does nothing on the AVR.
unfoldable pub os_init : Kernel → Kernel
os_init k =
    let k1 = os_taskqueue_init ready_queue (record k { dint = true }) in
    let k2 = os_task_init task_idle 0 (record k1 { timer_list = [] }) in
    record (set_state task_idle TaskState.running k2) { task_current = task_idle; sched_lock = 1 }

-- Up to the first context switch; after it the idle task spins in user code.
unfoldable pub os_start : M (Unit {0})
os_start = do
  k ← get
  os_assert (k.task_current == task_idle)
  os_assert k.dint
  modify (λ k. record k { sched_lock = 0; dint = false })
  schedule_section 0
