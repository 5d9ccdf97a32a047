-- ===== src/Waitqueue.antt =====
-- source/os_waitqueue.c: wait queues, with the state `waitqueue_current` of a task that is about to
-- suspend.
pub mod Destroy
pub mod Wakeup
pub mod Notify
pub mod Wait
use rados.Base.{
  ℕ, zero, suc, ◌+◌, ◌-◌, ◌%◌, ◌^◌, Bool, true, false, not, Option, none, some, ◌==◌, ◌&&◌, ◌||◌,
  ltb, if◌then◌else◌, is_empty,
}
use rados.Kernel.{
  Kernel, TaskBlock, os_waitqueue_timerclbck, in_schedule, in_waitqueue_wait, task_idle, wait_queue,
  os_ok, os_destroyed, ticks_max,
}
use rados.Kernel.Run.{
  M, pure, ◌>>=◌, ◌>>◌, get, modify, crash, os_assert, arch_critical_enter, arch_critical_exit,
  is_none,
}
use rados.TaskQueue.{os_taskqueue_init, os_taskqueue_dequeue}
use rados.Sched.{os_schedule}
use rados.Sched.Lock.{os_scheduler_lock, os_scheduler_unlock}
use rados.Block.{os_blocktimer_create, os_task_block_switch, wake, wake_all, clear_queue}

-- `OS_WAITQUEUE_ALL`.
abbrev pub waitqueue_all : ℕ
waitqueue_all = 255

unfoldable pub set_waitqueue_current : Option ℕ → Kernel → Kernel
set_waitqueue_current queue k = record k { waitqueue_current = queue }

unfoldable pub os_waitqueue_create : ℕ → M (Unit {0})
os_waitqueue_create queue = do
  k ← get
  os_assert (is_none k.waitqueue_current)
  modify (os_taskqueue_init (wait_queue queue))

unfoldable pub os_waitqueue_destroy : ℕ → ℕ → M (Unit {0})
os_waitqueue_destroy fuel queue = do
  k ← get
  os_assert (is_none k.waitqueue_current)
  cristate ← arch_critical_enter
  wake_all fuel (wake os_destroyed) (wait_queue queue)
  modify (clear_queue (wait_queue queue))
  os_schedule 1 (in_schedule cristate)
  arch_critical_exit cristate

unfoldable pub os_waitqueue_prepare : ℕ → M (Unit {0})
os_waitqueue_prepare queue = do
  k ← get
  os_assert (k.isr_nesting == 0)
  os_assert (not (k.task_current == task_idle))
  os_assert (is_empty (k.tasks k.task_current).mtx_list)
  os_assert (is_none k.waitqueue_current)
  os_scheduler_lock
  modify (set_waitqueue_current (some queue))

unfoldable pub os_waitqueue_break : M (Unit {0})
os_waitqueue_break = do
  k ← get
  os_assert (k.isr_nesting == 0)
  modify (set_waitqueue_current none)
  os_scheduler_unlock false

-- `arch_atomic_t` has 8 bits.
unfoldable pub unlock_quietly : Kernel → Kernel
unlock_quietly k = record k { sched_lock = (k.sched_lock + 255) % 2 ^ 8 }

-- The part of `os_waitqueue_wait` that suspends.
unfoldable pub suspend : ℕ → ℕ → ℕ → Bool → M ℕ
suspend queue timeout_ticks timer cristate = do
  if timeout_ticks == ticks_max
      then pure tt
      else os_blocktimer_create timer os_waitqueue_timerclbck timeout_ticks
  modify (set_waitqueue_current none)
  os_task_block_switch (wait_queue queue) TaskBlock.waitqueue (in_waitqueue_wait cristate)

unfoldable pub os_waitqueue_wait : ℕ → ℕ → M ℕ
os_waitqueue_wait timeout_ticks timer = do
  k ← get
  os_assert (k.isr_nesting == 0)
  os_assert (not (k.task_current == task_idle))
  os_assert (ltb 0 timeout_ticks)
  os_assert (is_empty (k.tasks k.task_current).mtx_list)
  cristate ← arch_critical_enter
  modify unlock_quietly
  elim k.waitqueue_current [
    | some queue ↦ suspend queue timeout_ticks timer cristate
    | none ↦ (do arch_critical_exit cristate; pure (k.tasks k.task_current).ret_value)
  ]

-- The loop of `os_waitqueue_wakeup_sync`, on fuel; it says whether a task was woken.
unfoldable pub wakeup_loop : ℕ → ℕ → ℕ → Bool → M Bool
wakeup_loop zero queue wakeup_cnt awoken = crash
wakeup_loop (suc fuel) queue wakeup_cnt awoken =
    if wakeup_cnt == waitqueue_all || ltb 0 wakeup_cnt
    then (do
      task ← os_taskqueue_dequeue (wait_queue queue)
      elim task [
        | none ↦ pure awoken
        | some t ↦ (do
          wake os_ok t
          wakeup_loop fuel queue
              (if wakeup_cnt == waitqueue_all then waitqueue_all else wakeup_cnt - 1) true)
      ])
    else pure awoken

abbrev pub names : Option ℕ → ℕ → Bool
names none queue = false
names (some q) queue = q == queue

-- An interrupt that wakes the queue on which the interrupted task prepared to suspend keeps it awake;
-- the number of tasks that are left to wake comes back.
unfoldable pub keep_awake : ℕ → ℕ → M ℕ
keep_awake queue wakeup_cnt = do
  k ← get
  if ltb 0 k.isr_nesting && names k.waitqueue_current queue
      then (do
        modify (set_waitqueue_current none)
        pure (if wakeup_cnt == waitqueue_all then waitqueue_all else wakeup_cnt - 1))
      else pure wakeup_cnt

unfoldable pub os_waitqueue_wakeup_sync : ℕ → ℕ → ℕ → Bool → M (Unit {0})
os_waitqueue_wakeup_sync fuel queue wakeup_cnt sync = do
  k ← get
  os_assert (ltb 0 k.isr_nesting || is_none k.waitqueue_current)
  os_assert (k.isr_nesting == 0 || not sync)
  os_assert (ltb 0 wakeup_cnt)
  cristate ← arch_critical_enter
  left ← keep_awake queue wakeup_cnt
  awoken ← wakeup_loop fuel queue left false
  if not sync && awoken then os_schedule 1 (in_schedule cristate) else pure tt
  arch_critical_exit cristate

unfoldable pub os_waitqueue_wakeup : ℕ → ℕ → ℕ → M (Unit {0})
os_waitqueue_wakeup fuel queue nbr = os_waitqueue_wakeup_sync fuel queue nbr false
