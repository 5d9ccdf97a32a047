-- ===== src/Sem.antt =====
-- source/os_sem.c: counting semaphores. The address of the timer that `os_sem_down` keeps on its stack
-- is an argument; `ctx` is where a call that waits goes on.
pub mod Down
pub mod Up
pub mod Destroy
use rados.Base.{
  ℕ, ◌+◌, ◌-◌, ◌*◌, ◌%◌, ◌^◌, Bool, true, false, not, Option, none, some, [], ◌==◌, ◌||◌, ltb, leb,
  if◌then◌else◌, update, is_empty,
}
use rados.Kernel.{
  Kernel, TaskBlock, Context, Callback, os_sem_timerclbck, in_schedule, in_sem_down, task_idle,
  sem_queue, os_ok, os_wouldblock, os_destroyed, atomic_max, ticks_max,
}
use rados.Kernel.Run.{
  M, ok, pure, and_then, ◌>>=◌, ◌>>◌, get, modify, os_assert, arch_critical_enter,
  arch_critical_exit, is_none,
}
use rados.TaskQueue.{os_taskqueue_init, os_taskqueue_dequeue}
use rados.Sched.{os_schedule}
use rados.Block.{os_blocktimer_create, os_task_block_switch, wake, wake_all, clear_queue}

unfoldable pub set_sem_value : ℕ → ℕ → Kernel → Kernel
set_sem_value s value k = record k { sems = update k.sems s value }

unfoldable pub os_sem_create : ℕ → ℕ → M (Unit {0})
os_sem_create s init_value = do
  k ← get
  os_assert (ltb init_value atomic_max)
  os_assert (is_none k.waitqueue_current)
  modify (os_taskqueue_init (sem_queue s))
  modify (set_sem_value s init_value)

unfoldable pub sem_destroy : (Bool → Context) → ℕ → ℕ → M (Unit {0})
sem_destroy ctx fuel s = do
  k ← get
  os_assert (k.isr_nesting == 0)
  os_assert (is_none k.waitqueue_current)
  cristate ← arch_critical_enter
  wake_all fuel (wake os_destroyed) (sem_queue s)
  modify (clear_queue (sem_queue s))
  modify (set_sem_value s 0)
  os_schedule 1 (ctx cristate)
  arch_critical_exit cristate

unfoldable pub os_sem_destroy : ℕ → ℕ → M (Unit {0})
os_sem_destroy = sem_destroy in_schedule

-- The part of `os_sem_down` where the semaphore's value is 0.
unfoldable pub sem_wait : (Bool → Context) → Bool → ℕ → ℕ → ℕ → M ℕ
sem_wait ctx cristate s timeout_ticks timer =
    if timeout_ticks == 0 then (do arch_critical_exit cristate; pure os_wouldblock) else (do
      if timeout_ticks == ticks_max
          then pure tt
          else os_blocktimer_create timer os_sem_timerclbck timeout_ticks
      os_task_block_switch (sem_queue s) TaskBlock.sem (ctx cristate))

unfoldable pub sem_down : (Bool → Context) → ℕ → ℕ → ℕ → M ℕ
sem_down ctx s timeout_ticks timer = do
  k ← get
  os_assert (k.isr_nesting == 0)
  os_assert (not (k.task_current == task_idle))
  os_assert (is_none k.waitqueue_current)
  os_assert (is_empty (k.tasks k.task_current).mtx_list)
  cristate ← arch_critical_enter
  if ltb 0 (k.sems s)
      then (do modify (set_sem_value s (k.sems s - 1)); arch_critical_exit cristate; pure os_ok)
      else sem_wait ctx cristate s timeout_ticks timer

unfoldable pub os_sem_down : ℕ → ℕ → ℕ → M ℕ
os_sem_down = sem_down in_sem_down

unfoldable pub os_sem_up_sync : ℕ → Bool → M (Unit {0})
os_sem_up_sync s sync = do
  k ← get
  os_assert (k.isr_nesting == 0 || not sync)
  os_assert (ltb 0 k.isr_nesting || is_none k.waitqueue_current)
  cristate ← arch_critical_enter
  os_assert (ltb (k.sems s) (atomic_max - 1))
  task ← os_taskqueue_dequeue (sem_queue s)
  elim task [
    | none ↦ modify (set_sem_value s (k.sems s + 1))
    | some t ↦ (do wake os_ok t; if sync then pure tt else os_schedule 1 (in_schedule cristate))
  ]
  arch_critical_exit cristate

unfoldable pub os_sem_up : ℕ → M (Unit {0})
os_sem_up s = os_sem_up_sync s false
