-- ===== src/System/Step.antt =====
-- The steps of a running kernel.
use rados.Base.{
  ℕ, ◌^◌, ◌≤◌, ◌<◌, ◌≡◌, ◌≢◌, Bool, true, false, none, some, List, ◌==◌, ◌&&◌, ltb, length,
}
use rados.Kernel.{
  Kernel, TaskState, Callback, task_idle, sem_queue, mtx_queue, wait_queue, ticks_max, magic1,
  priocnt,
}
use rados.Kernel.Run.{M}
use rados.TaskQueue.Dequeue.{IsIdle}
use rados.Sched.Lock.{os_scheduler_lock, os_scheduler_unlock, os_yield, os_start}
use rados.Timer.{ticksrem_max, os_tick, os_timer_create, os_timer_destroy}
use rados.Block.Drain.{queue_size}
use rados.Sem.{os_sem_create, os_sem_down, os_sem_up_sync, os_sem_destroy}
use rados.Sem.Down.{MayWait}
use rados.Sem.Up.{MaySignal}
use rados.Mtx.{os_mtx_destroy, os_mtx_create, os_mtx_lock, os_mtx_unlock}
use rados.Mtx.Boost.{Chain}
use rados.Mtx.Lock.{MayLock}
use rados.Mtx.Unlock.{MayUnlock}
use rados.Waitqueue.{
  os_waitqueue_create, os_waitqueue_destroy, os_waitqueue_wait, os_waitqueue_wakeup_sync, names,
  os_waitqueue_prepare, os_waitqueue_break,
}
use rados.Waitqueue.Wait.{Prepared}
use rados.Waitqueue.Notify.{MayNotify}
use rados.Tasks.{os_task_create, os_task_join, os_task_exit, resume, isr_enter, isr_leave}
use rados.Tasks.Create.{MayCreate}
use rados.Tasks.Exit.{MayExit}
use rados.System.Keeps.{Leads}
use rados.System.Tick.{kernel_call}

-- A timeout that a call may wait with, and a free timer on its stack.
pub data MayTime (k : Kernel) (timer : ℕ) : ℕ → Type 0 where
  forever : MayTime k timer ticks_max
  timed :
      {timeout_ticks : ℕ}
      → 0 < timeout_ticks
      → timeout_ticks < ticksrem_max
      → ((k.timers timer).magic == magic1) ≡ false
      → (k.tasks k.task_current).timer ≡ none
      → MayTime k timer timeout_ticks

-- Who owns the mutex that the current task locks; a chain of owners is finite.
pub data MayOwn (k : Kernel) (fuel m : ℕ) : Type 0 where
  free : (k.mtxs m).owner ≡ none → MayOwn k fuel m
  mine : (k.mtxs m).owner ≡ some k.task_current → MayOwn k fuel m
  others :
      {owner : ℕ} {ts : List ℕ}
      → (k.mtxs m).owner ≡ some owner
      → (owner == k.task_current) ≡ false
      → Chain k owner ts
      → length ts ≤ fuel
      → (k.queues (mtx_queue m)).linked ≡ true
      → MayOwn k fuel m

-- The calls of the running task and of interrupts, where they meet their assertions, with the functions
-- `program` of the program's timers. `resume` is what a task does that was given the CPU.
pub data Step (program : ℕ → ℕ → M (Unit {0})) (k k' : Kernel) : Type 0 where
  task_create :
      (start t prio stack stack_size proc param : ℕ)
      → MayCreate k t prio stack stack_size
      → Leads (os_task_create start t prio stack stack_size proc param k) k'
      → Step program k k'
  task_exit :
      (retv : ℕ)
      → (k.task_current == task_idle) ≡ false
      → MayExit k
      → Leads (os_task_exit retv k) k'
      → Step program k k'
  task_join :
      (fuel t s timer : ℕ)
      → MayWait k
      → (k.tasks t).join_sem ≡ none
      → (k.tasks t).state ≢ TaskState.invalid
      → IsIdle k (sem_queue s)
      → Leads (os_task_join fuel t s timer k) k'
      → Step program k k'
  os_starts : Leads (os_start k) k' → Step program k k'
  scheduler_lock : Leads (os_scheduler_lock k) k' → Step program k k'
  scheduler_unlock : (sync : Bool) → Leads (os_scheduler_unlock sync k) k' → Step program k k'
  yields : Leads (os_yield k) k' → Step program k k'
  sem_create :
      (s init_value : ℕ)
      → IsIdle k (sem_queue s)
      → Leads (os_sem_create s init_value k) k'
      → Step program k k'
  mtx_create : (m : ℕ) → IsIdle k (mtx_queue m) → Leads (os_mtx_create m k) k' → Step program k k'
  waitqueue_create :
      (queue : ℕ)
      → IsIdle k (wait_queue queue)
      → Leads (os_waitqueue_create queue k) k'
      → Step program k k'
  sem_up :
      (s : ℕ) (sync : Bool)
      → MaySignal k s sync
      → Leads (os_sem_up_sync s sync k) k'
      → Step program k k'
  sem_takes :
      (s timeout_ticks timer : ℕ)
      → MayWait k
      → 0 < k.sems s
      → Leads (os_sem_down s timeout_ticks timer k) k'
      → Step program k k'
  sem_tries :
      (s timer : ℕ)
      → MayWait k
      → k.sems s ≡ 0
      → Leads (os_sem_down s 0 timer k) k'
      → Step program k k'
  sem_waits :
      (s timeout_ticks timer : ℕ)
      → MayWait k
      → k.sems s ≡ 0
      → (k.queues (sem_queue s)).linked ≡ true
      → MayTime k timer timeout_ticks
      → Leads (os_sem_down s timeout_ticks timer k) k'
      → Step program k k'
  sem_destroy : (fuel s : ℕ) → Leads (os_sem_destroy fuel s k) k' → Step program k k'
  mtx_lock :
      (fuel m : ℕ)
      → MayLock k
      → MayOwn k fuel m
      → Leads (os_mtx_lock fuel m k) k'
      → Step program k k'
  mtx_unlock :
      (m : ℕ)
      → MayUnlock k m
      → (k.tasks k.task_current).prio_base < priocnt
      → 0 < (k.mtxs m).recur
      → (k.mtxs m).recur < 2 ^ 8
      → Leads (os_mtx_unlock m k) k'
      → Step program k k'
  mtx_destroy :
      (fuel m : ℕ)
      → ((k.mtxs m).owner ≡ none → IsIdle k (mtx_queue m))
      → (k.tasks k.task_current).prio_base < priocnt
      → Leads (os_mtx_destroy fuel m k) k'
      → Step program k k'
  waitqueue_destroy :
      (fuel queue : ℕ) → Leads (os_waitqueue_destroy fuel queue k) k' → Step program k k'
  timer_create :
      (timer f param timeout_ticks reload_ticks : ℕ)
      → Leads (os_timer_create timer (Callback.user f) param timeout_ticks reload_ticks k) k'
      → Step program k k'
  timer_destroy : (timer : ℕ) → Leads (os_timer_destroy timer k) k' → Step program k k'
  waitqueue_prepare : (queue : ℕ) → Leads (os_waitqueue_prepare queue k) k' → Step program k k'
  waitqueue_break : Leads (os_waitqueue_break k) k' → Step program k k'
  waitqueue_wait :
      (queue timeout_ticks timer : ℕ)
      → Prepared k queue
      → (k.queues (wait_queue queue)).linked ≡ true
      → MayTime k timer timeout_ticks
      → Leads (os_waitqueue_wait timeout_ticks timer k) k'
      → Step program k k'
  waitqueue_wakeup :
      (fuel queue wakeup_cnt : ℕ) (sync : Bool)
      → MayNotify k wakeup_cnt sync
      → queue_size k (wait_queue queue) < fuel
      → (ltb 0 k.isr_nesting && names k.waitqueue_current queue) ≡ false
      → Leads (os_waitqueue_wakeup_sync fuel queue wakeup_cnt sync k) k'
      → Step program k k'
  resumes : (fuel : ℕ) → Leads (resume fuel k) k' → Step program k k'
  interrupt : k' ≡ isr_enter k → Step program k k'
  tick : (fuel : ℕ) → Leads (os_tick (kernel_call program) fuel k) k' → Step program k k'
  interrupt_return : (fuel : ℕ) → Leads (isr_leave fuel k) k' → Step program k k'
