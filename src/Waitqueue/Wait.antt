-- ===== src/Waitqueue/Wait.antt =====
-- `os_waitqueue_wait` of a task that is still prepared.
use rados.Base.{ℕ, ◌<◌, ◌≡◌, refl, ◌∙◌, true, false, none, some, arith, ◌==◌, ltb, is_empty}
use rados.Kernel.{
  Kernel, TaskBlock, in_waitqueue_wait, os_waitqueue_timerclbck, task_idle, wait_queue, ticks_max,
  magic1,
}
use rados.Kernel.Run.{switched}
use rados.Sched.Valid.{KernelValid, same-KernelValid}
use rados.Timer.{ticksrem_max}
use rados.Block.Guard.{Guarded, os_blocktimer_create_lem}
use rados.Block.Switch.{Blocked, os_task_block_switch-Blocked}
use rados.Waitqueue.{set_waitqueue_current, unlock_quietly, suspend, os_waitqueue_wait}
use rados.Sem.Down.{inside}

-- What the assertions of `os_waitqueue_wait` ask for, besides the timeout; the task is prepared.
pub record Prepared (k : Kernel) (queue : ℕ) : Type 0 where
  pub in_task : k.isr_nesting ≡ 0
  pub busy : (k.task_current == task_idle) ≡ false
  pub no_mutex : is_empty (k.tasks k.task_current).mtx_list ≡ true
  pub prepared : k.waitqueue_current ≡ some queue

-- The kernel after the lock of `os_waitqueue_prepare` was given back.
abbrev pub unlocked : Kernel → Kernel
unlocked k = unlock_quietly (inside k)

abbrev pub forgotten : Kernel → Kernel
forgotten k = record k { waitqueue_current = none }

module _ (k : Kernel) (v : KernelValid k) (queue timer : ℕ) (p : Prepared k queue)
    (link : (k.queues (wait_queue queue)).linked ≡ true) where
  to_suspend :
      (timeout_ticks : ℕ)
      → 0 < timeout_ticks
      → os_waitqueue_wait timeout_ticks timer k
        ≡ suspend queue timeout_ticks timer k.dint (unlocked k)
  unfolding os_waitqueue_wait
  to_suspend timeout_ticks h =
      let isr : (k.isr_nesting == 0) ≡ true = ground (arith, p.in_task) in
      let more : ltb 0 timeout_ticks ≡ true = ground arith in
      rw (isr, p.busy, more, p.no_mutex, p.prepared) refl

  unlocked-KernelValid : KernelValid (unlocked k)
  unfolding unlock_quietly
  unlocked-KernelValid = same-KernelValid k (unlocked k) refl refl refl (λ i e. e) v

  -- In a valid kernel, where the current task is prepared for a queue that was initialised and the
  -- assertions hold, `os_waitqueue_wait` with OS_TIMEOUT_INFINITE gives back the scheduler lock,
  -- ends the prepared state and blocks the task in the queue.
  pub os_waitqueue_wait-Blocked :
      (k' : Kernel) × (os_waitqueue_wait ticks_max timer k ≡ switched k')
      × (k'.waitqueue_current ≡ none)
      × Blocked
          (wait_queue queue)
          TaskBlock.waitqueue
          (in_waitqueue_wait k.dint)
          (forgotten (unlocked k))
          k'
  unfolding suspend set_waitqueue_current unlock_quietly
  os_waitqueue_wait-Blocked =
      let k1 = forgotten (unlocked k) in
      let v1 = same-KernelValid (unlocked k) k1 refl refl refl (λ i e. e) unlocked-KernelValid in
      let (k', runs, b) =
        os_task_block_switch-Blocked k1 v1 (wait_queue queue) TaskBlock.waitqueue
          (in_waitqueue_wait k.dint) link (ground arith) p.busy {A = ℕ} in
      (k', to_suspend ticks_max (omega arith) ∙ runs, b.waitqueue_current, b)

  -- In a valid kernel, where the current task is prepared for a queue that was initialised and the
  -- assertions hold, with a timeout from 1 up to below OS_TIMER_TICKSREM_MAX, a timer that is not
  -- in use and none at the current task, `os_waitqueue_wait` first starts the timer for the
  -- callback of wait queues, and then blocks the task in the queue.
  pub os_waitqueue_wait-Guarded :
      (timeout_ticks : ℕ)
      → 0 < timeout_ticks
      → timeout_ticks < ticksrem_max
      → ((k.timers timer).magic == magic1) ≡ false
      → (k.tasks k.task_current).timer ≡ none
      → (k1 k' : Kernel) × (os_waitqueue_wait timeout_ticks timer k ≡ switched k')
        × Guarded timer os_waitqueue_timerclbck timeout_ticks (unlocked k) k1
        × (k'.waitqueue_current ≡ none)
        × Blocked
            (wait_queue queue)
            TaskBlock.waitqueue
            (in_waitqueue_wait k.dint)
            (forgotten k1)
            k'
  unfolding suspend set_waitqueue_current unlock_quietly
  os_waitqueue_wait-Guarded timeout_ticks h l m free =
      let (k1, starts, g) =
        os_blocktimer_create_lem timer os_waitqueue_timerclbck timeout_ticks (unlocked k)
          unlocked-KernelValid h l m free in
      let v1 = same-KernelValid k1 (forgotten k1) refl refl refl (λ i e. e) g.valid in
      let (k', runs, b) =
        os_task_block_switch-Blocked (forgotten k1) v1 (wait_queue queue) TaskBlock.waitqueue
          (in_waitqueue_wait k.dint) (rw g.queues link) (ground arith)
          (rw g.globals.task_current p.busy) {A = ℕ} in
      let finite : (timeout_ticks == ticks_max) ≡ false = ground arith in
      (k1, k', to_suspend timeout_ticks h ∙ rw (finite, starts) runs, g, b.waitqueue_current, b)
