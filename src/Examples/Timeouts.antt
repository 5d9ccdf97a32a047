-- ===== src/Examples/Timeouts.antt =====
-- Task 1 waits on semaphore 0, and timer 5, which guards it, has one tick left.
use rados.Base.{ℕ, ◌≡◌, refl, inr, false, some, [], ◌∷◌, arith, ◌==◌, if◌then◌else◌}
use rados.Kernel.{
  Kernel, TaskState, ready_queue, sem_queue, in_sem_down, os_sem_timerclbck, magic1, os_timeout,
}
use rados.Kernel.Run.{M, ok, pure}
use rados.TaskQueue.{enqueued, appended}
use rados.TaskQueue.Valid.{QueuesValid, enqueued-QueuesValid}
use rados.Sched.Valid.{KernelValid}
use rados.Sched.Init.{bit_zero}
use rados.Timer.{os_tick}
use rados.Sem.{os_sem_up_sync}
use rados.Sem.Up.{MaySignal, Signals, os_sem_up_sync-Signals}
use rados.Tasks.{isr_leave}
use rados.System.Tick.{kernel_call}
use rados.System.Timeout.Return.{Expires, IsBack, os_tick-isr_leave}
use rados.Examples.Kernels.{task_of, tasks, unqueued, no_timer}

abbrev guarded : Kernel
guarded = record unqueued {
  tasks = λ t.
      if t == 1
      then record (task_of 3 TaskState.wait) { timer = some 5; ctx = in_sem_down false }
      else tasks t;
  timers = λ i.
      if i == 5
      then record {
        ticks_rem = 8;
        ticks_reload = 0;
        clbck = os_sem_timerclbck;
        param = 1;
        magic = magic1;
      }
      else no_timer;
  timer_list = 5 ∷ [];
  timer_tick_unsynch = 7;
  isr_nesting = 1;
}

guarded-blank : QueuesValid guarded
guarded-blank = record {
  placed = λ q p t. ground arith;
  masked = λ q p h. ground (arith, bit_zero p h);
  mask_small = λ q. omega arith;
  prio_small = λ t. ground arith;
  linked = λ t q e. ground arith;
}

abbrev expiring : Kernel
expiring = enqueued (sem_queue 0) 1 (enqueued ready_queue 0 guarded)

expiring-QueuesValid : QueuesValid expiring
unfolding enqueued
expiring-QueuesValid =
    enqueued-QueuesValid (enqueued ready_queue 0 guarded)
      (enqueued-QueuesValid guarded guarded-blank ready_queue 0 refl refl) (sem_queue 0) 1 refl refl

expiring-KernelValid : KernelValid expiring
unfolding enqueued appended
expiring-KernelValid = record {
  queues = expiring-QueuesValid;
  ready_linked = refl;
  current_free = refl;
  in_ready = λ t e. ground arith;
  in_wait = λ t q e n. ground arith;
  idle_there = inr refl;
  timer_made = λ t i e. ground arith;
}

expiring-MaySignal : MaySignal expiring 0 false
unfolding enqueued
expiring-MaySignal = record { sync_in_task = refl; unprepared = refl; room = omega arith }

-- The interrupt signals the semaphore.
os_sem_up_sync-Signals_example : Signals expiring 0 false (os_sem_up_sync 0 false expiring)
os_sem_up_sync-Signals_example =
    os_sem_up_sync-Signals expiring expiring-KernelValid 0 false expiring-MaySignal

expiring-Expires : Expires expiring 5 1 (sem_queue 0) false
unfolding enqueued appended
expiring-Expires = record {
  guards = record { only = refl; once = refl; clbck = refl; param = refl };
  last = refl;
  small = omega arith;
  there = refl;
  waits = refl;
  ctx = refl;
  interrupt = refl;
  unlocked = refl;
  above_current = omega arith;
  above_ready = λ p h. ground arith;
}

abbrev no_functions : ℕ → ℕ → M (Unit {0})
no_functions f p = pure tt

os_tick-isr_leave_example :
    (k1 k2 : Kernel) × (os_tick (kernel_call no_functions) 2 expiring ≡ ok tt k1)
    × (isr_leave 0 k1 ≡ ok (some os_timeout) k2)
    × IsBack false 1 k2
os_tick-isr_leave_example =
    os_tick-isr_leave no_functions expiring expiring-KernelValid 5 1 (sem_queue 0) false
      expiring-Expires 0 0
