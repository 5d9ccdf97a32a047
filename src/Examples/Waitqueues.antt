-- ===== src/Examples/Waitqueues.antt =====
-- Wait queues, and the destruction of a semaphore, where task 1 waits and task 2 runs.
use rados.Base.{◌≡◌, refl, false, none, some, arith, inr}
use rados.Kernel.{
  Kernel, TaskBlock, in_schedule, in_waitqueue_wait, os_waitqueue_timerclbck, wait_queue,
}
use rados.Kernel.Run.{ok, switched, and_then, arch_critical_exit}
use rados.Kernel.Runs.{Runs}
use rados.TaskQueue.{enqueued, appended}
use rados.TaskQueue.Valid.{enqueued-QueuesValid}
use rados.Sched.{os_schedule}
use rados.Sched.Valid.{KernelValid, same-KernelValid}
use rados.Block.Guard.{Guarded}
use rados.Block.Switch.{Blocked}
use rados.Sem.{os_sem_destroy}
use rados.Sem.Destroy.{Destroyed, os_sem_destroy-Destroyed}
use rados.Waitqueue.{
  os_waitqueue_destroy, os_waitqueue_wakeup_sync, os_waitqueue_wakeup, os_waitqueue_wait,
  unlock_quietly,
}
use rados.Waitqueue.Destroy
use rados.Waitqueue.Destroy.{os_waitqueue_destroy-Destroyed}
use rados.Waitqueue.Notify.{
  MayNotify, Notified, os_waitqueue_wakeup_sync-Notified, os_waitqueue_wakeup-os_waitqueue_wait,
}
use rados.Waitqueue.Wait.{Prepared, forgotten, unlocked, os_waitqueue_wait-Guarded}
use rados.Examples.Kernels.{alone, alone-KernelValid, one_waits, one_waits-KernelValid}

os_sem_destroy-Destroyed_example :
    (k1 : Kernel) × Destroyed 0 one_waits k1
    × (os_sem_destroy 2 0 one_waits
        ≡ and_then
            (os_schedule 1 (in_schedule one_waits.dint) k1)
            (λ _. arch_critical_exit one_waits.dint))
    × Runs KernelValid (λ _. KernelValid) (os_sem_destroy 2 0 one_waits)
unfolding one_waits alone enqueued appended
os_sem_destroy-Destroyed_example =
    os_sem_destroy-Destroyed one_waits one_waits-KernelValid 0 2 refl refl (omega arith)

-- Task 1 waits on wait queue 0.
abbrev one_sleeps : Kernel
one_sleeps = enqueued (wait_queue 0) 1 alone

one_sleeps-KernelValid : KernelValid one_sleeps
unfolding enqueued alone appended
one_sleeps-KernelValid = record {
  queues = enqueued-QueuesValid alone alone-KernelValid.queues (wait_queue 0) 1 refl refl;
  ready_linked = refl;
  current_free = refl;
  in_ready = λ t e. ground arith;
  in_wait = λ t q e n. ground arith;
  idle_there = inr refl;
  timer_made = λ t i e. ground arith;
}

os_waitqueue_destroy-Destroyed_example :
    (k1 : Kernel) × Destroy.Destroyed 0 one_sleeps k1
    × (os_waitqueue_destroy 2 0 one_sleeps
        ≡ and_then
            (os_schedule 1 (in_schedule one_sleeps.dint) k1)
            (λ _. arch_critical_exit one_sleeps.dint))
    × Runs KernelValid (λ _. KernelValid) (os_waitqueue_destroy 2 0 one_sleeps)
unfolding enqueued alone appended
os_waitqueue_destroy-Destroyed_example =
    os_waitqueue_destroy-Destroyed one_sleeps one_sleeps-KernelValid 0 2 refl (omega arith)

one_sleeps-MayNotify : MayNotify one_sleeps 1 false
unfolding enqueued alone
one_sleeps-MayNotify = record {
  unprepared = refl;
  sync_in_task = refl;
  some_wanted = omega arith;
  small = omega arith;
}

os_waitqueue_wakeup_sync-Notified_example :
    (k1 : Kernel) × Notified 0 1 false one_sleeps
      (os_waitqueue_wakeup_sync 2 0 1 false one_sleeps)
      k1
unfolding enqueued alone appended
os_waitqueue_wakeup_sync-Notified_example =
    os_waitqueue_wakeup_sync-Notified one_sleeps one_sleeps-KernelValid 2 0 1 false
      one_sleeps-MayNotify (omega arith) refl

-- Task 2 is prepared to suspend on wait queue 0.
abbrev prepared : Kernel
prepared = record alone { waitqueue_current = some 0; sched_lock = 1 }

prepared-KernelValid : KernelValid prepared
prepared-KernelValid = same-KernelValid alone prepared refl refl refl (λ i e. e) alone-KernelValid

prepared-Prepared : Prepared prepared 0
unfolding alone enqueued
prepared-Prepared = record { in_task = refl; busy = refl; no_mutex = refl; prepared = refl }

os_waitqueue_wait-Guarded_example :
    (k1 k' : Kernel) × (os_waitqueue_wait 5 7 prepared ≡ switched k')
    × Guarded 7 os_waitqueue_timerclbck 5 (unlocked prepared) k1
    × (k'.waitqueue_current ≡ none)
    × Blocked (wait_queue 0) TaskBlock.waitqueue (in_waitqueue_wait prepared.dint) (forgotten k1) k'
unfolding alone enqueued
os_waitqueue_wait-Guarded_example =
    os_waitqueue_wait-Guarded prepared prepared-KernelValid 0 7 prepared-Prepared refl 5
      (omega arith) (omega arith) refl refl

-- An interrupt in that state.
abbrev interrupted : Kernel
interrupted = record prepared { isr_nesting = 1 }

os_waitqueue_wakeup-os_waitqueue_wait_example :
    (k' : Kernel) × (os_waitqueue_wakeup 1 0 1 interrupted ≡ ok tt k')
    × (k'.waitqueue_current ≡ none)
    × (os_waitqueue_wait 5 7 (record k' { isr_nesting = 0 })
        ≡ ok
            (interrupted.tasks interrupted.task_current).ret_value
            (unlock_quietly (record k' { isr_nesting = 0 })))
unfolding alone enqueued
os_waitqueue_wakeup-os_waitqueue_wait_example =
    os_waitqueue_wakeup-os_waitqueue_wait interrupted 0 0 5 7 (omega arith) refl refl (omega arith)
      refl
