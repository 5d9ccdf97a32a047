-- ===== src/Examples/Sems.antt =====
-- Semaphores and waking, where task 1 waits on semaphore 0 and task 2 runs.
use rados.Base.{ℕ, ◌≡◌, refl, arith}
use rados.Kernel.{Kernel, TaskBlock, os_sem_timerclbck, in_sem_down, sem_queue, user_code}
use rados.Kernel.Run.{switched}
use rados.TaskQueue.{enqueued}
use rados.Block.{os_task_block_switch}
use rados.Block.Guard.{Guarded}
use rados.Block.Switch.{Blocked, os_task_block_switch-Blocked}
use rados.Sem.{os_sem_down}
use rados.Sem.Down.{MayWait, inside, os_sem_down-Guarded}
use rados.Examples.Kernels.{alone, one_waits, one_waits-KernelValid}

os_task_block_switch-Blocked_example :
    (k' : Kernel) × (os_task_block_switch {A = ℕ} (sem_queue 0) TaskBlock.sem user_code one_waits
      ≡ switched k')
    × Blocked (sem_queue 0) TaskBlock.sem user_code one_waits k'
unfolding one_waits alone enqueued
os_task_block_switch-Blocked_example =
    os_task_block_switch-Blocked one_waits one_waits-KernelValid (sem_queue 0) TaskBlock.sem
      user_code refl refl refl

one_waits-MayWait : MayWait one_waits
unfolding one_waits alone enqueued
one_waits-MayWait = record { in_task = refl; busy = refl; unprepared = refl; no_mutex = refl }

os_sem_down-Guarded_example :
    (k1 k' : Kernel) × (os_sem_down 0 5 7 one_waits ≡ switched k')
    × Guarded 7 os_sem_timerclbck 5 (inside one_waits) k1
    × Blocked (sem_queue 0) TaskBlock.sem (in_sem_down one_waits.dint) k1 k'
unfolding one_waits alone enqueued
os_sem_down-Guarded_example =
    os_sem_down-Guarded one_waits 0 one_waits-MayWait one_waits-KernelValid refl refl 5 7
      (omega arith) (omega arith) refl refl
