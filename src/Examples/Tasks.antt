-- ===== src/Examples/Tasks.antt =====
-- The end of task 2, for which task 1 waits on semaphore 0, and a task that joins another.
use rados.Base.{◌≡◌, refl, some, true, false, arith}
use rados.Kernel.{Kernel, in_join}
use rados.Kernel.Run.{ok, switched, set_task}
use rados.TaskQueue.{enqueued, appended}
use rados.Sched.Valid.{KernelValid}
use rados.Block.Wake.{set_task-KernelValid}
use rados.Tasks.{os_task_exit, os_task_join, resume}
use rados.Tasks.Join.{Joins}
use rados.Tasks.JoinExit.{Joining, os_task_exit-resume}
use rados.Tasks.JoinWait.{JoinsOrWaits, os_task_join-JoinsOrWaits}
use rados.Examples.Kernels.{alone, alone-KernelValid, one_waits, one_waits-KernelValid}

abbrev joined : Kernel
joined = set_task 2 (record (one_waits.tasks 2) { join_sem = some 0 }) one_waits

joined-KernelValid : KernelValid joined
joined-KernelValid =
    set_task-KernelValid one_waits one_waits-KernelValid 2 _ refl refl refl (λ i e. e)

-- Task 1 waits to join task 2.
abbrev joining : Kernel
joining = set_task 1 (record (joined.tasks 1) { ctx = in_join false 2 0 true }) joined

joining-KernelValid : KernelValid joining
joining-KernelValid = set_task-KernelValid joined joined-KernelValid 1 _ refl refl refl (λ i e. e)

joining-Joining : Joining joining 0 1 3 false true
unfolding one_waits alone enqueued appended
joining-Joining = record {
  names = refl;
  top = record { heads = refl; highest = λ p h. ground arith; queued = refl; prio = refl };
  alone = λ p n. ground arith;
  above_ready = λ p h. ground arith;
  waits = refl;
}

os_task_exit-resume_example :
    (k2 k3 : Kernel) × (os_task_exit 77 joining ≡ switched k2)
    × (k2.task_current ≡ 1)
    × (resume 1 k2 ≡ ok (some 77) k3)
    × Joins false 2 k2 k3
unfolding one_waits alone enqueued
os_task_exit-resume_example =
    os_task_exit-resume joining joining-KernelValid refl 0
      (record { sync_in_task = refl; unprepared = refl; room = omega arith }) refl refl
      joining-Joining 77 0

-- Task 2 joins task 1, which has not ended.
os_task_join-JoinsOrWaits_example : JoinsOrWaits alone 1 5 (os_task_join 9 1 5 7 alone)
unfolding alone enqueued
os_task_join-JoinsOrWaits_example =
    os_task_join-JoinsOrWaits alone alone-KernelValid 1 5 7
      (record { in_task = refl; busy = refl; unprepared = refl; no_mutex = refl }) refl
      (λ e. absurd (cc)) (λ p. refl) 9
