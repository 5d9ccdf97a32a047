-- ===== src/Examples/Mutexes.antt =====
-- Mutexes: task 2 runs and owns mutex 1, for which task 1 waits; task 3, of priority 1, owns mutex 0.
use rados.Base.{◌≡◌, refl, none, some, [], ◌∷◌, false, arith, ◌==◌, inr, ltb, if◌then◌else◌}
use rados.Kernel.{
  Kernel, TaskState, TaskBlock, in_mtx_lock, in_schedule, mtx_queue, ready_queue, os_ok,
}
use rados.Kernel.Run.{ok, switched, set_task, and_then, arch_critical_exit}
use rados.Kernel.Runs.{Runs}
use rados.TaskQueue.{enqueued, appended}
use rados.TaskQueue.Valid.{QueuesValid, enqueued-QueuesValid}
use rados.Sched.Valid.{KernelValid}
use rados.Sched.Init.{IsBlank, blank-QueuesValid}
use rados.Block.Switch.{Blocked}
use rados.Sched.{os_schedule}
use rados.Mtx.{os_mtx_destroy, os_mtx_lock, os_mtx_unlock, os_mtx_lock_prio_boost}
use rados.Mtx.Boost.{Chain, Boosted, os_mtx_lock_prio_boost-Boosted}
use rados.Mtx.Lock.{MayLock, os_mtx_lock-Blocked}
use rados.Mtx.Reset.{Reset}
use rados.Mtx.Unlock.{MayUnlock, cleared, Unlocks, os_mtx_unlock-Unlocks}
use rados.Mtx.Destroy.{Destroys, os_mtx_destroy-Destroys}
use rados.Mtx.Handover.{Contends, Holds, os_mtx_unlock-resume}
use rados.Sem.Down.{inside}
use rados.Tasks.{resume}
use rados.Block.Wake.{set_task-KernelValid}
use rados.Examples.Kernels.{task_of, tasks, unqueued}

abbrev owners : Kernel
owners = record unqueued {
  tasks = λ t.
      if t == 2
      then record (task_of 2 TaskState.running) { mtx_list = 1 ∷ [] }
      else if t == 3
      then record (task_of 1 TaskState.ready) { mtx_list = 0 ∷ [] }
      else tasks t;
  mtxs = λ m.
      if m == 0
      then record { owner = some 3; recur = 1 }
      else if m == 1
      then record { owner = some 2; recur = 1 }
      else record { owner = none; recur = 0 };
}

owners-IsBlank : IsBlank owners
owners-IsBlank = record {
  no_queue = λ t. ground arith;
  no_timer = λ t. ground arith;
  prio_small = λ t. ground arith;
  no_tasks = λ q p. refl;
  no_mask = λ q. refl;
}

abbrev contended : Kernel
contended = enqueued (mtx_queue 1) 1 (enqueued ready_queue 3 (enqueued ready_queue 0 owners))

contended-QueuesValid : QueuesValid contended
unfolding enqueued
contended-QueuesValid =
    let v1 =
      enqueued-QueuesValid owners (blank-QueuesValid owners owners-IsBlank) ready_queue 0 refl
        refl in
    let v2 = enqueued-QueuesValid (enqueued ready_queue 0 owners) v1 ready_queue 3 refl refl in
    enqueued-QueuesValid (enqueued ready_queue 3 (enqueued ready_queue 0 owners)) v2 (mtx_queue 1) 1
      refl refl

contended-KernelValid : KernelValid contended
unfolding enqueued appended
contended-KernelValid = record {
  queues = contended-QueuesValid;
  ready_linked = refl;
  current_free = refl;
  in_ready = λ t e. ground arith;
  in_wait = λ t q e n. ground arith;
  idle_there = inr refl;
  timer_made = λ t i e. ground arith;
}

contended-MayLock : MayLock contended
unfolding enqueued
contended-MayLock = record { in_task = refl; busy = refl; unprepared = refl }

contended-Chain : Chain contended 3 (3 ∷ [])
unfolding enqueued
contended-Chain = Chain.last refl

os_mtx_lock_prio_boost-Boosted_example :
    (k' : Kernel) × (os_mtx_lock_prio_boost 1 0 contended ≡ ok tt k')
    × Boosted
        (contended.tasks contended.task_current).prio_current
        (if ltb
            (contended.tasks 3).prio_current
            (contended.tasks contended.task_current).prio_current
          then 3 ∷ []
          else [])
        contended
        k'
unfolding enqueued
os_mtx_lock_prio_boost-Boosted_example =
    os_mtx_lock_prio_boost-Boosted 1 0 contended contended-KernelValid refl contended-Chain
      (omega arith)

os_mtx_lock-Blocked_example :
    (k1 k' : Kernel) × (os_mtx_lock 1 0 contended ≡ switched k')
    × Boosted
        (contended.tasks contended.task_current).prio_current
        (if ltb
            (contended.tasks 3).prio_current
            (contended.tasks contended.task_current).prio_current
          then 3 ∷ []
          else [])
        (inside contended)
        k1
    × Blocked (mtx_queue 0) TaskBlock.mtx (in_mtx_lock contended.dint) k1 k'
unfolding enqueued
os_mtx_lock-Blocked_example =
    os_mtx_lock-Blocked contended contended-KernelValid contended-MayLock 1 0 refl refl
      contended-Chain (omega arith) refl

contended-MayUnlock : MayUnlock contended 1
unfolding enqueued
contended-MayUnlock = record { in_task = refl; mine = refl; unprepared = refl }

os_mtx_unlock-Unlocks_example :
    (k1 : Kernel) × Reset (cleared 1 contended) k1
    × Unlocks k1 1 contended.dint (os_mtx_unlock 1 contended)
    × Runs KernelValid (λ _. KernelValid) (os_mtx_unlock 1 contended)
unfolding enqueued
os_mtx_unlock-Unlocks_example =
    os_mtx_unlock-Unlocks contended contended-KernelValid 1 contended-MayUnlock refl (omega arith)

os_mtx_destroy-Destroys_example :
    (k1 : Kernel) × (KernelValid k1
      × Destroys 1 contended k1
      × (os_mtx_destroy 2 1 contended
          ≡ and_then
              (os_schedule 1 (in_schedule contended.dint) k1)
              (λ _. arch_critical_exit contended.dint))
      × Runs KernelValid (λ _. KernelValid) (os_mtx_destroy 2 1 contended))
unfolding enqueued appended
os_mtx_destroy-Destroys_example =
    os_mtx_destroy-Destroys contended contended-KernelValid 1 2 refl refl
      (λ free. absurd (ground arith)) (λ owner e. ground arith) (omega arith) (omega arith)

-- Task 1 waits in `os_mtx_lock`.
abbrev locking : Kernel
locking = set_task 1 (record (contended.tasks 1) { ctx = in_mtx_lock false }) contended

locking-KernelValid : KernelValid locking
locking-KernelValid =
    set_task-KernelValid contended contended-KernelValid 1 _ refl refl refl (λ i e. e)

locking-Contends : Contends locking 1 1 3 []
unfolding enqueued appended
locking-Contends = record {
  top = record { heads = refl; highest = λ p h. ground arith; queued = refl; prio = refl };
  single = refl;
  above_current = omega arith;
  above_ready = λ p h. ground arith;
}

os_mtx_unlock-resume_example :
    (k3 k4 : Kernel) × (os_mtx_unlock 1 locking ≡ switched k3)
    × (k3.task_current ≡ 1)
    × (resume 0 k3 ≡ ok (some os_ok) k4)
    × Holds false 1 1 k4
unfolding enqueued
os_mtx_unlock-resume_example =
    os_mtx_unlock-resume locking locking-KernelValid 1
      (record { in_task = refl; mine = refl; unprepared = refl }) refl (omega arith) refl
      locking-Contends false refl 0
