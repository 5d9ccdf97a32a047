-- ===== src/Examples/Systems.antt =====
-- The calls of several tasks in a row, a run of a queue, a new task, and a kernel that steps reach.
use rados.Base.{◌≡◌, refl, false, none, some, [], ◌∷◌, arith}
use rados.Kernel.{Kernel, in_sem_down, os_ok, in_schedule}
use rados.Kernel.Run.{ok, switched, and_then, arch_critical_exit, pure, set_task}
use rados.Kernel.Runs.{Runs}
use rados.TaskQueue.{enqueued, appended}
use rados.TaskQueue.Serve.{Op, serve, serve-answers}
use rados.Sched.{os_schedule}
use rados.Sched.Lock.{os_init}
use rados.Sched.Valid.{KernelValid}
use rados.Block.Wake.{set_task-KernelValid}
use rados.Sem.{os_sem_up}
use rados.Tasks.{resume, os_task_create, isr_enter}
use rados.Tasks.Create.{MayCreate, Created, os_task_create-Created}
use rados.Tasks.Resume.{IsUrgent, Finished, os_sem_up-resume}
use rados.System.Keeps.{Keeps-pure}
use rados.System.Step.{Step}
use rados.System.Reach.{Reach, Reach-KernelValid}
use rados.Examples.Kernels.{
  unqueued, unqueued-IsBlank, alone, alone-KernelValid, one_waits, one_waits-KernelValid,
}

-- Task 1 waits in `os_sem_down`.
abbrev downed : Kernel
downed = set_task 1 (record (one_waits.tasks 1) { ctx = in_sem_down false }) one_waits

downed-KernelValid : KernelValid downed
downed-KernelValid =
    set_task-KernelValid one_waits one_waits-KernelValid 1 _ refl refl refl (λ i e. e)

downed-IsUrgent : IsUrgent downed 0 1 3 []
unfolding one_waits alone enqueued appended
downed-IsUrgent = record {
  top = record { heads = refl; highest = λ p h. ground arith; queued = refl; prio = refl };
  above_current = omega arith;
  above_ready = λ p h. ground arith;
}

os_sem_up-resume_example :
    (k2 k3 : Kernel) × (os_sem_up 0 downed ≡ switched k2)
    × (k2.task_current ≡ 1)
    × (resume 0 k2 ≡ ok (some os_ok) k3)
    × Finished false k2 k3
unfolding one_waits alone enqueued
os_sem_up-resume_example =
    os_sem_up-resume downed downed-KernelValid 0
      (record { sync_in_task = refl; unprepared = refl; room = omega arith }) refl refl
      downed-IsUrgent false refl 0

alone-MayCreate : MayCreate alone 5 4 1000 200
unfolding alone enqueued
alone-MayCreate = record {
  in_task = refl;
  unprepared = refl;
  prio_small = omega arith;
  prio_pos = omega arith;
  stack_there = refl;
  stack_large = omega arith;
  unused = refl;
  not_current = refl;
}

os_task_create-Created_example :
    (k1 : Kernel) × Created 700 5 4 1000 200 800 900 alone k1
    × (os_task_create 700 5 4 1000 200 800 900 alone
        ≡ and_then (os_schedule 1 (in_schedule alone.dint) k1) (λ _. arch_critical_exit alone.dint))
    × Runs KernelValid (λ _. KernelValid) (os_task_create 700 5 4 1000 200 800 900 alone)
os_task_create-Created_example =
    os_task_create-Created 700 5 4 1000 200 800 900 alone alone-KernelValid alone-MayCreate

-- Tasks 6 and 7 have priority 0 and task 1 has priority 3.
serve-answers_example :
    (k' : Kernel) × (serve 9
        (Op.enqueue 6 ∷ Op.enqueue 1 ∷ Op.dequeue ∷ Op.dequeue ∷ Op.dequeue ∷ [])
        alone
      ≡ ok (some 1 ∷ some 6 ∷ none ∷ []) k')
unfolding alone enqueued rados.TaskQueue.Serve.answers rados.TaskQueue.Arrival.pick
serve-answers_example =
    serve-answers alone (alone-KernelValid.queues) 9 refl (λ p. refl)
      (Op.enqueue 6 ∷ Op.enqueue 1 ∷ Op.dequeue ∷ Op.dequeue ∷ Op.dequeue ∷ [])
      (refl, refl, (refl, refl, tt))

Reach-KernelValid_example : KernelValid (isr_enter (os_init unqueued))
Reach-KernelValid_example =
    Reach-KernelValid (λ f p. pure tt) (λ f p. Keeps-pure tt)
      (Reach.next (Reach.start unqueued unqueued-IsBlank) (Step.interrupt refl))
