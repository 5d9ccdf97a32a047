-- ===== src/Examples/Queues.antt =====
-- The task queues and the scheduler, where task 1 waits on semaphore 0 and task 2 runs.
use rados.Base.{◌+◌, ◌%◌, ◌^◌, refl, true}
use rados.Kernel.{Kernel, user_code, sem_queue}
use rados.TaskQueue.{os_taskqueue_dequeue}
use rados.TaskQueue.Dequeue.{Dequeues, os_taskqueue_dequeue-Dequeues}
use rados.Sched.{os_schedule}
use rados.Sched.Valid.{KernelValid, same-KernelValid}
use rados.Sched.Schedule.{Schedules, os_schedule-Schedules}
use rados.Examples.Kernels.{one_waits, one_waits-KernelValid}

os_taskqueue_dequeue-Dequeues_example :
    Dequeues one_waits (sem_queue 0) (os_taskqueue_dequeue (sem_queue 0) one_waits)
os_taskqueue_dequeue-Dequeues_example =
    os_taskqueue_dequeue-Dequeues one_waits (one_waits-KernelValid.queues) (sem_queue 0)

-- The same kernel with interrupts off.
abbrev quiet : Kernel
quiet = record one_waits { dint = true }

quiet-KernelValid : KernelValid quiet
quiet-KernelValid = same-KernelValid one_waits quiet refl refl refl (λ i e. e) one_waits-KernelValid

os_schedule-Schedules_example :
    Schedules quiet
      (((quiet.tasks quiet.task_current).prio_current + 1) % 2 ^ 8)
      user_code
      (os_schedule 1 user_code quiet)
os_schedule-Schedules_example = os_schedule-Schedules quiet quiet-KernelValid user_code 1 refl
