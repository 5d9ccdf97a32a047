-- ===== src/Examples/Kernels.antt =====
-- Kernels for the examples.
use rados.Base.{ℕ, refl, inr, true, false, none, [], arith, ◌==◌, if◌then◌else◌}
use rados.Kernel.{
  Kernel, Task, TaskState, TaskBlock, Timer, Callback, user_code, ready_queue, sem_queue,
}
use rados.TaskQueue.{enqueued, appended}
use rados.TaskQueue.Valid.{QueuesValid, enqueued-QueuesValid}
use rados.Sched.Valid.{KernelValid}
use rados.Sched.Init.{IsBlank, blank-QueuesValid}

abbrev pub task_of : ℕ → TaskState → Task
task_of prio state = record {
  ctx = user_code;
  prio_base = prio;
  prio_current = prio;
  state = state;
  task_queue = none;
  block_type = TaskBlock.invalid;
  timer = none;
  mtx_list = [];
  join_sem = none;
  ret_value = 0;
  stack_end = 0;
  stack_size = 0;
}

abbrev pub no_timer : Timer
no_timer = record { ticks_rem = 0; ticks_reload = 0; clbck = Callback.user 0; param = 0; magic = 0 }

-- Task 1 has priority 3, task 2 has priority 2 and runs, and the idle task has address 0.
abbrev pub tasks : ℕ → Task
tasks t =
    if t == 1
    then task_of 3 TaskState.wait
    else if t == 2
    then task_of 2 TaskState.running
    else task_of 0 TaskState.ready

abbrev pub unqueued : Kernel
unqueued = record {
  tasks = tasks;
  queues = λ q. record { tasks = λ p. []; mask = 0; linked = true };
  sems = λ s. 0;
  mtxs = λ m. record { owner = none; recur = 0 };
  timers = λ i. no_timer;
  timer_list = [];
  timer_tick_unsynch = 0;
  ticks_cnt = 0;
  task_current = 2;
  isr_nesting = 0;
  sched_lock = 0;
  waitqueue_current = none;
  dint = false;
  memory = λ a. 0;
}

pub unqueued-IsBlank : IsBlank unqueued
unqueued-IsBlank = record {
  no_queue = λ t. ground arith;
  no_timer = λ t. ground arith;
  prio_small = λ t. ground arith;
  no_tasks = λ q p. refl;
  no_mask = λ q. refl;
}

-- The idle task is ready, and task 2 runs alone.
unfoldable pub alone : Kernel
unfolding enqueued
alone = enqueued ready_queue 0 unqueued

alone-QueuesValid : QueuesValid alone
unfolding alone
alone-QueuesValid =
    enqueued-QueuesValid unqueued (blank-QueuesValid unqueued unqueued-IsBlank) ready_queue 0 refl
      refl

pub alone-KernelValid : KernelValid alone
unfolding alone appended
alone-KernelValid = record {
  queues = alone-QueuesValid;
  ready_linked = refl;
  current_free = refl;
  in_ready = λ t e. ground arith;
  in_wait = λ t q e n. ground arith;
  idle_there = inr refl;
  timer_made = λ t i e. ground arith;
}

-- Task 1 waits on semaphore 0 as well.
unfoldable pub one_waits : Kernel
unfolding enqueued alone
one_waits = enqueued (sem_queue 0) 1 alone

one_waits-QueuesValid : QueuesValid one_waits
unfolding one_waits
one_waits-QueuesValid = enqueued-QueuesValid alone alone-QueuesValid (sem_queue 0) 1 refl refl

pub one_waits-KernelValid : KernelValid one_waits
unfolding one_waits appended
one_waits-KernelValid = record {
  queues = one_waits-QueuesValid;
  ready_linked = refl;
  current_free = refl;
  in_ready = λ t e. ground arith;
  in_wait = λ t q e n. ground arith;
  idle_there = inr refl;
  timer_made = λ t i e. ground arith;
}
