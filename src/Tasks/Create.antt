-- ===== src/Tasks/Create.antt =====
-- `os_task_create`: the new task, its stack and its place in the ready queue.
use rados.Base.{
  ℕ, ◌+◌, ◌-◌, ◌≤◌, ◌<◌, ◌≡◌, refl, ◌⊎◌, true, false, none, some, [], ◌∷◌, ◌++◌, arith, ◌==◌,
  if◌then◌else◌, length, ltb, leb,
}
use rados.Kernel.{Kernel, TaskState, TaskBlock, task_entry, in_schedule, ready_queue, priocnt}
use rados.Kernel.Run.{ok, and_then, arch_critical_exit, is_none}
use rados.Kernel.Runs.{Runs}
use rados.TaskQueue.{enqueued}
use rados.TaskQueue.Valid.{QueuesValid}
use rados.TaskQueue.Ops.{os_taskqueue_enqueue_lem}
use rados.Sched.{os_schedule}
use rados.Sched.Lock.{os_task_init}
use rados.Sched.Valid.{KernelValid, same-QueuesValid}
use rados.Sched.Exit.{schedule_exit-Runs}
use rados.Port.Stack.{Holds, push_down_out, push_down-Holds}
use rados.Tasks.{
  fillpatern, stack_minsize, task_frame, os_task_check_init, arch_task_init, os_task_create,
  os_task_check, fill,
}

-- What the assertions of `os_task_create` ask for, and that the task's memory is not in use.
pub record MayCreate (k : Kernel) (t prio stack stack_size : ℕ) : Type 0 where
  pub in_task : k.isr_nesting ≡ 0
  pub unprepared : k.waitqueue_current ≡ none
  pub prio_small : prio < priocnt
  pub prio_pos : 0 < prio
  pub stack_there : (stack == 0) ≡ false
  pub stack_large : stack_minsize ≤ stack_size
  pub unused : (k.tasks t).task_queue ≡ none
  pub not_current : (t == k.task_current) ≡ false

-- The kernel `k1` with the new task.
pub record Created (start t prio stack stack_size proc param : ℕ) (k k1 : Kernel) : Type 0 where
  pub valid : KernelValid k1
  pub task : k1.tasks t ≡ record {
    ctx = task_entry (stack + stack_size - 36);
    prio_base = prio;
    prio_current = prio;
    state = TaskState.ready;
    task_queue = some ready_queue;
    block_type = TaskBlock.invalid;
    timer = none;
    mtx_list = [];
    join_sem = none;
    ret_value = 0;
    stack_end = stack;
    stack_size = stack_size;
  }
  pub others : (a : ℕ) → (a == t) ≡ false → k1.tasks a ≡ k.tasks a
  -- It is the last of its priority to run.
  pub ready :
      (p : ℕ)
      → (k1.queues ready_queue).tasks p ≡ (
          if p == prio
          then (k.queues ready_queue).tasks p ++ t ∷ []
          else (k.queues ready_queue).tasks p)
  -- The frame stands at the top of the stack, nothing outside the stack is written, and the end of the
  -- stack is intact.
  pub frame :
      Holds k1.memory
        (stack + stack_size - 1)
        (task_frame start (stack + stack_size - 1) proc param)
  pub outside : (a : ℕ) → (a < stack) ⊎ (stack + stack_size ≤ a) → k1.memory a ≡ k.memory a
  pub intact : os_task_check t k1 ≡ ok tt k1

module _ (start t prio stack stack_size proc param : ℕ) (k : Kernel) (v : KernelValid k)
    (may : MayCreate k t prio stack stack_size) where
  -- The kernel before the critical section.
  abbrev prepared : Kernel
  prepared =
      arch_task_init start t stack stack_size proc param
        (os_task_check_init t stack stack_size (os_task_init t prio k))

  prepared-QueuesValid : QueuesValid prepared
  unfolding arch_task_init os_task_check_init os_task_init
  prepared-QueuesValid = record {
    placed = λ q p a. ground (arith, v.queues.placed q p a, may);
    masked = v.queues.masked;
    mask_small = v.queues.mask_small;
    prio_small = λ a. ground (arith, v.queues.prio_small a, may);
    linked = λ a q e. ground (arith, v.queues.linked a q, may);
  }

  frame_size : length (task_frame start (stack + stack_size - 1) proc param) ≡ 35
  unfolding task_frame
  frame_size = refl

  abbrev added : Kernel
  added = enqueued ready_queue t (record prepared { dint = true })

  added-KernelValid :
      (os_task_create start t prio stack stack_size proc param k
        ≡ and_then (os_schedule 1 (in_schedule k.dint) added) (λ _. arch_critical_exit k.dint))
      × KernelValid added
  unfolding os_task_create arch_task_init os_task_check_init os_task_init enqueued
  added-KernelValid =
      let (runs, queues) =
        os_taskqueue_enqueue_lem (record prepared { dint = true })
          (same-QueuesValid prepared (record prepared { dint = true }) refl refl
            prepared-QueuesValid)
          ready_queue t (ground arith) v.ready_linked in
      let a1 : (k.isr_nesting == 0) ≡ true = ground (arith, may.in_task) in
      let u : is_none k.waitqueue_current ≡ true = rw may.unprepared refl in
      let a2 : ltb prio priocnt ≡ true = ground (arith, may.prio_small) in
      let a3 : ltb 0 prio ≡ true = ground (arith, may.prio_pos) in
      let a4 : leb stack_minsize stack_size ≡ true = ground (arith, may.stack_large) in
      (
        rw (a1, u, a2, a3, may.stack_there, a4, runs) refl,
        record {
          queues = queues;
          ready_linked = ground (arith, v.ready_linked);
          current_free = ground (arith, v.current_free, may.not_current);
          in_ready = λ a e. ground (arith, v.in_ready a);
          in_wait = λ a q e n. ground (arith, v.in_wait a q);
          idle_there = ground (arith, v.idle_there);
          timer_made = λ a i e. ground (arith, v.timer_made a i);
        },
      )

  bottom : added.memory stack ≡ fillpatern
  unfolding arch_task_init os_task_check_init os_task_init enqueued fill
  bottom = ground (
    arith,
    may.stack_large,
    frame_size,
    push_down_out (stack + stack_size - 1) (task_frame start (stack + stack_size - 1) proc param)
        (fill stack stack_size k.memory) stack,
  )

  -- In a valid kernel that meets the assertions of `os_task_create`, for a task that is not current
  -- and in no queue: the kernel with the new task is valid, the task is the last of its priority
  -- that is ready, its frame stands at the top of its stack, nothing outside the stack is written,
  -- `os_task_check` passes, no other task is changed, and the call then schedules.
  pub os_task_create-Created :
      (k1 : Kernel) × Created start t prio stack stack_size proc param k k1
      × (os_task_create start t prio stack stack_size proc param k
          ≡ and_then (os_schedule 1 (in_schedule k.dint) k1) (λ _. arch_critical_exit k.dint))
      × Runs KernelValid
          (λ _. KernelValid)
          (os_task_create start t prio stack stack_size proc param k)
  unfolding arch_task_init os_task_check_init os_task_init enqueued fill os_task_check
  os_task_create-Created =
      let (runs, valid) = added-KernelValid in
      (
        added,
        record {
          valid = valid;
          task = ground arith;
          others = λ a n. ground arith;
          ready = λ p. ground arith;
          frame =
              push_down-Holds (stack + stack_size - 1) _ _
                (omega (arith, may.stack_large, frame_size));
          outside = λ a out. ground (
            arith,
            may.stack_large,
            frame_size,
            push_down_out (stack + stack_size - 1)
                (task_frame start (stack + stack_size - 1) proc param)
                (fill stack stack_size k.memory) a,
          );
          intact = ground (arith, bottom);
        },
        runs,
        rw runs (schedule_exit-Runs added valid refl 1 (in_schedule k.dint) k.dint),
      )
