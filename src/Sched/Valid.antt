-- ===== src/Sched/Valid.antt =====
-- The invariant of the scheduler, and what putting a task on the ready queue or on a wait queue does.
use rados.Base.{ℕ, ◌≡◌, refl, ◌⊎◌, true, false, none, some, arith, ◌==◌, ◌||◌}
use rados.Kernel.{Kernel, Task, TaskState, task_idle, ready_queue}
use rados.Kernel.Run.{ok, set_task}
use rados.Kernel.{magic1, magic2}
use rados.TaskQueue.{enqueued}
use rados.TaskQueue.Valid.{QueuesValid}
use rados.TaskQueue.Ops.{os_taskqueue_enqueue_lem}
use rados.Sched.{set_state, os_task_makeready}

pub record KernelValid (k : Kernel) : Type 0 where
  pub queues : QueuesValid k
  pub ready_linked : (k.queues ready_queue).linked ≡ true
  -- The running task stands in no queue.
  pub current_free : (k.tasks k.task_current).task_queue ≡ none
  -- The state of a task says which kind of queue it stands in.
  pub in_ready :
      (t : ℕ) → (k.tasks t).task_queue ≡ some ready_queue → (k.tasks t).state ≡ TaskState.ready
  pub in_wait :
      (t q : ℕ)
      → (k.tasks t).task_queue ≡ some q
      → (q == ready_queue) ≡ false
      → (k.tasks t).state ≡ TaskState.wait
  -- The idle task runs or is ready, so there is always a task to switch to.
  pub idle_there :
      (k.task_current ≡ task_idle) ⊎ ((k.tasks task_idle).task_queue ≡ some ready_queue)
  -- The timer of a task was created.
  pub timer_made :
      (t i : ℕ)
      → (k.tasks t).timer ≡ some i
      → ((k.timers i).magic == magic1 || (k.timers i).magic == magic2) ≡ true

-- The invariant reads the tasks, the queues, the current task and the marks of the timers.
pub same-QueuesValid :
    (k k' : Kernel) → k'.tasks ≡ k.tasks → k'.queues ≡ k.queues → QueuesValid k → QueuesValid k'
same-QueuesValid k k' et eq v = record {
  placed = λ q p t. rw (et, eq) (v.placed q p t);
  masked = λ q p h. rw eq (v.masked q p h);
  mask_small = λ q. rw eq (v.mask_small q);
  prio_small = λ t. rw et (v.prio_small t);
  linked = λ t q e. rw eq (v.linked t q (rw et at e));
}

pub same-KernelValid :
    (k k' : Kernel)
    → k'.tasks ≡ k.tasks
    → k'.queues ≡ k.queues
    → k'.task_current ≡ k.task_current
    → ((i : ℕ)
        → ((k.timers i).magic == magic1 || (k.timers i).magic == magic2) ≡ true
        → ((k'.timers i).magic == magic1 || (k'.timers i).magic == magic2) ≡ true)
    → KernelValid k
    → KernelValid k'
same-KernelValid k k' et eq ec em v = record {
  queues = same-QueuesValid k k' et eq v.queues;
  ready_linked = rw eq v.ready_linked;
  current_free = rw (et, ec) v.current_free;
  in_ready = λ t e. rw et (v.in_ready t (rw et at e));
  in_wait = λ t q e n. rw et (v.in_wait t q (rw et at e) n);
  idle_there = rw (et, ec) v.idle_there;
  timer_made = λ t i e. em i (v.timer_made t i (rw et at e));
}

-- A change of the fields that the queues do not read.
pub set_task-QueuesValid :
    (k : Kernel)
    → QueuesValid k
    → (t : ℕ) (task : Task) → task.task_queue ≡ (k.tasks t).task_queue
    → task.prio_current ≡ (k.tasks t).prio_current
    → QueuesValid (set_task t task k)
set_task-QueuesValid k v t task eq ep = record {
  placed = λ q p a. ground (arith, v.placed q p a);
  masked = v.masked;
  mask_small = v.mask_small;
  prio_small = λ a. ground (arith, v.prio_small a);
  linked = λ a q e. ground (arith, v.linked a q);
}

-- The kernel after `os_task_makeready`.
abbrev pub made_ready : ℕ → Kernel → Kernel
made_ready t k = enqueued ready_queue t (set_state t TaskState.ready k)

module _ (k : Kernel) (v : QueuesValid k) where
  pub os_task_makeready_lem :
      (t : ℕ)
      → (k.queues ready_queue).linked ≡ true
      → (k.tasks t).task_queue ≡ none
      → (os_task_makeready t k ≡ ok tt (made_ready t k)) × QueuesValid (made_ready t k)
  unfolding os_task_makeready set_state
  os_task_makeready_lem t link out =
      let v1 = set_task-QueuesValid k v t _ refl refl in
      os_taskqueue_enqueue_lem (set_state t TaskState.ready k) v1 ready_queue t (ground arith) link
