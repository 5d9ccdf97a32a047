-- ===== src/Block/Switch.antt =====
-- Blocking: the current task joins the queue of an object, and the most urgent ready task runs.
use rados.Base.{
  ℕ, ◌≡◌, refl, true, false, Option, none, some, List, [], ◌∷◌, ◌++◌, arith, ◌==◌, if◌then◌else◌,
}
use rados.Kernel.{Kernel, TaskState, TaskBlock, Context, task_idle, ready_queue}
use rados.Kernel.Run.{ok, switched, Outcome, and_then, crash, set_task}
use rados.TaskQueue.{enqueued, removed}
use rados.TaskQueue.Valid.{QueuesValid}
use rados.TaskQueue.Ops.{os_taskqueue_enqueue_lem}
use rados.TaskQueue.Dequeue.{IsTop, IsIdle, Dequeues, os_taskqueue_dequeue-Dequeues}
use rados.Sched.{set_waiting, os_task_makewait, arch_context_switch}
use rados.Sched.Valid.{KernelValid, set_task-QueuesValid, same-QueuesValid}
use rados.Block.{switch_to_ready, os_task_block_switch}

-- The current task waits in queue `q`, and still has the CPU.
abbrev queued_up : ℕ → TaskBlock → Kernel → Kernel
queued_up q block_type k = enqueued q k.task_current (set_waiting block_type k)

-- Then task `t`, the first of the ready bucket `p`, has it.
abbrev pub left_to : ℕ → TaskBlock → Context → ℕ → ℕ → List ℕ → Kernel → Kernel
left_to q block_type ctx t p left k =
    let k2 = removed ready_queue p left t (queued_up q block_type k) in
    record (set_task k.task_current (record (k2.tasks k.task_current) { ctx = ctx }) k2) {
      task_current = t;
    }

-- The kernel `k'` after the current task of `k` has blocked on queue `q`.
pub record Blocked (q : ℕ) (block_type : TaskBlock) (ctx : Context) (k k' : Kernel) : Type 0 where
  pub valid : KernelValid k'
  pub task : k'.tasks k.task_current ≡ record (k.tasks k.task_current) {
    state = TaskState.wait;
    block_type = block_type;
    task_queue = some q;
    ctx = ctx;
  }
  pub others :
      (a : ℕ)
      → (a == k.task_current) ≡ false
      → k'.tasks a ≡ record (k.tasks a) {
        task_queue = if a == k'.task_current then none else (k.tasks a).task_queue;
      }
  pub last :
      (k'.queues q).tasks (k.tasks k.task_current).prio_current
      ≡ (k.queues q).tasks (k.tasks k.task_current).prio_current ++ k.task_current ∷ []
  pub p : ℕ
  pub left : List ℕ
  pub runs : IsTop k ready_queue k'.task_current p left
  pub dint : k'.dint ≡ k.dint
  pub sems : k'.sems ≡ k.sems
  pub mtxs : k'.mtxs ≡ k.mtxs
  pub sched_lock : k'.sched_lock ≡ k.sched_lock
  pub waitqueue_current : k'.waitqueue_current ≡ k.waitqueue_current

module _ (k : Kernel) (v : KernelValid k) (q : ℕ) (block_type : TaskBlock) (ctx : Context)
    (link : (k.queues q).linked ≡ true) (other : (q == ready_queue) ≡ false)
    (busy : (k.task_current == task_idle) ≡ false) where
  queued_up_lem :
      (os_task_makewait q block_type k ≡ ok tt (queued_up q block_type k))
      × QueuesValid (queued_up q block_type k)
  unfolding os_task_makewait set_waiting
  queued_up_lem =
      os_taskqueue_enqueue_lem (set_waiting block_type k)
        (set_task-QueuesValid k v.queues k.task_current _ refl refl) q k.task_current
        (ground (arith, v.current_free)) link

  idle_waits : (k.tasks task_idle).task_queue ≡ some ready_queue
  idle_waits = ground (arith, v.idle_there, busy)

  never-IsIdle : ¬ IsIdle (queued_up q block_type k) ready_queue
  unfolding set_waiting enqueued
  never-IsIdle none_there =
      let prio = (k.tasks task_idle).prio_current in
      ground (arith, none_there prio, v.queues.placed ready_queue prio task_idle, idle_waits)

  module _ {t p : ℕ} {left : List ℕ} (i : IsTop (queued_up q block_type k) ready_queue t p left)
      (vr : QueuesValid (removed ready_queue p left t (queued_up q block_type k))) where
    not_self : (t == k.task_current) ≡ false
    unfolding set_waiting enqueued
    not_self = ground (arith, i.queued)

    IsTop-before : IsTop k ready_queue t p left
    unfolding set_waiting enqueued
    IsTop-before = record {
      heads = ground (arith, i.heads);
      highest = λ p' h. ground (arith, i.highest p');
      queued = ground (arith, i.queued, not_self);
      prio = ground (arith, i.prio, not_self);
    }

    left_to-KernelValid : KernelValid (left_to q block_type ctx t p left k)
    unfolding set_waiting enqueued removed
    left_to-KernelValid = record {
      queues =
          same-QueuesValid
            (set_task k.task_current _ (removed ready_queue p left t (queued_up q block_type k))) _
            refl refl (set_task-QueuesValid _ vr k.task_current _ refl refl);
      ready_linked = ground (arith, v.ready_linked);
      current_free = ground (arith, not_self);
      in_ready = λ a e. ground (arith, v.in_ready a, not_self);
      in_wait = λ a r e n. ground (arith, v.in_wait a r, not_self);
      idle_there = ground (arith, v.idle_there, idle_waits, not_self, busy);
      timer_made = λ a j e. ground (arith, v.timer_made a j);
    }

    left_to-Blocked : Blocked q block_type ctx k (left_to q block_type ctx t p left k)
    unfolding set_waiting enqueued removed
    left_to-Blocked = record {
      valid = left_to-KernelValid;
      task = ground (arith, not_self);
      others = λ a n. ground arith;
      last = ground arith;
      p = p;
      left = left;
      runs = IsTop-before;
      dint = refl;
      sems = refl;
      mtxs = refl;
      sched_lock = refl;
      waitqueue_current = refl;
    }

  finish :
      {A : Type 0} {r : Outcome (Option ℕ)}
      → Dequeues (queued_up q block_type k) ready_queue r
      → (k' : Kernel) × (and_then {B = A} r
            (λ o. elim o [ none ↦ crash | some t ↦ arch_context_switch t ctx ])
          ≡ switched k')
        × Blocked q block_type ctx k k'
  unfolding arch_context_switch set_waiting enqueued removed
  finish (Dequeues.idle i) = absurd (never-IsIdle i)
  finish (Dequeues.takes {t} {p} {left} i vr) =
      (left_to q block_type ctx t p left k, refl, left_to-Blocked i vr)

  -- In a valid kernel, where the current task is not the idle task and the queue was initialised
  -- and is not the ready queue, `os_task_block_switch` always switches: the current task waits at
  -- the end of its bucket of the queue, the first ready task of the highest priority has the CPU,
  -- the scheduler lock and every semaphore and mutex stay as they were, no other task changes, and
  -- the kernel stays valid.
  pub os_task_block_switch-Blocked :
      {A : Type 0}
      → (k' : Kernel) × (os_task_block_switch {A = A} q block_type ctx k ≡ switched k')
        × Blocked q block_type ctx k k'
  unfolding os_task_block_switch switch_to_ready
  os_task_block_switch-Blocked {A} =
      let (waits, vq) = queued_up_lem in
      let (k', runs, b) = finish {A = A} (os_taskqueue_dequeue-Dequeues _ vq ready_queue) in
      (k', rw (os_task_block_switch, waits, switch_to_ready) runs, b)
