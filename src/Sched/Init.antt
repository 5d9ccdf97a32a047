-- ===== src/Sched/Init.antt =====
-- `os_init` sets up a valid kernel.
use rados.Base.{ℕ, ◌<◌, ◌≡◌, refl, inl, true, false, none, [], arith}
use rados.Bitmask.{arch_bitmask_fls}
use rados.Bitmask.Laws.{bit, bit-above_fls}
use rados.Kernel.{Kernel, TaskState, priocnt, task_idle}
use rados.TaskQueue.{os_taskqueue_init}
use rados.TaskQueue.Valid.{QueuesValid}
use rados.Sched.{set_state}
use rados.Sched.Lock.{os_task_init, os_init}
use rados.Sched.Valid.{KernelValid}

-- No task stands in a queue or has a timer.
pub record IsBlank (k : Kernel) : Type 0 where
  pub no_queue : (t : ℕ) → (k.tasks t).task_queue ≡ none
  pub no_timer : (t : ℕ) → (k.tasks t).timer ≡ none
  pub prio_small : (t : ℕ) → (k.tasks t).prio_current < priocnt
  pub no_tasks : (q p : ℕ) → (k.queues q).tasks p ≡ []
  pub no_mask : (q : ℕ) → (k.queues q).mask ≡ 0

pub bit_zero : (p : ℕ) → p < 8 → bit 0 p ≡ false
unfolding arch_bitmask_fls
bit_zero p h = bit-above_fls 0 p (omega arith) h (omega arith)

pub blank-QueuesValid : (k : Kernel) → IsBlank k → QueuesValid k
blank-QueuesValid k b = record {
  placed = λ q p t. ground (arith, b.no_tasks q p, b.no_queue t);
  masked = λ q p h. ground (arith, b.no_tasks q p, b.no_mask q, bit_zero p);
  mask_small = λ q. ground (arith, b.no_mask q);
  prio_small = b.prio_small;
  linked = λ t q e. ground (arith, b.no_queue t);
}

-- From memory in which no task stands in a queue or has a timer, `os_init` sets up a valid kernel
-- in which the idle task runs, the scheduler is locked once and interrupts are off.
pub os_init-KernelValid :
    (k : Kernel)
    → IsBlank k
    → KernelValid (os_init k)
      × ((os_init k).task_current ≡ task_idle)
      × (((os_init k).tasks task_idle).state ≡ TaskState.running)
      × ((os_init k).sched_lock ≡ 1)
      × ((os_init k).dint ≡ true)
unfolding os_init os_task_init os_taskqueue_init set_state
os_init-KernelValid k b = (
  record {
    queues = blank-QueuesValid (os_init k) (record {
      no_queue = λ t. ground (arith, b.no_queue t);
      no_timer = λ t. ground (arith, b.no_timer t);
      prio_small = λ t. ground (arith, b.prio_small t);
      no_tasks = λ q p. ground (arith, b.no_tasks q p);
      no_mask = λ q. ground (arith, b.no_mask q);
    });
    ready_linked = ground arith;
    current_free = ground arith;
    in_ready = λ t e. ground (arith, b.no_queue t);
    in_wait = λ t q e n. ground (arith, b.no_queue t);
    idle_there = inl refl;
    timer_made = λ t i e. ground (arith, b.no_timer t);
  },
  refl,
  ground arith,
  refl,
  refl,
)
