-- ===== src/Block/Drain.antt =====
-- The loop of the destroy functions wakes every task of a queue.
use rados.Base.{
  ℕ, zero, suc, ◌+◌, ◌≤◌, ◌<◌, ◌≡◌, refl, Bool, true, false, Option, none, some, List, [], arith,
  ◌==◌, length,
}
use rados.Kernel.{Kernel, Task, ready_queue}
use rados.Kernel.Run.{M, ok, Outcome, and_then, pure, ◌>>◌, set_queue}
use rados.TaskQueue.{removed, os_taskqueue_init}
use rados.TaskQueue.Valid.{QueuesValid, points_at}
use rados.TaskQueue.Dequeue.{IsTop, IsIdle, Dequeues, os_taskqueue_dequeue-Dequeues}
use rados.Sched.Valid.{KernelValid}
use rados.Block.{wake, wake_all, clear_queue}
use rados.Sched.Init.{bit_zero}
use rados.Block.Wake.{SameGlobals, ready_task, no_timer, Readied, wake_lem, removed_top-KernelValid}

-- How many tasks wait in a queue.
abbrev pub queue_size : Kernel → ℕ → ℕ
queue_size k q =
    let bucket = (k.queues q).tasks in
    length (bucket 0)
    + length (bucket 1)
    + length (bucket 2)
    + length (bucket 3)
    + length (bucket 4)

-- The fields of a task after it was woken.
abbrev pub woken_task : ℕ → Task → Task
woken_task = ready_task no_timer

-- The kernel `k'` after every task of queue `q` was made ready with `code`.
pub record Emptied (timer : Option ℕ → Option ℕ) (code q : ℕ) (k k' : Kernel) : Type 0 where
  pub valid : KernelValid k'
  pub idle : IsIdle k' q
  pub woken :
      (t : ℕ)
      → points_at (k.tasks t).task_queue q ≡ true
      → k'.tasks t ≡ ready_task timer code (k.tasks t)
  pub others : (t : ℕ) → points_at (k.tasks t).task_queue q ≡ false → k'.tasks t ≡ k.tasks t
  pub globals : SameGlobals k k'

abbrev pub Drained : ℕ → ℕ → Kernel → Kernel → Type 0
Drained = Emptied no_timer

-- An idle queue is no task's queue.
pub no_waiter :
    (k : Kernel)
    → QueuesValid k
    → (q : ℕ) → IsIdle k q
    → (t : ℕ) → points_at (k.tasks t).task_queue q ≡ false
no_waiter k v q i t =
    ground (arith, v.placed q (k.tasks t).prio_current t, i (k.tasks t).prio_current)

pub top_is_highest :
    (k : Kernel)
    → QueuesValid k
    → {q t p : ℕ} {left : List ℕ} → IsTop k q t p left
    → (u : ℕ) → points_at (k.tasks u).task_queue q ≡ true
    → (k.tasks u).prio_current ≤ p
top_is_highest k v {q} {t} {p} i u m =
    ground (arith, v.placed q (k.tasks u).prio_current u, i.highest (k.tasks u).prio_current)

pub removed_size :
    (k : Kernel)
    → QueuesValid k
    → {q t p : ℕ} {left : List ℕ} → IsTop k q t p left
    → queue_size k q ≡ suc (queue_size (removed q p left t k) q)
unfolding removed
removed_size k v {q} {t} {p} {left} i =
    let small = v.prio_small t in ground (arith, i.heads, i.prio, small)

-- A way to wake a task with `code`.
abbrev pub WakesWith : (Option ℕ → Option ℕ) → ℕ → (ℕ → M (Unit {0})) → Type 0
WakesWith timer code waking =
    (k : Kernel)
    → KernelValid k
    → (t : ℕ) → (k.tasks t).task_queue ≡ none
    → (t == k.task_current) ≡ false
    → (k' : Kernel) × (waking t k ≡ ok tt k') × Readied timer code t k k'

module _ (timer : Option ℕ → Option ℕ) (code : ℕ) (waking : ℕ → M (Unit {0}))
    (wakes : WakesWith timer code waking) (q : ℕ) (other : (q == ready_queue) ≡ false) where
  Readied-Emptied :
      (k : Kernel)
      → KernelValid k
      → {t p : ℕ} {left : List ℕ} → IsTop k q t p left
      → (k1 k' : Kernel) → Readied timer code t (removed q p left t k) k1
      → Emptied timer code q k1 k'
      → Emptied timer code q k k'
  unfolding removed
  Readied-Emptied k v {t} {p} {left} i k1 k' w d = record {
    valid = d.valid;
    idle = d.idle;
    woken = λ a m. ground (arith, w.task, w.others a, d.woken a, d.others a, i.queued);
    others = λ a m. ground (arith, w.task, w.others a, d.others a, i.queued);
    globals = ground (arith, w.globals, d.globals);
  }

  abbrev drain_body : ℕ → Outcome (Option ℕ) → Outcome (Unit {0})
  drain_body fuel r =
      and_then r
        λ task. elim task [ none ↦ pure tt | some t ↦ (do waking t; wake_all fuel waking q) ]

  drain_step :
      (fuel : ℕ) (k : Kernel)
      → KernelValid k
      → queue_size k q < suc fuel
      → ((k1 : Kernel)
          → KernelValid k1
          → queue_size k1 q < fuel
          → (k' : Kernel) × (wake_all fuel waking q k1 ≡ ok tt k') × Emptied timer code q k1 k')
      → {r : Outcome (Option ℕ)} → Dequeues k q r
      → (k' : Kernel) × (drain_body fuel r ≡ ok tt k') × Emptied timer code q k k'
  drain_step fuel k v h next (Dequeues.idle i) = (
    k,
    refl,
    record {
      valid = v;
      idle = i;
      woken = λ t m. absurd (ground (arith, no_waiter k v.queues q i t));
      others = λ t m. refl;
      globals = ground arith;
    },
  )
  drain_step fuel k v h next (Dequeues.takes {t} {p} {left} i vr) =
      let (v1, out, ne) = removed_top-KernelValid k v i other in
      let (k1, e1, w) = wakes (removed q p left t k) v1 t out ne in
      let less : queue_size k1 q < fuel =
        rw (w.elsewhere q other) (omega (arith, removed_size k v.queues i)) in
      let (k', e2, d) = next k1 w.valid less in (k', rw e1 e2, Readied-Emptied k v i k1 k' w d)

  pub wake_all-Emptied :
      (fuel : ℕ) (k : Kernel)
      → KernelValid k
      → queue_size k q < fuel
      → (k' : Kernel) × (wake_all fuel waking q k ≡ ok tt k') × Emptied timer code q k k'
  unfolding wake_all
  wake_all-Emptied zero k v h = absurd (omega arith)
  wake_all-Emptied (suc fuel) k v h =
      drain_step fuel k v h (wake_all-Emptied fuel) (os_taskqueue_dequeue-Dequeues k v.queues q)

pub wake_all-Drained :
    (code q : ℕ)
    → (q == ready_queue) ≡ false
    → (fuel : ℕ) (k : Kernel) → KernelValid k
    → queue_size k q < fuel
    → (k' : Kernel) × (wake_all fuel (wake code) q k ≡ ok tt k') × Drained code q k k'
wake_all-Drained code q other =
    wake_all-Emptied no_timer code (wake code) (λ k v t. wake_lem k v code t) q other

-- Writing a queue in which no task stands anew.
reset_queue-KernelValid :
    (k : Kernel)
    → KernelValid k
    → (q : ℕ) → (q == ready_queue) ≡ false
    → IsIdle k q
    → (link : Bool)
    → KernelValid (set_queue q (record { tasks = λ i. []; mask = 0; linked = link }) k)
reset_queue-KernelValid k v q other i link =
    let none_here = no_waiter k v.queues q i in
    record {
      queues = record {
        placed = λ r p t. ground (arith, v.queues.placed r p t, none_here t);
        masked = λ r p h. ground (arith, v.queues.masked r p h, bit_zero p h);
        mask_small = λ r. ground (arith, v.queues.mask_small r);
        prio_small = v.queues.prio_small;
        linked = λ t r e. ground (arith, v.queues.linked t r e, none_here t);
      };
      ready_linked = ground (arith, v.ready_linked);
      current_free = v.current_free;
      in_ready = v.in_ready;
      in_wait = v.in_wait;
      idle_there = v.idle_there;
      timer_made = v.timer_made;
    }

module _ (k : Kernel) (v : KernelValid k) (q : ℕ) (other : (q == ready_queue) ≡ false)
    (i : IsIdle k q) where
  -- Clearing its memory.
  pub clear_queue-KernelValid : KernelValid (clear_queue q k)
  unfolding clear_queue
  clear_queue-KernelValid = reset_queue-KernelValid k v q other i false

  -- Linking its buckets.
  pub os_taskqueue_init-KernelValid : KernelValid (os_taskqueue_init q k)
  unfolding os_taskqueue_init
  os_taskqueue_init-KernelValid = reset_queue-KernelValid k v q other i true
