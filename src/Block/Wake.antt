-- ===== src/Block/Wake.antt =====
-- Waking one task: its timer is destroyed, its code is set, and it joins the ready queue.
use rados.Base.{
  ℕ, Option, ◌≡◌, refl, inl, inr, false, none, some, List, [], ◌∷◌, ◌++◌, arith, ◌==◌,
  if◌then◌else◌, Option-cases,
}
use rados.Kernel.{Kernel, Task, TaskState, ready_queue}
use rados.Kernel.Run.{ok, set_task}
use rados.TaskQueue.{enqueued, removed}
use rados.TaskQueue.Dequeue.{IsTop, removed_top-QueuesValid}
use rados.Sched.{set_state, os_task_makeready}
use rados.Sched.Valid.{
  KernelValid, made_ready, same-KernelValid, set_task-QueuesValid, os_task_makeready_lem,
}
use rados.Timer.Stop.{
  Disarmed, Disarmed-some, SameTimers-refl, Disarmed-same, timer_destroyed-Stopped, Stopped-same,
}
use rados.Timer.Ops.{timer_destroyed, os_timer_destroy_lem}
use rados.Block.{set_task_timer, set_block_code, os_blocktimer_destroy, wake}

-- What does not change when the fields of tasks and the ready queue do.
pub record SameGlobals (k k' : Kernel) : Type 0 where
  pub sems : k'.sems ≡ k.sems
  pub mtxs : k'.mtxs ≡ k.mtxs
  pub task_current : k'.task_current ≡ k.task_current
  pub isr_nesting : k'.isr_nesting ≡ k.isr_nesting
  pub sched_lock : k'.sched_lock ≡ k.sched_lock
  pub waitqueue_current : k'.waitqueue_current ≡ k.waitqueue_current
  pub dint : k'.dint ≡ k.dint

-- A change of the timer, the code and other fields that place no task.
pub set_task-KernelValid :
    (k : Kernel)
    → KernelValid k
    → (t : ℕ) (task : Task) → task.task_queue ≡ (k.tasks t).task_queue
    → task.prio_current ≡ (k.tasks t).prio_current
    → task.state ≡ (k.tasks t).state
    → ((i : ℕ) → task.timer ≡ some i → (k.tasks t).timer ≡ some i)
    → KernelValid (set_task t task k)
set_task-KernelValid k v t task eq ep es et = record {
  queues = set_task-QueuesValid k v.queues t task eq ep;
  ready_linked = v.ready_linked;
  current_free = ground (arith, v.current_free);
  in_ready = λ a e. ground (arith, v.in_ready a);
  in_wait = λ a q e n. ground (arith, v.in_wait a q);
  idle_there = ground (arith, v.idle_there);
  timer_made = λ a i e. ground (arith, v.timer_made a i, et i);
}

-- The kernel `k'` after the timer of task `t` is gone.
pub record Unguarded (t : ℕ) (k k' : Kernel) : Type 0 where
  pub valid : KernelValid k'
  pub task : k'.tasks t ≡ record (k.tasks t) { timer = none }
  pub others : (a : ℕ) → (a == t) ≡ false → k'.tasks a ≡ k.tasks a
  pub queues : k'.queues ≡ k.queues
  pub globals : SameGlobals k k'
  pub disarmed : Disarmed (k.tasks t).timer k k'

-- In a valid kernel `os_blocktimer_destroy` of any task succeeds: the task has no timer after it,
-- nothing else of any task and no queue changes, and the kernel stays valid.
pub os_blocktimer_destroy_lem :
    (k : Kernel)
    → KernelValid k
    → (t : ℕ) → (k' : Kernel) × (os_blocktimer_destroy t k ≡ ok tt k') × Unguarded t k k'
unfolding os_blocktimer_destroy set_task_timer
os_blocktimer_destroy_lem k v t = elim (Option-cases (k.tasks t).timer) [
  | inl e ↦ (
    k,
    rw (os_blocktimer_destroy, e) refl,
    record {
      valid = v;
      task = ground arith;
      others = λ a n. refl;
      queues = refl;
      globals = ground arith;
      disarmed = record { kept = λ _. SameTimers-refl k; stopped = λ i x. absurd (cc) };
    },
  )
  | inr (i, e) ↦
      let (runs, same, marks) = os_timer_destroy_lem i k (v.timer_made t i e) in
      let k1 = timer_destroyed i k in
      let v1 = same-KernelValid k k1 same.tasks same.queues same.task_current marks v in
      (
        set_task_timer t none k1,
        rw (os_blocktimer_destroy, e, runs) refl,
        record {
          valid = set_task-KernelValid k1 v1 t _ refl refl refl (λ i. cc);
          task = ground (arith, same);
          others = λ a n. ground (arith, same);
          queues = same.queues;
          globals = ground (arith, same);
          disarmed = Disarmed-some i k (set_task_timer t none k1) e (
              Stopped-same (SameTimers-refl k) (timer_destroyed-Stopped i k)
                (record { timers = refl; timer_list = refl; unsynch = refl }));
        },
      )
]

pub made_ready-KernelValid :
    (k : Kernel)
    → KernelValid k
    → (t : ℕ) → (k.tasks t).task_queue ≡ none
    → (t == k.task_current) ≡ false
    → (os_task_makeready t k ≡ ok tt (made_ready t k)) × KernelValid (made_ready t k)
unfolding set_state enqueued
made_ready-KernelValid k v t out ne =
    let (runs, queues) = os_task_makeready_lem k v.queues t v.ready_linked out in
    (
      runs,
      record {
        queues = queues;
        ready_linked = ground (arith, v.ready_linked);
        current_free = ground (arith, v.current_free);
        in_ready = λ a e. ground (arith, v.in_ready a);
        in_wait = λ a q e n. ground (arith, v.in_wait a q);
        idle_there = ground (arith, v.idle_there);
        timer_made = λ a i e. ground (arith, v.timer_made a i);
      },
    )

-- The fields of a task after it was made ready with `code`, where its timer is now what `timer` gives.
abbrev pub ready_task : (Option ℕ → Option ℕ) → ℕ → Task → Task
ready_task timer code task = record task {
  state = TaskState.ready;
  task_queue = some ready_queue;
  timer = timer task.timer;
  ret_value = code;
}

-- The kernel `k'` after task `t` was made ready with `code`.
pub record Readied (timer : Option ℕ → Option ℕ) (code t : ℕ) (k k' : Kernel) : Type 0 where
  pub valid : KernelValid k'
  pub task : k'.tasks t ≡ ready_task timer code (k.tasks t)
  pub others : (a : ℕ) → (a == t) ≡ false → k'.tasks a ≡ k.tasks a
  -- It is the last of its priority to run.
  pub ready :
      (p : ℕ)
      → (k'.queues ready_queue).tasks p ≡ (
          if p == (k.tasks t).prio_current
          then (k.queues ready_queue).tasks p ++ t ∷ []
          else (k.queues ready_queue).tasks p)
  pub elsewhere : (q : ℕ) → (q == ready_queue) ≡ false → k'.queues q ≡ k.queues q
  pub globals : SameGlobals k k'

-- The same where the task was woken, and so has no timer.
abbrev pub no_timer : Option ℕ → Option ℕ
no_timer timer = none

abbrev pub Woken : ℕ → ℕ → Kernel → Kernel → Type 0
Woken = Readied no_timer

-- In a valid kernel, waking a task that stands in no queue and is not the current one succeeds: its
-- timer is destroyed and the other timers go on, it has the given code, it is ready and the last of its ready bucket, no other
-- task and no other queue changes, and the kernel stays valid.
pub wake-Woken :
    (k : Kernel)
    → KernelValid k
    → (code t : ℕ) → (k.tasks t).task_queue ≡ none
    → (t == k.task_current) ≡ false
    → (k' : Kernel) × (wake code t k ≡ ok tt k')
      × Woken code t k k'
      × Disarmed (k.tasks t).timer k k'
unfolding wake set_block_code set_state enqueued
wake-Woken k v code t out ne =
    let (k1, runs1, u) = os_blocktimer_destroy_lem k v t in
    let k2 = set_block_code t code k1 in
    let v2 = set_task-KernelValid k1 u.valid t _ refl refl refl (λ i e. e) in
    let (runs2, v3) =
      made_ready-KernelValid k2 v2 t (ground (arith, u.task)) (ground (arith, u.globals)) in
    (
      made_ready t k2,
      rw (wake, runs1) runs2,
      record {
        valid = v3;
        task = ground (arith, u.task);
        others = λ a n. ground (arith, u.others a);
        ready = λ p. ground (arith, u.queues, u.task);
        elsewhere = λ q n. ground (arith, u.queues);
        globals = ground (arith, u.globals);
      },
      Disarmed-same refl (SameTimers-refl k) u.disarmed
          (record { timers = refl; timer_list = refl; unsynch = refl }),
    )

pub wake_lem :
    (k : Kernel)
    → KernelValid k
    → (code t : ℕ) → (k.tasks t).task_queue ≡ none
    → (t == k.task_current) ≡ false
    → (k' : Kernel) × (wake code t k ≡ ok tt k') × Woken code t k k'
wake_lem k v code t out ne = let (k', runs, w, d) = wake-Woken k v code t out ne in (k', runs, w)

-- Taking a task off the queue of a blocking object.
pub removed_top-KernelValid :
    (k : Kernel)
    → KernelValid k
    → {q t p : ℕ} {left : List ℕ} → IsTop k q t p left
    → (q == ready_queue) ≡ false
    → KernelValid (removed q p left t k)
      × (((removed q p left t k).tasks t).task_queue ≡ none)
      × ((t == (removed q p left t k).task_current) ≡ false)
unfolding removed
removed_top-KernelValid k v {q} {t} {p} {left} i ne = (
  record {
    queues = removed_top-QueuesValid k v.queues q i;
    ready_linked = ground (arith, v.ready_linked);
    current_free = ground (arith, v.current_free);
    in_ready = λ a e. ground (arith, v.in_ready a);
    in_wait = λ a r e n. ground (arith, v.in_wait a r);
    idle_there = ground (arith, v.idle_there, i.queued);
    timer_made = λ a j e. ground (arith, v.timer_made a j);
  },
  ground arith,
  ground (arith, v.current_free, i.queued),
)
