-- ===== src/Tasks/Resume.antt =====
-- How a task that waited goes on, and the way from `os_sem_up` to the return of `os_sem_down`.
use rados.Base.{
  ℕ, ◌%◌, ◌^◌, ◌+◌, ◌≤◌, ◌<◌, ◌≡◌, refl, ◌∙◌, Bool, false, none, some, List, [], ◌∷◌, arith, ◌==◌,
  if◌then◌else◌,
}
use rados.Kernel.{
  Kernel, TaskState, Context, in_schedule, in_sem_down, ready_queue, sem_queue, os_ok,
}
use rados.Kernel.Run.{ok, switched, Outcome}
use rados.TaskQueue.{enqueued, removed}
use rados.TaskQueue.Dequeue.{IsTop}
use rados.Sched.{set_state, set_running}
use rados.Sched.Valid.{KernelValid, same-KernelValid, set_task-QueuesValid}
use rados.Sched.Schedule.{handed_over, Schedules, os_schedule-Schedules}
use rados.Block.Wake.{Woken, os_blocktimer_destroy_lem}
use rados.Sem.{os_sem_up}
use rados.Sem.Down.{inside}
use rados.Sem.Up.{MaySignal, Signals, os_sem_up_sync-Signals}
use rados.Tasks.Urgent.{IsTop-same, woken_bucket, bucket-handed_over}
use rados.Tasks.{finish_wait, go_on, resume}

pub running-KernelValid : (k : Kernel) → KernelValid k → KernelValid (set_running k)
unfolding set_running
running-KernelValid k v = record {
  queues = set_task-QueuesValid k v.queues k.task_current _ refl refl;
  ready_linked = v.ready_linked;
  current_free = ground (arith, v.current_free);
  in_ready = λ a e. ground (arith, v.in_ready a, v.current_free);
  in_wait = λ a q e n. ground (arith, v.in_wait a q, v.current_free);
  idle_there = ground (arith, v.idle_there);
  timer_made = λ a i e. ground (arith, v.timer_made a i);
}

-- The kernel `k'` in which the current task of `k` has finished its wait, with the interrupt state
-- `cristate` of its critical section.
pub record Finished (cristate : Bool) (k k' : Kernel) : Type 0 where
  pub valid : KernelValid k'
  pub task :
      k'.tasks k.task_current
      ≡ record (k.tasks k.task_current) { state = TaskState.running; timer = none }
  pub others : (a : ℕ) → (a == k.task_current) ≡ false → k'.tasks a ≡ k.tasks a
  pub queues : k'.queues ≡ k.queues
  pub sems : k'.sems ≡ k.sems
  pub same_current : k'.task_current ≡ k.task_current
  pub same_nesting : k'.isr_nesting ≡ k.isr_nesting
  pub same_waitqueue : k'.waitqueue_current ≡ k.waitqueue_current
  pub dint : k'.dint ≡ cristate

module _ (k : Kernel) (v : KernelValid k) where
  pub finish_wait-Finished :
      (cristate : Bool)
      → (k' : Kernel) × (finish_wait cristate k ≡ ok (k.tasks k.task_current).ret_value k')
        × Finished cristate k k'
  unfolding finish_wait set_running
  finish_wait-Finished cristate =
      let (k1, runs, u) =
        os_blocktimer_destroy_lem (set_running k) (running-KernelValid k v) k.task_current in
      let g = u.globals in
      (
        record k1 { dint = cristate },
        rw runs (ground (arith, u.task, g.task_current)),
        record {
          valid = same-KernelValid k1 _ refl refl refl (λ i e. e) u.valid;
          task = ground (arith, u.task);
          others = λ a n. ground (arith, u.others a);
          queues = u.queues;
          sems = g.sems;
          same_current = g.task_current;
          same_nesting = g.isr_nesting;
          same_waitqueue = g.waitqueue_current;
          dint = refl;
        },
      )

  pub resume-in_sem_down :
      (fuel : ℕ) (cristate : Bool)
      → (k.tasks k.task_current).ctx ≡ in_sem_down cristate
      → (k' : Kernel) × (resume fuel k ≡ ok (some (k.tasks k.task_current).ret_value) k')
        × Finished cristate k k'
  unfolding resume go_on
  resume-in_sem_down fuel cristate e =
      let (k', runs, f) = finish_wait-Finished cristate in (k', rw (e, runs) refl, f)

-- The waiter `t` of semaphore `s` is more urgent than the task that runs and than every ready task.
pub record IsUrgent (k : Kernel) (s t p : ℕ) (left : List ℕ) : Type 0 where
  pub top : IsTop k (sem_queue s) t p left
  pub above_current : (k.tasks k.task_current).prio_current < p
  pub above_ready : (p' : ℕ) → p ≤ p' → (k.queues ready_queue).tasks p' ≡ []

module _ (k : Kernel) (v : KernelValid k) (s : ℕ) (may : MaySignal k s false)
    (task : k.isr_nesting ≡ 0) (unlocked : k.sched_lock ≡ 0) {t p : ℕ} {left : List ℕ}
    (urgent : IsUrgent k s t p left) (cristate : Bool)
    (waits : (k.tasks t).ctx ≡ in_sem_down cristate) where
  -- The kernel in which the scheduler runs: the waiter is ready with its code.
  abbrev Awake : Kernel → Type 0
  Awake k1 = Woken os_ok t (removed (sem_queue s) p left t (inside k)) k1

  module _ (k1 : Kernel) (w : Awake k1) where
    bucket : (p' : ℕ) → p ≤ p' → (k1.queues ready_queue).tasks p' ≡ (if p' == p then t ∷ [] else [])
    bucket = woken_bucket k s urgent.top urgent.above_ready k1 w

    current_prio : (k1.tasks k1.task_current).prio_current < p
    unfolding removed
    current_prio = ground (
      arith,
      w.globals.task_current,
      w.others k.task_current,
      urgent.top.queued,
      v.current_free,
      urgent.above_current,
    )

    chosen :
        {ctx : Context} {r : Outcome (Unit {0})}
        → Schedules k1 (((k1.tasks k1.task_current).prio_current + 1) % 2 ^ 8) ctx r
        → (k2 : Kernel) × (r ≡ switched k2)
          × KernelValid k2
          × (k2.task_current ≡ t)
          × ((k2.tasks t).ctx ≡ in_sem_down cristate)
          × ((k2.tasks t).ret_value ≡ os_ok)
    unfolding removed enqueued set_state
    chosen {ctx} sch =
        let (runs, valid, i) =
          bucket-handed_over k1 w.valid t p bucket (w.globals.isr_nesting ∙ task)
            (w.globals.sched_lock ∙ unlocked) current_prio sch in
        (
          handed_over t p [] ctx k1,
          runs,
          valid,
          refl,
          ground (arith, w.task, waits, i.queued, w.valid.current_free),
          ground (arith, w.task, i.queued, w.valid.current_free),
        )

  signalled :
      {r : Outcome (Unit {0})}
      → Signals k s false r
      → (k2 : Kernel) × (r ≡ switched k2)
        × KernelValid k2
        × (k2.task_current ≡ t)
        × ((k2.tasks t).ctx ≡ in_sem_down cristate)
        × ((k2.tasks t).ret_value ≡ os_ok)
  signalled (Signals.counts i e) = absurd (ground (arith, i p, urgent.top.heads))
  signalled (Signals.wakes {t = t'} {p = p'} {left = left'} k1 i w d quiet loud) =
      let (same, is_t, rest) = IsTop-same k (sem_queue s) urgent.top i in
      let w1 : Awake k1 = rw (same, is_t, rest) at w in
      let (k2, runs, valid, now, ctx, code) = chosen k1 w1 (
        os_schedule-Schedules k1 w1.valid (in_schedule k.dint) 1
          (unfold removed in w1.globals.dint)) in
      (k2, rw (loud refl, runs) refl, valid, now, ctx, code)

  -- In a valid kernel, where `os_sem_up` meets its assertions in a task without scheduler lock, and
  -- the first waiter of the semaphore is above the caller and every ready task in priority and was
  -- suspended in `os_sem_down`: the call gives the CPU to the waiter at once, and that task's
  -- `os_sem_down` then returns OS_OK with the task running, without timer, and the interrupt state
  -- of its caller.
  pub os_sem_up-resume :
      (fuel : ℕ)
      → (k2 k3 : Kernel) × (os_sem_up s k ≡ switched k2)
        × (k2.task_current ≡ t)
        × (resume fuel k2 ≡ ok (some os_ok) k3)
        × Finished cristate k2 k3
  unfolding os_sem_up
  os_sem_up-resume fuel =
      let (k2, runs, valid, is_t, ctx, code) = signalled (os_sem_up_sync-Signals k v s false may) in
      let (k3, back, f) = resume-in_sem_down k2 valid fuel cristate (rw is_t ctx) in
      (k2, k3, runs, is_t, rw (is_t, code) at back, f)
