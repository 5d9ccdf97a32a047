-- ===== src/Tasks/Join.antt =====
-- `os_task_join` of a task that ends, and of one that ended before.
use rados.Base.{
  ℕ, suc, ◌%◌, ◌^◌, ◌+◌, ◌<◌, ◌≡◌, refl, ◌∙◌, Bool, true, false, Option, none, some, [], arith,
  ◌==◌,
}
use rados.Kernel.{
  Kernel, TaskState, state_value, Context, in_join, in_join_destroy, priocnt, ready_queue,
  sem_queue, os_ok,
}
use rados.Kernel.Run.{ok, Outcome, is_none}
use rados.TaskQueue.Dequeue.{IsIdle, Dequeues, os_taskqueue_dequeue-Dequeues}
use rados.Sched.{set_state}
use rados.Sched.Valid.{KernelValid, same-KernelValid, same-QueuesValid, set_task-QueuesValid}
use rados.Sched.Schedule.{Schedules, os_schedule-Schedules}
use rados.Block.{wake_all, clear_queue}
use rados.Block.Drain.{clear_queue-KernelValid}
use rados.Sem.{sem_destroy, set_sem_value}
use rados.Sem.Down.{inside}
use rados.Tasks.{resume, go_on, join_woken, join_finished, set_join_sem}
use rados.Tasks.Resume.{finish_wait-Finished}

-- A loop over a queue without waiters ends at once.
pub dequeue-idle :
    (k : Kernel) (q : ℕ) {r : Outcome (Option ℕ)} → IsIdle k q → Dequeues k q r → r ≡ ok none k
dequeue-idle k q idle (Dequeues.idle i) = refl
dequeue-idle k q idle (Dequeues.takes {p = p} i v) = absurd (ground (arith, i.heads, idle p))

-- No ready task is above the current one.
abbrev pub IsFirst : Kernel → Type 0
IsFirst k =
    (p : ℕ) → (k.tasks k.task_current).prio_current < p → (k.queues ready_queue).tasks p ≡ []

schedule-IsFirst :
    (k : Kernel) (ctx : Context) {r : Outcome (Unit {0})}
    → k.isr_nesting ≡ 0
    → IsFirst k
    → (k.tasks k.task_current).prio_current < priocnt
    → Schedules k (((k.tasks k.task_current).prio_current + 1) % 2 ^ 8) ctx r
    → r ≡ ok tt k
schedule-IsFirst k ctx task first small (Schedules.locked h) = refl
schedule-IsFirst k ctx task first small (Schedules.keeps free h) = refl
schedule-IsFirst k ctx task first small (Schedules.preempts {p = p} free nest i l valid) =
    absurd (ground (arith, i.heads, first p (omega (arith, l))))
schedule-IsFirst k ctx task first small (Schedules.redirects free isr i l valid) =
    absurd (ground (arith, task))

-- The kernel after the semaphore is gone.
abbrev cleared : ℕ → Kernel → Kernel
cleared s k = set_sem_value s 0 (clear_queue (sem_queue s) k)

module _ (k : Kernel) (v : KernelValid k) (s : ℕ) (task : k.isr_nesting ≡ 0)
    (unprepared : k.waitqueue_current ≡ none) (idle : IsIdle k (sem_queue s))
    (first : IsFirst k) where
  cleared-KernelValid : KernelValid (cleared s k)
  unfolding set_sem_value
  cleared-KernelValid =
      same-KernelValid (clear_queue (sem_queue s) k) _ refl refl refl (λ i e. e)
        (clear_queue-KernelValid k v (sem_queue s) (ground arith) idle)

  sem_destroy-idle :
      (ctx : Bool → Context) (fuel : ℕ) → sem_destroy ctx (suc fuel) s k ≡ ok tt (cleared s k)
  unfolding sem_destroy set_sem_value clear_queue wake_all
  sem_destroy-idle ctx fuel =
      let a1 : (k.isr_nesting == 0) ≡ true = ground (arith, task) in
      let a2 : is_none k.waitqueue_current ≡ true = rw unprepared refl in
      let v1 = same-KernelValid k (inside k) refl refl refl (λ i e. e) v in
      let e =
        dequeue-idle (inside k) (sem_queue s) idle
          (os_taskqueue_dequeue-Dequeues (inside k) v1.queues (sem_queue s)) in
      let k1 = cleared s (inside k) in
      let v2 : KernelValid k1 =
        same-KernelValid (cleared s k) k1 refl refl refl (λ i e. e) cleared-KernelValid in
      let quiet : IsFirst k1 = λ p h. ground (arith, first p h) in
      let runs =
        schedule-IsFirst k1 (ctx k.dint) task quiet (v2.queues.prio_small k1.task_current)
          (os_schedule-Schedules k1 v2 (ctx k.dint) 1 refl) in
      rw (a1, a2, e, runs) refl

-- The kernel after `os_task_join` has taken the result of task `t`.
abbrev pub joined : Bool → ℕ → Kernel → Kernel
joined cristate t k = record (set_join_sem t none (set_state t TaskState.invalid k)) {
  dint = cristate;
}

pub join_finished_lem :
    (k : Kernel)
    → KernelValid k
    → (cristate : Bool) (t : ℕ) → (k.tasks t).state ≡ TaskState.destroyed
    → (join_finished cristate t k ≡ ok (k.tasks t).ret_value (joined cristate t k))
      × KernelValid (joined cristate t k)
unfolding join_finished set_join_sem set_state
join_finished_lem k v cristate t gone =
    let d : (state_value (k.tasks t).state == 3) ≡ true = rw gone refl in
    (
      rw d refl,
      record {
        queues =
            same-QueuesValid _ _ refl refl (
              set_task-QueuesValid _ (set_task-QueuesValid k v.queues t _ refl refl) t _ refl refl);
        ready_linked = v.ready_linked;
        current_free = ground (arith, v.current_free);
        in_ready = λ a e. ground (arith, v.in_ready a, gone);
        in_wait = λ a q e n. ground (arith, v.in_wait a q, gone);
        idle_there = ground (arith, v.idle_there);
        timer_made = λ a i e. ground (arith, v.timer_made a i);
      },
    )

-- The kernel `k'` after the current task of `k` has joined task `t`.
pub record Joins (cristate : Bool) (t : ℕ) (k k' : Kernel) : Type 0 where
  pub valid : KernelValid k'
  pub same_current : k'.task_current ≡ k.task_current
  pub runs : (k'.tasks k.task_current).state ≡ TaskState.running
  pub gone : (k'.tasks t).state ≡ TaskState.invalid
  pub no_join : (k'.tasks t).join_sem ≡ none
  pub dint : k'.dint ≡ cristate

-- The joining task goes on behind its wait.
module _ (k : Kernel) (v : KernelValid k) (t s : ℕ) (cristate inner : Bool)
    (waits : (k.tasks k.task_current).ctx ≡ in_join cristate t s inner)
    (code : (k.tasks k.task_current).ret_value ≡ os_ok)
    (gone : (k.tasks t).state ≡ TaskState.destroyed) (other : (t == k.task_current) ≡ false)
    (task : k.isr_nesting ≡ 0) (unprepared : k.waitqueue_current ≡ none)
    (idle : IsIdle k (sem_queue s)) (first : IsFirst k) where
  pub resume-in_join :
      (fuel : ℕ)
      → (k' : Kernel) × (resume (suc fuel) k ≡ ok (some (k.tasks t).ret_value) k')
        × Joins cristate t k k'
  unfolding resume go_on join_woken set_sem_value clear_queue set_join_sem set_state
  resume-in_join fuel =
      let (k1, runs, f) = finish_wait-Finished k v inner in
      let same : k1.tasks t ≡ k.tasks t = f.others t other in
      let task1 : k1.isr_nesting ≡ 0 = f.same_nesting ∙ task in
      let unprepared1 : k1.waitqueue_current ≡ none = f.same_waitqueue ∙ unprepared in
      let idle1 : IsIdle k1 (sem_queue s) = λ p. ground (arith, f.queues, idle p) in
      let first1 : IsFirst k1 =
        λ p h. ground (arith, f.queues, f.task, f.same_current, h, first p) in
      let gone1 : (k1.tasks t).state ≡ TaskState.destroyed = ground (arith, same, gone) in
      let destroys =
        sem_destroy-idle k1 f.valid s task1 unprepared1 idle1 first1 (in_join_destroy cristate t)
          fuel in
      let k2 = cleared s k1 in
      let (finishes, valid) =
        join_finished_lem k2 (cleared-KernelValid k1 f.valid s task1 unprepared1 idle1 first1)
          cristate t gone1 in
      (
        joined cristate t k2,
        rw (waits, runs, code, destroys, finishes, same) refl,
        record {
          valid = valid;
          same_current = f.same_current;
          runs = ground (arith, f.task, other);
          gone = ground arith;
          no_join = ground arith;
          dint = refl;
        },
      )
