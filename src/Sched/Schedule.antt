-- ===== src/Sched/Schedule.antt =====
-- `os_schedule`: which task runs after it.
use rados.Base.{
  ℕ, ◌+◌, ◌%◌, ◌^◌, ◌≤◌, ◌≡◌, refl, inl, inr, true, false, Option, none, some, List, [], arith,
  ◌==◌, ◌&&◌, leb, Bool-cases,
}
use rados.Kernel.{Kernel, Context, ready_queue}
use rados.Kernel.Run.{ok, switched, Outcome, pure, and_then, set_task}
use rados.TaskQueue.{enqueued, removed}
use rados.TaskQueue.Valid.{QueuesValid}
use rados.TaskQueue.Dequeue.{
  IsTop, DequeuesPrio, lower, takes, os_taskqueue_dequeue_prio-DequeuesPrio,
}
use rados.Sched.{
  set_state, set_running, os_task_makeready, arch_context_switch, switch_to, choose, os_schedule,
}
use rados.Sched.Valid.{KernelValid, made_ready, set_task-QueuesValid, os_task_makeready_lem}

-- The queues do not depend on which task runs.
set_current-QueuesValid :
    (k : Kernel) → QueuesValid k → (t : ℕ) → QueuesValid (record k { task_current = t })
set_current-QueuesValid k v t = record {
  placed = v.placed;
  masked = v.masked;
  mask_small = v.mask_small;
  prio_small = v.prio_small;
  linked = v.linked;
}

-- The ready queue has given up task `t`, and the current task has joined it.
abbrev exchanged : ℕ → ℕ → List ℕ → Kernel → Kernel
exchanged t p left k = made_ready k.task_current (removed ready_queue p left t k)

-- The kernel that `arch_context_switch` leaves to task `t`.
abbrev pub handed_over : ℕ → ℕ → List ℕ → Context → Kernel → Kernel
handed_over t p left ctx k =
    let k2 = exchanged t p left k in
    record (set_task k.task_current (record (k2.tasks k.task_current) { ctx = ctx }) k2) {
      task_current = t;
    }

-- The kernel in which an interrupt will return to task `t`.
abbrev pub redirected : ℕ → ℕ → List ℕ → Kernel → Kernel
redirected t p left k = set_running (record (exchanged t p left k) { task_current = t })

module _ (k : Kernel) (v : KernelValid k) {t p : ℕ} {left : List ℕ}
    (i : IsTop k ready_queue t p left) (vr : QueuesValid (removed ready_queue p left t k)) where
  not_current : (k.task_current == t) ≡ false
  not_current = ground (arith, i.queued, v.current_free)

  exchanged_lem :
      (os_task_makeready k.task_current (removed ready_queue p left t k)
        ≡ ok tt (exchanged t p left k))
      × QueuesValid (exchanged t p left k)
  unfolding removed
  exchanged_lem =
      os_task_makeready_lem (removed ready_queue p left t k) vr k.task_current
        (ground (arith, v.ready_linked)) (ground (arith, v.current_free))

  handed_over-KernelValid : (ctx : Context) → KernelValid (handed_over t p left ctx k)
  unfolding removed enqueued set_state
  handed_over-KernelValid ctx = record {
    queues =
        set_current-QueuesValid _
          (set_task-QueuesValid (exchanged t p left k) exchanged_lem.1 k.task_current _ refl refl)
          t;
    ready_linked = ground (arith, v.ready_linked);
    current_free = ground (arith, not_current);
    in_ready = λ a e. ground (arith, v.in_ready a, not_current);
    in_wait = λ a q e n. ground (arith, v.in_wait a q, not_current);
    idle_there = ground (arith, v.idle_there, not_current, i.queued);
    timer_made = λ a i e. ground (arith, v.timer_made a i);
  }

  redirected-KernelValid : KernelValid (redirected t p left k)
  unfolding removed enqueued set_state set_running
  redirected-KernelValid = record {
    queues =
        set_task-QueuesValid (record (exchanged t p left k) { task_current = t })
          (set_current-QueuesValid (exchanged t p left k) exchanged_lem.1 t) t _ refl refl;
    ready_linked = ground (arith, v.ready_linked);
    current_free = ground (arith, not_current);
    in_ready = λ a e. ground (arith, v.in_ready a, not_current);
    in_wait = λ a q e n. ground (arith, v.in_wait a q, not_current);
    idle_there = ground (arith, v.idle_there, not_current, i.queued);
    timer_made = λ a i e. ground (arith, v.timer_made a i);
  }

  switch_to-task :
      (ctx : Context)
      → (k.isr_nesting == 0) ≡ true
      → switch_to t ctx (removed ready_queue p left t k) ≡ switched (handed_over t p left ctx k)
  unfolding switch_to arch_context_switch removed set_state enqueued
  switch_to-task ctx h = ground (arith, exchanged_lem.0)

  switch_to-isr :
      (ctx : Context)
      → (k.isr_nesting == 0) ≡ false
      → switch_to t ctx (removed ready_queue p left t k) ≡ ok tt (redirected t p left k)
  unfolding switch_to removed set_state enqueued
  switch_to-isr ctx h = ground (arith, exchanged_lem.0)

-- The scheduler may switch: no interrupt is nested in another, and the scheduler is not locked.
abbrev pub IsOpen : Kernel → Type 0
IsOpen k = (leb k.isr_nesting 1 && k.sched_lock == 0) ≡ true

-- What `os_schedule` does to the kernel `k`, when it is to find a priority of at least `least`.
pub data Schedules (k : Kernel) (least : ℕ) (ctx : Context) : Outcome (Unit {0}) → Type 0 where
  -- Nothing, in a nested interrupt or under the scheduler lock.
  locked : (leb k.isr_nesting 1 && k.sched_lock == 0) ≡ false → Schedules k least ctx (ok tt k)
  -- Nothing, where no ready task is urgent enough.
  keeps :
      IsOpen k
      → ((p : ℕ) → least ≤ p → (k.queues ready_queue).tasks p ≡ [])
      → Schedules k least ctx (ok tt k)
  -- The first of the most urgent ready tasks gets the CPU, and the current task joins the queue.
  preempts :
      {t p : ℕ} {left : List ℕ}
      → IsOpen k
      → (k.isr_nesting == 0) ≡ true
      → IsTop k ready_queue t p left
      → least ≤ p
      → KernelValid (handed_over t p left ctx k)
      → Schedules k least ctx (switched (handed_over t p left ctx k))
  -- From an interrupt it will get the CPU when the interrupt returns.
  redirects :
      {t p : ℕ} {left : List ℕ}
      → IsOpen k
      → (k.isr_nesting == 0) ≡ false
      → IsTop k ready_queue t p left
      → least ≤ p
      → KernelValid (redirected t p left k)
      → Schedules k least ctx (ok tt (redirected t p left k))

module _ (k : Kernel) (ctx : Context) (higher_prio : ℕ) (d : k.dint ≡ true) where
  os_schedule-choose :
      (leb k.isr_nesting 1 && k.sched_lock == 0) ≡ true
      → os_schedule higher_prio ctx k ≡ choose higher_prio ctx k
  unfolding os_schedule
  os_schedule-choose h = ground arith

  os_schedule-shut :
      (leb k.isr_nesting 1 && k.sched_lock == 0) ≡ false → os_schedule higher_prio ctx k ≡ ok tt k
  unfolding os_schedule
  os_schedule-shut h = ground arith

module _ (k : Kernel) (v : KernelValid k) (ctx : Context) where
  abbrev chosen : Outcome (Option ℕ) → Outcome (Unit {0})
  chosen r = and_then r (λ o. elim o [ none ↦ pure tt | some t ↦ switch_to t ctx ])

  chosen-Schedules :
      IsOpen k
      → (least : ℕ) {r : Outcome (Option ℕ)} → DequeuesPrio k ready_queue least r
      → Schedules k least ctx (chosen r)
  chosen-Schedules free least (lower h) = keeps free h
  chosen-Schedules free least (takes {t} {p} {left} i h vr) =
      elim (Bool-cases (k.isr_nesting == 0)) [
        | inl task ↦
            rw (switch_to-task k v i vr ctx task)
              (preempts free task i h (handed_over-KernelValid k v i vr ctx))
        | inr isr ↦
            rw (switch_to-isr k v i vr ctx isr)
              (redirects free isr i h (redirected-KernelValid k v i vr))
      ]

  -- In a valid kernel with interrupts off `os_schedule` neither halts nor faults. In a nested
  -- interrupt or under the scheduler lock it changes nothing. Otherwise it looks for a ready task
  -- of at least the priority of the current task plus `higher_prio`, modulo 256: where there is
  -- none it changes nothing, and otherwise the first ready task of the highest priority gets the
  -- CPU, or the return of the interrupt, the current task joins the end of its ready bucket, and
  -- the kernel stays valid.
  pub os_schedule-Schedules :
      (higher_prio : ℕ)
      → k.dint ≡ true
      → Schedules k
          (((k.tasks k.task_current).prio_current + higher_prio) % 2 ^ 8)
          ctx
          (os_schedule higher_prio ctx k)
  unfolding choose
  os_schedule-Schedules higher_prio d =
      elim (Bool-cases (leb k.isr_nesting 1 && k.sched_lock == 0)) [
        | inl open_ ↦ rw (os_schedule-choose k ctx higher_prio d open_) (
            chosen-Schedules open_ _
              (os_taskqueue_dequeue_prio-DequeuesPrio k v.queues ready_queue _))
        | inr shut ↦ rw (os_schedule-shut k ctx higher_prio d shut) (locked shut)
      ]
