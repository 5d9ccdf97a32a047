-- ===== src/System/Timeout/Return.antt =====
-- The way from the tick at which the time of a wait is over to the return of `os_sem_down`.
use rados.Base.{
  ℕ, suc, ◌+◌, ◌^◌, ◌≤◌, ◌<◌, ◌≡◌, refl, ◌∙◌, ◌%◌, ap, sym, is_empty, Bool, true, false, none, some,
  [], ◌∷◌, arith, ◌==◌, ltb, if◌then◌else◌,
}
use rados.Kernel.{
  Kernel, TaskState, Context, in_schedule, user_code, in_sem_down, ready_queue, os_timeout,
}
use rados.Kernel.Run.{M, ok}
use rados.TaskQueue.{removed, enqueued}
use rados.TaskQueue.Dequeue.{IsTop}
use rados.TaskQueue.Ops.{unlinked}
use rados.Sched.{os_schedule, set_state, set_running}
use rados.Sched.Valid.{KernelValid, same-KernelValid}
use rados.Sched.Schedule.{redirected, os_schedule-Schedules}
use rados.Block.{set_block_code, time_out_task}
use rados.Block.Wake.{Readied}
use rados.Block.Ready.{same_timer}
use rados.Timer.{add_ticks, count_down, head_due, tick_timers, os_tick}
use rados.Sem.Down.{inside}
use rados.Tasks.{isr_leave}
use rados.Tasks.Urgent.{bucket-redirected}
use rados.Tasks.Resume.{resume-in_sem_down}
use rados.System.Tick.{kernel_call}
use rados.System.Timeout.{
  timed_out, time_out_task-Readied, Guards, called, called-KernelValid, timer_trigger-Guards,
}

-- Task `t` waits in `os_sem_down`, and is above every ready task and not below the current one. The
-- interrupt of the tick runs, and the tick is the last of its timer.
pub record Expires (k : Kernel) (i t q : ℕ) (cristate : Bool) : Type 0 where
  pub guards : Guards k i t
  pub last : (k.timers i).ticks_rem ≡ k.timer_tick_unsynch + 1
  pub small : k.timer_tick_unsynch + 1 < 2 ^ 16
  pub there : (k.tasks t).task_queue ≡ some q
  pub waits : (k.tasks t).state ≡ TaskState.wait
  pub ctx : (k.tasks t).ctx ≡ in_sem_down cristate
  pub interrupt : k.isr_nesting ≡ 1
  pub unlocked : k.sched_lock ≡ 0
  pub above_current : (k.tasks k.task_current).prio_current ≤ (k.tasks t).prio_current
  pub above_ready : (p : ℕ) → (k.tasks t).prio_current ≤ p → (k.queues ready_queue).tasks p ≡ []

-- Task `t` runs in `k`, out of its wait.
pub record IsBack (cristate : Bool) (t : ℕ) (k : Kernel) : Type 0 where
  pub valid : KernelValid k
  pub task_current : k.task_current ≡ t
  pub state : (k.tasks t).state ≡ TaskState.running
  pub timer : (k.tasks t).timer ≡ none
  pub task_queue : (k.tasks t).task_queue ≡ none
  pub isr_nesting : k.isr_nesting ≡ 0
  pub dint : k.dint ≡ cristate

module _ (program : ℕ → ℕ → M (Unit {0})) (k : Kernel) (v : KernelValid k) (i t q : ℕ)
    (cristate : Bool) (x : Expires k i t q cristate) where
  abbrev ticked : Kernel
  ticked = record (inside k) {
    ticks_cnt = add_ticks k.ticks_cnt 1;
    timer_tick_unsynch = add_ticks k.timer_tick_unsynch 1;
  }

  -- The kernel in which `os_tick` calls the scheduler.
  abbrev awake : Kernel
  awake = record (timed_out t q (called program i t ticked)) { timer_tick_unsynch = 0 }

  next : add_ticks k.timer_tick_unsynch 1 ≡ k.timer_tick_unsynch + 1
  next = omega (arith, x.small)

  ticked-Guards : Guards ticked i t
  ticked-Guards = record {
    only = x.guards.only;
    once = x.guards.once;
    clbck = x.guards.clbck;
    param = x.guards.param;
  }

  woken :
      (time_out_task t (called program i t ticked)
        ≡ ok tt (timed_out t q (called program i t ticked)))
      × Readied same_timer os_timeout t
          (unlinked q t (called program i t ticked))
          (timed_out t q (called program i t ticked))
  unfolding count_down
  woken =
      let v1 : KernelValid ticked = same-KernelValid k ticked refl refl refl (λ j e. e) v in
      time_out_task-Readied (called program i t ticked) (called-KernelValid program i t ticked v1) t
        q x.there x.waits

  tick_timers-awake :
      (fuel : ℕ) → tick_timers (kernel_call program) (suc (suc fuel)) (inside k) ≡ ok tt awake
  unfolding tick_timers
  tick_timers-awake fuel =
      let full : is_empty k.timer_list ≡ false = rw x.guards.only refl in
      let due : head_due (kernel_call program) ticked ≡ true =
        unfold head_due in rw (x.guards.only, x.last, next) (ground arith) in
      let fires =
        timer_trigger-Guards program i t fuel ticked ticked-Guards (x.last ∙ sym next) _ woken.0
          (unfold removed enqueued set_state set_block_code in refl) in
      rw (full, due) fires

  bucket :
      (p : ℕ)
      → (k.tasks t).prio_current ≤ p
      → (awake.queues ready_queue).tasks p ≡ (if p == (k.tasks t).prio_current then t ∷ [] else [])
  unfolding removed count_down
  bucket p h =
      let ne : (q == ready_queue) ≡ false = ground (arith, v.in_ready t, x.there, x.waits) in
      ground (arith, woken.1.ready p, x.above_ready p h, ne)

  awake-KernelValid : KernelValid awake
  awake-KernelValid = same-KernelValid _ awake refl refl refl (λ j e. e) woken.1.valid

  -- The kernel when `os_tick` returns.
  abbrev back : Kernel
  back = record (redirected t (k.tasks t).prio_current [] awake) { dint = k.dint }

  scheduled :
      (ctx : Context)
      → (os_schedule 0 ctx awake ≡ ok tt (redirected t (k.tasks t).prio_current [] awake))
        × KernelValid (redirected t (k.tasks t).prio_current [] awake)
        × IsTop awake ready_queue t (k.tasks t).prio_current []
  unfolding removed count_down
  scheduled ctx =
      let g = woken.1.globals in
      let below : (awake.tasks awake.task_current).prio_current ≤ (k.tasks t).prio_current =
        ground (
          arith,
          g.task_current,
          woken.1.others k.task_current,
          v.current_free,
          x.there,
          x.above_current,
        ) in
      bucket-redirected awake t (k.tasks t).prio_current bucket (g.isr_nesting ∙ x.interrupt)
        (g.sched_lock ∙ x.unlocked) below
        (os_schedule-Schedules awake awake-KernelValid ctx 0 g.dint)

  os_tick-back : (fuel : ℕ) → os_tick (kernel_call program) (suc (suc fuel)) k ≡ ok tt back
  unfolding os_tick
  os_tick-back fuel =
      let isr : ltb 0 k.isr_nesting ≡ true = ground (arith, x.interrupt) in
      rw (isr, tick_timers-awake fuel, (scheduled (in_schedule k.dint)).0) refl

  -- The kernel when the interrupt has returned.
  abbrev out : Kernel
  out = record back { isr_nesting = (back.isr_nesting + 255) % 2 ^ 8; dint = true }

  out-KernelValid : KernelValid out
  out-KernelValid = same-KernelValid _ out refl refl refl (λ j e. e) (scheduled user_code).1

  out_nesting : out.isr_nesting ≡ 0
  unfolding removed count_down set_running enqueued set_state set_block_code
  out_nesting = omega (arith, x.interrupt)

  out_task :
      ((out.tasks t).ctx ≡ in_sem_down cristate)
      × ((out.tasks t).ret_value ≡ os_timeout)
      × ((out.tasks t).task_queue ≡ none)
  unfolding removed count_down set_running enqueued set_state
  out_task =
      let (e, valid, top) = scheduled user_code in
      (
        ground (arith, woken.1.task, x.ctx, top.queued, awake-KernelValid.current_free),
        ground (arith, woken.1.task, top.queued, awake-KernelValid.current_free),
        out-KernelValid.current_free,
      )

  -- In a valid kernel, in an outermost interrupt without scheduler lock, where one timer is in the
  -- list, guards the wait of a task in `os_sem_down` and has one tick left, and that task is above
  -- every ready task and not below the one that runs: with fuel 2 or more `os_tick` returns, and
  -- the return of the interrupt goes on in that task, whose `os_sem_down` returns OS_TIMEOUT. The
  -- task runs, in no queue and without timer, with the interrupt state of its caller, and the
  -- kernel is valid.
  pub os_tick-isr_leave :
      (fuel fuel' : ℕ)
      → (k1 k2 : Kernel) × (os_tick (kernel_call program) (suc (suc fuel)) k ≡ ok tt k1)
        × (isr_leave fuel' k1 ≡ ok (some os_timeout) k2)
        × IsBack cristate t k2
  unfolding isr_leave set_running
  os_tick-isr_leave fuel fuel' =
      let (ctx, code, free) = out_task in
      let (k2, runs, f) = resume-in_sem_down out out-KernelValid fuel' cristate ctx in
      let outermost : (out.isr_nesting == 0) ≡ true = ground (arith, out_nesting) in
      (
        back,
        k2,
        os_tick-back fuel,
        rw (outermost, runs) (ap (λ n. ok (some n) k2) code),
        record {
          valid = f.valid;
          task_current = f.same_current;
          state = ap (λ task. task.state) f.task;
          timer = ap (λ task. task.timer) f.task;
          task_queue = ap (λ task. task.task_queue) f.task ∙ free;
          isr_nesting = f.same_nesting ∙ out_nesting;
          dint = f.dint;
        },
      )
