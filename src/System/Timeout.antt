-- ===== src/System/Timeout.antt =====
-- The function of the timer that guards a wait, and `timer_trigger` where it is the only timer.
pub mod Return
use rados.Base.{
  ℕ, suc, ◌+◌, ◌^◌, ◌≤◌, ◌<◌, ◌≡◌, refl, ◌∙◌, ◌%◌, ap, sym, is_empty, Bool, true, false, Option,
  none, some, List, [], ◌∷◌, arith, ◌==◌, ltb, leb, if◌then◌else◌, erase,
}
use rados.Kernel.{
  Kernel, TaskState, Context, Callback, in_schedule, user_code, in_sem_down, ready_queue,
  os_sem_timerclbck, os_timeout,
}
use rados.Kernel.Run.{M, ok, Outcome, and_then, arch_critical_exit}
use rados.TaskQueue.{removed, enqueued}
use rados.TaskQueue.Dequeue.{IsTop}
use rados.TaskQueue.Ops.{unlinked, os_taskqueue_unlink_lem}
use rados.Sched.{os_schedule, set_state, set_running}
use rados.Sched.Valid.{made_ready, KernelValid, same-KernelValid}
use rados.Sched.Schedule.{Schedules, redirected, os_schedule-Schedules}
use rados.Block.{set_block_code, time_out_task, is_waiting}
use rados.Block.Wake.{Readied}
use rados.Block.Ready.{same_timer, os_task_makeready-Readied}
use rados.Timer.{
  add_ticks, count_down, time_out, trigger_loop, timer_trigger, head_due, tick_timers, os_tick,
  reload_all, next_timer, list_itr_begin,
}
use rados.Sem.Down.{inside}
use rados.Tasks.{isr_leave}
use rados.Tasks.Urgent.{bucket-redirected}
use rados.Tasks.Resume.{Finished, resume-in_sem_down}
use rados.System.Tick.{kernel_call, unlinked-KernelValid}

-- The kernel after task `t` of queue `q` was woken with OS_TIMEOUT.
abbrev pub timed_out : ℕ → ℕ → Kernel → Kernel
timed_out t q k = made_ready t (set_block_code t os_timeout (unlinked q t k))

-- Task `t` waits in queue `q`, and its time is over.
module _ (k : Kernel) (v : KernelValid k) (t q : ℕ) (there : (k.tasks t).task_queue ≡ some q)
    (waits : (k.tasks t).state ≡ TaskState.wait) where
  pub time_out_task-Readied :
      (time_out_task t k ≡ ok tt (timed_out t q k))
      × Readied same_timer os_timeout t (unlinked q t k) (timed_out t q k)
  unfolding time_out_task removed
  time_out_task-Readied =
      let ne : (q == ready_queue) ≡ false = ground (arith, v.in_ready t) in
      let v1 = unlinked-KernelValid k v t q there ne in
      let (runs, r) =
        os_task_makeready-Readied (unlinked q t k) v1 os_timeout t (ground arith)
          (ground (arith, v.current_free)) in
      let w : is_waiting (k.tasks t).state ≡ true = rw waits refl in
      (rw (w, (os_taskqueue_unlink_lem k v.queues q t there).0) runs, r)

-- Timer `i` is the only one, fires once, and guards the wait of task `t`.
pub record Guards (k : Kernel) (i t : ℕ) : Type 0 where
  pub only : k.timer_list ≡ i ∷ []
  pub once : (k.timers i).ticks_reload ≡ 0
  pub clbck : (k.timers i).clbck ≡ os_sem_timerclbck
  pub param : (k.timers i).param ≡ t

module _ (program : ℕ → ℕ → M (Unit {0})) (i t : ℕ) where
  time_out-Guards :
      (k : Kernel)
      → Guards k i t
      → (k' : Kernel) → time_out_task t (record k { timer_list = [] }) ≡ ok tt k'
      → k'.timers ≡ k.timers
      → time_out (kernel_call program) i [] k ≡ ok [] k'
  unfolding time_out kernel_call
  time_out-Guards k g k' runs same =
      let gone : erase i (i ∷ []) ≡ [] = ground arith in
      let last : ltb 0 (k'.timers i).ticks_reload ≡ false = ground (arith, same, g.once) in
      rw (g.only, gone, g.clbck, g.param, runs, last) refl

  -- The kernel in which the function of the timer is called.
  abbrev pub called : Kernel → Kernel
  called k = record (count_down i k) { timer_list = [] }

  pub timer_trigger-Guards :
      (fuel : ℕ) (k : Kernel)
      → Guards k i t
      → (k.timers i).ticks_rem ≡ k.timer_tick_unsynch
      → (k' : Kernel) → time_out_task t (called k) ≡ ok tt k'
      → k'.timers ≡ (called k).timers
      → timer_trigger (kernel_call program) (suc (suc fuel)) k
        ≡ ok tt (record k' { timer_tick_unsynch = 0 })
  unfolding timer_trigger trigger_loop reload_all
  timer_trigger-Guards fuel k g last k' runs same =
      let over : ltb 0 ((count_down i k).timers i).ticks_rem ≡ false =
        unfold count_down in ground (arith, last) in
      let g1 : Guards (count_down i k) i t =
        unfold count_down in
        record {
          only = g.only;
          once = ground (arith, g.once);
          clbck = ground (arith, g.clbck);
          param = ground (arith, g.param);
        } in
      let first : list_itr_begin k.timer_list ≡ some i = unfold list_itr_begin in rw g.only refl in
      let after : next_timer i k.timer_list ≡ none =
        unfold next_timer in rw g.only (ground arith) in
      rw (first, over, after, time_out-Guards (count_down i k) g1 k' runs same) refl

  pub called-KernelValid : (k : Kernel) → KernelValid k → KernelValid (called k)
  unfolding count_down
  called-KernelValid k v = same-KernelValid k (called k) refl refl refl (λ j e. ground arith) v
