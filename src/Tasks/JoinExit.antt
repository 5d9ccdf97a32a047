-- ===== src/Tasks/JoinExit.antt =====
-- From `os_task_exit` of one task to the return of `os_task_join` in another.
use rados.Base.{
  ℕ, suc, ◌≤◌, ◌≡◌, refl, sym, ap, subst, ◌∙◌, Bool, true, false, Option, none, some, [], arith,
  ◌==◌,
}
use rados.Kernel.{Kernel, TaskState, in_join, exited, task_idle, ready_queue, sem_queue, os_ok}
use rados.Kernel.Run.{M, ok, pure, switched, Outcome, and_then, crash}
use rados.TaskQueue.{removed}
use rados.TaskQueue.Dequeue.{IsTop, IsIdle, Dequeues, os_taskqueue_dequeue-Dequeues}
use rados.Sched.{set_state, arch_context_switch}
use rados.Sched.Valid.{KernelValid}
use rados.Block.{set_block_code, switch_to_ready}
use rados.Block.Wake.{Woken}
use rados.Sem.{os_sem_up_sync}
use rados.Sem.Up.{MaySignal, Signals, os_sem_up_sync-Signals}
use rados.Tasks.{os_task_exit, resume}
use rados.Tasks.Exit.{marked, marked-KernelValid, left-KernelValid}
use rados.Tasks.Urgent.{IsTop-same, woken_bucket, woken-IsTop}
use rados.Tasks.Join.{IsFirst, Joins, resume-in_join}

-- Task `j` is the only one that waits on `s`, to join the current task, and no ready task is as urgent.
pub record Joining (k : Kernel) (s j p : ℕ) (cristate inner : Bool) : Type 0 where
  pub names : (k.tasks k.task_current).join_sem ≡ some s
  pub top : IsTop k (sem_queue s) j p []
  pub alone : (p' : ℕ) → (p' == p) ≡ false → (k.queues (sem_queue s)).tasks p' ≡ []
  pub above_ready : (p' : ℕ) → p ≤ p' → (k.queues ready_queue).tasks p' ≡ []
  pub waits : (k.tasks j).ctx ≡ in_join cristate k.task_current s inner

module _ (k : Kernel) (v : KernelValid k) (busy : (k.task_current == task_idle) ≡ false) (s : ℕ)
    (may : MaySignal k s true) (task : k.isr_nesting ≡ 0) (unprepared : k.waitqueue_current ≡ none)
    {j p : ℕ} {cristate inner : Bool} (joining : Joining k s j p cristate inner) (retv : ℕ) where
  -- The kernel after the signal: the joining task is ready.
  abbrev Signalled : Kernel → Type 0
  Signalled k1 = Woken os_ok j (removed (sem_queue s) p [] j (marked retv k)) k1

  -- The kernel in which the joining task has the CPU.
  record HandedOver (k2 : Kernel) : Type 0 where
    valid : KernelValid k2
    current : k2.task_current ≡ j
    ctx : (k2.tasks j).ctx ≡ in_join cristate k.task_current s inner
    code : (k2.tasks j).ret_value ≡ os_ok
    gone : (k2.tasks k.task_current).state ≡ TaskState.destroyed
    value : (k2.tasks k.task_current).ret_value ≡ retv
    other : (k.task_current == j) ≡ false
    same_nesting : k2.isr_nesting ≡ 0
    same_waitqueue : k2.waitqueue_current ≡ none
    idle : IsIdle k2 (sem_queue s)
    first : IsFirst k2

  not_self : (k.task_current == j) ≡ false
  not_self = ground (arith, joining.top.queued, v.current_free)

  marked_top : IsTop (marked retv k) (sem_queue s) j p []
  unfolding set_state set_block_code
  marked_top = record {
    heads = joining.top.heads;
    highest = joining.top.highest;
    queued = ground (arith, joining.top.queued, not_self);
    prio = ground (arith, joining.top.prio, not_self);
  }

  hand_over :
      (k1 : Kernel)
      → Signalled k1
      → {r : Outcome (Option ℕ)} → Dequeues k1 ready_queue r
      → (k2 : Kernel) × (and_then {B = Unit {0}} r
            (λ o. elim o [ none ↦ crash | some t ↦ arch_context_switch t exited ])
          ≡ switched k2)
        × HandedOver k2
  unfolding arch_context_switch removed set_state set_block_code
  hand_over k1 w (Dequeues.idle i) =
      let bucket =
        woken_bucket (marked retv k) s marked_top joining.above_ready k1 w p (omega arith) in
      absurd (ground (arith, i p, bucket))
  hand_over k1 w (Dequeues.takes {t} {p = p'} {left} i vr) =
      let (same, is_t, rest) =
        woken-IsTop (marked retv k) s marked_top joining.above_ready k1 w i in
      let current : k1.task_current ≡ k.task_current = w.globals.task_current in
      let (valid, other, mine) = left-KernelValid k1 w.valid (rw current busy) i vr exited in
      (
        _,
        refl,
        record {
          valid = valid;
          current = is_t;
          ctx = ground (arith, is_t, w.task, joining.waits, current, not_self);
          code = ground (arith, is_t, w.task, current, not_self);
          gone = ground (arith, is_t, w.others k.task_current, current, not_self);
          value = ground (arith, is_t, w.others k.task_current, current, not_self);
          other = not_self;
          same_nesting = w.globals.isr_nesting ∙ task;
          same_waitqueue = w.globals.waitqueue_current ∙ unprepared;
          idle = λ q. ground (arith, w.elsewhere (sem_queue s), joining.alone q);
          first = λ q h. ground (
            arith,
            h,
            is_t,
            same,
            rest,
            w.task,
            marked_top.prio,
            woken_bucket (marked retv k) s marked_top joining.above_ready k1 w q,
          );
        },
      )

  signalled :
      {r : Outcome (Unit {0})}
      → Signals (marked retv k) s true r
      → (k1 : Kernel) × (r ≡ ok tt k1) × Signalled k1
  unfolding set_state set_block_code
  signalled (Signals.counts i e) = absurd (ground (arith, i p, marked_top.heads))
  signalled (Signals.wakes {t} {p = p'} {left} k1 i w d quiet loud) =
      let (same, is_t, rest) = IsTop-same (marked retv k) (sem_queue s) marked_top i in
      let w1 : Signalled k1 = rw (same, is_t, rest) at w in
      let off : k1.dint ≡ true = unfold removed in w1.globals.dint in
      let back : record k1 { dint = true } ≡ k1 = ap (λ d. record k1 { dint = d }) (sym off) in
      (k1, quiet refl ∙ ap (ok tt) back, w1)

  abbrev signal : Option ℕ → M (Unit {0})
  signal join_sem = elim join_sem [ none ↦ pure tt | some s ↦ os_sem_up_sync s true ]

  exit_lem :
      os_task_exit retv k
      ≡ and_then (os_sem_up_sync s true (marked retv k)) (λ _. switch_to_ready exited)
  unfolding os_task_exit set_state set_block_code
  exit_lem =
      subst
        (λ o.
          os_task_exit retv k ≡ and_then (signal o (marked retv k)) (λ _. switch_to_ready exited))
        joining.names refl

  -- In a valid kernel, where the current task is not the idle task, the signal to the semaphore of
  -- the task that joins it meets its assertions, that task is the only waiter and no ready task is
  -- as urgent: `os_task_exit` gives the CPU to the joining task, and that task's `os_task_join`
  -- then returns the value given to `os_task_exit`, with the ended task marked as joined, the
  -- kernel valid and the interrupt state of its caller.
  pub os_task_exit-resume :
      (fuel : ℕ)
      → (k2 k3 : Kernel) × (os_task_exit retv k ≡ switched k2)
        × (k2.task_current ≡ j)
        × (resume (suc fuel) k2 ≡ ok (some retv) k3)
        × Joins cristate k.task_current k2 k3
  unfolding switch_to_ready set_state set_block_code
  os_task_exit-resume fuel =
      let v1 = marked-KernelValid k v retv in
      let m1 : MaySignal (marked retv k) s true = record {
        sync_in_task = may.sync_in_task;
        unprepared = may.unprepared;
        room = may.room;
      } in
      let (k1, runs, w) = signalled (os_sem_up_sync-Signals (marked retv k) v1 s true m1) in
      let (k2, switches, h) =
        hand_over k1 w (os_taskqueue_dequeue-Dequeues k1 w.valid.queues ready_queue) in
      let (k3, back, joins) =
        resume-in_join k2 h.valid k.task_current s cristate inner (rw h.current h.ctx)
          (rw h.current h.code) h.gone (rw h.current h.other) h.same_nesting h.same_waitqueue h.idle
          h.first fuel in
      (k2, k3, exit_lem ∙ rw runs switches, h.current, rw h.value at back, joins)
