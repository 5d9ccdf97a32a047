-- ===== src/Tasks/Exit.antt =====
-- `os_task_exit`: the task leaves scheduling, and the task that joins it is woken.
use rados.Base.{ℕ, ◌+◌, ◌≡◌, refl, true, false, Option, none, some, List, arith, ◌==◌}
use rados.Kernel.{Kernel, Task, TaskState, Context, exited, task_idle, ready_queue}
use rados.Kernel.Run.{ok, switched, Outcome, M, and_then, pure, crash, set_task}
use rados.TaskQueue.{removed}
use rados.TaskQueue.Valid.{QueuesValid}
use rados.TaskQueue.Dequeue.{IsTop, Dequeues, os_taskqueue_dequeue-Dequeues}
use rados.Sched.{set_state, arch_context_switch}
use rados.Sched.Valid.{KernelValid, same-KernelValid, set_task-QueuesValid, same-QueuesValid}
use rados.Block.{set_block_code, switch_to_ready}
use rados.Sem.{os_sem_up_sync, set_sem_value}
use rados.Sem.Down.{inside}
use rados.Sem.Up.{MaySignal, Signals, os_sem_up_sync-Signals}
use rados.Tasks.{os_task_exit}

-- The fields of a task that has finished with `retv`.
abbrev pub finished : ℕ → Task → Task
finished retv task = record task { state = TaskState.destroyed; ret_value = retv }

-- The kernel `k'` in which another task runs after the current task of `k` has finished.
pub record Exited (retv : ℕ) (k k' : Kernel) : Type 0 where
  pub valid : KernelValid k'
  pub task :
      k'.tasks k.task_current ≡ record (finished retv (k.tasks k.task_current)) { ctx = exited }
  pub other_runs : (k'.task_current == k.task_current) ≡ false

-- The current task is marked, and still has the CPU.
abbrev pub marked : ℕ → Kernel → Kernel
marked retv k =
    set_state k.task_current TaskState.destroyed (set_block_code k.task_current retv (inside k))

pub marked-KernelValid : (k : Kernel) → KernelValid k → (retv : ℕ) → KernelValid (marked retv k)
unfolding set_state set_block_code
marked-KernelValid k v retv = record {
  queues =
      set_task-QueuesValid _
        (set_task-QueuesValid (inside k)
          (same-KernelValid k (inside k) refl refl refl (λ i e. e) v).queues k.task_current _ refl
          refl)
        k.task_current _ refl refl;
  ready_linked = v.ready_linked;
  current_free = ground (arith, v.current_free);
  in_ready = λ a e. ground (arith, v.in_ready a, v.current_free);
  in_wait = λ a q e n. ground (arith, v.in_wait a q, v.current_free);
  idle_there = ground (arith, v.idle_there);
  timer_made = λ a i e. ground (arith, v.timer_made a i);
}

-- The signal to the joining task leaves the current task alone.
pub record Signalled (k k' : Kernel) : Type 0 where
  pub valid : KernelValid k'
  pub same_current : k'.task_current ≡ k.task_current
  pub same_task : k'.tasks k.task_current ≡ k.tasks k.task_current

Signals-Signalled :
    (k : Kernel)
    → KernelValid k
    → (s : ℕ) {r : Outcome (Unit {0})} → Signals k s true r
    → (k' : Kernel) × (r ≡ ok tt k') × Signalled k k'
unfolding set_sem_value
Signals-Signalled k v s (Signals.counts i e) = (
  set_sem_value s (k.sems s + 1) k,
  e,
  record {
    valid = same-KernelValid k _ refl refl refl (λ i e. e) v;
    same_current = refl;
    same_task = refl;
  },
)
Signals-Signalled k v s (Signals.wakes {t} {p} {left} k1 i w d quiet loud) = (
  record k1 { dint = k.dint },
  quiet refl,
  unfold removed in
      record {
        valid = same-KernelValid k1 _ refl refl refl (λ i e. e) w.valid;
        same_current = w.globals.task_current;
        same_task = ground (arith, w.others k.task_current, i.queued, v.current_free);
      },
)

module _ (k : Kernel) (v : KernelValid k) (busy : (k.task_current == task_idle) ≡ false) where
  pub left-KernelValid :
      {t p : ℕ} {left : List ℕ}
      → IsTop k ready_queue t p left
      → QueuesValid (removed ready_queue p left t k)
      → (ctx : Context)
      → let k1 = removed ready_queue p left t k in
        let k2 =
          record (set_task k.task_current (record (k1.tasks k.task_current) { ctx = ctx }) k1) {
            task_current = t;
          } in
        KernelValid k2
        × ((k2.task_current == k.task_current) ≡ false)
        × (k2.tasks k.task_current ≡ record (k.tasks k.task_current) { ctx = ctx })
  unfolding removed
  left-KernelValid {t} {p} {left} i vr ctx =
      let not_self : (t == k.task_current) ≡ false = ground (arith, i.queued, v.current_free) in
      let idle : (k.tasks task_idle).task_queue ≡ some ready_queue =
        ground (arith, v.idle_there, busy) in
      (
        record {
          queues =
              same-QueuesValid _ _ refl refl (
                set_task-QueuesValid (removed ready_queue p left t k) vr k.task_current _ refl
                  refl);
          ready_linked = ground (arith, v.ready_linked);
          current_free = ground (arith, not_self);
          in_ready = λ a e. ground (arith, v.in_ready a, not_self);
          in_wait = λ a r e n. ground (arith, v.in_wait a r, not_self);
          idle_there = ground (arith, idle, not_self, busy);
          timer_made = λ a j e. ground (arith, v.timer_made a j);
        },
        not_self,
        ground (arith, not_self),
      )

  switch_step :
      {r : Outcome (Option ℕ)}
      → Dequeues k ready_queue r
      → (k' : Kernel) × (and_then {B = Unit {0}} r
            (λ o. elim o [ none ↦ crash | some t ↦ arch_context_switch t exited ])
          ≡ switched k')
        × KernelValid k'
        × ((k'.task_current == k.task_current) ≡ false)
        × (k'.tasks k.task_current ≡ record (k.tasks k.task_current) { ctx = exited })
  unfolding arch_context_switch removed
  switch_step (Dequeues.idle i) =
      let prio = (k.tasks task_idle).prio_current in
      absurd
        (ground (arith, i prio, v.queues.placed ready_queue prio task_idle, v.idle_there, busy))
  switch_step (Dequeues.takes {t} {p} {left} i vr) =
      let (valid, other, task) = left-KernelValid i vr exited in (_, refl, valid, other, task)

-- What the signal to a joining task needs, where there is one.
abbrev pub MayExit : Kernel → Type 0
MayExit k = (s : ℕ) → (k.tasks k.task_current).join_sem ≡ some s → MaySignal k s true

module _ (k : Kernel) (v : KernelValid k) (busy : (k.task_current == task_idle) ≡ false)
    (may : MayExit k) (retv : ℕ) where
  abbrev signal : Option ℕ → M (Unit {0})
  signal join_sem = elim join_sem [ none ↦ pure tt | some s ↦ os_sem_up_sync s true ]

  signal_lem :
      (join_sem : Option ℕ)
      → (k.tasks k.task_current).join_sem ≡ join_sem
      → (k1 : Kernel) × (signal join_sem (marked retv k) ≡ ok tt k1) × Signalled (marked retv k) k1
  signal_lem none e = (
    marked retv k,
    refl,
    record { valid = marked-KernelValid k v retv; same_current = refl; same_task = refl },
  )
  signal_lem (some s) e =
      let m = may s e in
      let m1 : MaySignal (marked retv k) s true =
        unfold set_state set_block_code in
        record { sync_in_task = m.sync_in_task; unprepared = m.unprepared; room = m.room } in
      Signals-Signalled (marked retv k) (marked-KernelValid k v retv) s
        (os_sem_up_sync-Signals (marked retv k) (marked-KernelValid k v retv) s true m1)

  -- In a valid kernel, where the current task is not the idle task and, if a task waits to join it,
  -- the signal to that task's semaphore meets its assertions, `os_task_exit` always switches: the
  -- task is destroyed, has the given return value and stands in no queue, another task has the CPU,
  -- and the kernel stays valid.
  pub os_task_exit-Exited : (k' : Kernel) × (os_task_exit retv k ≡ switched k') × Exited retv k k'
  unfolding os_task_exit switch_to_ready set_state set_block_code
  os_task_exit-Exited =
      let (k1, run, sig) = signal_lem (k.tasks k.task_current).join_sem refl in
      let (k', e, valid, other, task) =
        switch_step k1 sig.valid (rw sig.same_current busy)
          (os_taskqueue_dequeue-Dequeues k1 sig.valid.queues ready_queue) in
      (
        k',
        rw run e,
        record {
          valid = valid;
          task = ground (arith, task, sig.same_current, sig.same_task);
          other_runs = ground (arith, other, sig.same_current);
        },
      )
