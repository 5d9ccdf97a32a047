-- ===== src/Mtx/Handover.antt =====
-- The way from `os_mtx_unlock` to the return of `os_mtx_lock` in the task that waited.
use rados.Base.{
  ℕ, ◌%◌, ◌^◌, ◌+◌, ◌≤◌, ◌<◌, ◌≡◌, refl, inl, inr, Bool, true, false, some, List, [], ◌∷◌, arith,
  ◌==◌, if◌then◌else◌, Bool-cases,
}
use rados.Kernel.{
  Kernel, TaskState, Context, in_schedule, in_mtx_lock, ready_queue, mtx_queue, os_ok, priocnt,
}
use rados.Kernel.Run.{ok, switched, Outcome}
use rados.TaskQueue.{enqueued, removed}
use rados.TaskQueue.Dequeue.{IsTop}
use rados.Sched.{set_state, set_running}
use rados.Sched.Valid.{KernelValid}
use rados.Sched.Schedule.{handed_over, Schedules, os_schedule-Schedules}
use rados.Mtx.{set_recur, set_mtx, set_mtx_list, os_mtx_unlock}
use rados.Mtx.Reset.{Reset}
use rados.Mtx.Waiters.{Highest}
use rados.Mtx.Unlock.{MayUnlock, cleared, Passed, Unlocks, os_mtx_unlock-Unlocks}
use rados.Tasks.{go_on, resume}
use rados.Tasks.Urgent.{IsTop-same, bucket-handed_over}

-- The current task holds the mutex `m` only, and its waiter `t` is above the own priority of the
-- current task and above every ready task.
pub record Contends (k : Kernel) (m t p : ℕ) (left : List ℕ) : Type 0 where
  pub top : IsTop k (mtx_queue m) t p left
  pub single : (k.tasks k.task_current).mtx_list ≡ m ∷ []
  pub above_current : (k.tasks k.task_current).prio_base < p
  pub above_ready : (p' : ℕ) → p ≤ p' → (k.queues ready_queue).tasks p' ≡ []

-- The kernel `k'` in which task `t` goes on behind its `os_mtx_lock`, with mutex `m`.
pub record Holds (cristate : Bool) (m t : ℕ) (k' : Kernel) : Type 0 where
  pub task_current : k'.task_current ≡ t
  pub mtx : k'.mtxs m ≡ record { owner = some t; recur = 1 }
  pub state : (k'.tasks t).state ≡ TaskState.running
  pub dint : k'.dint ≡ cristate

module _ (k : Kernel) (v : KernelValid k) (m : ℕ) (may : MayUnlock k m)
    (once : (k.mtxs m).recur ≡ 1) (base : (k.tasks k.task_current).prio_base < priocnt)
    (unlocked : k.sched_lock ≡ 0) {t p : ℕ} {left : List ℕ} (contends : Contends k m t p left)
    (cristate : Bool) (waits : (k.tasks t).ctx ≡ in_mtx_lock cristate) where
  -- The kernel in which the current task has its own priority back.
  module _ (k1 : Kernel) (r : Reset (cleared m k) k1) where
    none_left : ((cleared m k).tasks k.task_current).mtx_list ≡ []
    unfolding set_recur set_mtx set_mtx_list
    none_left = ground (arith, contends.single)

    own_n : r.n ≡ (k.tasks k.task_current).prio_base
    unfolding set_recur set_mtx set_mtx_list
    own_n =
        elim (Bool-cases
          ((k.tasks k.task_current).prio_current == (k.tasks k.task_current).prio_base)) [
            | inl own ↦ ground (arith, r.kept (ground arith))
            | inr boosted ↦ reached (rw none_left at r.computed (ground arith))
          ]
      where
        reached :
            Highest (cleared m k) [] ((cleared m k).tasks k.task_current).prio_base r.n
            → r.n ≡ (k.tasks k.task_current).prio_base
        reached h = elim h.reached [ inl e ↦ ground (arith, e) | inr (a, w, e) ↦ absurd (cc (w)) ]

    own_prio : (k1.tasks k.task_current).prio_current ≡ (k.tasks k.task_current).prio_base
    unfolding set_recur set_mtx set_mtx_list
    own_prio = ground (arith, r.task, own_n)

    same_queues :
        (k1.queues ≡ k.queues)
        × (k1.task_current ≡ k.task_current)
        × (k1.isr_nesting ≡ k.isr_nesting)
        × (k1.sched_lock ≡ k.sched_lock)
        × (k1.dint ≡ true)
    unfolding set_recur set_mtx set_mtx_list
    same_queues = (
      ground (arith, r.rest),
      ground (arith, r.rest),
      ground (arith, r.rest),
      ground (arith, r.rest),
      ground (arith, r.rest),
    )

    waiter_same : k1.tasks t ≡ k.tasks t
    unfolding set_recur set_mtx set_mtx_list
    waiter_same =
        let other : (t == k.task_current) ≡ false =
          ground (arith, v.current_free, contends.top.queued) in
        ground (arith, r.others t)

    still_top : IsTop k1 (mtx_queue m) t p left
    still_top =
        let same = same_queues.0 in
        record {
          heads = rw same contends.top.heads;
          highest = λ p' h. rw same (contends.top.highest p' h);
          queued = rw waiter_same contends.top.queued;
          prio = rw waiter_same contends.top.prio;
        }

    module _ (k2 : Kernel) (w : Passed m t k1 k2) where
      bucket :
          (p' : ℕ) → p ≤ p' → (k2.queues ready_queue).tasks p' ≡ (if p' == p then t ∷ [] else [])
      bucket p' h =
          ground (arith, w.ready p', contends.above_ready p' h, still_top.prio, same_queues)

      below : (k2.tasks k2.task_current).prio_current < p
      below = ground (
        arith,
        w.task_current,
        same_queues,
        w.others k.task_current,
        still_top.queued,
        v.current_free,
        waiter_same,
        contends.above_current,
        own_prio,
      )

      chosen :
          {ctx : Context} {o : Outcome (Unit {0})}
          → Schedules k2 (((k2.tasks k2.task_current).prio_current + 1) % 2 ^ 8) ctx o
          → (k3 : Kernel) × (o ≡ switched k3)
            × (k3.task_current ≡ t)
            × (k3.mtxs m ≡ record { owner = some t; recur = 1 })
            × ((k3.tasks t).ctx ≡ in_mtx_lock cristate)
            × ((k3.tasks t).ret_value ≡ os_ok)
      unfolding removed enqueued set_state
      chosen {ctx} sch =
          let (runs, valid, i) =
            bucket-handed_over k2 w.valid t p bucket
              (ground (arith, w.isr_nesting, same_queues, may.in_task))
              (ground (arith, w.sched_lock, same_queues, unlocked)) below sch in
          (
            handed_over t p [] ctx k2,
            runs,
            refl,
            w.mtx,
            ground (arith, w.task, waiter_same, waits, i.queued, w.valid.current_free),
            ground (arith, w.task, i.queued, w.valid.current_free),
          )

    passed :
        {o : Outcome (Unit {0})}
        → Unlocks k1 m k.dint o
        → (k3 : Kernel) × (o ≡ switched k3)
          × (k3.task_current ≡ t)
          × (k3.mtxs m ≡ record { owner = some t; recur = 1 })
          × ((k3.tasks t).ctx ≡ in_mtx_lock cristate)
          × ((k3.tasks t).ret_value ≡ os_ok)
    passed (Unlocks.frees i e) = absurd (ground (arith, i p, still_top.heads))
    passed (Unlocks.passes {t = t'} k2 i w runs) =
        let (same, is_t, rest) = IsTop-same k1 (mtx_queue m) still_top i in
        let w1 : Passed m t k1 k2 = rw is_t at w in
        let off : k2.dint ≡ true = ground (arith, w1.dint, same_queues) in
        let (k3, e, now, mtx, ctx, code) =
          chosen k2 w1 (os_schedule-Schedules k2 w1.valid (in_schedule k.dint) 1 off) in
        (k3, rw (runs, e) refl, now, mtx, ctx, code)

  -- The woken task goes on.
  goes_on :
      (fuel : ℕ) (k3 : Kernel)
      → k3.task_current ≡ t
      → k3.mtxs m ≡ record { owner = some t; recur = 1 }
      → (k3.tasks t).ctx ≡ in_mtx_lock cristate
      → (k3.tasks t).ret_value ≡ os_ok
      → (k4 : Kernel) × (resume fuel k3 ≡ ok (some os_ok) k4) × Holds cristate m t k4
  unfolding resume go_on set_running set_state
  goes_on fuel k3 now mtx ctx code =
      let at : (k3.tasks k3.task_current).ctx ≡ in_mtx_lock cristate = rw now ctx in
      (
        record (set_running k3) { dint = cristate },
        rw at (ground (arith, now, code)),
        record { task_current = now; mtx = mtx; state = ground (arith, now); dint = refl },
      )

  -- In a valid kernel, where the current task unlocks at level 1 the one mutex it holds, without
  -- scheduler lock, and the first waiter of the mutex is above its own priority and every ready
  -- task and was suspended in `os_mtx_lock`: `os_mtx_unlock` gives the CPU to the waiter at once,
  -- and that task's `os_mtx_lock` then returns OS_OK with the task running, owning the mutex at
  -- level 1, and with the interrupt state of its caller.
  pub os_mtx_unlock-resume :
      (fuel : ℕ)
      → (k3 k4 : Kernel) × (os_mtx_unlock m k ≡ switched k3)
        × (k3.task_current ≡ t)
        × (resume fuel k3 ≡ ok (some os_ok) k4)
        × Holds cristate m t k4
  os_mtx_unlock-resume fuel =
      let (k1, r, u, runs) = os_mtx_unlock-Unlocks k v m may once base in
      let (k3, e, now, mtx, ctx, code) = passed k1 r u in
      let (k4, back, holds) = goes_on fuel k3 now mtx ctx code in (k3, k4, e, now, back, holds)
