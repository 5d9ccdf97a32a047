-- ===== src/Mtx/Unlock.antt =====
-- `os_mtx_unlock`, on every branch.
use rados.Base.{
  ℕ, ◌+◌, ◌-◌, ◌%◌, ◌^◌, ◌<◌, ◌≡◌, refl, ◌∙◌, true, false, Bool, Option, none, some, List, [], ◌∷◌,
  ◌++◌, arith, ◌==◌, ltb, erase, if◌then◌else◌,
}
use rados.Kernel.{Kernel, TaskState, in_schedule, mtx_queue, ready_queue, os_ok, priocnt}
use rados.Kernel.Run.{ok, Outcome, and_then, pure, ◌>>◌, modify, arch_critical_exit, is_none}
use rados.Kernel.Runs.{Runs, returns}
use rados.TaskQueue.{removed, enqueued, os_taskqueue_dequeue}
use rados.TaskQueue.Dequeue.{IsTop, IsIdle, Dequeues, os_taskqueue_dequeue-Dequeues}
use rados.Sched.{os_schedule, set_state}
use rados.Sched.Valid.{KernelValid, same-KernelValid, made_ready}
use rados.Sched.Exit.{schedule_exit-Runs}
use rados.Block.{set_block_code}
use rados.Block.Wake.{set_task-KernelValid, made_ready-KernelValid, removed_top-KernelValid}
use rados.Mtx.{
  set_mtx, set_mtx_list, os_mtx_set_owner, os_mtx_clear_owner, set_recur, wake_from_mtx, pass_on,
  owned_by, os_mtx_unlock,
}
use rados.Mtx.Reset.{Reset, os_mtx_unlock_prio_reset-Reset}
use rados.Sem.Down.{inside}

-- What the assertions of `os_mtx_unlock` ask for.
pub record MayUnlock (k : Kernel) (m : ℕ) : Type 0 where
  pub in_task : (k.isr_nesting == 0) ≡ true
  pub mine : (k.mtxs m).owner ≡ some k.task_current
  pub unprepared : is_none k.waitqueue_current ≡ true

-- The kernel after the current task gave the mutex up.
abbrev pub cleared : ℕ → Kernel → Kernel
cleared m k =
    set_mtx_list k.task_current (erase m (k.tasks k.task_current).mtx_list)
      (set_mtx m (record { owner = none; recur = 0 }) (set_recur m 0 (inside k)))

-- Task `t` of `k` has got mutex `m` and is ready in `k'`.
pub record Passed (m t : ℕ) (k k' : Kernel) : Type 0 where
  pub valid : KernelValid k'
  pub mtx : k'.mtxs m ≡ record { owner = some t; recur = 1 }
  pub task : k'.tasks t ≡ record (k.tasks t) {
    state = TaskState.ready;
    task_queue = some ready_queue;
    ret_value = os_ok;
    mtx_list = (k.tasks t).mtx_list ++ m ∷ [];
  }
  pub others : (a : ℕ) → (a == t) ≡ false → k'.tasks a ≡ k.tasks a
  -- It is the last of its priority to run.
  pub ready :
      (p : ℕ)
      → (k'.queues ready_queue).tasks p ≡ (
          if p == (k.tasks t).prio_current
          then (k.queues ready_queue).tasks p ++ t ∷ []
          else (k.queues ready_queue).tasks p)
  pub dint : k'.dint ≡ k.dint
  pub task_current : k'.task_current ≡ k.task_current
  pub isr_nesting : k'.isr_nesting ≡ k.isr_nesting
  pub sched_lock : k'.sched_lock ≡ k.sched_lock

-- What the end of `os_mtx_unlock` does to the kernel `k`, from which it goes on.
pub data Unlocks (k : Kernel) (m : ℕ) (cristate : Bool) (r : Outcome (Unit {0})) : Type 0 where
  frees : IsIdle k (mtx_queue m) → r ≡ ok tt (record k { dint = cristate }) → Unlocks k m cristate r
  passes :
      {t p : ℕ} {left : List ℕ} (k1 : Kernel)
      → IsTop k (mtx_queue m) t p left
      → Passed m t k k1
      → r ≡ and_then (os_schedule 1 (in_schedule cristate) k1) (λ _. arch_critical_exit cristate)
      → Unlocks k m cristate r

module _ (m : ℕ) (cristate : Bool) where
  abbrev pass_body : Outcome (Option ℕ) → Outcome (Unit {0})
  pass_body r =
      and_then
        (and_then r λ task. elim task [
          | none ↦ pure tt
          | some t ↦ (do
            modify (os_mtx_set_owner m t)
            wake_from_mtx os_ok t
            os_schedule 1 (in_schedule cristate))
        ])
        (λ _. arch_critical_exit cristate)

  pass_step :
      (k : Kernel)
      → KernelValid k
      → {r : Outcome (Option ℕ)} → Dequeues k (mtx_queue m) r
      → Unlocks k m cristate (pass_body r)
  unfolding wake_from_mtx os_mtx_set_owner set_mtx_list set_mtx set_block_code
  pass_step k v (Dequeues.idle i) = frees i refl
  pass_step k v (Dequeues.takes {t} {p} {left} i vr) =
      let (v1, out, ne) = removed_top-KernelValid k v i (ground arith) in
      let k1 = removed (mtx_queue m) p left t k in
      let task2 = record (k1.tasks t) { mtx_list = (k1.tasks t).mtx_list ++ m ∷ [] } in
      let v2 = set_task-KernelValid k1 v1 t task2 refl refl refl (λ i e. e) in
      let k2 = os_mtx_set_owner m t k1 in
      let v3 : KernelValid k2 = same-KernelValid _ k2 refl refl refl (λ i e. e) v2 in
      let k3 = set_block_code t os_ok k2 in
      let v4 : KernelValid k3 = set_task-KernelValid k2 v3 t _ refl refl refl (λ i e. e) in
      let (e, v5) = made_ready-KernelValid k3 v4 t (ground (arith, out)) (ground (arith, ne)) in
      let p : Passed m t k (made_ready t k3) =
        unfold removed enqueued set_state in
        record {
          valid = v5;
          mtx = ground arith;
          task = ground arith;
          others = λ a n. ground arith;
          ready = λ p'. ground arith;
          dint = refl;
          task_current = refl;
          isr_nesting = refl;
          sched_lock = refl;
        } in
      passes (made_ready t k3) i p (rw e refl)

Unlocks-Runs :
    (k : Kernel)
    → KernelValid k
    → k.dint ≡ true
    → (m : ℕ) (cristate : Bool) (r : Outcome (Unit {0})) → Unlocks k m cristate r
    → Runs KernelValid (λ _. KernelValid) r
Unlocks-Runs k v d m cristate r (frees i e) =
    rw e (returns (same-KernelValid k _ refl refl refl (λ i e. e) v))
Unlocks-Runs k v d m cristate r (passes k1 i p e) =
    rw e (schedule_exit-Runs k1 p.valid (p.dint ∙ d) 1 (in_schedule cristate) cristate)

module _ (k : Kernel) (v : KernelValid k) (m : ℕ) (may : MayUnlock k m) where
  -- A mutex that was locked several times is kept.
  pub os_mtx_unlock-set_recur :
      1 < (k.mtxs m).recur
      → (k.mtxs m).recur < 256
      → os_mtx_unlock m k ≡ ok tt (set_recur m ((k.mtxs m).recur - 1) k)
  unfolding os_mtx_unlock set_recur set_mtx
  os_mtx_unlock-set_recur more small =
      let own : owned_by (k.mtxs m).owner k.task_current ≡ true = ground (arith, may.mine) in
      let down : ((k.mtxs m).recur + 255) % 2 ^ 8 ≡ (k.mtxs m).recur - 1 = omega arith in
      let still : ltb 0 ((k.mtxs m).recur - 1) ≡ true = ground arith in
      rw (may.in_task, own, may.unprepared, down, still) refl

  cleared_lem : os_mtx_clear_owner m (set_recur m 0 (inside k)) ≡ cleared m k
  unfolding os_mtx_clear_owner set_recur set_mtx set_mtx_list
  cleared_lem = ground (arith, may.mine)

  cleared-KernelValid : KernelValid (cleared m k)
  unfolding set_recur set_mtx set_mtx_list
  cleared-KernelValid =
      let task = record (k.tasks k.task_current) {
        mtx_list = erase m (k.tasks k.task_current).mtx_list;
      } in
      let v1 = set_task-KernelValid k v k.task_current task refl refl refl (λ i e. e) in
      same-KernelValid _ (cleared m k) refl refl refl (λ i e. e) v1

  -- In a valid kernel that meets the assertions of `os_mtx_unlock`, at recursion level 1 and with a
  -- base priority below OS_CONFIG_PRIOCNT, the call takes the mutex off the current task, computes
  -- its priority again, and where tasks wait passes the mutex to the first of the most urgent,
  -- which is woken with OS_OK and owns it with level 1, and calls `os_schedule(1)`. It neither
  -- halts nor faults, and the kernel is valid when it returns and where it gives the CPU away.
  pub os_mtx_unlock-Unlocks :
      (k.mtxs m).recur ≡ 1
      → (k.tasks k.task_current).prio_base < priocnt
      → (k1 : Kernel) × Reset (cleared m k) k1
        × Unlocks k1 m k.dint (os_mtx_unlock m k)
        × Runs KernelValid (λ _. KernelValid) (os_mtx_unlock m k)
  unfolding os_mtx_unlock pass_on
  os_mtx_unlock-Unlocks one small =
      let own : owned_by (k.mtxs m).owner k.task_current ≡ true = ground (arith, may.mine) in
      let down : ((k.mtxs m).recur + 255) % 2 ^ 8 ≡ 0 = omega arith in
      let base : ((cleared m k).tasks (cleared m k).task_current).prio_base < priocnt =
        unfold set_recur set_mtx set_mtx_list in ground arith in
      let (k1, e, r) = os_mtx_unlock_prio_reset-Reset (cleared m k) cleared-KernelValid base in
      let u =
        pass_step m k.dint k1 r.valid
          (os_taskqueue_dequeue-Dequeues k1 r.valid.queues (mtx_queue m)) in
      let off : k1.dint ≡ true = unfold set_recur set_mtx set_mtx_list in ground (arith, r.rest) in
      let run : os_mtx_unlock m k ≡ pass_body m k.dint (os_taskqueue_dequeue (mtx_queue m) k1) =
        rw (may.in_task, own, may.unprepared, down, cleared_lem, e) refl in
      (k1, r, rw run u, rw run (Unlocks-Runs k1 r.valid off m k.dint _ u))
