-- ===== src/System/Destroy.antt =====
-- The destroy functions of the blocking objects keep the kernel valid.
use rados.Base.{
  ℕ, zero, suc, ◌<◌, ◌≡◌, refl, ◌⊎◌, inl, inr, Bool, true, false, Option, none, some, arith, ◌==◌,
  Option-cases, Bool-cases,
}
use rados.Kernel.{Kernel, in_schedule, ready_queue, mtx_queue, wait_queue, os_destroyed, priocnt}
use rados.Kernel.Run.{M, ok, fault, Outcome, and_then, pure, ◌>>◌, modify, is_none}
use rados.TaskQueue.{removed}
use rados.TaskQueue.Dequeue.{IsIdle, Dequeues, os_taskqueue_dequeue-Dequeues}
use rados.Sched.Valid.{KernelValid, same-KernelValid}
use rados.Block.{wake, wake_all, clear_queue}
use rados.Block.Wake.{wake_lem, removed_top-KernelValid, set_task-KernelValid}
use rados.Block.Drain.{clear_queue-KernelValid}
use rados.Mtx.{
  set_mtx, set_mtx_list, os_mtx_clear_owner, wake_from_mtx, destroy_locked, os_mtx_destroy,
}
use rados.Mtx.Destroy.{deface, wake_from_mtx-Readied}
use rados.Mtx.Reset.{os_mtx_unlock_prio_reset-Reset}
use rados.Waitqueue.{os_waitqueue_destroy}
use rados.System.Keeps.{
  Leads, Keeps, nowhere-Leads, Keeps-bind, Keeps-get, Keeps-os_assert, Keeps-arch_critical_enter,
  Keeps-arch_critical_exit, Keeps-os_schedule, assert_step,
}

-- What the loop needs of the way in which it wakes a task.
abbrev pub Wakes : (ℕ → M (Unit {0})) → Type 0
Wakes waking =
    (k : Kernel)
    → KernelValid k
    → (t : ℕ) → (k.tasks t).task_queue ≡ none
    → (t == k.task_current) ≡ false
    → (k' : Kernel) × (waking t k ≡ ok tt k') × KernelValid k'

pub wake-Wakes : (code : ℕ) → Wakes (wake code)
wake-Wakes code k v t out ne =
    let (k', runs, woken) = wake_lem k v code t out ne in (k', runs, woken.valid)

wake_from_mtx-Wakes : (code : ℕ) → Wakes (wake_from_mtx code)
wake_from_mtx-Wakes code k v t out ne =
    let (k', runs, readied) = wake_from_mtx-Readied code k v t out ne in (k', runs, readied.valid)

-- The loop that wakes every waiter ends with the queue empty, or is out of fuel.
module _ (waking : ℕ → M (Unit {0})) (wakes : Wakes waking) (q : ℕ)
    (other : (q == ready_queue) ≡ false) where
  abbrev Ends : Outcome (Unit {0}) → Type 0
  Ends r = ((k' : Kernel) × (r ≡ ok tt k') × KernelValid k' × IsIdle k' q) ⊎ (r ≡ fault)

  wake_body :
      (fuel : ℕ) (k : Kernel)
      → KernelValid k
      → ((k1 : Kernel) → KernelValid k1 → Ends (wake_all fuel waking q k1))
      → {r : Outcome (Option ℕ)} → Dequeues k q r
      → Ends (
          and_then r
            (λ task. elim task [ none ↦ pure tt | some t ↦ (do waking t; wake_all fuel waking q) ]))
  wake_body fuel k v later (Dequeues.idle i) = inl (k, refl, v, i)
  wake_body fuel k v later (Dequeues.takes {t} {p} {left} i w) =
      let (v1, out, ne) = removed_top-KernelValid k v i other in
      let (k2, runs, v2) = wakes (removed q p left t k) v1 t out ne in rw runs (later k2 v2)

  pub wake_all-Ends : (fuel : ℕ) (k : Kernel) → KernelValid k → Ends (wake_all fuel waking q k)
  unfolding wake_all
  wake_all-Ends zero k v = inr refl
  wake_all-Ends (suc fuel) k v =
      wake_body fuel k v (wake_all-Ends fuel) (os_taskqueue_dequeue-Dequeues k v.queues q)

  -- Destroying a queue: every waiter is woken, and its memory is cleared.
  pub Keeps-drain :
      {A : Type 0} (fuel : ℕ) (rest : M A)
      → Keeps rest
      → Keeps (wake_all fuel waking q >> (modify (clear_queue q) >> rest))
  Keeps-drain fuel rest keeps k k' v l = elim (wake_all-Ends fuel k v) [
    | inl (k1, runs, v1, i) ↦
        keeps (clear_queue q k1) k' (clear_queue-KernelValid k1 v1 q other i) (rw runs at l)
    | inr e ↦ nowhere-Leads (inr (rw e refl)) l
  ]

wait_queue-not_ready : (queue : ℕ) → (wait_queue queue == ready_queue) ≡ false
wait_queue-not_ready queue = ground arith

mtx_queue-not_ready : (m : ℕ) → (mtx_queue m == ready_queue) ≡ false
mtx_queue-not_ready m = ground arith

pub Keeps-os_waitqueue_destroy : (fuel queue : ℕ) → Keeps (os_waitqueue_destroy fuel queue)
unfolding os_waitqueue_destroy
Keeps-os_waitqueue_destroy fuel queue = Keeps-bind _ _ Keeps-get λ k.
    Keeps-bind _ _ (Keeps-os_assert (is_none k.waitqueue_current)) λ _.
      Keeps-bind _ _ Keeps-arch_critical_enter λ c.
        Keeps-drain (wake os_destroyed) (wake-Wakes os_destroyed) (wait_queue queue)
          (wait_queue-not_ready queue) fuel _
          (Keeps-bind _ _ (Keeps-os_schedule 1 (in_schedule c)) λ _. Keeps-arch_critical_exit c)

-- The end of `os_mtx_destroy`.
module _ (m : ℕ) (cristate : Bool) where
  deface_lem :
      (k k' : Kernel)
      → KernelValid k
      → IsIdle k (mtx_queue m)
      → Leads (deface m cristate k) k'
      → KernelValid k'
  unfolding set_mtx
  deface_lem k k' v idle l =
      let k1 = set_mtx m (record { owner = none; recur = 0 }) k in
      let v1 : KernelValid k1 = same-KernelValid k k1 refl refl refl (λ i e. e) v in
      let v2 = clear_queue-KernelValid k1 v1 (mtx_queue m) (mtx_queue-not_ready m) idle in
      let schedules =
        Keeps-bind _ _ (Keeps-os_schedule 1 (in_schedule cristate))
          λ _. Keeps-arch_critical_exit cristate in
      schedules (clear_queue (mtx_queue m) k1) k' v2 l

  clear_owner_lem :
      (k : Kernel)
      → KernelValid k
      → (k.tasks k.task_current).prio_base < priocnt
      → let k1 = os_mtx_clear_owner m k in
        KernelValid k1 × ((k1.tasks k1.task_current).prio_base < priocnt)
  unfolding set_mtx set_mtx_list os_mtx_clear_owner
  clear_owner_lem k v base =
      let freed = set_mtx m (record (k.mtxs m) { owner = none }) k in
      let v1 : KernelValid freed = same-KernelValid k freed refl refl refl (λ i e. e) v in
      elim (Option-cases (k.mtxs m).owner) [
        | inl free ↦ rw (os_mtx_clear_owner, free) (v1, base)
        | inr (t, e) ↦
            rw (os_mtx_clear_owner, e)
              (set_task-KernelValid freed v1 t _ refl refl refl (λ i e. e), ground (arith, base))
      ]

  destroy_locked_lem :
      (fuel owner : ℕ) (k k' : Kernel)
      → KernelValid k
      → (k.tasks k.task_current).prio_base < priocnt
      → Leads ((destroy_locked fuel m owner >> deface m cristate) k) k'
      → KernelValid k'
  unfolding destroy_locked
  destroy_locked_lem fuel owner k k' v base l = elim (Bool-cases (owner == k.task_current)) [
    | inr stranger ↦
        nowhere-Leads (inl (record k { dint = true; sched_lock = 1 }, rw stranger refl)) l
    | inl mine ↦
        let (v1, base1) = clear_owner_lem k v base in
        let (k2, resets, r) = os_mtx_unlock_prio_reset-Reset (os_mtx_clear_owner m k) v1 base1 in
        let waking = wake_from_mtx os_destroyed in
        elim (wake_all-Ends waking (wake_from_mtx-Wakes os_destroyed) (mtx_queue m)
          (mtx_queue-not_ready m) fuel k2 r.valid) [
            | inl (k3, runs, v3, idle) ↦ deface_lem k3 k' v3 idle (rw (mine, resets, runs) at l)
            | inr out ↦ nowhere-Leads (inr (rw (mine, resets, out) refl)) l
          ]
  ]

pub os_mtx_destroy-KernelValid :
    (fuel m : ℕ) (k k' : Kernel)
    → KernelValid k
    → ((k.mtxs m).owner ≡ none → IsIdle k (mtx_queue m))
    → (k.tasks k.task_current).prio_base < priocnt
    → Leads (os_mtx_destroy fuel m k) k'
    → KernelValid k'
unfolding os_mtx_destroy
os_mtx_destroy-KernelValid fuel m k k' v idle base l =
    let k1 = record k { dint = true } in
    let v1 : KernelValid k1 = same-KernelValid k k1 refl refl refl (λ i e. e) v in
    assert_step (k.isr_nesting == 0) _ k k'
      (λ _ l.
        assert_step (is_none k.waitqueue_current) _ k k'
          (λ _ l. elim (Option-cases (k.mtxs m).owner) [
            | inl free ↦ deface_lem m k.dint k1 k' v1 (idle free) (rw free at l)
            | inr (owner, e) ↦ destroy_locked_lem m k.dint fuel owner k1 k' v1 base (rw e at l)
          ])
          l)
      l
