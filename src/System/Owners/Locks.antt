-- ===== src/System/Owners/Locks.antt =====
-- The calls of source/os_mtx.c keep the owners of mutexes and the mutex lists of the tasks in agreement.
use rados.Base.{
  ℕ, ◌+◌, ◌%◌, ◌^◌, ◌≡◌, inl, inr, Bool, true, false, Option, none, some, ◌==◌, ltb, Bool-cases,
  Option-cases, if◌then◌else◌, not,
}
use rados.Kernel.{
  Kernel, TaskBlock, in_schedule, in_mtx_lock, mtx_queue, os_ok, os_destroyed, task_idle,
}
use rados.Kernel.Run.{pure, ◌>>◌, modify, arch_critical_exit, is_none}
use rados.Sched.{os_schedule}
use rados.Block.{wake_all}
use rados.Mtx.{
  set_mtx, os_mtx_set_owner, os_mtx_clear_owner, os_mtx_unlock_prio_reset, os_mtx_create,
  wake_from_mtx, destroy_locked, os_mtx_destroy, os_mtx_lock, pass_on, owned_by, os_mtx_unlock,
}
use rados.Mtx.Destroy.{deface}
use rados.System.Steady.{
  SameMtxs, SameMtxs-refl, halted-SameMtxs, Steady, Steady-bind, Steady-pure, Steady-os_assert,
  Steady-arch_critical_enter, Steady-arch_critical_exit, Steady-modify,
}
use rados.System.Steady.Queues.{Steady-os_taskqueue_dequeue, Steady-os_schedule}
use rados.System.Steady.Waking.{
  Steady-wake_all, Steady-os_task_block_switch, clear_queue-SameMtxs, os_taskqueue_init-SameMtxs,
}
use rados.System.Owners.{
  Owned, SameMtxs-Owned, set_recur-Owned, fresh-Owned, os_mtx_set_owner-Owned,
  os_mtx_clear_owner-Owned,
}
use rados.System.Owners.From.{
  From, KeepsOwned, From-KeepsOwned, KeepsOwned-From, Steady-From, From-bind, From-modify, From-get,
  From-assoc, From-if, From-option, KeepsOwned-bind, Steady-KeepsOwned,
}
use rados.System.Steady.Prios.{
  Steady-os_mtx_lock_prio_boost, Steady-os_mtx_unlock_prio_reset, Steady-wake_from_mtx,
}

-- The owners after a write to a mutex without owner.
module _ (k : Kernel) (o : Owned k) (m : ℕ) (free : (k.mtxs m).owner ≡ none) (k1 : Kernel)
    (s : SameMtxs k k1) where
  still_free : (k1.mtxs m).owner ≡ none
  still_free = rw s.mtxs free

  given : (t : ℕ) → Owned (os_mtx_set_owner m t k1)
  given t = os_mtx_set_owner-Owned m t k1 (SameMtxs-Owned o s) still_free

  reset : Owned (set_mtx m (record { owner = none; recur = 0 }) k1)
  reset = fresh-Owned m k1 (SameMtxs-Owned o s) still_free

-- `os_mtx_unlock`.
pass_on-From : (m : ℕ) (c : Bool) (k : Kernel) → Owned k → From k (pass_on m c)
unfolding pass_on
pass_on-From m c k o = From-modify k _ _ λ k1 s.
    let (o1, free) = os_mtx_clear_owner-Owned m k1 (SameMtxs-Owned o s) in
    let k2 = os_mtx_clear_owner m k1 in
    From-bind k2 o1 _ _ Steady-os_mtx_unlock_prio_reset
      λ _. From-bind k2 o1 _ _ (Steady-os_taskqueue_dequeue (mtx_queue m)) (handed k2 o1 free)
  where
    handed :
        (k2 : Kernel)
        → Owned k2
        → (k2.mtxs m).owner ≡ none
        → (task : Option ℕ)
        → From k2 (elim task [
          | none ↦ pure tt
          | some t ↦ (do
            modify (os_mtx_set_owner m t)
            wake_from_mtx os_ok t
            os_schedule 1 (in_schedule c))
        ])
    handed k2 o2 free none = Steady-From k2 o2 _ (Steady-pure tt)
    handed k2 o2 free (some t) = From-modify k2 _ _ λ k3 s3.
        Steady-From _ (given k2 o2 m free k3 s3 t) _
          (Steady-bind _ _ (Steady-wake_from_mtx os_ok t) λ _. Steady-os_schedule 1 (in_schedule c))

pass_on-KeepsOwned : (m : ℕ) (c b : Bool) → KeepsOwned (if b then pure tt else pass_on m c)
pass_on-KeepsOwned m c true = Steady-KeepsOwned _ (Steady-pure tt)
pass_on-KeepsOwned m c false = From-KeepsOwned _ (pass_on-From m c)

pub os_mtx_unlock-KeepsOwned : (m : ℕ) → KeepsOwned (os_mtx_unlock m)
unfolding os_mtx_unlock
os_mtx_unlock-KeepsOwned m = From-KeepsOwned _ λ k o. From-get k _ λ k1 s1.
    let recur = ((k1.mtxs m).recur + 255) % 2 ^ 8 in
    From-bind k o _ _ (Steady-os_assert (k1.isr_nesting == 0)) λ _.
      From-bind k o _ _ (Steady-os_assert (owned_by (k1.mtxs m).owner k1.task_current)) λ _.
        From-bind k o _ _ (Steady-os_assert (is_none k1.waitqueue_current)) λ _.
          From-bind k o _ _ Steady-arch_critical_enter λ c. From-modify k _ _ λ k2 s2.
            KeepsOwned-From _ (set_recur-Owned m recur k2 (SameMtxs-Owned o s2)) _ (
              KeepsOwned-bind _ _ (pass_on-KeepsOwned m c (ltb 0 recur))
                λ _. Steady-KeepsOwned _ (Steady-arch_critical_exit c))

returned : (c : Bool) → Steady (do arch_critical_exit c; pure os_ok)
returned c = Steady-bind _ _ (Steady-arch_critical_exit c) λ _. Steady-pure os_ok

pub os_mtx_lock-KeepsOwned : (fuel m : ℕ) → KeepsOwned (os_mtx_lock fuel m)
unfolding os_mtx_lock
os_mtx_lock-KeepsOwned fuel m = From-KeepsOwned _ λ k o. From-get k _ λ k1 s1.
    From-bind k o _ _ (Steady-os_assert (k1.isr_nesting == 0)) λ _.
      From-bind k o _ _ (Steady-os_assert (not (k1.task_current == task_idle))) λ _.
        From-bind k o _ _ (Steady-os_assert (is_none k1.waitqueue_current)) λ _.
          From-bind k o _ _ Steady-arch_critical_enter λ c.
            From-option k (k1.mtxs m).owner _ _
              (λ free. From-modify k _ _ λ k2 s2.
                Steady-From _ (given k o m (rw s1.mtxs at free) k2 s2 k1.task_current) _
                  (returned c))
              λ owner e.
                From-if k (owner == k1.task_current) _ _
                  (From-modify k _ _ λ k2 s2.
                    let n = ((k1.mtxs m).recur + 1) % 2 ^ 8 in
                    Steady-From _ (set_recur-Owned m n k2 (SameMtxs-Owned o s2)) _ (returned c))
                  (Steady-From k o _ (
                    Steady-bind _ _ (Steady-os_mtx_lock_prio_boost fuel m)
                      λ _. Steady-os_task_block_switch (mtx_queue m) TaskBlock.mtx (in_mtx_lock c)))

pub os_mtx_create-From :
    (m : ℕ) (k : Kernel) → Owned k → (k.mtxs m).owner ≡ none → From k (os_mtx_create m)
unfolding os_mtx_create
os_mtx_create-From m k o free = From-get k _ λ k1 s1.
    From-bind k o _ _ (Steady-os_assert (k1.isr_nesting == 0)) λ _.
      From-bind k o _ _ (Steady-os_assert (is_none k1.waitqueue_current)) λ _.
        From-modify k _ _ λ k2 s2.
          Steady-From _ (reset k o m free k2 s2) _
            (Steady-modify _ (os_taskqueue_init-SameMtxs (mtx_queue m)))

-- The end of `os_mtx_destroy`, for a mutex without owner.
module _ (fuel m : ℕ) (c : Bool) where
  deface-From : (k : Kernel) → Owned k → (k.mtxs m).owner ≡ none → From k (deface m c)
  deface-From k o free = From-modify k _ _ λ k1 s. Steady-From _ (reset k o m free k1 s) _ (
      Steady-bind _ _ (Steady-modify _ (clear_queue-SameMtxs (mtx_queue m))) λ _.
        Steady-bind _ _ (Steady-os_schedule 1 (in_schedule c)) λ _. Steady-arch_critical_exit c)

  emptied-From :
      (k : Kernel)
      → Owned k
      → (k.mtxs m).owner ≡ none
      → From k (
          (do os_mtx_unlock_prio_reset; wake_all fuel (wake_from_mtx os_destroyed) (mtx_queue m))
          >> deface m c)
  emptied-From k o free =
      From-assoc k os_mtx_unlock_prio_reset
        (λ _. wake_all fuel (wake_from_mtx os_destroyed) (mtx_queue m)) (λ _. deface m c)
        (From-bind k o _ _ Steady-os_mtx_unlock_prio_reset λ _.
          From-bind k o _ _
            (Steady-wake_all fuel _ (mtx_queue m) (Steady-wake_from_mtx os_destroyed))
            λ _. deface-From k o free)

  locked-From :
      (owner : ℕ) (k : Kernel) → Owned k → From k (destroy_locked fuel m owner >> deface m c)
  unfolding destroy_locked
  locked-From owner k o = record {
    at = λ k1 k' s l. elim (Bool-cases (owner == k1.task_current)) [
      | inr stranger ↦ SameMtxs-Owned o (halted-SameMtxs (rw stranger at l))
      | inl mine ↦
          let (o1, free) = os_mtx_clear_owner-Owned m k1 (SameMtxs-Owned o s) in
          let k2 = os_mtx_clear_owner m k1 in
          (emptied-From k2 o1 free).at k2 k' (SameMtxs-refl k2) (rw mine at l)
    ];
  }

pub os_mtx_destroy-KeepsOwned : (fuel m : ℕ) → KeepsOwned (os_mtx_destroy fuel m)
unfolding os_mtx_destroy
os_mtx_destroy-KeepsOwned fuel m = From-KeepsOwned _ λ k o. From-get k _ λ k1 s1.
    From-bind k o _ _ (Steady-os_assert (k1.isr_nesting == 0)) λ _.
      From-bind k o _ _ (Steady-os_assert (is_none k1.waitqueue_current))
        λ _. From-bind k o _ _ Steady-arch_critical_enter λ c. ended k o k1 s1 c
  where
    ended :
        (k : Kernel)
        → Owned k
        → (k1 : Kernel) → SameMtxs k k1
        → (c : Bool)
        → From k (
            (elim (k1.mtxs m).owner [ none ↦ pure tt | some owner ↦ destroy_locked fuel m owner ])
            >> deface m c)
    ended k o k1 s1 c = elim (Option-cases (k1.mtxs m).owner) [
      | inl free ↦ rw free (deface-From fuel m c k o (rw s1.mtxs at free))
      | inr (owner, e) ↦ rw e (locked-From fuel m c owner k o)
    ]
