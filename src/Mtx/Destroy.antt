-- ===== src/Mtx/Destroy.antt =====
-- `os_mtx_destroy`: every task that waits for the mutex is woken with OS_DESTROYED.
use rados.Base.{
  Bool, ℕ, ◌<◌, ◌≡◌, refl, true, none, some, inl, inr, arith, ◌==◌, erase, Option-cases,
}
use rados.Kernel.{Kernel, in_schedule, mtx_queue, os_destroyed, priocnt}
use rados.Kernel.Run.{M, ◌>>◌, modify, and_then, arch_critical_exit, is_none}
use rados.Kernel.Runs.{Runs}
use rados.TaskQueue.Dequeue.{IsIdle}
use rados.Sched.{os_schedule}
use rados.Sched.Valid.{KernelValid, same-KernelValid}
use rados.Sched.Exit.{schedule_exit-Runs}
use rados.Block.{clear_queue}
use rados.Block.Wake.{set_task-KernelValid}
use rados.Block.Ready.{os_task_makeready-Readied, same_timer}
use rados.Block.Drain.{queue_size, Emptied, WakesWith, wake_all-Emptied, clear_queue-KernelValid}
use rados.Mtx.{
  set_mtx, set_mtx_list, os_mtx_clear_owner, wake_from_mtx, destroy_locked, os_mtx_destroy,
}
use rados.Mtx.Reset.{Reset, os_mtx_unlock_prio_reset-Reset}
use rados.Sem.Down.{inside}

pub wake_from_mtx-Readied : (code : ℕ) → WakesWith same_timer code (wake_from_mtx code)
unfolding wake_from_mtx
wake_from_mtx-Readied code k v t out ne =
    let (runs, r) = os_task_makeready-Readied k v code t out ne in (_, runs, r)

-- The kernel after the current task gave the mutex up.
abbrev pub released : ℕ → Kernel → Kernel
released m k =
    set_mtx_list k.task_current (erase m (k.tasks k.task_current).mtx_list)
      (set_mtx m (record (k.mtxs m) { owner = none }) (inside k))

-- The kernel after the memory of the mutex was cleared.
abbrev pub defaced : ℕ → Kernel → Kernel
defaced m k = clear_queue (mtx_queue m) (set_mtx m (record { owner = none; recur = 0 }) k)

-- The end of `os_mtx_destroy`.
abbrev pub deface : ℕ → Bool → M (Unit {0})
deface m cristate = do
  modify (set_mtx m (record { owner = none; recur = 0 }))
  modify (clear_queue (mtx_queue m))
  os_schedule 1 (in_schedule cristate)
  arch_critical_exit cristate

-- The kernel `k1` in which `os_mtx_destroy` of a mutex calls the scheduler.
pub data Destroys (m : ℕ) (k k1 : Kernel) : Type 0 where
  unlocked : (k.mtxs m).owner ≡ none → k1 ≡ defaced m (inside k) → Destroys m k k1
  locked :
      (reset drained : Kernel)
      → (k.mtxs m).owner ≡ some k.task_current
      → Reset (released m k) reset
      → Emptied same_timer os_destroyed (mtx_queue m) reset drained
      → k1 ≡ defaced m drained
      → Destroys m k k1

defaced-KernelValid :
    (m : ℕ) (k : Kernel) → KernelValid k → IsIdle k (mtx_queue m) → KernelValid (defaced m k)
unfolding set_mtx
defaced-KernelValid m k v idle =
    let k1 = set_mtx m (record { owner = none; recur = 0 }) k in
    clear_queue-KernelValid k1 (same-KernelValid k k1 refl refl refl (λ i e. e) v) (mtx_queue m)
      (ground arith) idle

module _ (k : Kernel) (v : KernelValid k) (m : ℕ) where
  released-KernelValid : KernelValid (released m k)
  unfolding set_mtx set_mtx_list
  released-KernelValid =
      let v1 = set_task-KernelValid k v k.task_current _ refl refl refl (λ i e. e) in
      same-KernelValid _ (released m k) refl refl refl (λ i e. e) v1

  released_lem :
      (k.mtxs m).owner ≡ some k.task_current → os_mtx_clear_owner m (inside k) ≡ released m k
  unfolding os_mtx_clear_owner set_mtx set_mtx_list
  released_lem mine = ground (arith, mine)

  abbrev Ends : ℕ → Kernel → Type 0
  Ends fuel k1 =
      KernelValid k1
      × Destroys m k k1
      × (os_mtx_destroy fuel m k
          ≡ and_then (os_schedule 1 (in_schedule k.dint) k1) (λ _. arch_critical_exit k.dint))
      × Runs KernelValid (λ _. KernelValid) (os_mtx_destroy fuel m k)

  ends :
      (fuel : ℕ) (last : Kernel)
      → KernelValid last
      → IsIdle last (mtx_queue m)
      → last.dint ≡ true
      → Destroys m k (defaced m last)
      → os_mtx_destroy fuel m k
        ≡ and_then
            (os_schedule 1 (in_schedule k.dint) (defaced m last))
            (λ _. arch_critical_exit k.dint)
      → Ends fuel (defaced m last)
  ends fuel last v idle off d run =
      let v1 = defaced-KernelValid m last v idle in
      let off1 : (defaced m last).dint ≡ true = unfold set_mtx clear_queue in off in
      (v1, d, run, rw run (schedule_exit-Runs _ v1 off1 1 (in_schedule k.dint) k.dint))

  -- In a valid kernel that meets the assertions of `os_mtx_destroy`, with fuel above the number of
  -- waiters and a base priority below OS_CONFIG_PRIOCNT, where no task waits for a mutex without
  -- owner, the call ends. A mutex of the current task is taken off its list, its priority is
  -- computed again, and every waiter and no other task is woken with OS_DESTROYED and does not own
  -- the mutex. Then the mutex is cleared and `os_schedule(1)` is called; it neither halts nor
  -- faults, and the kernel is valid when it returns and where it gives the CPU away.
  pub os_mtx_destroy-Destroys :
      (fuel : ℕ)
      → k.isr_nesting ≡ 0
      → is_none k.waitqueue_current ≡ true
      → ((k.mtxs m).owner ≡ none → IsIdle k (mtx_queue m))
      → ((owner : ℕ) → (k.mtxs m).owner ≡ some owner → owner ≡ k.task_current)
      → (k.tasks k.task_current).prio_base < priocnt
      → queue_size k (mtx_queue m) < fuel
      → (k1 : Kernel) × Ends fuel k1
  unfolding os_mtx_destroy destroy_locked
  os_mtx_destroy-Destroys fuel task unprepared idle mine base h =
      let isr : (k.isr_nesting == 0) ≡ true = ground arith in
      elim (Option-cases (k.mtxs m).owner) [
        | inl free ↦
            let v1 = same-KernelValid k (inside k) refl refl refl (λ i e. e) v in
            (
              _,
              ends fuel (inside k) v1 (idle free) refl (Destroys.unlocked free refl)
                  (rw (isr, unprepared, free) refl),
            )
        | inr (owner, e) ↦
            let own : (k.mtxs m).owner ≡ some k.task_current = rw (mine owner e) at e in
            let self : (k.task_current == k.task_current) ≡ true = ground arith in
            let low : ((released m k).tasks (released m k).task_current).prio_base < priocnt =
              unfold set_mtx set_mtx_list in ground (arith, base) in
            let (k1, e1, r) =
              os_mtx_unlock_prio_reset-Reset (released m k) released-KernelValid low in
            let same : k1.queues ≡ k.queues =
              unfold set_mtx set_mtx_list in ground (arith, r.rest) in
            let (k2, e2, d) =
              wake_all-Emptied same_timer os_destroyed (wake_from_mtx os_destroyed)
                (wake_from_mtx-Readied os_destroyed) (mtx_queue m) (ground arith) fuel k1 r.valid
                (rw same h) in
            let off : k2.dint ≡ true =
              unfold set_mtx set_mtx_list in ground (arith, r.rest, d.globals) in
            (
              _,
              ends fuel k2 d.valid d.idle off (Destroys.locked k1 k2 own r d refl)
                  (rw (isr, unprepared, own, self, released_lem own, e1, e2) refl),
            )
      ]
