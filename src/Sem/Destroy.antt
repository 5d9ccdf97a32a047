-- ===== src/Sem/Destroy.antt =====
-- `os_sem_destroy`: every waiter is woken with OS_DESTROYED.
use rados.Base.{ℕ, ◌<◌, ◌≡◌, refl, true, arith, ◌==◌}
use rados.Kernel.{Kernel, in_schedule, sem_queue, os_destroyed}
use rados.Kernel.Run.{and_then, arch_critical_exit, is_none}
use rados.Kernel.Runs.{Runs}
use rados.Sched.{os_schedule}
use rados.Sched.Valid.{KernelValid, same-KernelValid}
use rados.Sched.Exit.{schedule_exit-Runs}
use rados.Block.{clear_queue}
use rados.Block.Drain.{queue_size, Drained, wake_all-Drained, clear_queue-KernelValid}
use rados.Sem.{set_sem_value, os_sem_destroy, sem_destroy}
use rados.Sem.Down.{inside}

-- The kernel `k1` in which `os_sem_destroy` of semaphore `s` calls the scheduler.
pub record Destroyed (s : ℕ) (k k1 : Kernel) : Type 0 where
  pub valid : KernelValid k1
  pub drained : Kernel
  pub woken : Drained os_destroyed (sem_queue s) (inside k) drained
  pub cleared : k1 ≡ set_sem_value s 0 (clear_queue (sem_queue s) drained)

-- In a valid kernel that meets the assertions of `os_sem_destroy`, with fuel above the number of
-- waiters, it ends: it wakes every waiter of the semaphore with OS_DESTROYED and no other task,
-- clears the semaphore and calls `os_schedule(1)`; it neither halts nor faults, and the kernel is
-- valid when it returns and where it gives the CPU away.
pub os_sem_destroy-Destroyed :
    (k : Kernel)
    → KernelValid k
    → (s fuel : ℕ) → k.isr_nesting ≡ 0
    → is_none k.waitqueue_current ≡ true
    → queue_size k (sem_queue s) < fuel
    → (k1 : Kernel) × Destroyed s k k1
      × (os_sem_destroy fuel s k
          ≡ and_then (os_schedule 1 (in_schedule k.dint) k1) (λ _. arch_critical_exit k.dint))
      × Runs KernelValid (λ _. KernelValid) (os_sem_destroy fuel s k)
unfolding os_sem_destroy sem_destroy set_sem_value
os_sem_destroy-Destroyed k v s fuel task unprepared h =
    let v1 = same-KernelValid k (inside k) refl refl refl (λ i e. e) v in
    let (k1, e, d) =
      wake_all-Drained os_destroyed (sem_queue s) (ground arith) fuel (inside k) v1 h in
    let v2 = clear_queue-KernelValid k1 d.valid (sem_queue s) (ground arith) d.idle in
    let k2 = set_sem_value s 0 (clear_queue (sem_queue s) k1) in
    let v3 : KernelValid k2 =
      same-KernelValid (clear_queue (sem_queue s) k1) k2 refl refl refl (λ i e. e) v2 in
    let isr : (k.isr_nesting == 0) ≡ true = ground arith in
    let off : k2.dint ≡ true = unfold clear_queue in d.globals.dint in
    (
      k2,
      record { valid = v3; drained = k1; woken = d; cleared = refl },
      rw (isr, unprepared, e) refl,
      rw (isr, unprepared, e) (schedule_exit-Runs k2 v3 off 1 (in_schedule k.dint) k.dint),
    )
