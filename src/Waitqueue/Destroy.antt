-- ===== src/Waitqueue/Destroy.antt =====
-- `os_waitqueue_destroy`: every waiter is woken with OS_DESTROYED.
use rados.Base.{ℕ, ◌<◌, ◌≡◌, refl, true, arith}
use rados.Kernel.{Kernel, in_schedule, wait_queue, os_destroyed}
use rados.Kernel.Run.{and_then, arch_critical_exit, is_none}
use rados.Kernel.Runs.{Runs}
use rados.Sched.{os_schedule}
use rados.Sched.Valid.{KernelValid, same-KernelValid}
use rados.Sched.Exit.{schedule_exit-Runs}
use rados.Block.{clear_queue}
use rados.Block.Drain.{queue_size, Drained, wake_all-Drained, clear_queue-KernelValid}
use rados.Sem.Down.{inside}
use rados.Waitqueue.{os_waitqueue_destroy}

-- The kernel `k1` in which `os_waitqueue_destroy` calls the scheduler.
pub record Destroyed (queue : ℕ) (k k1 : Kernel) : Type 0 where
  pub valid : KernelValid k1
  pub drained : Kernel
  pub woken : Drained os_destroyed (wait_queue queue) (inside k) drained
  pub cleared : k1 ≡ clear_queue (wait_queue queue) drained

-- In a valid kernel where no task is prepared to wait, with fuel above the number of waiters,
-- `os_waitqueue_destroy` ends: it wakes every waiter of the queue with OS_DESTROYED and no other
-- task, clears the queue and calls `os_schedule(1)`; it neither halts nor faults, and the kernel is
-- valid when it returns and where it gives the CPU away.
pub os_waitqueue_destroy-Destroyed :
    (k : Kernel)
    → KernelValid k
    → (queue fuel : ℕ) → is_none k.waitqueue_current ≡ true
    → queue_size k (wait_queue queue) < fuel
    → (k1 : Kernel) × Destroyed queue k k1
      × (os_waitqueue_destroy fuel queue k
          ≡ and_then (os_schedule 1 (in_schedule k.dint) k1) (λ _. arch_critical_exit k.dint))
      × Runs KernelValid (λ _. KernelValid) (os_waitqueue_destroy fuel queue k)
unfolding os_waitqueue_destroy
os_waitqueue_destroy-Destroyed k v queue fuel unprepared h =
    let v1 = same-KernelValid k (inside k) refl refl refl (λ i e. e) v in
    let (k1, e, d) =
      wake_all-Drained os_destroyed (wait_queue queue) (ground arith) fuel (inside k) v1 h in
    let k2 = clear_queue (wait_queue queue) k1 in
    let v2 : KernelValid k2 =
      clear_queue-KernelValid k1 d.valid (wait_queue queue) (ground arith) d.idle in
    let off : k2.dint ≡ true = unfold clear_queue in d.globals.dint in
    (
      k2,
      record { valid = v2; drained = k1; woken = d; cleared = refl },
      rw (unprepared, e) refl,
      rw (unprepared, e) (schedule_exit-Runs k2 v2 off 1 (in_schedule k.dint) k.dint),
    )
