-- ===== src/Waitqueue/Notify.antt =====
-- `os_waitqueue_wakeup_sync`, and the call from an interrupt that keeps a prepared task awake.
use rados.Base.{
  ℕ, suc, ◌<◌, ◌≡◌, refl, inl, inr, false, true, Bool, not, none, some, arith, ◌==◌, ◌||◌, ◌&&◌,
  ltb, Bool-cases, is_empty,
}
use rados.Kernel.{Kernel, in_schedule, wait_queue, task_idle}
use rados.Kernel.Run.{ok, Outcome, and_then, arch_critical_exit, is_none}
use rados.Kernel.Runs.{Runs, returns}
use rados.Sched.{os_schedule}
use rados.Sched.Valid.{KernelValid, same-KernelValid}
use rados.Sched.Exit.{schedule_exit-Runs}
use rados.Block.Drain.{queue_size}
use rados.Waitqueue.{
  names, keep_awake, wakeup_loop, set_waitqueue_current, os_waitqueue_wakeup_sync,
  os_waitqueue_wakeup, os_waitqueue_wait, unlock_quietly,
}
use rados.Waitqueue.Wakeup.{WokenUp, wakeup_loop-WokenUp}
use rados.Sem.Down.{inside}

-- What the assertions of `os_waitqueue_wakeup_sync` ask for.
pub record MayNotify (k : Kernel) (wakeup_cnt : ℕ) (sync : Bool) : Type 0 where
  pub unprepared : (ltb 0 k.isr_nesting || is_none k.waitqueue_current) ≡ true
  pub sync_in_task : (k.isr_nesting == 0 || not sync) ≡ true
  pub some_wanted : 0 < wakeup_cnt
  pub small : wakeup_cnt < 256

-- What the call does to the kernel.
pub record Notified (queue wakeup_cnt : ℕ) (sync : Bool) (k : Kernel) (r : Outcome (Unit {0}))
    (k1 : Kernel) : Type 0 where
  pub woken : WokenUp (wait_queue queue) wakeup_cnt (inside k) k1
  pub quiet :
      (not sync && ltb 0 (queue_size k (wait_queue queue))) ≡ false
      → r ≡ ok tt (record k1 { dint = k.dint })
  pub loud :
      (not sync && ltb 0 (queue_size k (wait_queue queue))) ≡ true
      → r ≡ and_then (os_schedule 1 (in_schedule k.dint) k1) (λ _. arch_critical_exit k.dint)
  pub runs : Runs KernelValid (λ _. KernelValid) r

module _ (k : Kernel) (v : KernelValid k) (fuel queue wakeup_cnt : ℕ) (sync : Bool)
    (may : MayNotify k wakeup_cnt sync) (enough : queue_size k (wait_queue queue) < fuel)
    (apart : (ltb 0 k.isr_nesting && names k.waitqueue_current queue) ≡ false) where
  -- In a valid kernel that meets the assertions of `os_waitqueue_wakeup_sync`, where no task is
  -- prepared for the queue that an interrupt signals, with a count below 256 and fuel above the
  -- number of waiters, the call wakes as many waiters as the count asks for and there are,
  -- OS_WAITQUEUE_ALL all of them, with OS_OK; no waiter that is left is more urgent than one that
  -- was woken, and no other task changes. Where one was woken and `sync` is not set it calls
  -- `os_schedule(1)`, else it returns; the kernel stays valid on both ways.
  pub os_waitqueue_wakeup_sync-Notified :
      (k1 : Kernel) × Notified queue wakeup_cnt sync k
        (os_waitqueue_wakeup_sync fuel queue wakeup_cnt sync k)
        k1
  unfolding os_waitqueue_wakeup_sync keep_awake
  os_waitqueue_wakeup_sync-Notified =
      let v1 = same-KernelValid k (inside k) refl refl refl (λ i e. e) v in
      let (k1, e, w) =
        wakeup_loop-WokenUp queue fuel wakeup_cnt false (inside k) v1 may.small enough in
      let some_wanted : ltb 0 wakeup_cnt ≡ true = ground (arith, may.some_wanted) in
      elim (Bool-cases (not sync && ltb 0 (queue_size k (wait_queue queue)))) [
        | inl loud ↦ (
          k1,
          record {
            woken = w;
            quiet = λ a. absurd (ground arith);
            loud = λ a.
                rw (may.unprepared, may.sync_in_task, some_wanted, apart, e, some_wanted, loud)
                  refl;
            runs =
                rw (may.unprepared, may.sync_in_task, some_wanted, apart, e, some_wanted, loud)
                  (schedule_exit-Runs k1 w.valid w.globals.dint 1 (in_schedule k.dint) k.dint);
          },
        )
        | inr quiet ↦ (
          k1,
          record {
            woken = w;
            quiet = λ a.
                rw (may.unprepared, may.sync_in_task, some_wanted, apart, e, some_wanted, quiet)
                  refl;
            loud = λ a. absurd (ground arith);
            runs =
                rw (may.unprepared, may.sync_in_task, some_wanted, apart, e, some_wanted, quiet)
                  (returns (same-KernelValid k1 _ refl refl refl (λ i e. e) w.valid));
          },
        )
      ]

-- Where an interrupt calls `os_waitqueue_wakeup` with count 1 for the queue on which the
-- interrupted task, not the idle task and without mutexes, is prepared, the prepared state ends;
-- the `os_waitqueue_wait` of the task that follows, with any positive timeout, returns at once and
-- gives whatever code the task had before, not OS_OK as such.
pub os_waitqueue_wakeup-os_waitqueue_wait :
    (k : Kernel) (fuel queue timeout_ticks timer : ℕ)
    → 0 < k.isr_nesting
    → k.waitqueue_current ≡ some queue
    → (k.task_current == task_idle) ≡ false
    → 0 < timeout_ticks
    → is_empty (k.tasks k.task_current).mtx_list ≡ true
    → (k' : Kernel) × (os_waitqueue_wakeup (suc fuel) queue 1 k ≡ ok tt k')
      × (k'.waitqueue_current ≡ none)
      × (os_waitqueue_wait timeout_ticks timer (record k' { isr_nesting = 0 })
          ≡ ok (k.tasks k.task_current).ret_value (unlock_quietly (record k' { isr_nesting = 0 })))
unfolding os_waitqueue_wakeup os_waitqueue_wakeup_sync keep_awake wakeup_loop os_waitqueue_wait
    set_waitqueue_current unlock_quietly
os_waitqueue_wakeup-os_waitqueue_wait k fuel queue timeout_ticks timer isr cur busy h none_held =
    (record k { waitqueue_current = none }, ground arith, refl, ground arith)
