-- ===== src/Sem/Up.antt =====
-- `os_sem_up_sync`, on every branch.
use rados.Base.{
  ℕ, ◌+◌, ◌-◌, ◌<◌, ◌≡◌, refl, Bool, true, false, Option, none, some, List, arith, ◌==◌, ◌||◌, not,
  ltb, if◌then◌else◌,
}
use rados.Kernel.{Kernel, in_schedule, sem_queue, os_ok, atomic_max}
use rados.Kernel.Run.{ok, Outcome, and_then, pure, ◌>>◌, modify, arch_critical_exit, is_none}
use rados.Kernel.Runs.{Runs, returns}
use rados.TaskQueue.{removed, os_taskqueue_dequeue}
use rados.TaskQueue.Dequeue.{IsTop, IsIdle, Dequeues, os_taskqueue_dequeue-Dequeues}
use rados.Sched.{os_schedule}
use rados.Sched.Valid.{KernelValid, same-KernelValid}
use rados.Sched.Exit.{schedule_exit-Runs}
use rados.Block.{wake}
use rados.Timer.Stop.{Disarmed, Disarmed-same, SameTimers-refl}
use rados.Block.Wake.{Woken, wake-Woken, removed_top-KernelValid}
use rados.Sem.{set_sem_value, os_sem_up_sync}
use rados.Sem.Down.{inside}

-- What the assertions of `os_sem_up_sync` ask for.
pub record MaySignal (k : Kernel) (s : ℕ) (sync : Bool) : Type 0 where
  pub sync_in_task : (k.isr_nesting == 0 || not sync) ≡ true
  pub unprepared : (ltb 0 k.isr_nesting || is_none k.waitqueue_current) ≡ true
  pub room : k.sems s < atomic_max - 1

-- What `os_sem_up_sync` does to the kernel `k`.
pub data Signals (k : Kernel) (s : ℕ) (sync : Bool) (r : Outcome (Unit {0})) : Type 0 where
  -- Where no task waits, the value goes up by one.
  counts :
      IsIdle k (sem_queue s) → r ≡ ok tt (set_sem_value s (k.sems s + 1) k) → Signals k s sync r
  -- Else the first of the most urgent waiters is woken with OS_OK, and the value stays; unless the
  -- caller asked for no switch, the scheduler runs.
  wakes :
      {t p : ℕ} {left : List ℕ} (k1 : Kernel)
      → IsTop k (sem_queue s) t p left
      → Woken os_ok t (removed (sem_queue s) p left t (inside k)) k1
      → Disarmed (k.tasks t).timer k k1
      → (sync ≡ true → r ≡ ok tt (record k1 { dint = k.dint }))
      → (sync ≡ false
          → r ≡ and_then (os_schedule 1 (in_schedule k.dint) k1) (λ _. arch_critical_exit k.dint))
      → Signals k s sync r

abbrev after_dequeue : ℕ → ℕ → Bool → Bool → Outcome (Option ℕ) → Outcome (Unit {0})
after_dequeue s value sync cristate r = and_then r λ task.
    elim task [
      | none ↦ modify (set_sem_value s (value + 1))
      | some t ↦ (do wake os_ok t; if sync then pure tt else os_schedule 1 (in_schedule cristate))
    ]
    >> arch_critical_exit cristate

module _ (k : Kernel) (v : KernelValid k) (s : ℕ) (sync : Bool) where
  to_queue :
      MaySignal k s sync
      → os_sem_up_sync s sync k
        ≡ after_dequeue s (k.sems s) sync k.dint (os_taskqueue_dequeue (sem_queue s) (inside k))
  unfolding os_sem_up_sync
  to_queue may =
      let room : ltb (k.sems s) (atomic_max - 1) ≡ true = ground (arith, may.room) in
      rw (may.sync_in_task, may.unprepared, room) refl

  from_queue :
      {r : Outcome (Option ℕ)}
      → Dequeues (inside k) (sem_queue s) r
      → Signals k s sync (after_dequeue s (k.sems s) sync k.dint r)
  unfolding set_sem_value
  from_queue (Dequeues.idle i) = counts (λ p. i p) refl
  from_queue (Dequeues.takes {t} {p} {left} i vr) =
      let v1 = same-KernelValid k (inside k) refl refl refl (λ i e. e) v in
      let (v2, out, ne) = removed_top-KernelValid (inside k) v1 i (ground arith) in
      let (k1, runs, w, d) =
        wake-Woken (removed (sem_queue s) p left t (inside k)) v2 os_ok t out ne in
      let disarmed : Disarmed (k.tasks t).timer k k1 =
        unfold removed in
        Disarmed-same (ground arith) (record { timers = refl; timer_list = refl; unsynch = refl }) d
          (SameTimers-refl k1) in
      wakes k1 (record { heads = i.heads; highest = i.highest; queued = i.queued; prio = i.prio }) w
        disarmed (λ e. rw (runs, e) refl) (λ e. rw (runs, e) refl)

  -- In a valid kernel that meets the assertions of `os_sem_up_sync`, it raises the value by one
  -- where no task waits. Else it wakes the first of the most urgent waiters with OS_OK, which is
  -- the last of its ready bucket, and leaves the value. A timer of that task is destroyed: it has
  -- no ticks to go, has left the timer list if it still ran, and no other timer changes; without
  -- one all timers stay. Then it calls `os_schedule(1)` unless `sync` is set.
  pub os_sem_up_sync-Signals : MaySignal k s sync → Signals k s sync (os_sem_up_sync s sync k)
  os_sem_up_sync-Signals may = rw (to_queue may) (
      from_queue (
        os_taskqueue_dequeue-Dequeues (inside k)
          (same-KernelValid k (inside k) refl refl refl (λ i e. e) v).queues (sem_queue s)))

Signals-Runs :
    (k : Kernel)
    → KernelValid k
    → (s : ℕ) (sync : Bool) (r : Outcome (Unit {0})) → Signals k s sync r
    → Runs KernelValid (λ _. KernelValid) r
unfolding set_sem_value
Signals-Runs k v s sync r (counts i e) =
    rw e (returns (same-KernelValid k _ refl refl refl (λ i e. e) v))
Signals-Runs k v s true r (wakes k1 i w d quiet loud) =
    rw (quiet refl) (returns (same-KernelValid k1 _ refl refl refl (λ i e. e) w.valid))
Signals-Runs k v s false r (wakes k1 i w d quiet loud) =
    rw (loud refl) (
      schedule_exit-Runs k1 w.valid (unfold removed in w.globals.dint) 1 (in_schedule k.dint)
        k.dint)

-- In a valid kernel that meets its assertions `os_sem_up_sync` neither halts nor faults, and the
-- kernel is valid when it returns and where it gives the CPU away.
pub os_sem_up_sync-KernelValid :
    (k : Kernel)
    → KernelValid k
    → (s : ℕ) (sync : Bool) → MaySignal k s sync
    → Runs KernelValid (λ _. KernelValid) (os_sem_up_sync s sync k)
os_sem_up_sync-KernelValid k v s sync may =
    Signals-Runs k v s sync _ (os_sem_up_sync-Signals k v s sync may)
