-- ===== src/System/Reach.antt =====
-- What holds in every kernel that the steps reach.
use rados.Base.{
  none, ℕ, ◌^◌, ◌<◌, ◌≡◌, ◌≢◌, refl, inl, inr, true, Bool-cases, subst, sym, arith, ltb,
}
use rados.Kernel.{Kernel, TaskState, Callback, sem_queue, wait_queue, priocnt}
use rados.Kernel.Run.{Outcome, M}
use rados.TaskQueue.Dequeue.{IsIdle}
use rados.Tasks.{os_task_join}
use rados.Sched.Valid.{KernelValid, same-KernelValid}
use rados.Sched.Lock.{os_init}
use rados.Sched.Init.{IsBlank, os_init-KernelValid}
use rados.Sem.{set_sem_value, os_sem_down}
use rados.Sem.Down.{MayWait, os_sem_down_now, os_sem_down_forever, os_sem_down-Guarded}
use rados.Sem.Up.{os_sem_up_sync-KernelValid}
use rados.Mtx.{os_mtx_lock, os_mtx_unlock, set_recur, set_mtx}
use rados.Mtx.Lock.{MayLock, os_mtx_lock-Taken, os_mtx_lock-set_recur, os_mtx_lock-Blocked}
use rados.Mtx.Unlock.{MayUnlock, os_mtx_unlock-Unlocks}
use rados.Waitqueue.{os_waitqueue_wait}
use rados.Waitqueue.Wait.{Prepared, os_waitqueue_wait-Blocked, os_waitqueue_wait-Guarded}
use rados.Waitqueue.Notify.{os_waitqueue_wakeup_sync-Notified}
use rados.Tasks.Create.{os_task_create-Created}
use rados.Tasks.Exit.{os_task_exit-Exited}
use rados.Tasks.JoinWait.{JoinsOrWaits, os_task_join-JoinsOrWaits}
use rados.System.Destroy.{os_mtx_destroy-KernelValid, Keeps-os_waitqueue_destroy}
use rados.System.Keeps.{Leads, Keeps, Runs-Leads, ok-Leads, switched-Leads}
use rados.System.Step.{Step, MayTime, MayOwn}
use rados.System.Calls.{
  Keeps-os_timer_create, Keeps-os_timer_destroy, Keeps-os_start, Keeps-os_scheduler_lock,
  Keeps-os_scheduler_unlock, Keeps-os_yield, Keeps-os_waitqueue_prepare, Keeps-os_waitqueue_break,
  os_sem_create-KernelValid, os_mtx_create-KernelValid, os_waitqueue_create-KernelValid,
  os_mtx_unlock-inner,
}
use rados.System.Tick.{kernel_call, Keeps-kernel_call, Keeps-os_tick}
use rados.System.Resume.{Keeps-os_sem_destroy, Keeps-resume, isr_enter-KernelValid, Keeps-isr_leave}

-- From the blank memory of a start.
pub data Reach (program : ℕ → ℕ → M (Unit {0})) : Kernel → Type 0 where
  start : (k : Kernel) → IsBlank k → Reach program (os_init k)
  next : {k k' : Kernel} → Reach program k → Step program k k' → Reach program k'

module _ (k : Kernel) (v : KernelValid k) {k' : Kernel} where
  sem_waits-KernelValid :
      (s timer : ℕ) {timeout_ticks : ℕ}
      → MayWait k
      → k.sems s ≡ 0
      → (k.queues (sem_queue s)).linked ≡ true
      → MayTime k timer timeout_ticks
      → Leads (os_sem_down s timeout_ticks timer k) k'
      → KernelValid k'
  sem_waits-KernelValid s timer may none_left link MayTime.forever l =
      let (k1, runs, b) = os_sem_down_forever k s may v link none_left timer in
      switched-Leads runs b.valid l
  sem_waits-KernelValid s timer {timeout_ticks} may none_left link
        (MayTime.timed pos small made free) l =
      let (k0, k1, runs, g, b) =
        os_sem_down-Guarded k s may v link none_left timeout_ticks timer pos small made free in
      switched-Leads runs b.valid l

  task_join-KernelValid :
      (t s timer : ℕ)
      → MayWait k
      → (k.tasks t).join_sem ≡ none
      → (k.tasks t).state ≢ TaskState.invalid
      → IsIdle k (sem_queue s)
      → (fuel : ℕ) → Leads (os_task_join fuel t s timer k) k'
      → KernelValid k'
  task_join-KernelValid t s timer may first fresh idle fuel l =
      joins (os_task_join-JoinsOrWaits k v t s timer may first fresh idle fuel) l
    where
      joins : {r : Outcome ℕ} → JoinsOrWaits k t s r → Leads r k' → KernelValid k'
      joins (JoinsOrWaits.gone ended runs valid) l = ok-Leads runs valid l
      joins (JoinsOrWaits.waits k1 alive runs b signals) l = switched-Leads runs b.valid l

  waitqueue_waits-KernelValid :
      (queue timer : ℕ) {timeout_ticks : ℕ}
      → Prepared k queue
      → (k.queues (wait_queue queue)).linked ≡ true
      → MayTime k timer timeout_ticks
      → Leads (os_waitqueue_wait timeout_ticks timer k) k'
      → KernelValid k'
  waitqueue_waits-KernelValid queue timer p link MayTime.forever l =
      let (k1, runs, none_now, b) = os_waitqueue_wait-Blocked k v queue timer p link in
      switched-Leads runs b.valid l
  waitqueue_waits-KernelValid queue timer {timeout_ticks} p link (MayTime.timed pos small made free)
        l =
      let (k0, k1, runs, g, none_now, b) =
        os_waitqueue_wait-Guarded k v queue timer p link timeout_ticks pos small made free in
      switched-Leads runs b.valid l

  mtx_lock-KernelValid :
      (fuel m : ℕ) → MayLock k → MayOwn k fuel m → Leads (os_mtx_lock fuel m k) k' → KernelValid k'
  unfolding set_mtx
  mtx_lock-KernelValid fuel m may (MayOwn.free e) l =
      let (k1, runs, t) = os_mtx_lock-Taken k v may fuel m e in ok-Leads runs t.valid l
  mtx_lock-KernelValid fuel m may (MayOwn.mine e) l =
      ok-Leads (os_mtx_lock-set_recur k v may fuel m e)
        (same-KernelValid k _ refl refl refl (λ i e. e) v) l
  mtx_lock-KernelValid fuel m may (MayOwn.others e other chain enough link) l =
      let (k0, k1, runs, boost, b) = os_mtx_lock-Blocked k v may fuel m e other chain enough link in
      switched-Leads runs b.valid l

  mtx_unlock-KernelValid :
      (m : ℕ)
      → MayUnlock k m
      → (k.tasks k.task_current).prio_base < priocnt
      → 0 < (k.mtxs m).recur
      → (k.mtxs m).recur < 2 ^ 8
      → Leads (os_mtx_unlock m k) k'
      → KernelValid k'
  unfolding set_recur set_mtx
  mtx_unlock-KernelValid m may base pos small l = elim (Bool-cases (ltb 1 (k.mtxs m).recur)) [
    | inl deep ↦
        ok-Leads (os_mtx_unlock-inner k v m may (ground arith) small)
          (same-KernelValid k _ refl refl refl (λ i e. e) v) l
    | inr once ↦
        let (k1, r, u, runs) = os_mtx_unlock-Unlocks k v m may (ground arith) base in
        Runs-Leads runs l
  ]

module _ (program : ℕ → ℕ → M (Unit {0})) (keeps : (f p : ℕ) → Keeps (program f p)) where
  Step-KernelValid : {k k' : Kernel} → Step program k k' → KernelValid k → KernelValid k'
  Step-KernelValid {k} (Step.task_create entry t prio stack size proc param may l) v =
      let (k1, c, e, runs) = os_task_create-Created entry t prio stack size proc param k v may in
      Runs-Leads runs l
  Step-KernelValid {k} (Step.task_exit retv busy may l) v =
      let (k1, e, x) = os_task_exit-Exited k v busy may retv in switched-Leads e x.valid l
  Step-KernelValid {k} (Step.task_join fuel t s timer may first fresh idle l) v =
      task_join-KernelValid k v t s timer may first fresh idle fuel l
  Step-KernelValid {k} {k'} (Step.os_starts l) v = Keeps-os_start k k' v l
  Step-KernelValid {k} {k'} (Step.scheduler_lock l) v = Keeps-os_scheduler_lock k k' v l
  Step-KernelValid {k} {k'} (Step.scheduler_unlock sync l) v =
      Keeps-os_scheduler_unlock sync k k' v l
  Step-KernelValid {k} {k'} (Step.yields l) v = Keeps-os_yield k k' v l
  Step-KernelValid {k} (Step.sem_create s n idle l) v = os_sem_create-KernelValid k v s n idle l
  Step-KernelValid {k} (Step.mtx_create m idle l) v = os_mtx_create-KernelValid k v m idle l
  Step-KernelValid {k} (Step.waitqueue_create q idle l) v =
      os_waitqueue_create-KernelValid k v q idle l
  Step-KernelValid {k} (Step.sem_up s sync may l) v =
      Runs-Leads (os_sem_up_sync-KernelValid k v s sync may) l
  Step-KernelValid {k} (Step.sem_takes s ticks timer may pos l) v =
      ok-Leads ((os_sem_down_now k s may ticks timer).0 pos)
        (unfold set_sem_value in same-KernelValid k _ refl refl refl (λ i e. e) v) l
  Step-KernelValid {k} (Step.sem_tries s timer may zero l) v =
      ok-Leads ((os_sem_down_now k s may 0 timer).1 zero) v l
  Step-KernelValid {k} (Step.sem_waits s ticks timer may zero link time l) v =
      sem_waits-KernelValid k v s timer may zero link time l
  Step-KernelValid {k} {k'} (Step.sem_destroy fuel s l) v = Keeps-os_sem_destroy fuel s k k' v l
  Step-KernelValid {k} (Step.mtx_lock fuel m may own l) v =
      mtx_lock-KernelValid k v fuel m may own l
  Step-KernelValid {k} (Step.mtx_unlock m may base pos small l) v =
      mtx_unlock-KernelValid k v m may base pos small l
  Step-KernelValid {k} {k'} (Step.mtx_destroy fuel m idle base l) v =
      os_mtx_destroy-KernelValid fuel m k k' v idle base l
  Step-KernelValid {k} {k'} (Step.waitqueue_destroy fuel q l) v =
      Keeps-os_waitqueue_destroy fuel q k k' v l
  Step-KernelValid {k} {k'} (Step.timer_create timer f param ticks reload l) v =
      Keeps-os_timer_create timer (Callback.user f) param ticks reload k k' v l
  Step-KernelValid {k} {k'} (Step.timer_destroy timer l) v = Keeps-os_timer_destroy timer k k' v l
  Step-KernelValid {k} {k'} (Step.waitqueue_prepare q l) v = Keeps-os_waitqueue_prepare q k k' v l
  Step-KernelValid {k} {k'} (Step.waitqueue_break l) v = Keeps-os_waitqueue_break k k' v l
  Step-KernelValid {k} (Step.waitqueue_wait q ticks timer p link time l) v =
      waitqueue_waits-KernelValid k v q timer p link time l
  Step-KernelValid {k} (Step.waitqueue_wakeup fuel q cnt sync may enough apart l) v =
      let (k1, n) = os_waitqueue_wakeup_sync-Notified k v fuel q cnt sync may enough apart in
      Runs-Leads n.runs l
  Step-KernelValid {k} {k'} (Step.resumes fuel l) v = Keeps-resume fuel k k' v l
  Step-KernelValid {k} (Step.interrupt e) v = subst KernelValid (sym e) (isr_enter-KernelValid k v)
  Step-KernelValid {k} {k'} (Step.tick fuel l) v =
      Keeps-os_tick (kernel_call program) (Keeps-kernel_call program keeps) fuel k k' v l
  Step-KernelValid {k} {k'} (Step.interrupt_return fuel l) v = Keeps-isr_leave fuel k k' v l

  -- Where the program's timer functions keep a valid kernel valid, every kernel is valid that can
  -- be reached from `os_init` on blank memory by calls of tasks and interrupts, ticks with the
  -- kernel's own timeout functions, tasks that go on where they were switched out, and entries and
  -- returns of interrupts, each as its `Step` allows it.
  pub Reach-KernelValid : {k : Kernel} → Reach program k → KernelValid k
  Reach-KernelValid (start k blank) = (os_init-KernelValid k blank).0
  Reach-KernelValid (next r s) = Step-KernelValid s (Reach-KernelValid r)
