-- ===== src/System/Owners/Reach.antt =====
-- The kernels that are reached where no memory of an owner and no locked mutex is set up anew.
use rados.Base.{ℕ, ◌≡◌, refl, subst, sym, ◌∙◌, none, [], arith, ◌==◌, ltb, leb, not}
use rados.Kernel.{Kernel, Callback, in_schedule, in_sem_down, ready_queue, priocnt}
use rados.Kernel.Run.{M, is_none, ◌>>=◌, ◌>>◌, modify, arch_critical_enter, arch_critical_exit}
use rados.Sched.{set_state, os_schedule}
use rados.Sched.Init.{IsBlank}
use rados.Sched.Lock.{os_task_init, os_init}
use rados.TaskQueue.{os_taskqueue_init, os_taskqueue_enqueue}
use rados.Tasks.{os_task_check_init, arch_task_init, os_task_create, isr_enter, stack_minsize}
use rados.System.Keeps.{Leads}
use rados.System.Step.{Step}
use rados.System.Tick.{kernel_call}
use rados.System.Steady.{
  SameMtxs, SameMtxs-trans, SameMtxs-refl, Steady, Steady-os_assert, steady_rules,
}
use rados.System.Steady.Queues.{Steady-os_taskqueue_enqueue, Steady-os_schedule}
use rados.System.Steady.Waking.{Steady-os_timer_create, Steady-os_timer_destroy}
use rados.System.Steady.Ticks.{Steady-os_tick, Steady-kernel_call}
use rados.System.Steady.Calls.{
  Steady-os_scheduler_lock, Steady-os_scheduler_unlock, Steady-os_yield, Steady-os_start,
  Steady-os_sem_create, Steady-sem_destroy, Steady-sem_down, Steady-os_sem_up_sync,
  Steady-os_waitqueue_create, Steady-os_waitqueue_destroy, Steady-os_waitqueue_prepare,
  Steady-os_waitqueue_break, Steady-os_waitqueue_wait, Steady-os_waitqueue_wakeup_sync,
}
use rados.System.Steady.Tasks.{
  Steady-os_task_join, Steady-os_task_exit, Steady-resume, Steady-isr_leave,
}
use rados.System.Owners.{Owned, SameMtxs-Owned}
use rados.Sem.{os_sem_down, os_sem_destroy}
use rados.System.Owners.From.{From, From-get, From-bind, From-modify, Steady-From}
use rados.System.Owners.Locks.{
  os_mtx_lock-KeepsOwned, os_mtx_unlock-KeepsOwned, os_mtx_create-From, os_mtx_destroy-KeepsOwned,
}

-- In memory at the start, no mutex has an owner and no task has a mutex.
pub record NoOwners (k : Kernel) : Type 0 where
  pub free : (m : ℕ) → (k.mtxs m).owner ≡ none
  pub no_mtx : (t : ℕ) → (k.tasks t).mtx_list ≡ []

-- The memory of a new task is not that of a task which still owns a mutex, and the memory of a new
-- mutex is not that of one which is locked.
abbrev pub ReusesFree :
    {program : ℕ → ℕ → M (Unit {0})} {k k' : Kernel} → Step program k k' → Type 0
ReusesFree {program} {k} (Step.task_create entry t prio stack size proc param may l) =
    (k.tasks t).mtx_list ≡ []
ReusesFree {program} {k} (Step.mtx_create m idle l) = (k.mtxs m).owner ≡ none
ReusesFree s = Unit {0}

pub data ReachFree (program : ℕ → ℕ → M (Unit {0})) : Kernel → Type 0 where
  start : (k : Kernel) → IsBlank k → NoOwners k → ReachFree program (os_init k)
  next :
      {k k' : Kernel}
      → ReachFree program k
      → (s : Step program k k') → ReusesFree s
      → ReachFree program k'

os_init-Owned : (k : Kernel) → NoOwners k → Owned (os_init k)
unfolding os_init os_task_init os_taskqueue_init set_state
os_init-Owned k n =
    let no_mtx : (t : ℕ) → ((os_init k).tasks t).mtx_list ≡ [] = λ t. ground (arith, n.no_mtx t) in
    record {
      listed = λ m t e. ground (arith, n.free m);
      owner = λ m t e. absurd (ground (arith, no_mtx t));
      once = λ t. rw (no_mtx t) tt;
    }

-- The new task gets an empty list.
os_task_init-SameMtxs :
    (t prio : ℕ) (k : Kernel) → (k.tasks t).mtx_list ≡ [] → SameMtxs k (os_task_init t prio k)
unfolding os_task_init
os_task_init-SameMtxs t prio k free = record { mtxs = refl; lists = λ a. ground arith }

os_task_check_init-SameMtxs :
    (t stack stack_size : ℕ) (k : Kernel) → SameMtxs k (os_task_check_init t stack stack_size k)
unfolding os_task_check_init
os_task_check_init-SameMtxs t stack stack_size k = record { mtxs = refl; lists = λ a. ground arith }

arch_task_init-SameMtxs :
    (entry t stack stack_size proc param : ℕ) (k : Kernel)
    → SameMtxs k (arch_task_init entry t stack stack_size proc param k)
unfolding arch_task_init
arch_task_init-SameMtxs entry t stack stack_size proc param k = record {
  mtxs = refl;
  lists = λ a. ground arith;
}

os_task_create-From :
    (entry t prio stack stack_size proc param : ℕ) (k : Kernel)
    → Owned k
    → (k.tasks t).mtx_list ≡ []
    → From k (os_task_create entry t prio stack stack_size proc param)
unfolding os_task_create
os_task_create-From entry t prio stack stack_size proc param k o free = From-get k _ λ k1 s1.
    From-bind k o _ _ (Steady-os_assert (k1.isr_nesting == 0)) λ _.
      From-bind k o _ _ (Steady-os_assert (is_none k1.waitqueue_current)) λ _.
        From-bind k o _ _ (Steady-os_assert (ltb prio priocnt)) λ _.
          From-bind k o _ _ (Steady-os_assert (ltb 0 prio)) λ _.
            From-bind k o _ _ (Steady-os_assert (not (stack == 0))) λ _.
              From-bind k o _ _ (Steady-os_assert (leb stack_minsize stack_size)) λ _.
                From-modify k _ _ λ k2 s2.
                  let same = os_task_init-SameMtxs t prio k2 (s2.lists t ∙ free) in
                  Steady-From _ (SameMtxs-Owned o (SameMtxs-trans s2 same)) _ created
  where
    created : Steady (do
      modify (os_task_check_init t stack stack_size)
      modify (arch_task_init entry t stack stack_size proc param)
      cristate ← arch_critical_enter
      os_taskqueue_enqueue ready_queue t
      os_schedule 1 (in_schedule cristate)
      arch_critical_exit cristate)
    created =
        search
          (
            steady_rules, os_task_check_init-SameMtxs, arch_task_init-SameMtxs,
            Steady-os_taskqueue_enqueue, Steady-os_schedule,
          )
          depth 20

isr_enter-SameMtxs : (k : Kernel) → SameMtxs k (isr_enter k)
unfolding isr_enter
isr_enter-SameMtxs k = record { mtxs = ground arith; lists = λ t. ground arith }

module _ {k k' : Kernel} (o : Owned k) where
  Steady-Owned : {A : Type 0} {m : M A} → Steady m → Leads (m k) k' → Owned k'
  Steady-Owned steady l = SameMtxs-Owned o (steady.at k k' l)

  From-Owned : {A : Type 0} {m : M A} → From k m → Leads (m k) k' → Owned k'
  From-Owned from l = from.at k k' (SameMtxs-refl k) l

module _ (program : ℕ → ℕ → M (Unit {0})) (steady : (f p : ℕ) → Steady (program f p)) where
  Step-Owned : {k k' : Kernel} (s : Step program k k') → ReusesFree s → Owned k → Owned k'
  unfolding os_sem_down os_sem_destroy
  Step-Owned {k} {k'} (Step.task_create entry t prio stack size proc param may l) f o =
      From-Owned o (os_task_create-From entry t prio stack size proc param k o f) l
  Step-Owned {k} {k'} (Step.task_exit retv busy may l) f o =
      Steady-Owned o (Steady-os_task_exit retv) l
  Step-Owned {k} {k'} (Step.task_join fuel t s timer may first fresh idle l) f o =
      Steady-Owned o (Steady-os_task_join fuel t s timer) l
  Step-Owned {k} {k'} (Step.os_starts l) f o = Steady-Owned o Steady-os_start l
  Step-Owned {k} {k'} (Step.scheduler_lock l) f o = Steady-Owned o Steady-os_scheduler_lock l
  Step-Owned {k} {k'} (Step.scheduler_unlock sync l) f o =
      Steady-Owned o (Steady-os_scheduler_unlock sync) l
  Step-Owned {k} {k'} (Step.yields l) f o = Steady-Owned o Steady-os_yield l
  Step-Owned {k} {k'} (Step.sem_create s n idle l) f o = Steady-Owned o (Steady-os_sem_create s n) l
  Step-Owned {k} {k'} (Step.mtx_create m idle l) f o = From-Owned o (os_mtx_create-From m k o f) l
  Step-Owned {k} {k'} (Step.waitqueue_create q idle l) f o =
      Steady-Owned o (Steady-os_waitqueue_create q) l
  Step-Owned {k} {k'} (Step.sem_up s sync may l) f o =
      Steady-Owned o (Steady-os_sem_up_sync s sync) l
  Step-Owned {k} {k'} (Step.sem_takes s ticks timer may pos l) f o =
      Steady-Owned o (Steady-sem_down in_sem_down s ticks timer) l
  Step-Owned {k} {k'} (Step.sem_tries s timer may zero l) f o =
      Steady-Owned o (Steady-sem_down in_sem_down s 0 timer) l
  Step-Owned {k} {k'} (Step.sem_waits s ticks timer may zero link time l) f o =
      Steady-Owned o (Steady-sem_down in_sem_down s ticks timer) l
  Step-Owned {k} {k'} (Step.sem_destroy fuel s l) f o =
      Steady-Owned o (Steady-sem_destroy in_schedule fuel s) l
  Step-Owned {k} {k'} (Step.mtx_lock fuel m may own l) f o =
      (os_mtx_lock-KeepsOwned fuel m).at k k' o l
  Step-Owned {k} {k'} (Step.mtx_unlock m may base pos small l) f o =
      (os_mtx_unlock-KeepsOwned m).at k k' o l
  Step-Owned {k} {k'} (Step.mtx_destroy fuel m idle base l) f o =
      (os_mtx_destroy-KeepsOwned fuel m).at k k' o l
  Step-Owned {k} {k'} (Step.waitqueue_destroy fuel q l) f o =
      Steady-Owned o (Steady-os_waitqueue_destroy fuel q) l
  Step-Owned {k} {k'} (Step.timer_create timer c param ticks reload l) f o =
      Steady-Owned o (Steady-os_timer_create timer (Callback.user c) param ticks reload) l
  Step-Owned {k} {k'} (Step.timer_destroy timer l) f o =
      Steady-Owned o (Steady-os_timer_destroy timer) l
  Step-Owned {k} {k'} (Step.waitqueue_prepare q l) f o =
      Steady-Owned o (Steady-os_waitqueue_prepare q) l
  Step-Owned {k} {k'} (Step.waitqueue_break l) f o = Steady-Owned o Steady-os_waitqueue_break l
  Step-Owned {k} {k'} (Step.waitqueue_wait q ticks timer p link time l) f o =
      Steady-Owned o (Steady-os_waitqueue_wait ticks timer) l
  Step-Owned {k} {k'} (Step.waitqueue_wakeup fuel q cnt sync may enough apart l) f o =
      Steady-Owned o (Steady-os_waitqueue_wakeup_sync fuel q cnt sync) l
  Step-Owned {k} {k'} (Step.resumes fuel l) f o = Steady-Owned o (Steady-resume fuel) l
  Step-Owned {k} {k'} (Step.interrupt e) f o =
      subst Owned (sym e) (SameMtxs-Owned o (isr_enter-SameMtxs k))
  Step-Owned {k} {k'} (Step.tick fuel l) f o =
      Steady-Owned o (Steady-os_tick (kernel_call program) (Steady-kernel_call program steady) fuel)
        l
  Step-Owned {k} {k'} (Step.interrupt_return fuel l) f o = Steady-Owned o (Steady-isr_leave fuel) l

  -- Where the program's timer functions leave mutexes alone, in every kernel that is reached from
  -- `os_init` by steps, where a new task does not take the memory of a task that still has a mutex
  -- and `os_mtx_create` not that of a locked mutex: a task has a mutex in its list, and once,
  -- exactly where the mutex names that task as its owner.
  pub ReachFree-Owned : {k : Kernel} → ReachFree program k → Owned k
  ReachFree-Owned (start k blank none_owned) = os_init-Owned k none_owned
  ReachFree-Owned (next r s free) = Step-Owned s free (ReachFree-Owned r)
