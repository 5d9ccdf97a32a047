-- ===== src/System/Steady/Calls.antt =====
-- The calls of the scheduler, of semaphores and of wait queues leave the mutexes alone.
use rados.Base.{ℕ, zero, suc, refl, Bool, true, false, not, Option, is_empty, ◌==◌, ltb}
use rados.Kernel.{Kernel, Context, task_idle, wait_queue, os_ok}
use rados.Sched.Lock.{
  set_sched_lock, os_scheduler_lock, schedule_section, os_scheduler_unlock, os_yield, os_start,
}
use rados.Sem.{set_sem_value, os_sem_create, sem_destroy, sem_wait, sem_down, os_sem_up_sync}
use rados.Waitqueue.{
  set_waitqueue_current, os_waitqueue_create, os_waitqueue_destroy, os_waitqueue_prepare,
  os_waitqueue_break, unlock_quietly, suspend, os_waitqueue_wait, wakeup_loop, keep_awake,
  os_waitqueue_wakeup_sync,
}
use rados.System.Steady.{
  SameMtxs, Steady, Steady-bind, Steady-bind-option, Steady-get, Steady-pure, Steady-if,
  Steady-option, Steady-modify, Steady-os_assert, Steady-arch_critical_enter,
  Steady-arch_critical_exit,
}
use rados.System.Steady.Queues.{
  Steady-os_taskqueue_dequeue, Steady-os_schedule, set_state-SameMtxs, set_running-SameMtxs,
}
use rados.System.Steady.Waking.{Steady-wake, waking_rules}

set_sched_lock-SameMtxs : (n : ℕ) (k : Kernel) → SameMtxs k (set_sched_lock n k)
unfolding set_sched_lock
set_sched_lock-SameMtxs n k = record { mtxs = refl; lists = λ t. refl }

start-SameMtxs : (k : Kernel) → SameMtxs k (record k { sched_lock = 0; dint = false })
start-SameMtxs k = record { mtxs = refl; lists = λ t. refl }

set_sem_value-SameMtxs : (s value : ℕ) (k : Kernel) → SameMtxs k (set_sem_value s value k)
unfolding set_sem_value
set_sem_value-SameMtxs s value k = record { mtxs = refl; lists = λ t. refl }

set_waitqueue_current-SameMtxs :
    (queue : Option ℕ) (k : Kernel) → SameMtxs k (set_waitqueue_current queue k)
unfolding set_waitqueue_current
set_waitqueue_current-SameMtxs queue k = record { mtxs = refl; lists = λ t. refl }

unlock_quietly-SameMtxs : (k : Kernel) → SameMtxs k (unlock_quietly k)
unfolding unlock_quietly
unlock_quietly-SameMtxs k = record { mtxs = refl; lists = λ t. refl }

ruleset write_rules = (
  waking_rules, Steady-os_schedule, set_sched_lock-SameMtxs, start-SameMtxs, set_sem_value-SameMtxs,
  set_waitqueue_current-SameMtxs, unlock_quietly-SameMtxs, set_state-SameMtxs, set_running-SameMtxs,
)

-- The scheduler.
pub Steady-os_scheduler_lock : Steady os_scheduler_lock
unfolding os_scheduler_lock
Steady-os_scheduler_lock = search write_rules depth 16

Steady-schedule_section : (higher_prio : ℕ) → Steady (schedule_section higher_prio)
unfolding schedule_section
Steady-schedule_section higher_prio = search write_rules depth 16

ruleset section_rules = (write_rules, Steady-schedule_section)

pub Steady-os_scheduler_unlock : (sync : Bool) → Steady (os_scheduler_unlock sync)
unfolding os_scheduler_unlock
Steady-os_scheduler_unlock sync = search section_rules depth 16

pub Steady-os_yield : Steady os_yield
unfolding os_yield
Steady-os_yield = search section_rules depth 16

pub Steady-os_start : Steady os_start
unfolding os_start
Steady-os_start = search section_rules depth 16

-- Semaphores.
pub Steady-os_sem_create : (s init_value : ℕ) → Steady (os_sem_create s init_value)
unfolding os_sem_create
Steady-os_sem_create s init_value = search write_rules depth 16

pub Steady-sem_destroy : (ctx : Bool → Context) (fuel s : ℕ) → Steady (sem_destroy ctx fuel s)
unfolding sem_destroy
Steady-sem_destroy ctx fuel s = search write_rules depth 16

Steady-sem_wait :
    (ctx : Bool → Context) (c : Bool) (s timeout_ticks timer : ℕ)
    → Steady (sem_wait ctx c s timeout_ticks timer)
unfolding sem_wait
Steady-sem_wait ctx c s timeout_ticks timer = search write_rules depth 16

pub Steady-sem_down :
    (ctx : Bool → Context) (s timeout_ticks timer : ℕ) → Steady (sem_down ctx s timeout_ticks timer)
unfolding sem_down
Steady-sem_down ctx s timeout_ticks timer = search (write_rules, Steady-sem_wait) depth 16

pub Steady-os_sem_up_sync : (s : ℕ) (sync : Bool) → Steady (os_sem_up_sync s sync)
unfolding os_sem_up_sync
Steady-os_sem_up_sync s sync = search write_rules depth 20

-- Wait queues.
pub Steady-os_waitqueue_create : (queue : ℕ) → Steady (os_waitqueue_create queue)
unfolding os_waitqueue_create
Steady-os_waitqueue_create queue = search write_rules depth 16

pub Steady-os_waitqueue_destroy : (fuel queue : ℕ) → Steady (os_waitqueue_destroy fuel queue)
unfolding os_waitqueue_destroy
Steady-os_waitqueue_destroy fuel queue = search write_rules depth 16

pub Steady-os_waitqueue_prepare : (queue : ℕ) → Steady (os_waitqueue_prepare queue)
unfolding os_waitqueue_prepare
Steady-os_waitqueue_prepare queue = search (write_rules, Steady-os_scheduler_lock) depth 16

pub Steady-os_waitqueue_break : Steady os_waitqueue_break
unfolding os_waitqueue_break
Steady-os_waitqueue_break = search (write_rules, Steady-os_scheduler_unlock) depth 16

Steady-suspend :
    (queue timeout_ticks timer : ℕ) (c : Bool) → Steady (suspend queue timeout_ticks timer c)
unfolding suspend
Steady-suspend queue timeout_ticks timer c = search write_rules depth 16

Steady-wakeup_loop :
    (fuel queue wakeup_cnt : ℕ) (awoken : Bool) → Steady (wakeup_loop fuel queue wakeup_cnt awoken)
unfolding wakeup_loop
Steady-wakeup_loop zero queue wakeup_cnt awoken = search write_rules
Steady-wakeup_loop (suc fuel) queue wakeup_cnt awoken =
    Steady-if _ _ _
      (Steady-bind-option _ _ _ (Steady-os_taskqueue_dequeue (wait_queue queue))
        (Steady-pure awoken)
        λ t. Steady-bind _ _ (Steady-wake os_ok t) λ _. Steady-wakeup_loop fuel queue _ true)
      (Steady-pure awoken)

Steady-keep_awake : (queue wakeup_cnt : ℕ) → Steady (keep_awake queue wakeup_cnt)
unfolding keep_awake
Steady-keep_awake queue wakeup_cnt = search write_rules depth 16

pub Steady-os_waitqueue_wakeup_sync :
    (fuel queue wakeup_cnt : ℕ) (sync : Bool)
    → Steady (os_waitqueue_wakeup_sync fuel queue wakeup_cnt sync)
unfolding os_waitqueue_wakeup_sync
Steady-os_waitqueue_wakeup_sync fuel queue wakeup_cnt sync =
    search (write_rules, Steady-keep_awake, Steady-wakeup_loop) depth 20

pub Steady-os_waitqueue_wait :
    (timeout_ticks timer : ℕ) → Steady (os_waitqueue_wait timeout_ticks timer)
unfolding os_waitqueue_wait
Steady-os_waitqueue_wait timeout_ticks timer = Steady-bind _ _ Steady-get λ k.
    Steady-bind _ _ (Steady-os_assert (k.isr_nesting == 0)) λ _.
      Steady-bind _ _ (Steady-os_assert (not (k.task_current == task_idle))) λ _.
        Steady-bind _ _ (Steady-os_assert (ltb 0 timeout_ticks)) λ _.
          Steady-bind _ _ (Steady-os_assert (is_empty (k.tasks k.task_current).mtx_list)) λ _.
            Steady-bind _ _ Steady-arch_critical_enter λ c.
              Steady-bind _ _ (Steady-modify unlock_quietly unlock_quietly-SameMtxs) λ _.
                Steady-option k.waitqueue_current _ _
                  (Steady-bind _ _ (Steady-arch_critical_exit c)
                    λ _. Steady-pure (k.tasks k.task_current).ret_value)
                  λ queue. Steady-suspend queue timeout_ticks timer c
