-- ===== src/System/Steady/Queues.antt =====
-- The functions of the task queues, of the scheduler and of the timers leave the mutexes alone.
use rados.Base.{ℕ, refl, List, arith, ◌-◌, ◌==◌}
use rados.Bitmask.{arch_bitmask_fls}
use rados.Kernel.{Kernel, TaskState, TaskBlock, Context}
use rados.Kernel.Run.{◌>>◌, modify, set_task}
use rados.TaskQueue.{
  enqueued, os_taskqueue_enqueue, removed, os_taskqueue_unlink, set_prio_current,
  os_taskqueue_reprio, os_taskqueue_intdequeue, os_taskqueue_dequeue, os_taskqueue_dequeue_prio,
  os_taskqueue_peek,
}
use rados.Sched.{
  set_state, os_task_makeready, set_waiting, os_task_makewait, arch_context_switch, set_running,
  switch_to, choose, os_schedule,
}
use rados.System.Steady.{
  SameMtxs, Steady, SteadyAt, Steady-at, SteadyAt-if, SteadyAt-option, SteadyAt-list, at_rules,
  steady_rules,
}

enqueued-SameMtxs : (q t : ℕ) (k : Kernel) → SameMtxs k (enqueued q t k)
unfolding enqueued
enqueued-SameMtxs q t k = record { mtxs = refl; lists = λ a. ground arith }

pub Steady-os_taskqueue_enqueue : (q t : ℕ) → Steady (os_taskqueue_enqueue q t)
unfolding os_taskqueue_enqueue
Steady-os_taskqueue_enqueue q t = search (at_rules, enqueued-SameMtxs)

removed-SameMtxs :
    (q prio : ℕ) (left : List ℕ) (t : ℕ) (k : Kernel) → SameMtxs k (removed q prio left t k)
unfolding removed
removed-SameMtxs q prio left t k = record { mtxs = refl; lists = λ a. ground arith }

pub Steady-os_taskqueue_unlink : (t : ℕ) → Steady (os_taskqueue_unlink t)
unfolding os_taskqueue_unlink
Steady-os_taskqueue_unlink t = Steady-at _ λ k.
    SteadyAt-option k (k.tasks t).task_queue _ _ (search at_rules)
      λ q. search (at_rules, removed-SameMtxs)

pub set_prio_current-SameMtxs : (t prio : ℕ) (k : Kernel) → SameMtxs k (set_prio_current t prio k)
unfolding set_prio_current
set_prio_current-SameMtxs t prio k = record { mtxs = refl; lists = λ a. ground arith }

ruleset link_rules = (
  steady_rules, Steady-os_taskqueue_enqueue, Steady-os_taskqueue_unlink, set_prio_current-SameMtxs,
)

moved-Steady :
    (t q prio : ℕ)
    → Steady (do os_taskqueue_unlink t; modify (set_prio_current t prio); os_taskqueue_enqueue q t)
moved-Steady t q prio = search link_rules

moved-SteadyAt :
    (k : Kernel) (t q prio : ℕ)
    → SteadyAt k
        ((do os_taskqueue_unlink t; modify (set_prio_current t prio); os_taskqueue_enqueue q t) k)
moved-SteadyAt k t q prio = record { leads = (moved-Steady t q prio).at k }

pub Steady-os_taskqueue_reprio : (t new_prio : ℕ) → Steady (os_taskqueue_reprio t new_prio)
unfolding os_taskqueue_reprio
Steady-os_taskqueue_reprio t new_prio = Steady-at _ λ k.
    SteadyAt-if k ((k.tasks t).prio_current == new_prio) _ _ (search at_rules) (
      SteadyAt-option k (k.tasks t).task_queue _ _ (search (at_rules, set_prio_current-SameMtxs))
        λ q. moved-SteadyAt k t q new_prio)

pub Steady-os_taskqueue_intdequeue : (q maxprio : ℕ) → Steady (os_taskqueue_intdequeue q maxprio)
unfolding os_taskqueue_intdequeue
Steady-os_taskqueue_intdequeue q maxprio = Steady-at _ λ k.
    SteadyAt-list k ((k.queues q).tasks maxprio) _ _ (search at_rules)
      λ t left. search (at_rules, removed-SameMtxs)

intdequeue-SteadyAt :
    (k : Kernel) (q maxprio : ℕ) → SteadyAt k (os_taskqueue_intdequeue q maxprio k)
intdequeue-SteadyAt k q maxprio = record { leads = (Steady-os_taskqueue_intdequeue q maxprio).at k }

pub Steady-os_taskqueue_dequeue : (q : ℕ) → Steady (os_taskqueue_dequeue q)
unfolding os_taskqueue_dequeue
Steady-os_taskqueue_dequeue q = search (at_rules, intdequeue-SteadyAt)

pub Steady-os_taskqueue_dequeue_prio : (q prio : ℕ) → Steady (os_taskqueue_dequeue_prio q prio)
unfolding os_taskqueue_dequeue_prio
Steady-os_taskqueue_dequeue_prio q prio = search (at_rules, intdequeue-SteadyAt)

pub Steady-os_taskqueue_peek : (q : ℕ) → Steady (os_taskqueue_peek q)
unfolding os_taskqueue_peek
Steady-os_taskqueue_peek q = Steady-at _ λ k.
    let maxprio = arch_bitmask_fls (k.queues q).mask in
    SteadyAt-if k (maxprio == 0) _ _ (search at_rules) (
      SteadyAt-list k ((k.queues q).tasks (maxprio - 1)) _ _ (search at_rules)
        λ t left. search at_rules)

-- The scheduler.
pub set_state-SameMtxs : (t : ℕ) (s : TaskState) (k : Kernel) → SameMtxs k (set_state t s k)
unfolding set_state
set_state-SameMtxs t s k = record { mtxs = refl; lists = λ a. ground arith }

pub set_running-SameMtxs : (k : Kernel) → SameMtxs k (set_running k)
unfolding set_running
set_running-SameMtxs k = record { mtxs = refl; lists = λ a. ground arith }

set_waiting-SameMtxs : (b : TaskBlock) (k : Kernel) → SameMtxs k (set_waiting b k)
unfolding set_waiting
set_waiting-SameMtxs b k = record { mtxs = refl; lists = λ a. ground arith }

current-SameMtxs : (t : ℕ) (k : Kernel) → SameMtxs k (record k { task_current = t })
current-SameMtxs t k = record { mtxs = refl; lists = λ a. refl }

left-SameMtxs :
    (t : ℕ) (ctx : Context) (k : Kernel)
    → SameMtxs k
        (record (set_task k.task_current (record (k.tasks k.task_current) { ctx = ctx }) k) {
          task_current = t;
        })
left-SameMtxs t ctx k = record { mtxs = refl; lists = λ a. ground arith }

pub Steady-arch_context_switch :
    {A : Type 0} (t : ℕ) (ctx : Context) → Steady (arch_context_switch {A = A} t ctx)
unfolding arch_context_switch
Steady-arch_context_switch t ctx = search (at_rules, left-SameMtxs)

ruleset run_rules = (
  steady_rules, Steady-os_taskqueue_enqueue, Steady-os_taskqueue_dequeue,
  Steady-os_taskqueue_dequeue_prio, Steady-arch_context_switch, set_state-SameMtxs,
  set_running-SameMtxs, set_waiting-SameMtxs, current-SameMtxs,
)

pub Steady-os_task_makeready : (t : ℕ) → Steady (os_task_makeready t)
unfolding os_task_makeready
Steady-os_task_makeready t = search run_rules

pub Steady-os_task_makewait : (q : ℕ) (b : TaskBlock) → Steady (os_task_makewait q b)
unfolding os_task_makewait
Steady-os_task_makewait q b = search run_rules

Steady-switch_to : (t : ℕ) (ctx : Context) → Steady (switch_to t ctx)
unfolding switch_to
Steady-switch_to t ctx = search (run_rules, Steady-os_task_makeready) depth 9

Steady-choose : (higher_prio : ℕ) (ctx : Context) → Steady (choose higher_prio ctx)
unfolding choose
Steady-choose higher_prio ctx = search (run_rules, Steady-switch_to)

pub Steady-os_schedule : (higher_prio : ℕ) (ctx : Context) → Steady (os_schedule higher_prio ctx)
unfolding os_schedule
Steady-os_schedule higher_prio ctx = search (run_rules, Steady-choose)
