-- ===== src/Examples/Owners.antt =====
-- A run from `os_init` to a task that holds a mutex.
use rados.Base.{ℕ, ◌≡◌, refl, inl, inr, some, arith}
use rados.Kernel.{Kernel}
use rados.Kernel.Run.{Outcome, ok, switched, halted, fault, M, pure}
use rados.TaskQueue.{
  os_taskqueue_init, os_taskqueue_enqueue, enqueued, removed, os_taskqueue_dequeue_prio,
  os_taskqueue_intdequeue, appended, without,
}
use rados.Bitmask.{arch_bitmask_fls, arch_bitmask_set, arch_bitmask_clear}
use rados.Sched.{
  set_state, os_schedule, choose, switch_to, os_task_makeready, arch_context_switch, set_running,
}
use rados.Sched.Lock.{os_init, os_task_init, os_start, schedule_section}
use rados.Tasks.{os_task_create, os_task_check_init, arch_task_init, resume, go_on}
use rados.Mtx.{os_mtx_create, os_mtx_lock, os_mtx_set_owner, set_mtx, set_mtx_list}
use rados.System.Step.{Step, MayOwn}
use rados.System.Steady.{Steady-pure}
use rados.System.Owners.{Owned}
use rados.System.Owners.Reach.{NoOwners, ReachFree, ReachFree-Owned}
use rados.Examples.Kernels.{unqueued, unqueued-IsBlank}

-- Where a piece of code leads.
abbrev after : {A : Type 0} → Outcome A → Kernel
after (ok a k) = k
after (switched k) = k
after (halted k) = k
after fault = unqueued

abbrev program : ℕ → ℕ → M (Unit {0})
program f p = pure tt

unqueued-NoOwners : NoOwners unqueued
unqueued-NoOwners = record { free = λ m. refl; no_mtx = λ t. ground arith }

abbrev created : Kernel
created = after (os_task_create 700 5 4 1000 200 800 900 (os_init unqueued))

abbrev started : Kernel
started = after (os_start created)

abbrev resumed : Kernel
resumed = after (resume 0 started)

abbrev made : Kernel
made = after (os_mtx_create 0 resumed)

abbrev held : Kernel
held = after (os_mtx_lock 0 0 made)

reached_created : ReachFree program created
unfolding os_init os_task_init os_task_create os_task_check_init arch_task_init os_taskqueue_enqueue
    enqueued os_taskqueue_init set_state os_schedule
reached_created =
    ReachFree.next (ReachFree.start unqueued unqueued-IsBlank unqueued-NoOwners)
      (Step.task_create 700 5 4 1000 200 800 900
        (record {
          in_task = refl;
          unprepared = refl;
          prio_small = omega arith;
          prio_pos = omega arith;
          stack_there = refl;
          stack_large = omega arith;
          unused = refl;
          not_current = refl;
        })
        (inl (tt, refl)))
      refl

reached_resumed : ReachFree program resumed
unfolding os_init os_task_init os_task_create os_task_check_init arch_task_init os_taskqueue_enqueue
    enqueued os_taskqueue_init set_state os_schedule os_start schedule_section choose switch_to
    os_task_makeready arch_context_switch set_running removed os_taskqueue_dequeue_prio
    os_taskqueue_intdequeue appended without arch_bitmask_fls arch_bitmask_set arch_bitmask_clear
    resume go_on
reached_resumed =
    ReachFree.next (ReachFree.next reached_created (Step.os_starts (inr refl)) tt)
      (Step.resumes 0 (inl (_, refl))) tt

reached_held : ReachFree program held
unfolding os_init os_task_init os_task_create os_task_check_init arch_task_init os_taskqueue_enqueue
    enqueued os_taskqueue_init set_state os_schedule os_start schedule_section choose switch_to
    os_task_makeready arch_context_switch set_running removed os_taskqueue_dequeue_prio
    os_taskqueue_intdequeue appended without arch_bitmask_fls arch_bitmask_set arch_bitmask_clear
    resume go_on os_mtx_create os_mtx_lock os_mtx_set_owner set_mtx set_mtx_list
reached_held =
    ReachFree.next
      (ReachFree.next reached_resumed (Step.mtx_create 0 (λ p. refl) (inl (tt, refl))) refl)
      (Step.mtx_lock 0 0 (record { in_task = refl; busy = refl; unprepared = refl })
        (MayOwn.free refl) (inl (_, refl)))
      tt

ReachFree-Owned_example : Owned held
ReachFree-Owned_example = ReachFree-Owned program (λ f p. Steady-pure tt) reached_held

-- The run ends with the mutex owned by task 5.
held-owner : (held.mtxs 0).owner ≡ some 5
unfolding os_init os_task_init os_task_create os_task_check_init arch_task_init os_taskqueue_enqueue
    enqueued os_taskqueue_init set_state os_schedule os_start schedule_section choose switch_to
    os_task_makeready arch_context_switch set_running removed os_taskqueue_dequeue_prio
    os_taskqueue_intdequeue appended without arch_bitmask_fls arch_bitmask_set arch_bitmask_clear
    resume go_on os_mtx_create os_mtx_lock os_mtx_set_owner set_mtx set_mtx_list
held-owner = refl
